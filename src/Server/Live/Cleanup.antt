-- ===== src/Server/Live/Cleanup.antt =====
-- `cleanupStream` under the invariant of delivery streams.
use weft_warp_loop.Base.{
  ℕ, ◌≡◌, ◌≢◌, refl, sym, ap, ◌∙◌, inl, inr, Bool, true, false, not, ◌&&◌, Option, none, some, [],
  ◌∷◌, arith, ◌==◌, if◌then◌else◌, if_both, Bool-cases, Dict, lookup, erase, nat_eq, bytes_eq,
  lookup-erase_eq, lookup-erase_ne,
}
use weft_warp_loop.Ffi.{Ffi}
use weft_warp_loop.Server.{Stream, Server, forget, leave, cleanup_stream}
use weft_warp_loop.Server.Callback.{cleanup_all}
use weft_warp_loop.Server.Live.{Live, some_pair}

-- A delivery entry of `t` stood in `s` too, and names another stream than the one that ended.
abbrev pub Kept : {C : Type 0} → Server C → Server C → ℕ → ℕ → Type 0
Kept s t cnx stream =
    (c a i : ℕ)
    → lookup c t.delivery ≡ some (a, i)
    → (lookup c s.delivery ≡ some (a, i)) × (c ≡ cnx → i ≢ stream)

-- The tables and what was sent are the same.
pub record Same {C : Type 0} (s t : Server C) : Type 0 where
  pub delivery_eq : t.delivery ≡ s.delivery
  pub streams_eq : t.streams ≡ s.streams
  pub sent_eq : t.sent ≡ s.sent

module _ (ffi : Ffi) (s : Server ffi.State) (cnx stream : ℕ) where
  forget-Kept :
      (r : Option (ℕ × ℕ))
      → Live s
      → lookup cnx s.delivery ≡ r
      → Kept s (forget ffi s cnx stream r) cnx stream
  forget-Kept none l e c a i f = (f, λ same this. cc (ap (λ k. lookup k s.delivery) same))
  forget-Kept (some (b, j)) l e c a i f = go (b == cnx && j == stream) refl f
    where
      go :
          (test : Bool)
          → (b == cnx && j == stream) ≡ test
          → lookup c (if test then record s { delivery = erase cnx s.delivery } else s).delivery
            ≡ some (a, i)
          → (lookup c s.delivery ≡ some (a, i)) × (c ≡ cnx → i ≢ stream)
      go true t g = elim (Bool-cases (cnx == c)) [
        | inl own ↦ cc (lookup-erase_eq cnx c s.delivery own)
        | inr apart ↦ (
          sym (lookup-erase_ne cnx c s.delivery apart) ∙ g,
          λ same. absurd (ground (arith, apart)),
        )
      ]
      go false t g = (
        g,
        λ same this.
            ground (
              arith,
              l cnx b j e,
              some_pair (sym e ∙ ap (λ k. lookup k s.delivery) (sym same) ∙ g),
            ),
      )

  forget-streams : (r : Option (ℕ × ℕ)) → (forget ffi s cnx stream r).streams ≡ s.streams
  forget-streams none = refl
  forget-streams (some (b, j)) =
      if_both (λ (t : Server ffi.State). t.streams ≡ s.streams) (b == cnx && j == stream) _ _ refl
        refl

  forget-sent : (r : Option (ℕ × ℕ)) → (forget ffi s cnx stream r).sent ≡ s.sent
  forget-sent none = refl
  forget-sent (some (b, j)) =
      if_both (λ (t : Server ffi.State). t.sent ≡ s.sent) (b == cnx && j == stream) _ _ refl refl

  leave-Same : (t : Server ffi.State) (r : Option ℕ) → Same t (leave ffi t cnx r)
  leave-Same t none = record { delivery_eq = refl; streams_eq = refl; sent_eq = refl }
  leave-Same t (some room) = record { delivery_eq = refl; streams_eq = refl; sent_eq = refl }

  -- Apart from the kernels' state, cleaning up a stream is forgetting it.
  cleanup_stream-Same :
      (st : Stream)
      → Same (forget ffi s cnx stream (lookup cnx s.delivery)) (cleanup_stream ffi s cnx stream st)
  unfolding cleanup_stream
  cleanup_stream-Same st =
      let t = forget ffi s cnx stream (lookup cnx s.delivery) in
      let q : Same t t = record { delivery_eq = refl; streams_eq = refl; sent_eq = refl } in
      if_both (Same t) st.is_zone_pub _ _
        (record { delivery_eq = refl; streams_eq = refl; sent_eq = refl })
        (if_both (Same t) (st.header_parsed && not st.is_pub) _ _
          (leave-Same t (lookup st.topic t.topic_to_room)) q)

  pub cleanup_stream-Kept :
      (st : Stream) → Live s → Kept s (cleanup_stream ffi s cnx stream st) cnx stream
  cleanup_stream-Kept st l c a i e =
      forget-Kept (lookup cnx s.delivery) l refl c a i
        (rw (← (cleanup_stream-Same st).delivery_eq) e)

  pub cleanup_stream-streams :
      (st : Stream) → (cleanup_stream ffi s cnx stream st).streams ≡ s.streams
  cleanup_stream-streams st =
      (cleanup_stream-Same st).streams_eq ∙ forget-streams (lookup cnx s.delivery)

  pub cleanup_stream-sent : (st : Stream) → (cleanup_stream ffi s cnx stream st).sent ≡ s.sent
  cleanup_stream-sent st = (cleanup_stream-Same st).sent_eq ∙ forget-sent (lookup cnx s.delivery)

-- What is left once every stream of a list has been cleaned up.
pub record Cleaned {C : Type 0} (s t : Server C) (cnx : ℕ) (m : Dict ℕ Stream) : Type 0 where
  pub streams_eq : t.streams ≡ s.streams
  pub sent_eq : t.sent ≡ s.sent
  pub kept :
      (c a i : ℕ)
      → lookup c t.delivery ≡ some (a, i)
      → (lookup c s.delivery ≡ some (a, i)) × (c ≡ cnx → lookup i m ≡ none)

module _ (ffi : Ffi) (cnx : ℕ) where
  cleanup_stream-Live :
      (s : Server ffi.State) (stream : ℕ) (st : Stream)
      → Live s
      → Live (cleanup_stream ffi s cnx stream st)
  cleanup_stream-Live s stream st l c a i e =
      rw (cleanup_stream-streams ffi s cnx stream st)
        (l c a i (cleanup_stream-Kept ffi s cnx stream st l c a i e).0)

  pub cleanup_all-Cleaned :
      (s : Server ffi.State) (m : Dict ℕ Stream)
      → Live s
      → Cleaned s (cleanup_all ffi s cnx m) cnx m
  unfolding cleanup_all lookup
  cleanup_all-Cleaned s [] l = record {
    streams_eq = refl;
    sent_eq = refl;
    kept = λ c a i e. (e, λ same. refl);
  }
  cleanup_all-Cleaned s ((k, st) ∷ rest) l =
      let t = cleanup_stream ffi s cnx k st in
      let r = cleanup_all-Cleaned t rest (cleanup_stream-Live s k st l) in
      record {
        streams_eq = r.streams_eq ∙ cleanup_stream-streams ffi s cnx k st;
        sent_eq = r.sent_eq ∙ cleanup_stream-sent ffi s cnx k st;
        kept = λ c a i e.
            let (was, gone) = r.kept c a i e in
            let (before, apart) = cleanup_stream-Kept ffi s cnx k st l c a i was in
            (before, λ same. ground (arith, gone same, apart same));
      }
