-- ===== src/Server/Live.antt =====
-- No write goes to a stream that is gone. `Live` is the invariant of the table of delivery streams;
-- `Safe` is what every handler does under it.
pub mod Handlers
pub mod Pumping
pub mod Cleanup
pub mod Events
pub mod Writes
pub mod Closed
pub mod Publish
use weft_warp_loop.Base.{
  ℕ, ◌≡◌, ◌≢◌, refl, sym, ap, subst, ◌∙◌, inl, inr, Bool, true, false, Option, none, some, List, [],
  ◌∷◌, ◌++◌, append_assoc, append-nil, arith, ◌==◌, ==_iff, if◌then◌else◌, Bool-cases, is_some,
  get_or, Bytes, Dict, lookup, insert, nat_eq, lookup-insert, All, All-append,
}
use weft_warp_loop.Server.{Stream, Write, Server, deliver_on, relay}
use weft_warp_loop.Server.Relay.{with_sent, deliveries, deliveries-All, relay_lem}

-- The stream has an entry in the table of streams, so picoquic has not closed it.
abbrev pub has_stream : Dict ℕ (Dict ℕ Stream) → ℕ → ℕ → Bool
has_stream m cnx stream = is_some (lookup stream (get_or (lookup cnx m) []))

pub some_pair :
    {a b c d : ℕ} → ◌≡◌ {A = Option (ℕ × ℕ)} (some (a, b)) (some (c, d)) → (a ≡ c) × (b ≡ d)
some_pair e = ground arith

module _ {C : Type 0} where
  -- A connection's delivery stream is a stream of that connection, and is there.
  abbrev pub Live : Server C → Type 0
  Live s =
      (c a i : ℕ) → lookup c s.delivery ≡ some (a, i) → (a ≡ c) × (has_stream s.streams a i ≡ true)

  abbrev pub IsOpen : Server C → Write → Type 0
  IsOpen s w = has_stream s.streams w.cnx w.stream ≡ true

  -- The streams stay, the invariant is kept, and all that is written goes to streams that are there.
  pub record Safe (s s' : Server C) : Type 0 where
    pub live : Live s'
    pub same : s'.streams ≡ s.streams
    pub written : List Write
    pub sent_eq : s'.sent ≡ s.sent ++ written
    pub opened : All (IsOpen s) written

  pub Safe-refl : (s : Server C) → Live s → Safe s s
  Safe-refl s l = record {
    live = l;
    same = refl;
    written = [];
    sent_eq = sym (append-nil s.sent);
    opened = tt;
  }

  pub Safe-trans : {s t u : Server C} → Safe s t → Safe t u → Safe s u
  Safe-trans {s} {t} {u} a b = record {
    live = b.live;
    same = b.same ∙ a.same;
    written = a.written ++ b.written;
    sent_eq =
        b.sent_eq ∙ ap (λ l. l ++ b.written) a.sent_eq ∙ append_assoc s.sent a.written b.written;
    opened = All-append (IsOpen s) a.written b.written a.opened (
        subst (λ m. All (λ (w : Write). has_stream m w.cnx w.stream ≡ true) b.written) a.same
          b.opened);
  }

  -- A delivery stream is set to one that is there.
  deliver_on-Live :
      (s : Server C) (cnx stream : ℕ)
      → Live s
      → has_stream s.streams cnx stream ≡ true
      → Live (deliver_on s cnx stream)
  deliver_on-Live s cnx stream l h c a i e = elim (Bool-cases (cnx == c)) [
    | inl own ↦
        let (q, r) =
          some_pair (sym (lookup-insert cnx c (cnx, stream) s.delivery ∙ rw own refl) ∙ e) in
        (sym q ∙ (==_iff cnx c).0 own, rw (← q, ← r) h)
    | inr other ↦ l c a i (sym (lookup-insert cnx c (cnx, stream) s.delivery ∙ rw other refl) ∙ e)
  ]

  -- The kernels' state and the table of rooms have no part in it.
  pub quiet-Safe :
      (s s' : Server C) → Live s' → s'.streams ≡ s.streams → s'.sent ≡ s.sent → Safe s s'
  quiet-Safe s s' l m e = record {
    live = l;
    same = m;
    written = [];
    sent_eq = e ∙ sym (append-nil s.sent);
    opened = tt;
  }

  pub deliver_on-Safe :
      (s : Server C) (cnx stream : ℕ)
      → Live s
      → has_stream s.streams cnx stream ≡ true
      → Safe s (deliver_on s cnx stream)
  deliver_on-Safe s cnx stream l h =
      quiet-Safe s (deliver_on s cnx stream) (deliver_on-Live s cnx stream l h) refl refl

  -- Writes to streams that are there.
  pub with_sent-Safe :
      (s : Server C) (new : List Write) → Live s → All (IsOpen s) new → Safe s (with_sent s new)
  with_sent-Safe s new l o = record {
    live = l;
    same = refl;
    written = new;
    sent_eq = refl;
    opened = o;
  }

  pub relay-Safe :
      (s : Server C) (ts : List ℕ) (pieces : List Bytes) → Live s → Safe s (relay s ts pieces)
  relay-Safe s ts pieces l = rw relay_lem (
      with_sent-Safe s (deliveries s.delivery ts pieces) l (
        deliveries-All (λ cnx stream. has_stream s.streams cnx stream ≡ true) s.delivery ts pieces
          (every ts)))
    where
      every :
          (ts : List ℕ)
          → All
              (λ t.
                (cnx stream : ℕ)
                → lookup t s.delivery ≡ some (cnx, stream)
                → has_stream s.streams cnx stream ≡ true)
              ts
      every [] = tt
      every (t ∷ ts) = (λ cnx stream e. (l t cnx stream e).1, every ts)

  -- All that was written went to other connections.
  pub record Spared (s t : Server C) (cnx : ℕ) : Type 0 where
    pub written : List Write
    pub sent_eq : t.sent ≡ s.sent ++ written
    pub spared : All (λ (w : Write). w.cnx ≢ cnx) written

  pub Spared-refl : (s : Server C) (cnx : ℕ) → Spared s s cnx
  Spared-refl s cnx = record { written = []; sent_eq = sym (append-nil s.sent); spared = tt }

  pub Spared-trans : {s t u : Server C} {cnx : ℕ} → Spared s t cnx → Spared t u cnx → Spared s u cnx
  Spared-trans {s} {cnx = cnx} a b = record {
    written = a.written ++ b.written;
    sent_eq =
        b.sent_eq ∙ ap (λ l. l ++ b.written) a.sent_eq ∙ append_assoc s.sent a.written b.written;
    spared = All-append (λ (w : Write). w.cnx ≢ cnx) a.written b.written a.spared b.spared;
  }
