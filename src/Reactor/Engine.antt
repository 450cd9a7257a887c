-- ===== src/Reactor/Engine.antt =====
-- picoquic's context as an actor's loop uses it, and the loop that sends what is ready.
use weft_warp_loop.Base.{
  ◌+◌, ◌-◌, ◌==◌, true, if◌then◌else◌, if_split, subst, sym, ◌∙◌, ℕ, zero, suc, ◌<◌, ◌≡◌, refl, ap,
  Bool, List, [], ◌∷◌, ◌++◌, arith, Bytes,
}

-- `picoquic_prepare_next_packet`: an error, nothing to send, or a datagram for a peer.
pub data Prepared : Type 0 where
  prepare_failed idle : Prepared
  packet : ℕ → Bytes → Prepared

-- The future of `sendTo`, when it is ready: a count, a negative one, or an error.
pub data Sending : Type 0 where
  went negative send_error : Sending

-- `C` is a call of the stream callback. `incoming` is picoquic_incoming_packet: whether it
-- returns 0, and the calls it makes. `send` is what the socket answers then.
pub record Engine (C : Type 0) : Type 1 where
  pub State : Type 0
  pub incoming : ℕ → Bytes → State → Bool × State × List C
  pub prepare : State → Prepared × State × List C
  pub send : ℕ → Bytes → State → Sending

-- What the loops rely on to come back to their sockets: picoquic has only so many datagrams ready.
pub record Finite {C : Type 0} (engine : Engine C) : Type 0 where
  pub backlog : engine.State → ℕ
  pub decreases :
      (s : engine.State) (peer : ℕ) (bytes : Bytes)
      → (engine.prepare s).0 ≡ packet peer bytes
      → backlog (engine.prepare s).1 < backlog s

-- A loop's state: picoquic's context, what the callback works on, the reads that are outstanding,
-- the datagrams given to picoquic and the datagrams sent.
pub record Loop (Q A : Type 0) : Type 0 where
  pub quic : Q
  pub app : A
  pub outstanding : ℕ
  pub handed : List (ℕ × Bytes)
  pub sent_out : List (ℕ × Bytes)

-- How a loop stands: it goes on, an exception ended its actor, or it had too little fuel.
pub data Ran (L : Type 0) : Type 0 where
  ran threw : L → Ran L
  starved : Ran L

module _ {Q A : Type 0} where
  -- The read that is outstanding is over, if there is one; otherwise nothing can come.
  abbrev pub read_done : Loop Q A → (Loop Q A → Loop Q A) → Loop Q A
  read_done l next =
      if l.outstanding == 0 then l else next (record l { outstanding = l.outstanding - 1 })

  -- `recvF = socket->receiveFrom(...)`.
  abbrev pub rearm : Loop Q A → Loop Q A
  rearm l = record l { outstanding = l.outstanding + 1 }

-- `waits` says whether the loop waits for the send itself, so that its error is thrown there.
module _ {C A : Type 0} (engine : Engine C) (apply : A → List C → A) (waits : Bool) where
  abbrev pub after_send :
      Loop engine.State A
      → ℕ
      → Bytes
      → Sending
      → (Loop engine.State A → Ran (Loop engine.State A))
      → Ran (Loop engine.State A)
  after_send l peer bytes went next =
      next (record l { sent_out = l.sent_out ++ ((peer, bytes) ∷ []) })
  after_send l peer bytes negative next = next l
  after_send l peer bytes send_error next = let on = next l in if waits then threw l else on

  abbrev pub drain_on :
      Loop engine.State A
      → Prepared × engine.State × List C
      → (Loop engine.State A → Ran (Loop engine.State A))
      → Ran (Loop engine.State A)
  drain_on l (prepare_failed, q, calls) next = ran (record l { quic = q; app = apply l.app calls })
  drain_on l (idle, q, calls) next = ran (record l { quic = q; app = apply l.app calls })
  drain_on l (packet peer bytes, q, calls) next =
      after_send (record l { quic = q; app = apply l.app calls }) peer bytes
        (engine.send peer bytes q) next

  -- The inner loop, on fuel: packets are sent until there is none or preparing one fails.
  unfoldable pub drain : ℕ → Loop engine.State A → Ran (Loop engine.State A)
  drain zero l = starved
  drain (suc fuel) l = drain_on l (engine.prepare l.quic) (drain fuel)

module _ {C A : Type 0} (engine : Engine C) (apply : A → List C → A) where
  -- A datagram that came, which picoquic takes.
  abbrev pub take_datagram : Loop engine.State A → ℕ → Bytes → Loop engine.State A
  take_datagram l peer bytes =
      let (_, q, calls) = engine.incoming peer bytes l.quic in
      record l { quic = q; app = apply l.app calls; handed = l.handed ++ ((peer, bytes) ∷ []) }

  -- What the inner loop leaves alone, and an invariant of the callback that it keeps.
  pub record Drained (I : A → Type 0) (l l' : Loop engine.State A) : Type 0 where
    pub outstanding_eq : l'.outstanding ≡ l.outstanding
    pub handed_eq : l'.handed ≡ l.handed
    pub kept : I l'.app

  -- A send that ends with an error.
  abbrev pub Fails : Type 0
  Fails =
      (peer : ℕ) × (bytes : Bytes) × (q : engine.State) × (engine.send peer bytes q ≡ send_error)

  -- The loop came to its end, or an error of a send that it waited for was thrown.
  pub data DrainResult (waits : Bool) (I : A → Type 0) (l : Loop engine.State A)
      (r : Ran (Loop engine.State A)) : Type 0 where
    all_sent : (l' : Loop engine.State A) → r ≡ ran l' → Drained I l l' → DrainResult waits I l r
    broke_off :
        (l' : Loop engine.State A)
        → r ≡ threw l'
        → waits ≡ true
        → Fails
        → Drained I l l'
        → DrainResult waits I l r

module _ {C A : Type 0} (engine : Engine C) (apply : A → List C → A) (finite : Finite engine)
    (I : A → Type 0) (keeps : (a : A) (calls : List C) → I a → I (apply a calls))
    (waits : Bool) where
  abbrev Shorter : ℕ → Loop engine.State A → Prepared × engine.State × List C → Type 0
  Shorter fuel l (prepare_failed, q, calls) = Unit
  Shorter fuel l (idle, q, calls) = Unit
  Shorter fuel l (packet peer bytes, q, calls) = finite.backlog q < fuel

  abbrev Next : ℕ → Loop engine.State A → Type 0
  Next fuel l = DrainResult engine apply waits I l (drain engine apply waits fuel l)

  -- A result from a state that differs only in what was sent, and in what may.
  onwards :
      (l m : Loop engine.State A) (r : Ran (Loop engine.State A))
      → m.outstanding ≡ l.outstanding
      → m.handed ≡ l.handed
      → DrainResult engine apply waits I m r
      → DrainResult engine apply waits I l r
  onwards l m r o h (all_sent l' e d) =
      all_sent l' e (record {
        outstanding_eq = d.outstanding_eq ∙ o;
        handed_eq = d.handed_eq ∙ h;
        kept = d.kept;
      })
  onwards l m r o h (broke_off l' e w f d) =
      broke_off l' e w f (record {
        outstanding_eq = d.outstanding_eq ∙ o;
        handed_eq = d.handed_eq ∙ h;
        kept = d.kept;
      })

  after_send-Drained :
      (fuel : ℕ) (l m : Loop engine.State A) (peer : ℕ) (bytes : Bytes) (s : Sending)
      → engine.send peer bytes m.quic ≡ s
      → m.outstanding ≡ l.outstanding
      → m.handed ≡ l.handed
      → I m.app
      → ((n : Loop engine.State A) → n.quic ≡ m.quic → n.app ≡ m.app → Next fuel n)
      → DrainResult engine apply waits I l
          (after_send engine apply waits m peer bytes s (drain engine apply waits fuel))
  after_send-Drained fuel l m peer bytes went e o h i ih =
      let n = record m { sent_out = m.sent_out ++ ((peer, bytes) ∷ []) } in
      onwards l n (drain engine apply waits fuel n) o h (ih n refl refl)
  after_send-Drained fuel l m peer bytes negative e o h i ih =
      onwards l m (drain engine apply waits fuel m) o h (ih m refl refl)
  after_send-Drained fuel l m peer bytes send_error e o h i ih =
      if_split (DrainResult engine apply waits I l) waits _ _
        (λ w.
          broke_off m refl w (peer, bytes, m.quic, e)
            (record { outstanding_eq = o; handed_eq = h; kept = i }))
        (λ _. onwards l m (drain engine apply waits fuel m) o h (ih m refl refl))

  drain_on-Drained :
      (fuel : ℕ) (l : Loop engine.State A) (r : Prepared × engine.State × List C)
      → I l.app
      → Shorter fuel l r
      → ((l' : Loop engine.State A) → I l'.app → finite.backlog l'.quic < fuel → Next fuel l')
      → DrainResult engine apply waits I l
          (drain_on engine apply waits l r (drain engine apply waits fuel))
  drain_on-Drained fuel l (prepare_failed, q, calls) i s h =
      all_sent (record l { quic = q; app = apply l.app calls }) refl
        (record { outstanding_eq = refl; handed_eq = refl; kept = keeps l.app calls i })
  drain_on-Drained fuel l (idle, q, calls) i s h =
      all_sent (record l { quic = q; app = apply l.app calls }) refl
        (record { outstanding_eq = refl; handed_eq = refl; kept = keeps l.app calls i })
  drain_on-Drained fuel l (packet peer bytes, q, calls) i s h =
      let kept = keeps l.app calls i in
      after_send-Drained fuel l (record l { quic = q; app = apply l.app calls }) peer bytes
        (engine.send peer bytes q) refl refl refl kept
        (λ n same app.
          h n (subst I (sym app) kept)
            (subst (λ (q : engine.State). finite.backlog q < fuel) (sym same) s))

  shorter :
      (fuel : ℕ) (l : Loop engine.State A) (r : Prepared × engine.State × List C)
      → engine.prepare l.quic ≡ r
      → finite.backlog l.quic < suc fuel
      → Shorter fuel l r
  shorter fuel l (prepare_failed, q, calls) e b = tt
  shorter fuel l (idle, q, calls) e b = tt
  shorter fuel l (packet peer bytes, q, calls) e b =
      let d = rw e at (finite.decreases l.quic peer bytes (ap (λ t. t.0) e)) in omega (arith, d, b)

  -- The inner loop ends with fuel for one round more than picoquic has datagrams ready.
  pub drain-Drained :
      (fuel : ℕ) (l : Loop engine.State A)
      → I l.app
      → finite.backlog l.quic < fuel
      → DrainResult engine apply waits I l (drain engine apply waits fuel l)
  unfolding drain
  drain-Drained zero l i b = absurd (omega arith)
  drain-Drained (suc fuel) l i b =
      drain_on-Drained fuel l (engine.prepare l.quic) i
        (shorter fuel l (engine.prepare l.quic) refl b) (λ l' j c. drain-Drained fuel l' j c)
