-- ===== src/Reactor/Playing.antt =====
-- How the loop of many players stands: what came, and, once it was left, every player accounted for
-- or the deadline passed.
use weft_warp_loop.Base.{
  ℕ, zero, suc, ◌+◌, ◌≡◌, refl, ap, ◌∙◌, Bool, true, false, ◌&&◌, ◌||◌, ◌⊎◌, inl, inr, some, List,
  [], ◌∷◌, ◌++◌, if◌then◌else◌, if_split, arith, length, sym, append_assoc, append-nil, Bytes,
}
use weft_warp_loop.Wire.Decimal.{ℤ}
use weft_warp_loop.Load.Player.{
  Player, PlayerState, connecting, publishing, done, failed, is_done, is_failed, ClientEvent,
}
use weft_warp_loop.Reactor.Engine.{
  Engine, Finite, Ran, DrainResult, all_sent, broke_off, drain-Drained,
}
use weft_warp_loop.Reactor.Players.{
  PlayerCall, Crowd, call_player, call_all, seated, all_settled, count_done, Pause, recv_failed,
  timed_out, received, Progress, still_running, left_loop, Playing, on_pause, drained_then,
  many_loop, entering, run_many_players,
}

abbrev pub count_failed : List Player → ℕ
count_failed [] = 0
count_failed (p ∷ ps) = if is_failed p.state then suc (count_failed ps) else count_failed ps

-- As many players as there were.
abbrev pub Has : ℕ → Crowd → Type 0
Has n c = length c.players ≡ n

call_player-length :
    (ps : List Player) (i : ℕ) (event : ClientEvent) (cnx : ℕ)
    → length (call_player ps i event cnx).0 ≡ length ps
unfolding call_player
call_player-length [] i event cnx = refl
call_player-length (p ∷ ps) zero event cnx = refl
call_player-length (p ∷ ps) (suc i) event cnx = ap suc (call_player-length ps i event cnx)

call_all-Has : (n : ℕ) (c : Crowd) (ks : List PlayerCall) → Has n c → Has n (call_all c ks)
unfolding call_all
call_all-Has n c [] h = h
call_all-Has n c (k ∷ ks) h =
    let (ps, ws) = call_player c.players k.player k.event k.cnx in
    call_all-Has n (record { players = ps; written = c.written ++ ws }) ks
      (call_player-length c.players k.player k.event k.cnx ∙ h)

seated-length : (to_id : ℕ → ℤ) (ticks : ℤ) (i n : ℕ) → length (seated to_id ticks i n) ≡ n
seated-length to_id ticks i zero = refl
seated-length to_id ticks i (suc n) = ap suc (seated-length to_id ticks (suc i) n)

-- Players that are all settled are done or failed, each one of the two.
all_settled-counts :
    (ps : List Player) → all_settled ps ≡ true → count_done ps + count_failed ps ≡ length ps
unfolding all_settled count_done
all_settled-counts [] h = refl
all_settled-counts (p ∷ ps) h = go p.state h (λ t. all_settled-counts ps t)
  where
    go :
        (s : PlayerState)
        → ((is_done s || is_failed s) && all_settled ps) ≡ true
        → (all_settled ps ≡ true → count_done ps + count_failed ps ≡ length ps)
        → (if is_done s then suc (count_done ps) else count_done ps)
            + (if is_failed s then suc (count_failed ps) else count_failed ps)
          ≡ suc (length ps)
    go connecting t ih = absurd (ground arith)
    go publishing t ih = absurd (ground arith)
    go done t ih = omega (arith, ih t)
    go failed t ih = omega (arith, ih t)

-- The datagrams that came in the rounds, in their order.
abbrev pub incoming_of : List (Bool × Pause) → List (ℕ × Bytes)
incoming_of [] = []
incoming_of ((late, recv_failed) ∷ rounds) = incoming_of rounds
incoming_of ((late, timed_out) ∷ rounds) = incoming_of rounds
incoming_of ((late, received peer bytes) ∷ rounds) = (peer, bytes) ∷ incoming_of rounds

-- Those of one more round.
abbrev one_more : Pause → List (ℕ × Bytes) → List (ℕ × Bytes)
one_more recv_failed ds = ds
one_more timed_out ds = ds
one_more (received peer bytes) ds = (peer, bytes) ∷ ds

one_more-incoming_of :
    (late : Bool) (pause : Pause) (rounds : List (Bool × Pause))
    → one_more pause (incoming_of rounds) ≡ incoming_of ((late, pause) ∷ rounds)
one_more-incoming_of late recv_failed rounds = refl
one_more-incoming_of late timed_out rounds = refl
one_more-incoming_of late (received peer bytes) rounds = refl

module _ (engine : Engine PlayerCall) (n : ℕ) where
  -- One read is outstanding, nobody is lost, and these datagrams came since.
  pub record Kept (l l' : Playing engine) (came : List (ℕ × Bytes)) : Type 0 where
    pub one_read : l'.outstanding ≡ 1
    pub all_there : length l'.app.players ≡ n
    pub all_handed : l'.handed ≡ l.handed ++ came

  -- How the loop stands after the rounds: it goes on after all of them; or it was left after some,
  -- past its deadline or with every player done or failed.
  pub data Ends (l : Playing engine) (rounds : List (Bool × Pause)) (p : Progress (Playing engine))
      : Type 0 where
    goes_on :
        (l' : Playing engine)
        → p ≡ still_running l'
        → Kept l l' (incoming_of rounds)
        → Ends l rounds p
    leaves :
        (late : Bool) (l' : Playing engine) (seen rest : List (Bool × Pause))
        → p ≡ left_loop late l'
        → rounds ≡ seen ++ rest
        → Kept l l' (incoming_of seen)
        → (late ≡ true) ⊎ (count_done l'.app.players + count_failed l'.app.players ≡ n)
        → Ends l rounds p

  settled :
      (late : Bool) (l : Playing engine)
      → Has n l.app
      → (all_settled l.app.players || late) ≡ true
      → (late ≡ true) ⊎ (count_done l.app.players + count_failed l.app.players ≡ n)
  settled true l h t = inl refl
  settled false l h t = inr (all_settled-counts l.app.players (ground (arith, t)) ∙ h)

  -- The pause after some sends, and what comes then.
  Kept-pause :
      (l m : Playing engine) (pause : Pause)
      → Has n l.app
      → m.outstanding ≡ 1
      → m.handed ≡ l.handed
      → Has n m.app
      → ((on_pause engine m pause).outstanding ≡ 1)
        × Has n (on_pause engine m pause).app
        × ((on_pause engine m pause).handed ≡ l.handed ++ one_more pause [])
  Kept-pause l m recv_failed k o e h = rw o (refl, h, e ∙ sym (append-nil l.handed))
  Kept-pause l m timed_out k o e h = (o, h, e ∙ sym (append-nil l.handed))
  Kept-pause l m (received peer bytes) k o e h = rw o (
    refl,
    call_all-Has n m.app (engine.incoming peer bytes m.quic).2 h,
    ap (λ d. d ++ ((peer, bytes) ∷ [])) e,
  )

  handed_then :
      (l m l' : Playing engine) (pause : Pause) (came : List (ℕ × Bytes))
      → m.handed ≡ l.handed ++ one_more pause []
      → l'.handed ≡ m.handed ++ came
      → l'.handed ≡ l.handed ++ one_more pause came
  handed_then l m l' recv_failed came e f = f ∙ ap (λ d. d ++ came) (e ∙ append-nil l.handed)
  handed_then l m l' timed_out came e f = f ∙ ap (λ d. d ++ came) (e ∙ append-nil l.handed)
  handed_then l m l' (received peer bytes) came e f =
      f ∙ ap (λ d. d ++ came) e ∙ append_assoc l.handed ((peer, bytes) ∷ []) came

  -- A round before others.
  Ends-cons :
      (l m : Playing engine) (late : Bool) (pause : Pause) (rounds : List (Bool × Pause))
      (p : Progress (Playing engine))
      → m.handed ≡ l.handed ++ one_more pause []
      → Ends m rounds p
      → Ends l ((late, pause) ∷ rounds) p
  Ends-cons l m late pause rounds p e (goes_on l' q k) = goes_on l' q (record {
    one_read = k.one_read;
    all_there = k.all_there;
    all_handed =
        handed_then l m l' pause (incoming_of rounds) e k.all_handed
        ∙ ap (λ d. l.handed ++ d) (one_more-incoming_of late pause rounds);
  })
  Ends-cons l m late pause rounds p e (leaves late' l' seen rest q split k s) =
      leaves late' l' ((late, pause) ∷ seen) rest q (ap (λ r. (late, pause) ∷ r) split)
        (record {
          one_read = k.one_read;
          all_there = k.all_there;
          all_handed =
              handed_then l m l' pause (incoming_of seen) e k.all_handed
              ∙ ap (λ d. l.handed ++ d) (one_more-incoming_of late pause seen);
        })
        s

  module _ (finite : Finite engine) where
    -- The sends, whatever becomes of them, and the rounds after them.
    sends-Ends :
        (l : Playing engine) (late : Bool) (pause : Pause) (rounds : List (Bool × Pause))
        (r : Ran (Playing engine)) (next : Playing engine → Progress (Playing engine))
        → l.outstanding ≡ 1
        → Has n l.app
        → DrainResult engine call_all false (Has n) l r
        → ((m : Playing engine) → m.outstanding ≡ 1 → Has n m.app → Ends m rounds (next m))
        → Ends l
            ((late, pause) ∷ rounds)
            (drained_then engine r (λ l'. next (on_pause engine l' pause)))
    sends-Ends l late pause rounds r next o h (all_sent l' e d) go =
        let m = on_pause engine l' pause in
        let (one, there, handed) =
          Kept-pause l l' pause h (d.outstanding_eq ∙ o) d.handed_eq d.kept in
        rw e (Ends-cons l m late pause rounds (next m) handed (go m one there))
    sends-Ends l late pause rounds r next o h (broke_off l' e w f d) go = absurd (ground arith)

    many_loop-Ends :
        (rounds : List (Bool × Pause)) (l : Playing engine)
        → l.outstanding ≡ 1
        → Has n l.app
        → Ends l rounds (many_loop engine finite.backlog rounds l)
    unfolding many_loop
    many_loop-Ends [] l o h =
        goes_on l refl
          (record { one_read = o; all_there = h; all_handed = sym (append-nil l.handed) })
    many_loop-Ends ((late, pause) ∷ rounds) l o h =
        if_split (Ends l ((late, pause) ∷ rounds)) (all_settled l.app.players || late) _ _
          (λ t.
            leaves late l [] ((late, pause) ∷ rounds) refl refl
              (record { one_read = o; all_there = h; all_handed = sym (append-nil l.handed) })
              (settled late l h t))
          (λ _.
            sends-Ends l late pause rounds _ (many_loop engine finite.backlog rounds) o h
              (drain-Drained engine call_all finite (Has n) (λ c ks k. call_all-Has n c ks k) false
                (suc (finite.backlog l.quic)) l h (omega arith))
              (λ m o' h'. many_loop-Ends rounds m o' h'))

module _ (engine : Engine PlayerCall) (finite : Finite engine) where
  -- Whatever the network answers, the loop of runManyPlayers stands in one of two ways after any
  -- rounds: no error of a read or of a send ends it. It goes on after all of them; or it was left
  -- after some, when its deadline had passed or when the players that are done and those that
  -- failed are together all. In both, one read is outstanding, no player is lost, and the
  -- datagrams of these rounds were handed to picoquic in the order they came. It assumes that
  -- picoquic has only so many datagrams ready at a time.
  pub run_many_players-Ends :
      (quic : engine.State) (to_id : ℕ → ℤ) (count : ℕ) (ticks : ℤ) (rounds : List (Bool × Pause))
      → (p : Progress (Playing engine)) × (run_many_players engine finite.backlog
            (some quic)
            to_id
            count
            ticks
            rounds
          ≡ some p)
        × Ends engine count (entering engine quic (seated to_id ticks 0 count)) rounds p
  unfolding run_many_players
  run_many_players-Ends quic to_id count ticks rounds = (
    many_loop engine finite.backlog rounds (entering engine quic (seated to_id ticks 0 count)),
    refl,
    many_loop-Ends engine count finite rounds (entering engine quic (seated to_id ticks 0 count))
        refl (seated-length to_id ticks 0 count),
  )
