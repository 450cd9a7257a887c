-- ===== src/Reactor/Players.antt =====
-- The loops of `runManyPlayers` and `runOnePlayer` (fanout_load_client.actor.cpp).
use weft_warp_loop.Base.{
  ℕ, zero, suc, Bool, true, false, ◌&&◌, ◌||◌, Option, none, some, List, [], ◌∷◌, ◌++◌,
  if◌then◌else◌, Bytes,
}
use weft_warp_loop.Wire.Decimal.{ℤ}
use weft_warp_loop.Server.{Write}
use weft_warp_loop.Load.Player.{
  Player, connecting, is_done, is_failed, ClientEvent, client_callback,
}
use weft_warp_loop.Reactor.Engine.{
  Engine, Loop, Ran, ran, threw, starved, read_done, rearm, drain, take_datagram,
}

-- A call of the stream callback, for the player whose context it was set with.
pub record PlayerCall : Type 0 where
  pub event : ClientEvent
  pub cnx : ℕ
  pub player : ℕ

-- The players of a process, and what they gave picoquic to send.
pub record Crowd : Type 0 where
  pub players : List Player
  pub written : List Write

abbrev placed : Player × List Write → List Player × List Write → List Player × List Write
placed (p, ws) (ps, more) = (p ∷ ps, ws ++ more)

-- The callback on the player of an index.
unfoldable pub call_player : List Player → ℕ → ClientEvent → ℕ → List Player × List Write
call_player [] i event cnx = ([], [])
call_player (p ∷ ps) zero event cnx = placed (client_callback event cnx p) (ps, [])
call_player (p ∷ ps) (suc i) event cnx = placed (p, []) (call_player ps i event cnx)

unfoldable pub call_all : Crowd → List PlayerCall → Crowd
call_all c [] = c
call_all c (k ∷ ks) =
    let (ps, ws) = call_player c.players k.player k.event k.cnx in
    call_all (record { players = ps; written = c.written ++ ws }) ks

-- `players[i].playerId = i` and `ticksRemaining`, from player `i` on, whose ids `to_id` makes.
abbrev pub seated : (ℕ → ℤ) → ℤ → ℕ → ℕ → List Player
seated to_id ticks i zero = []
seated to_id ticks i (suc n) =
    record { player_id = to_id i; ticks_remaining = ticks; state = connecting; stream_id = 0 }
    ∷ seated to_id ticks (suc i) n

abbrev pub is_settled : Player → Bool
is_settled p = is_done p.state || is_failed p.state

-- The loop that sets `allDone`.
unfoldable pub all_settled : List Player → Bool
all_settled [] = true
all_settled (p ∷ ps) = is_settled p && all_settled ps

unfoldable pub count_done : List Player → ℕ
count_done [] = 0
count_done (p ∷ ps) = let n = count_done ps in if is_done p.state then suc n else n

-- What ends a wait of the clients' loops: they take a sender in IPv6 form too.
pub data Pause : Type 0 where
  recv_failed timed_out : Pause
  received : ℕ → Bytes → Pause

-- How the loop stands: it goes on, it left, or an error or sends without an end stopped it.
pub data Progress (L : Type 0) : Type 0 where
  still_running : L → Progress L
  left_loop : Bool → L → Progress L
  stuck : Progress L

module _ (engine : Engine PlayerCall) where
  abbrev pub Playing : Type 0
  Playing = Loop engine.State Crowd

  abbrev pub on_pause : Playing → Pause → Playing
  on_pause l recv_failed = read_done l rearm
  on_pause l timed_out = l
  on_pause l (received peer bytes) =
      read_done l (λ m. rearm (take_datagram engine call_all m peer bytes))

  -- The clients do not wait for a send itself, so that none of its errors is thrown.
  abbrev pub drained_then : Ran Playing → (Playing → Progress Playing) → Progress Playing
  drained_then (ran l) next = next l
  drained_then (threw l) next = stuck
  drained_then starved next = stuck

  -- The loop of `runManyPlayers`; each round is given whether the deadline had passed at its test,
  -- and what ended its wait. It sends before it waits.
  unfoldable pub many_loop : (engine.State → ℕ) → List (Bool × Pause) → Playing → Progress Playing
  many_loop budget [] l = still_running l
  many_loop budget ((late, pause) ∷ rounds) l =
      let rest =
        drained_then (drain engine call_all false (suc (budget l.quic)) l)
          (λ l'. many_loop budget rounds (on_pause l' pause)) in
      if all_settled l.app.players || late then left_loop late l else rest

  -- The loop of `runOnePlayer`, which waits before it sends.
  unfoldable pub one_loop : (engine.State → ℕ) → List (Bool × Pause) → Playing → Progress Playing
  one_loop budget [] l = still_running l
  one_loop budget ((late, pause) ∷ rounds) l =
      let m = on_pause l pause in
      let rest =
        drained_then (drain engine call_all false (suc (budget m.quic)) m)
          (one_loop budget rounds) in
      if all_settled l.app.players || late then left_loop late l else rest

  abbrev pub entering : engine.State → List Player → Playing
  entering quic players = record {
    quic = quic;
    app = record { players = players; written = [] };
    outstanding = 1;
    handed = [];
    sent_out = [];
  }

  -- `runManyPlayers`, to where its loop stands; none for a context that could not be created.
  unfoldable pub run_many_players :
      (engine.State → ℕ)
      → Option engine.State
      → (ℕ → ℤ)
      → ℕ
      → ℤ
      → List (Bool × Pause)
      → Option (Progress Playing)
  run_many_players budget none to_id count ticks rounds = none
  run_many_players budget (some quic) to_id count ticks rounds =
      some (many_loop budget rounds (entering quic (seated to_id ticks 0 count)))

  -- `runOnePlayer`, of which the context, the connection and its start can fail.
  unfoldable pub run_one_player :
      (engine.State → ℕ)
      → Option engine.State
      → ℤ
      → ℤ
      → List (Bool × Pause)
      → Option (Progress Playing)
  run_one_player budget none id ticks rounds = none
  run_one_player budget (some quic) id ticks rounds =
      some (one_loop budget rounds (entering quic (seated (λ _. id) ticks 0 1)))
