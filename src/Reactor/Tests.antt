-- ===== src/Reactor/Tests.antt =====
-- The loops around a small stand-in for picoquic.
use weft_warp_loop.Base.{
  ℕ, length, ◌<◌, ◌≡◌, true, some, List, [], ◌∷◌, ◌++◌, arith, Bytes, if◌then◌else◌, ◌==◌, Bool,
  false,
}
use weft_warp_loop.Wire.Decimal.{codes, pos}
use weft_warp_loop.Load.Player.{ready}
use weft_warp_loop.Reactor.Players.{
  PlayerCall, Pause, recv_failed, timed_out, received, Progress, Playing, seated, entering,
  run_many_players,
}
use weft_warp_loop.Reactor.Playing.{Ends, run_many_players-Ends}
use weft_warp_loop.Core.SlotMap.{empty}
use weft_warp_loop.Server.Callback.{Call, stream_data}
use weft_warp_loop.Server.Tests.{test_ffi}
use weft_warp_loop.Reactor.Engine.{
  Engine, Finite, Prepared, idle, packet, Sending, went, send_error, Ran,
}
use weft_warp_loop.Reactor.Serve.{
  Wake, recv_error, recv_v6, recv_v4, timer, starting, fanout_server, Serving,
}
use weft_warp_loop.Reactor.Serving.{ServeResult, fanout_server-Served}

abbrev answer : {C : Type 0} → List (ℕ × Bytes) → Prepared × List (ℕ × Bytes) × List C
answer [] = (idle, [], [])
answer ((peer, bytes) ∷ rest) = (packet peer bytes, rest, [])

-- The socket refuses to send to one peer.
abbrev answers_to : ℕ → Sending
answers_to peer = if peer == 22 then send_error else went

-- Every datagram is a call of the callback, and is answered by one datagram.
abbrev echo : {C : Type 0} → (ℕ → Bytes → C) → Engine C
echo {C = C} to_call = record {
  State = List (ℕ × Bytes);
  incoming = λ peer bytes s. (true, s ++ ((peer, bytes) ∷ []), to_call peer bytes ∷ []);
  prepare = λ s. answer {C = C} s;
  send = λ peer bytes s. answers_to peer;
}

answer-length :
    (C : Type 0) (s : List (ℕ × Bytes)) (peer : ℕ) (bytes : Bytes)
    → (answer {C = C} s).0 ≡ packet peer bytes
    → length (answer {C = C} s).1 < length s
answer-length C [] peer bytes e = absurd (ground arith)
answer-length C ((p, b) ∷ rest) peer bytes e = omega arith

abbrev echo_Finite : {C : Type 0} (to_call : ℕ → Bytes → C) → Finite (echo to_call)
echo_Finite {C = C} to_call = record {
  backlog = λ s. length s;
  decreases = λ s peer bytes e. answer-length C s peer bytes e;
}

abbrev to_server : ℕ → Bytes → Call
to_server peer bytes = record {
  event = stream_data;
  cnx = peer;
  stream = 0;
  bytes = bytes;
  rtt = 20000;
}

abbrev wakes : List Wake
wakes =
    recv_v4 21 (codes "SUB lobby\n")
    ∷ recv_error
    ∷ recv_v6 (codes "x")
    ∷ timer
    ∷ recv_v4 22 (codes "SUB lo")
    ∷ []

fanout_server-Served_example :
    (r : Ran (Serving test_ffi (echo to_server))) × (fanout_server test_ffi
        (echo to_server)
        (λ s. length s)
        (some [])
        (record { rooms = empty 4; world = []; board = [] })
        wakes
      ≡ some r)
    × ServeResult test_ffi
        (echo to_server)
        (echo_Finite to_server)
        (starting test_ffi (echo to_server) [] (record { rooms = empty 4; world = []; board = [] }))
        wakes
        r
fanout_server-Served_example =
    fanout_server-Served test_ffi (echo to_server) (echo_Finite to_server) []
      (record { rooms = empty 4; world = []; board = [] }) wakes

abbrev to_player : ℕ → Bytes → PlayerCall
to_player peer bytes = record { event = ready; cnx = peer; player = peer }

abbrev pauses : List (Bool × Pause)
pauses =
    (false, received 0 [])
    ∷ (false, recv_failed)
    ∷ (false, received 22 [])
    ∷ (false, received 1 [])
    ∷ (false, timed_out)
    ∷ []

run_many_players-Ends_example :
    (p : Progress (Playing (echo to_player))) × (run_many_players
        (echo to_player)
        (λ s. length s)
        (some [])
        pos
        2
        (pos 3)
        pauses
      ≡ some p)
    × Ends (echo to_player) 2 (entering (echo to_player) [] (seated pos (pos 3) 0 2)) pauses p
run_many_players-Ends_example =
    run_many_players-Ends (echo to_player) (echo_Finite to_player) [] pos 2 (pos 3) pauses
