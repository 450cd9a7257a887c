-- ===== src/Load/Tests.antt =====
-- The load client on concrete players.
use weft_warp_loop.Load.Process.{run_worker_exit}
use weft_warp_loop.Base.{
  List, Bool, Option, ℕ, ◌≡◌, refl, true, false, none, some, ◌⊎◌, [], ◌∷◌, arith,
}
use weft_warp_loop.Wire.Decimal.{pos}
use weft_warp_loop.Server.Callback.{new_stream}
use weft_warp_loop.Server.Pump.{pump_stream}
use weft_warp_loop.Server.Tests.{test_ffi, start}
use weft_warp_loop.Load.Player.{
  client_callback, client_run, ready, almost_ready, close, stream_data,
}
use weft_warp_loop.Load.Publishing.{starting, bytes_of, published, Drained, client_callback-Drained}
use weft_warp_loop.Load.Ramp.{sustained, overflows, ramp, IsSustained, ramp_lem}
use weft_warp_loop.Load.Round.{Child, run_round}
use weft_warp_loop.Load.Stragglers.{RoundResult, run_round-RoundResult}
use weft_warp_loop.Base.{◌^◌, ◌-◌}
use weft_warp_loop.Load.Lifecycle.{Once, client_run-Once}

client_callback-Drained_example :
    Drained test_ffi 21 4 20000 (published test_ffi 21 4 20000 (pos 7) 2 start) (
      pump_stream test_ffi start 21 4 20000
        (record new_stream { buf = bytes_of (client_callback ready 21 (starting (pos 7) 2 9)).1 }))
client_callback-Drained_example =
    client_callback-Drained test_ffi 21 4 20000 (pos 7) 2 9 start (omega arith) (omega arith)

client_run-Once_example :
    Once
      (client_run (stream_data ∷ almost_ready ∷ ready ∷ close ∷ []) 21 (starting (pos 7) 2 9)).1
      (client_callback ready 21 (starting (pos 7) 2 9)).1
client_run-Once_example =
    client_run-Once 21 (pos 7) 2 9 (stream_data ∷ almost_ready ∷ ready ∷ close ∷ [])

-- Nobody fails.
abbrev all_well : ℕ → ℕ → ℕ
all_well round players = players

ramp_lem_example :
    (n : ℕ) × (ramp all_well 51 0 20 50 0 ≡ some (sustained n))
    × ((n ≡ 0) ⊎ IsSustained all_well 50 n)
ramp_lem_example = ramp_lem all_well 20 50 (omega arith) (omega arith)

-- A limit of all 31 bits: the doubling of 2^30 overflows.
ramp_overflows : ramp all_well 2 0 (2 ^ 30) (2 ^ 31 - 1) 0 ≡ some overflows
unfolding ramp
ramp_overflows = refl

-- The third process did not start; the second never exits.
abbrev started : List Bool
started = true ∷ true ∷ false ∷ []

abbrev two_sweeps : List (List (Option Bool))
two_sweeps = (none ∷ none ∷ none ∷ []) ∷ (some true ∷ none ∷ none ∷ []) ∷ []

run_round-RoundResult_example :
    (cs : List Child) × (n : ℕ) × (run_round (4433 ∷ 4434 ∷ []) started two_sweeps ≡ some (cs, n))
    × RoundResult started two_sweeps cs n
run_round-RoundResult_example = run_round-RoundResult 4433 (4434 ∷ []) started two_sweeps

one_success : run_worker_exit (some (some true)) ≡ some 0
unfolding run_worker_exit
one_success = refl
