-- ===== src/Reactor/Serve.antt =====
-- The loop of `fanoutServer` (picoquic_fanout_server.actor.cpp).
use weft_warp_loop.Base.{ℕ, suc, true, Option, none, some, List, [], ◌∷◌, Bytes}
use weft_warp_loop.Ffi.{Ffi}
use weft_warp_loop.Server.{Server}
use weft_warp_loop.Server.Callback.{Call, run}
use weft_warp_loop.Reactor.Engine.{
  Engine, Loop, Ran, ran, threw, starved, read_done, rearm, drain, take_datagram,
}

-- What ends the loop's wait: a read that failed, a datagram with a sender in IPv6 form, a datagram
-- in IPv4, or the timer.
pub data Wake : Type 0 where
  recv_error timer : Wake
  recv_v6 : Bytes → Wake
  recv_v4 : ℕ → Bytes → Wake

-- The `BridgeState` that the actor starts with, before any call, and the kernels' state.
abbrev pub bridge : {C : Type 0} → C → Server C
bridge core = record { topic_to_room = []; delivery = []; streams = []; core = core; sent = [] }

module _ (ffi : Ffi) (engine : Engine Call) where
  abbrev pub Serving : Type 0
  Serving = Loop engine.State (Server ffi.State)

  -- The `choose`.
  abbrev pub on_wake : Serving → Wake → Serving
  on_wake l recv_error = read_done l rearm
  on_wake l (recv_v6 bytes) = read_done l rearm
  on_wake l (recv_v4 peer bytes) =
      read_done l (λ m. rearm (take_datagram engine (run ffi) m peer bytes))
  on_wake l timer = l

  -- One round of the loop, which waits for its sends; `budget` is the fuel for them.
  abbrev pub serve_round : (engine.State → ℕ) → Serving → Wake → Ran Serving
  serve_round budget l wake =
      let l' = on_wake l wake in drain engine (run ffi) true (suc (budget l'.quic)) l'

  -- An exception ends the actor.
  abbrev pub and_then : Ran Serving → (Serving → Ran Serving) → Ran Serving
  and_then (ran l) next = next l
  and_then (threw l) next = threw l
  and_then starved next = starved

  unfoldable pub serve : (engine.State → ℕ) → List Wake → Serving → Ran Serving
  serve budget [] l = ran l
  serve budget (w ∷ wakes) l = and_then (serve_round budget l w) (serve budget wakes)

  -- The loop before its first round: the read is armed.
  abbrev pub starting : engine.State → ffi.State → Serving
  starting quic core = record {
    quic = quic;
    app = bridge core;
    outstanding = 1;
    handed = [];
    sent_out = [];
  }

  -- `fanoutServer`, over the wakes of its life; none for a context that could not be created.
  unfoldable pub fanout_server :
      (engine.State → ℕ) → Option engine.State → ffi.State → List Wake → Option (Ran Serving)
  fanout_server budget none core wakes = none
  fanout_server budget (some quic) core wakes = some (serve budget wakes (starting quic core))
