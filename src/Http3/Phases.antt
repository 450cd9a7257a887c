-- ===== src/Http3/Phases.antt =====
-- What the client asks of picoquic over a whole packet loop, in which order.
use weft_warp_loop.Base.{◌≡◌, Bool, true, false, not, ◌&&◌, none, List, [], ◌∷◌, ◌++◌, Bytes}
use weft_warp_loop.Http3.Request.{Encoders}
use weft_warp_loop.Http3.Loop.{
  Answers, LoopCtx, Action, send_request, close_cnx, Verdict, is_finished, is_ready,
  is_almost_ready,
}

-- What was asked for so far, by the flags: nothing; nothing, since the request could not be sent;
-- the request; the request and then the close.
pub data Phase : LoopCtx → List Action → Type 0 where
  idle :
      {lc : LoopCtx}
      → lc.my_stream ≡ none
      → lc.request_sent ≡ false
      → lc.close_requested ≡ false
      → Phase lc []
  unsent :
      {lc : LoopCtx}
      → lc.my_stream ≡ none
      → lc.request_sent ≡ true
      → lc.close_requested ≡ false
      → Phase lc []
  waiting :
      {lc : LoopCtx} (bytes : Bytes)
      → lc.request_sent ≡ true
      → lc.close_requested ≡ false
      → Phase lc (send_request bytes ∷ [])
  closing :
      {lc : LoopCtx} (bytes : Bytes)
      → lc.request_sent ≡ true
      → lc.close_requested ≡ true
      → Phase lc (send_request bytes ∷ close_cnx ∷ [])

-- After a step, with what it asked for put behind what was asked for before.
abbrev Stepped : List Action → Verdict × LoopCtx × List Action → Type 0
Stepped acts (v, lc, new) = Phase lc (acts ++ new)

module _ (e : Encoders) (a : Answers) (lc : LoopCtx) where
  abbrev hears : Bool
  hears = not lc.notified_ready && is_almost_ready a.cnx_state

  abbrev greets : Bool
  greets = not lc.request_sent && is_ready a.cnx_state

  abbrev asks : Bool
  asks = lc.request_sent && not lc.close_requested && is_finished lc.my_stream

-- The whole loop, with what was asked for before it.
abbrev Ran : List Action → LoopCtx × List Action → Type 0
Ran acts (lc, new) = Phase lc (acts ++ new)
