-- ===== src/Http3/Loop.antt =====
-- The client's packet-loop callback: `send_authenticated_request`, `advance_state_machine` and
-- `client_loop_cb` of artifacts_mmo_h3_client.c.
use weft_warp_loop.Base.{
  ℕ, ◌+◌, Bool, true, false, not, ◌&&◌, ◌||◌, Option, none, some, List, [], ◌∷◌, ◌++◌,
  if◌then◌else◌, Bytes,
}
use weft_warp_loop.Http3.Request.{Encoders, build_authenticated_request}

-- The states of picoquic that the client asks for.
pub data CnxState : Type 0 where
  disconnected client_almost_ready ready client_ready_start other_state : CnxState

abbrev pub is_disconnected : CnxState → Bool
is_disconnected disconnected = true
is_disconnected _ = false

abbrev pub is_almost_ready : CnxState → Bool
is_almost_ready client_almost_ready = true
is_almost_ready _ = false

abbrev pub is_ready : CnxState → Bool
is_ready ready = true
is_ready client_ready_start = true
is_ready _ = false

-- What the vendored code answers during one call: whether the demo context saw the connection
-- close, picoquic's state, whether the demo callback has closed the stream, whether malloc gives
-- memory, and whether picoquic_add_to_stream_with_ctx returns 0.
pub record Answers : Type 0 where
  pub connection_closed : Bool
  pub cnx_state : CnxState
  pub stream_closed : Bool
  pub has_memory : Bool
  pub queued : Bool

-- `client_loop_ctx_t`. `my_stream` is none for NULL, and else the stream's `is_open`.
pub record LoopCtx : Type 0 where
  pub my_stream : Option Bool
  pub notified_ready : Bool
  pub request_sent : Bool
  pub close_requested : Bool
  pub open_streams : ℕ
  pub method : Bytes
  pub path : Bytes
  pub sni : Option Bytes
  pub bearer_token : Option Bytes
  pub body : Option Bytes

-- What the client asks of picoquic.
pub data Action : Type 0 where
  send_request : Bytes → Action
  close_cnx : Action

-- The return codes of the callback, as far as the loop tells them apart.
pub data Verdict : Type 0 where
  proceed terminate unexpected_error : Verdict

abbrev buffer_size : ℕ
buffer_size = 4096

-- The stream as the demo callback left it.
abbrev pub seen : Answers → LoopCtx → LoopCtx
seen a lc = record lc { my_stream = still lc.my_stream }
  where
    still : Option Bool → Option Bool
    still none = none
    still (some open_now) = some (if a.stream_closed then false else open_now)

abbrev pub queue_request : Answers → LoopCtx → Option Bytes → Bool × LoopCtx × List Action
queue_request a lc none = (false, lc, [])
queue_request a lc (some bytes) =
    if a.has_memory
    then (
      a.queued,
      record lc { my_stream = some true; open_streams = lc.open_streams + 1 },
      send_request bytes ∷ [],
    )
    else (false, lc, [])

-- `send_authenticated_request`; the flag tells a return of 0.
unfoldable pub send_authenticated_request :
    Encoders → Answers → LoopCtx → Bool × LoopCtx × List Action
send_authenticated_request e a lc =
    queue_request a lc
      (build_authenticated_request e buffer_size lc.method lc.path lc.sni lc.bearer_token lc.body)

abbrev pub after_send : Bool × LoopCtx × List Action → Verdict × LoopCtx × List Action
after_send (ok, lc, acts) = (if ok then proceed else terminate, lc, acts)

-- `lc->my_stream != NULL && !lc->my_stream->is_open`
abbrev pub is_finished : Option Bool → Bool
is_finished none = false
is_finished (some open_now) = not open_now

abbrev pub advance_open : Encoders → Answers → LoopCtx → Verdict × LoopCtx × List Action
advance_open e a lc =
    if not lc.notified_ready && is_almost_ready a.cnx_state
    then (proceed, record lc { notified_ready = true }, [])
    else if not lc.request_sent && is_ready a.cnx_state
    then after_send (send_authenticated_request e a (record lc { request_sent = true }))
    else if lc.request_sent && not lc.close_requested && is_finished lc.my_stream
    then (proceed, record lc { close_requested = true }, close_cnx ∷ [])
    else (proceed, lc, [])

-- `advance_state_machine`.
unfoldable pub advance_state_machine :
    Encoders → Answers → LoopCtx → Verdict × LoopCtx × List Action
advance_state_machine e a lc =
    if a.connection_closed || is_disconnected a.cnx_state
    then (terminate, lc, [])
    else advance_open e a (seen a lc)

pub data LoopMode : Type 0 where
  loop_ready after_receive after_send_mode time_check other_mode : LoopMode

-- `client_loop_cb`; the context is none for NULL.
unfoldable pub client_loop_cb :
    Encoders → Answers → LoopMode → Option LoopCtx → Verdict × Option LoopCtx × List Action
client_loop_cb e a mode none = (unexpected_error, none, [])
client_loop_cb e a after_receive (some lc) =
    (let (v, lc', acts) = advance_state_machine e a lc in (v, some lc', acts))
client_loop_cb e a after_send_mode (some lc) =
    (let (v, lc', acts) = advance_state_machine e a lc in (v, some lc', acts))
client_loop_cb e a time_check (some lc) =
    (let (v, lc', acts) = advance_state_machine e a lc in (v, some lc', acts))
client_loop_cb e a loop_ready (some lc) = (proceed, some lc, [])
client_loop_cb e a other_mode (some lc) = (proceed, some lc, [])

abbrev pub loop_on :
    Verdict × LoopCtx × List Action → (LoopCtx → LoopCtx × List Action) → LoopCtx × List Action
loop_on (proceed, lc, acts) next = let (lc', more) = next lc in (lc', acts ++ more)
loop_on (terminate, lc, acts) next = (lc, acts)
loop_on (unexpected_error, lc, acts) next = (lc, acts)

-- The checks of a whole packet loop, which ends at the first that does not proceed.
unfoldable pub loop_run : Encoders → List Answers → LoopCtx → LoopCtx × List Action
loop_run e [] lc = (lc, [])
loop_run e (a ∷ answers) lc = loop_on (advance_state_machine e a lc) (λ lc'. loop_run e answers lc')
