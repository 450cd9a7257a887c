-- ===== src/Server/Callback.antt =====
-- `fanoutStreamCallback`: what picoquic's stream events do to the server.
use weft_warp_loop.Base.{
  ℕ, false, Option, none, some, List, [], ◌∷◌, ◌++◌, get_or, Bytes, Dict, lookup, insert, erase,
  nat_eq,
}
use weft_warp_loop.Wire.Decimal.{pos}
use weft_warp_loop.Ffi.{Ffi}
use weft_warp_loop.Server.{Stream, Server, cleanup_stream}
use weft_warp_loop.Server.Pump.{pump_stream}

-- The events that the callback tells apart.
pub data Event : Type 0 where
  stream_data stream_fin stream_reset close application_close : Event
  other : Event

-- A default-constructed `StreamState`.
abbrev pub new_stream : Stream
new_stream = record {
  buf = [];
  header_parsed = false;
  is_pub = false;
  is_sketch = false;
  is_zone_pub = false;
  topic = [];
  room_id = 0;
  zpb = record { x = pos 0; y = pos 0; z = pos 0; vx = pos 0; vy = pos 0; vz = pos 0 };
}

module _ {C : Type 0} where
  -- `state->streams[cnx]`, and `state->streams[cnx][streamId]`.
  abbrev pub streams_of : Server C → ℕ → Dict ℕ Stream
  streams_of s cnx = get_or (lookup cnx s.streams) []

  abbrev pub stream_at : Server C → ℕ → ℕ → Stream
  stream_at s cnx stream = get_or (lookup stream (streams_of s cnx)) new_stream

  abbrev pub put_stream : Server C → ℕ → ℕ → Stream → Server C
  put_stream s cnx stream st = record s {
    streams = insert cnx (insert stream st (streams_of s cnx)) s.streams;
  }

  abbrev pub drop_stream : Server C → ℕ → ℕ → Server C
  drop_stream s cnx stream = record s {
    streams = insert cnx (erase stream (streams_of s cnx)) s.streams;
  }

-- One call of the callback.
pub record Call : Type 0 where
  pub event : Event
  pub cnx : ℕ
  pub stream : ℕ
  pub bytes : Bytes
  pub rtt : ℕ

module _ (ffi : Ffi) where
  -- New bytes are appended to the stream's buffer, which is made at its first event, and pumped.
  unfoldable pub on_data : Server ffi.State → ℕ → ℕ → Bytes → ℕ → Server ffi.State × Stream
  on_data s cnx stream bytes rtt =
      let old = stream_at s cnx stream in
      let st = record old { buf = old.buf ++ bytes } in
      let (_, s', st') = pump_stream ffi (put_stream s cnx stream st) cnx stream rtt st in
      (put_stream s' cnx stream st', st')

  abbrev pub on_fin : Server ffi.State × Stream → ℕ → ℕ → Server ffi.State
  on_fin (s, st) cnx stream = drop_stream (cleanup_stream ffi s cnx stream st) cnx stream

  abbrev pub on_reset : Server ffi.State → ℕ → ℕ → Option Stream → Server ffi.State
  on_reset s cnx stream none = s
  on_reset s cnx stream (some st) = drop_stream (cleanup_stream ffi s cnx stream st) cnx stream

  -- The loop over a connection's streams.
  unfoldable pub cleanup_all : Server ffi.State → ℕ → Dict ℕ Stream → Server ffi.State
  cleanup_all s cnx [] = s
  cleanup_all s cnx ((stream, st) ∷ rest) =
      cleanup_all (cleanup_stream ffi s cnx stream st) cnx rest

  abbrev pub on_close : Server ffi.State → ℕ → Option (Dict ℕ Stream) → Server ffi.State
  on_close s cnx none = s
  on_close s cnx (some streams) =
      let s' = cleanup_all s cnx streams in record s' { streams = erase cnx s'.streams }

  -- `bytes` and `length` of the event, and the connection's round-trip time when it comes.
  unfoldable pub callback : Event → Server ffi.State → ℕ → ℕ → Bytes → ℕ → Server ffi.State
  callback stream_data s cnx stream bytes rtt = (on_data s cnx stream bytes rtt).0
  callback stream_fin s cnx stream bytes rtt = on_fin (on_data s cnx stream bytes rtt) cnx stream
  callback stream_reset s cnx stream bytes rtt =
      on_reset s cnx stream (lookup stream (streams_of s cnx))
  callback close s cnx stream bytes rtt = on_close s cnx (lookup cnx s.streams)
  callback application_close s cnx stream bytes rtt = on_close s cnx (lookup cnx s.streams)
  callback other s cnx stream bytes rtt = s

  -- The calls picoquic makes, one after another.
  unfoldable pub run : Server ffi.State → List Call → Server ffi.State
  run s [] = s
  run s (c ∷ cs) = run (callback c.event s c.cnx c.stream c.bytes c.rtt) cs
