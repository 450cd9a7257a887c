-- ===== src/Server/Pump.antt =====
-- `pumpStream`: the loop that consumes a stream's buffer.
pub mod Rounds
pub mod Received
pub mod Chunks
use weft_warp_loop.Base.{
  ℕ, zero, suc, ◌+◌, ◌*◌, ◌^◌, ◌<◌, ◌≡◌, refl, Bool, true, false, Option, none, some, List, [], ◌∷◌,
  ◌++◌, arith, ltb, ◌==◌, if◌then◌else◌, get_or, Bytes, equal, length, take, drop, split_first,
}
use weft_warp_loop.Wire.Decimal.{codes}
use weft_warp_loop.Wire.Zpb.{Zpb, parse_zpb_fields}
use weft_warp_loop.Wire.Units.{frame_len}
use weft_warp_loop.Ffi.{Ffi}
use weft_warp_loop.Server.{
  Stream, Server, deliver_on, handle_sub, handle_sketch_sub, handle_sketch_frame, handle_pub,
  handle_zone_pub,
}

-- `kEntityPacketSize` and `kMaxSketchFrame`.
abbrev pub entity_packet_size : ℕ
entity_packet_size = 100

abbrev pub max_sketch_frame : ℕ
max_sketch_frame = 2 ^ 20

abbrev pub sub_verb : Bytes
sub_verb = codes "SUB"

abbrev pub pub_verb : Bytes
pub_verb = codes "PUB"

abbrev pub skb_verb : Bytes
skb_verb = codes "SKB"

abbrev pub zpb_verb : Bytes
zpb_verb = codes "ZPB"

-- One round of the loop: it goes on, or it returns with all as it was, or it returns after it has
-- taken a header line that it refuses.
pub data Round (C : Type 0) : Type 0 where
  again : Server C → Stream → Round C
  waits : Round C
  refuses : Server C → Stream → Round C

-- What holds of the server after the round, if the round changed it.
abbrev pub After : {C : Type 0} → (Server C → Type 0) → Round C → Type 0
After P (again s st) = P s
After P waits = Unit
After P (refuses s st) = P s

abbrev pub payload : Stream → Bytes
payload st = take entity_packet_size st.buf

module _ (ffi : Ffi) where
  abbrev pub zone_header : Server ffi.State → ℕ → ℕ → Stream → Bool × Zpb → Round ffi.State
  zone_header s cnx stream st (true, z) =
      again (deliver_on s cnx stream) (record st { zpb = z; is_zone_pub = true })
  zone_header s cnx stream st (false, z) = refuses s (record st { zpb = z })

  -- The verbs, on a stream whose topic is set and whose header counts as parsed.
  abbrev pub dispatch : Server ffi.State → ℕ → ℕ → Bytes → Stream → Round ffi.State
  dispatch s cnx stream verb st =
      if equal verb sub_verb
      then again (handle_sub ffi s cnx stream st.topic) (record st { is_pub = false })
      else if equal verb pub_verb
      then again s (record st { is_pub = true })
      else if equal verb skb_verb
      then (let (s', st') = handle_sketch_sub ffi s cnx stream (record st { is_sketch = true }) in
          again s' st')
      else if equal verb zpb_verb
      then zone_header s cnx stream st (parse_zpb_fields st.topic st.zpb)
      else refuses s st

  abbrev pub header_line :
      Server ffi.State → ℕ → ℕ → Stream → Option (Bytes × Bytes) → Round ffi.State
  header_line s cnx stream st none = refuses s st
  header_line s cnx stream st (some (verb, topic)) =
      dispatch s cnx stream verb (record st { topic = topic; header_parsed = true })

  abbrev pub header_round :
      Server ffi.State → ℕ → ℕ → Stream → Option (Bytes × Bytes) → Round ffi.State
  header_round s cnx stream st none = waits
  header_round s cnx stream st (some (header, rest)) =
      header_line s cnx stream (record st { buf = rest }) (split_first b' ' header)

  abbrev pub sketch_round : Server ffi.State → ℕ → Stream → Round ffi.State
  sketch_round s cnx st =
      let n = frame_len st.buf in
      if ltb (length st.buf) 4
      then waits
      else if ltb max_sketch_frame n
      then waits
      else if ltb (length st.buf) (4 + n)
      then waits
      else again (handle_sketch_frame ffi s cnx st (take n (drop 4 st.buf)))
          (record st { buf = drop (4 + n) st.buf })

  abbrev pub payload_round : Stream → Server ffi.State → Round ffi.State
  payload_round st s' =
      if ltb (length st.buf) entity_packet_size
      then waits
      else again s' (record st { buf = drop entity_packet_size st.buf; header_parsed = false })

  -- One round of the `for (;;)`.
  unfoldable pub pump_round : Server ffi.State → ℕ → ℕ → ℕ → Stream → Round ffi.State
  pump_round s cnx stream rtt st =
      if st.header_parsed
      then if st.is_sketch
        then sketch_round s cnx st
        else if st.is_pub
        then payload_round st (handle_pub ffi s cnx st.topic (payload st))
        else if st.is_zone_pub
        then payload_round st (handle_zone_pub ffi s cnx rtt st.zpb (payload st))
        else waits
      else header_round s cnx stream st (split_first b'\n' st.buf)

  -- What the loop does after a round: it goes on by `next`, or returns. The flag tells a return that
  -- refused a line from one that waits.
  abbrev pub settle :
      Server ffi.State
      → Stream
      → (Server ffi.State → Stream → Option (Bool × Server ffi.State × Stream))
      → Round ffi.State
      → Option (Bool × Server ffi.State × Stream)
  settle s st next (again s' st') = next s' st'
  settle s st next waits = some (false, s, st)
  settle s st next (refuses s' st') = some (true, s', st')

  -- The loop on fuel.
  unfoldable pub pump :
      ℕ → Server ffi.State → ℕ → ℕ → ℕ → Stream → Option (Bool × Server ffi.State × Stream)
  pump zero s cnx stream rtt st = none
  pump (suc f) s cnx stream rtt st =
      settle s st (λ s' st'. pump f s' cnx stream rtt st') (pump_round s cnx stream rtt st)

  -- Every round takes at least one byte, so a buffer's length and one is fuel enough.
  unfoldable pub pump_stream :
      Server ffi.State → ℕ → ℕ → ℕ → Stream → Bool × Server ffi.State × Stream
  pump_stream s cnx stream rtt st =
      get_or (pump (suc (length st.buf)) s cnx stream rtt st) (true, s, st)
