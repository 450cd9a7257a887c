-- ===== src/Server/Pump/Rounds.antt =====
-- What one round of `pumpStream` does to the buffer: it shrinks, and bytes behind it do not matter.
use weft_warp_loop.Base.{
  ℕ, ◌+◌, ◌<◌, ◌≡◌, refl, inl, inr, Bool, true, false, Option, none, some, ◌++◌, arith, ◌==◌,
  if_both, Bool-cases, Bytes, equal, length, split_first, split_first-length, length-drop,
}
use weft_warp_loop.Wire.Zpb.{Zpb, parse_zpb_fields}
use weft_warp_loop.Wire.Units.{frame_len}
use weft_warp_loop.Ffi.{Ffi, sentinel}
use weft_warp_loop.Server.{Stream, Server, handle_sketch_sub, get_or_create_room}
use weft_warp_loop.Server.Pump.{
  Round, again, waits, refuses, dispatch, zone_header, header_line, header_round, sketch_round,
  payload_round, pump_round, sub_verb, pub_verb, skb_verb, zpb_verb,
}

-- More bytes at the end of a stream's buffer.
abbrev pub received : Stream → Bytes → Stream
received st more = record st { buf = st.buf ++ more }

module _ (ffi : Ffi) (s : Server ffi.State) (cnx stream : ℕ) where
  pub handle_sketch_sub-buf : (st : Stream) → (handle_sketch_sub ffi s cnx stream st).1.buf ≡ st.buf
  unfolding handle_sketch_sub
  handle_sketch_sub-buf st = elim (Bool-cases ((get_or_create_room ffi s st.topic).0 == sentinel)) [
    | inl full ↦ rw (full, handle_sketch_sub)
    | inr fits ↦ rw (fits, handle_sketch_sub)
  ]

  pub handle_sketch_sub-received :
      (st : Stream) (more : Bytes)
      → handle_sketch_sub ffi s cnx stream (received st more) ≡ (
        (handle_sketch_sub ffi s cnx stream st).0,
        received (handle_sketch_sub ffi s cnx stream st).1 more,
      )
  unfolding handle_sketch_sub
  handle_sketch_sub-received st more =
      elim (Bool-cases ((get_or_create_room ffi s st.topic).0 == sentinel)) [
        | inl full ↦ rw (full, handle_sketch_sub)
        | inr fits ↦ rw (fits, handle_sketch_sub)
      ]

module _ {C : Type 0} where
  -- A round that went on, or refused a line, leaves fewer than `n` bytes.
  abbrev pub Shrinks : ℕ → Round C → Type 0
  Shrinks n (again s st) = length st.buf < n
  Shrinks n waits = Unit
  Shrinks n (refuses s st) = length st.buf < n

module _ (ffi : Ffi) (s : Server ffi.State) (cnx stream : ℕ) where
  zone_header-Shrinks :
      (n : ℕ) (st : Stream) (r : Bool × Zpb)
      → length st.buf < n
      → Shrinks n (zone_header ffi s cnx stream st r)
  zone_header-Shrinks n st (true, z) h = h
  zone_header-Shrinks n st (false, z) h = h

  dispatch-Shrinks :
      (n : ℕ) (verb : Bytes) (st : Stream)
      → length st.buf < n
      → Shrinks n (dispatch ffi s cnx stream verb st)
  dispatch-Shrinks n verb st h =
      let joined = record st { is_sketch = true } in
      let skb : Shrinks n (
          again (handle_sketch_sub ffi s cnx stream joined).0
            (handle_sketch_sub ffi s cnx stream joined).1) =
        rw (handle_sketch_sub-buf ffi s cnx stream joined) h in
      if_both (Shrinks n) (equal verb sub_verb) _ _ h (
        if_both (Shrinks n) (equal verb pub_verb) _ _ h (
          if_both (Shrinks n) (equal verb skb_verb) _ _ skb (
            if_both (Shrinks n) (equal verb zpb_verb) _ _
              (zone_header-Shrinks n st (parse_zpb_fields st.topic st.zpb) h) h)))

  header_line-Shrinks :
      (n : ℕ) (st : Stream) (r : Option (Bytes × Bytes))
      → length st.buf < n
      → Shrinks n (header_line ffi s cnx stream st r)
  header_line-Shrinks n st none h = h
  header_line-Shrinks n st (some (verb, topic)) h = dispatch-Shrinks n verb _ h

  header_round-Shrinks :
      (st : Stream) (r : Option (Bytes × Bytes))
      → split_first b'\n' st.buf ≡ r
      → Shrinks (length st.buf) (header_round ffi s cnx stream st r)
  header_round-Shrinks st none e = tt
  header_round-Shrinks st (some (header, rest)) e =
      header_line-Shrinks (length st.buf) _ (split_first b' ' header)
        (split_first-length b'\n' st.buf e)

  sketch_round-Shrinks : (st : Stream) → Shrinks (length st.buf) (sketch_round ffi s cnx st)
  sketch_round-Shrinks st = ground (arith, length-drop (4 + frame_len st.buf) st.buf)

  payload_round-Shrinks :
      (st : Stream) (s' : Server ffi.State) → Shrinks (length st.buf) (payload_round ffi st s')
  payload_round-Shrinks st s' = ground (arith, length-drop 100 st.buf)

  -- No round takes nothing and goes on.
  pub pump_round-Shrinks :
      (rtt : ℕ) (st : Stream) → Shrinks (length st.buf) (pump_round ffi s cnx stream rtt st)
  unfolding pump_round
  pump_round-Shrinks rtt st =
      let P = Shrinks {C = ffi.State} (length st.buf) in
      if_both P st.header_parsed _ _
        (if_both P st.is_sketch _ _ (sketch_round-Shrinks st) (
          if_both P st.is_pub _ _ (payload_round-Shrinks st _)
            (if_both P st.is_zone_pub _ _ (payload_round-Shrinks st _) tt)))
        (header_round-Shrinks st (split_first b'\n' st.buf) refl)
