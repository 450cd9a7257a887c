-- ===== src/Server/Pump/Received.antt =====
-- A round does the same with more bytes behind the buffer.
use weft_warp_loop.Base.{
  ℕ, ◌+◌, ◌≡◌, refl, ap, inl, inr, Bool, true, false, Option, none, some, ◌++◌, arith, ltb,
  if_both₂, Bool-cases, Bytes, equal, length, take, drop, split_first, split_first-append,
  length-drop, length-append, take-append, drop-append,
}
use weft_warp_loop.Wire.Zpb.{Zpb, parse_zpb_fields}
use weft_warp_loop.Wire.Units.{frame_len, frame_len-append}
use weft_warp_loop.Ffi.{Ffi}
use weft_warp_loop.Server.{Stream, Server, handle_sketch_frame, handle_pub, handle_zone_pub}
use weft_warp_loop.Server.Pump.{
  Round, again, waits, refuses, dispatch, zone_header, header_line, header_round, sketch_round,
  payload_round, pump_round, sub_verb, pub_verb, skb_verb, zpb_verb, entity_packet_size, payload,
}
use weft_warp_loop.Server.Pump.Rounds.{received, handle_sketch_sub-received}

module _ {C : Type 0} where
  -- The second round does what the first does, with `more` left behind its buffer.
  abbrev pub Extends : Bytes → Round C → Round C → Type 0
  Extends more (again s st) r = r ≡ again s (received st more)
  Extends more waits r = Unit
  Extends more (refuses s st) r = r ≡ refuses s (received st more)

module _ (ffi : Ffi) (s : Server ffi.State) (cnx stream : ℕ) (more : Bytes) where
  zone_header-Extends :
      (st : Stream) (r : Bool × Zpb)
      → Extends more
          (zone_header ffi s cnx stream st r)
          (zone_header ffi s cnx stream (received st more) r)
  zone_header-Extends st (true, z) = refl
  zone_header-Extends st (false, z) = refl

  dispatch-Extends :
      (verb : Bytes) (st : Stream)
      → Extends more
          (dispatch ffi s cnx stream verb st)
          (dispatch ffi s cnx stream verb (received st more))
  dispatch-Extends verb st =
      let joined = record st { is_sketch = true } in
      let E = Extends {C = ffi.State} more in
      if_both₂ E (equal verb sub_verb) _ _ _ _ refl (
        if_both₂ E (equal verb pub_verb) _ _ _ _ refl (
          if_both₂ E (equal verb skb_verb) _ _ _ _
            (ap (λ r. again r.0 r.1) (handle_sketch_sub-received ffi s cnx stream joined more))
            (if_both₂ E (equal verb zpb_verb) _ _ _ _
              (zone_header-Extends st (parse_zpb_fields st.topic st.zpb)) refl)))

  header_line-Extends :
      (st : Stream) (r : Option (Bytes × Bytes))
      → Extends more
          (header_line ffi s cnx stream st r)
          (header_line ffi s cnx stream (received st more) r)
  header_line-Extends st none = refl
  header_line-Extends st (some (verb, topic)) =
      dispatch-Extends verb (record st { topic = topic; header_parsed = true })

  header_round-Extends :
      (st : Stream) (r : Option (Bytes × Bytes))
      → split_first b'\n' st.buf ≡ r
      → Extends more
          (header_round ffi s cnx stream st r)
          (header_round ffi s cnx stream (received st more) (split_first b'\n' (st.buf ++ more)))
  header_round-Extends st none e = tt
  header_round-Extends st (some (header, rest)) e =
      rw (split_first-append b'\n' st.buf more e)
        (header_line-Extends (record st { buf = rest }) (split_first b' ' header))

  handle_sketch_frame-received :
      (st : Stream) (frame : Bytes)
      → handle_sketch_frame ffi s cnx (received st more) frame
        ≡ handle_sketch_frame ffi s cnx st frame
  unfolding handle_sketch_frame
  handle_sketch_frame-received st frame = refl

  sketch_round-Extends :
      (st : Stream)
      → Extends more (sketch_round ffi s cnx st) (sketch_round ffi s cnx (received st more))
  sketch_round-Extends st =
      let b = st.buf in
      let n = frame_len b in
      ground (
        arith,
        frame_len-append b more,
        length-append b more,
        drop-append 4 b more,
        length-drop 4 b,
        take-append n (drop 4 b) more,
        drop-append (4 + n) b more,
        handle_sketch_frame-received st (take n (drop 4 b)),
      )

  payload_round-Extends :
      (st : Stream) (f : Bytes → Server ffi.State)
      → Extends more
          (payload_round ffi st (f (payload st)))
          (payload_round ffi (received st more) (f (payload (received st more))))
  payload_round-Extends st f = elim (Bool-cases (ltb (length st.buf) entity_packet_size)) [
    | inl short ↦ rw short tt
    | inr full ↦
        ground (
          arith,
          length-append st.buf more,
          take-append 100 st.buf more,
          drop-append 100 st.buf more,
        )
  ]

  pub pump_round-Extends :
      (rtt : ℕ) (st : Stream)
      → Extends more
          (pump_round ffi s cnx stream rtt st)
          (pump_round ffi s cnx stream rtt (received st more))
  unfolding pump_round
  pump_round-Extends rtt st =
      let E = Extends {C = ffi.State} more in
      if_both₂ E st.header_parsed _ _ _ _
        (if_both₂ E st.is_sketch _ _ _ _ (sketch_round-Extends st) (
          if_both₂ E st.is_pub _ _ _ _ (payload_round-Extends st (handle_pub ffi s cnx st.topic)) (
            if_both₂ E st.is_zone_pub _ _ _ _
              (payload_round-Extends st (handle_zone_pub ffi s cnx rtt st.zpb)) tt)))
        (header_round-Extends st (split_first b'\n' st.buf) refl)
