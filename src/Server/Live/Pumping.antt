-- ===== src/Server/Live/Pumping.antt =====
-- `pumpStream` under the invariant of delivery streams.
use weft_warp_loop.Base.{
  ℕ, ◌≡◌, Bool, true, false, Option, none, some, if_both, Bytes, equal, ltb, length, split_first,
  ◌+◌, ◌^◌,
}
use weft_warp_loop.Wire.Zpb.{Zpb, parse_zpb_fields}
use weft_warp_loop.Wire.Units.{frame_len}
use weft_warp_loop.Ffi.{Ffi}
use weft_warp_loop.Server.{Stream, Server}
use weft_warp_loop.Server.Pump.{
  After, zone_header, dispatch, header_line, header_round, sketch_round, payload_round, payload,
  pump_round, pump_stream, sub_verb, pub_verb, skb_verb, zpb_verb,
}
use weft_warp_loop.Server.Pump.Chunks.{Pumps, wait, refuse, go_on, pump_stream-Pumps}
use weft_warp_loop.Server.Live.{has_stream, Live, Safe, Safe-refl, Safe-trans, deliver_on-Safe}
use weft_warp_loop.Server.Live.Handlers.{
  handle_sub-Safe, handle_sketch_sub-Safe, handle_sketch_frame-Safe, handle_pub-Safe,
  handle_zone_pub-Safe,
}

module _ (ffi : Ffi) (s : Server ffi.State) (l : Live s) (cnx stream : ℕ)
    (here : has_stream s.streams cnx stream ≡ true) where
  zone_header-Safe :
      (st : Stream) (r : Bool × Zpb) → After (Safe s) (zone_header ffi s cnx stream st r)
  zone_header-Safe st (true, z) = deliver_on-Safe s cnx stream l here
  zone_header-Safe st (false, z) = Safe-refl s l

  dispatch-Safe : (verb : Bytes) (st : Stream) → After (Safe s) (dispatch ffi s cnx stream verb st)
  dispatch-Safe verb st =
      let A = After {C = ffi.State} (Safe s) in
      let r = Safe-refl s l in
      if_both A (equal verb sub_verb) _ _ (handle_sub-Safe ffi s l cnx stream here st.topic) (
        if_both A (equal verb pub_verb) _ _ r (
          if_both A (equal verb skb_verb) _ _
            (handle_sketch_sub-Safe ffi s l cnx stream here (record st { is_sketch = true }))
            (if_both A (equal verb zpb_verb) _ _
              (zone_header-Safe st (parse_zpb_fields st.topic st.zpb)) r)))

  header_line-Safe :
      (st : Stream) (r : Option (Bytes × Bytes))
      → After (Safe s) (header_line ffi s cnx stream st r)
  header_line-Safe st none = Safe-refl s l
  header_line-Safe st (some (verb, topic)) =
      dispatch-Safe verb (record st { topic = topic; header_parsed = true })

  header_round-Safe :
      (st : Stream) (r : Option (Bytes × Bytes))
      → After (Safe s) (header_round ffi s cnx stream st r)
  header_round-Safe st none = tt
  header_round-Safe st (some (header, rest)) =
      header_line-Safe (record st { buf = rest }) (split_first b' ' header)

  sketch_round-Safe : (st : Stream) → After (Safe s) (sketch_round ffi s cnx st)
  sketch_round-Safe st =
      let A = After {C = ffi.State} (Safe s) in
      if_both A (ltb (length st.buf) 4) _ _ tt (
        if_both A (ltb (2 ^ 20) (frame_len st.buf)) _ _ tt (
          if_both A (ltb (length st.buf) (4 + frame_len st.buf)) _ _ tt
            (handle_sketch_frame-Safe ffi s l cnx st _)))

  payload_round-Safe :
      (st : Stream) (s' : Server ffi.State) → Safe s s' → After (Safe s) (payload_round ffi st s')
  payload_round-Safe st s' h = if_both (After (Safe s)) (ltb (length st.buf) 100) _ _ tt h

  pub pump_round-Safe :
      (rtt : ℕ) (st : Stream) → After (Safe s) (pump_round ffi s cnx stream rtt st)
  unfolding pump_round
  pump_round-Safe rtt st =
      let A = After {C = ffi.State} (Safe s) in
      if_both A st.header_parsed _ _
        (if_both A st.is_sketch _ _ (sketch_round-Safe st) (
          if_both A st.is_pub _ _
            (payload_round-Safe st _ (handle_pub-Safe ffi s l cnx st.topic (payload st)))
            (if_both A st.is_zone_pub _ _
              (payload_round-Safe st _ (handle_zone_pub-Safe ffi s l cnx rtt st.zpb (payload st)))
              tt)))
        (header_round-Safe st (split_first b'\n' st.buf))

Pumps-Safe :
    (ffi : Ffi) (cnx stream rtt : ℕ) {s : Server ffi.State} {st : Stream}
    {out : Bool × Server ffi.State × Stream}
    → Pumps ffi cnx stream rtt s st out
    → Live s
    → has_stream s.streams cnx stream ≡ true
    → Safe s out.1
Pumps-Safe ffi cnx stream rtt (wait {s} e) l h = Safe-refl s l
Pumps-Safe ffi cnx stream rtt (refuse {s} {st = st} e) l h =
    rw e at (pump_round-Safe ffi s l cnx stream h rtt st)
Pumps-Safe ffi cnx stream rtt (go_on {s} {st = st} e d) l h =
    let a = rw e at (pump_round-Safe ffi s l cnx stream h rtt st) in
    Safe-trans a (Pumps-Safe ffi cnx stream rtt d a.live (rw a.same h))

-- All that the loop writes goes to streams that are there.
pub pump_stream-Safe :
    (ffi : Ffi) (s : Server ffi.State) (cnx stream rtt : ℕ) (st : Stream)
    → Live s
    → has_stream s.streams cnx stream ≡ true
    → Safe s (pump_stream ffi s cnx stream rtt st).1
pump_stream-Safe ffi s cnx stream rtt st l h =
    Pumps-Safe ffi cnx stream rtt (pump_stream-Pumps ffi cnx stream rtt s st).1 l h
