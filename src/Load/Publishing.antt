-- ===== src/Load/Publishing.antt =====
-- The server takes all that a player sends as the publishes that the player meant.
use weft_warp_loop.Base.{
  ℕ, zero, suc, ◌+◌, ◌*◌, ◌%◌, ◌^◌, ◌<◌, ◌≡◌, refl, sym, ap, ◌∙◌, Bool, true, false, List, [], ◌∷◌,
  ◌++◌, append_assoc, arith, ltb, equal, Bytes, length, take-append_of_length,
  drop-append_of_length, length-append, split_first, split_first-join, Without, Without-append,
  nat_eq,
}
use weft_warp_loop.Wire.Decimal.{ℤ, pos, codes, to_string, InRange}
use weft_warp_loop.Wire.Decimal.Plain.{to_string-Without, to_string_zero}
use weft_warp_loop.Wire.Zpb.{
  Zpb, parse_zpb_fields, print_zpb, join, fields, parse_zpb_fields-print_zpb,
}
use weft_warp_loop.Ffi.{Ffi}
use weft_warp_loop.Server.{Stream, Write, Server, deliver_on, handle_zone_pub}
use weft_warp_loop.Server.Pump.{again, pump_round, pump_stream}
use weft_warp_loop.Server.Pump.Chunks.{wait, go_on, pump_stream-Pumps, Pumps-pump_stream}
use weft_warp_loop.Server.Callback.{new_stream}
use weft_warp_loop.Load.Player.{
  Player, byte_of, send_loop, send_all_ticks, make_payload, seq_bytes, zpb_header, client_callback,
  ready, connecting, publishing,
}

-- What a tick tells of a player: its id and the tick as a position, at rest.
abbrev pub zpb_of : ℤ → ℕ → Zpb
zpb_of id tick = record { x = id; y = pos tick; z = pos 0; vx = pos 0; vy = pos 0; vz = pos 0 }

-- A player that waits for its connection, with `n` ticks to send.
abbrev pub starting : ℤ → ℕ → ℕ → Player
starting id n stream = record {
  player_id = id;
  ticks_remaining = pos n;
  state = connecting;
  stream_id = stream;
}

-- All the bytes of a list of writes.
abbrev pub bytes_of : List Write → Bytes
bytes_of [] = []
bytes_of (w ∷ ws) = w.bytes ++ bytes_of ws

zpb_header-print_zpb :
    (id : ℤ) (tick : ℕ)
    → zpb_header id tick ≡ codes "ZPB " ++ (print_zpb (zpb_of id tick) ++ codes "\n")
unfolding zpb_header print_zpb join
zpb_header-print_zpb id tick =
    ap (λ l. codes "ZPB " ++ l)
      (sym (
        rw (to_string_zero, append_assoc (to_string id), append_assoc (to_string (pos tick))) refl))

length-seq_bytes : (seed i n : ℕ) → length (seq_bytes seed i n) ≡ n
length-seq_bytes seed i zero = refl
length-seq_bytes seed i (suc n) = ap suc (length-seq_bytes seed (suc i) n)

join-Without : (b : ℕ) (vs : List ℤ) → b < 32 → Without b (join vs)
unfolding join
join-Without b [] h = tt
join-Without b (v ∷ []) h = to_string-Without b v (omega arith)
join-Without b (v ∷ w ∷ ws) h =
    Without-append b (to_string v) (b' ' ∷ join (w ∷ ws)) (to_string-Without b v (omega arith))
      (ground arith, join-Without b (w ∷ ws) h)

-- A stream between two publishes, and one whose header has been read.
abbrev between : Bool → Bytes → ℕ → Zpb → Bytes → Stream
between zone topic room z buf = record {
  buf = buf;
  header_parsed = false;
  is_pub = false;
  is_sketch = false;
  is_zone_pub = zone;
  topic = topic;
  room_id = room;
  zpb = z;
}

abbrev reading : Bytes → ℕ → Zpb → Bytes → Stream
reading topic room z buf = record (between true topic room z buf) { header_parsed = true }

module _ (ffi : Ffi) (cnx stream rtt : ℕ) where
  header_read :
      (s : Server ffi.State) (zone : Bool) (topic : Bytes) (room : ℕ) (z h : Zpb) (rest : Bytes)
      → parse_zpb_fields (print_zpb h) z ≡ (true, h)
      → Without b'\n' (print_zpb h)
      → pump_round ffi s cnx stream rtt
          (between zone topic room z ((codes "ZPB " ++ print_zpb h) ++ (b'\n' ∷ rest)))
        ≡ again (deliver_on s cnx stream) (reading (print_zpb h) room h rest)
  unfolding pump_round equal
  header_read s zone topic room z h rest e w =
      let line =
        split_first-join b'\n' (codes "ZPB " ++ print_zpb h) rest
          (refl, (refl, (refl, (refl, w)))) in
      let words = split_first-join b' ' (codes "ZPB") (print_zpb h) (refl, (refl, (refl, tt))) in
      rw (line, words, e) refl

  payload_read :
      (s : Server ffi.State) (topic : Bytes) (room : ℕ) (z : Zpb) (payload rest : Bytes)
      → length payload ≡ 100
      → pump_round ffi s cnx stream rtt (reading topic room z (payload ++ rest))
        ≡ again (handle_zone_pub ffi s cnx rtt z payload) (between true topic room z rest)
  unfolding pump_round
  payload_read s topic room z payload rest l =
      let n = length-append payload rest in
      let t : (ltb (length (payload ++ rest)) 100) ≡ false = ground (arith, n, l) in
      rw (t, take-append_of_length 100 payload rest l, drop-append_of_length 100 payload rest l)
        refl

  -- The server after a player's publishes: for each tick, from the last to the first, the stream
  -- is entered for delivery and the payload is published at the position that the tick says.
  abbrev pub published : ℤ → ℕ → Server ffi.State → Server ffi.State
  published id zero s = s
  published id (suc n) s = published id n (
      handle_zone_pub ffi (deliver_on s cnx stream) cnx rtt (zpb_of id (suc n))
        (make_payload id (suc n)))

  -- The parser waits, with nothing left in the buffer.
  abbrev pub Drained : Server ffi.State → Bool × Server ffi.State × Stream → Type 0
  Drained s out = (out.0 ≡ false) × (out.1 ≡ s) × (out.2.buf ≡ []) × (out.2.header_parsed ≡ false)

  Without-print_zpb : (id : ℤ) (tick : ℕ) → Without b'\n' (print_zpb (zpb_of id tick))
  unfolding print_zpb
  Without-print_zpb id tick = join-Without b'\n' (fields (zpb_of id tick)) (omega arith)

  length-make_payload : (id : ℤ) (tick : ℕ) → length (make_payload id tick) ≡ 100
  unfolding make_payload
  length-make_payload id tick = length-seq_bytes ((byte_of id * 1000 + tick) % 256) 0 100

  tick_text :
      (id : ℤ) (tick : ℕ) (rest : Bytes)
      → zpb_header id tick ++ rest ≡ (codes "ZPB " ++ print_zpb (zpb_of id tick)) ++ (b'\n' ∷ rest)
  tick_text id tick rest =
      ap (λ l. l ++ rest) (zpb_header-print_zpb id tick)
      ∙ ap (λ l. codes "ZPB " ++ l) (append_assoc (print_zpb (zpb_of id tick)) (b'\n' ∷ []) rest)

  -- A round that goes on makes no difference to where the loop ends.
  skip :
      (s s' : Server ffi.State) (st st' : Stream)
      → pump_round ffi s cnx stream rtt st ≡ again s' st'
      → pump_stream ffi s cnx stream rtt st ≡ pump_stream ffi s' cnx stream rtt st'
  skip s s' st st' e =
      Pumps-pump_stream ffi cnx stream rtt (go_on e (pump_stream-Pumps ffi cnx stream rtt s' st').1)

  tick_read :
      (id : ℤ) (tick : ℕ) (s : Server ffi.State) (zone : Bool) (topic : Bytes) (room : ℕ) (z : Zpb)
      (rest : Bytes)
      → InRange id
      → tick < 2 ^ 63
      → pump_stream ffi s cnx stream rtt
          (between zone topic room z (zpb_header id tick ++ (make_payload id tick ++ rest)))
        ≡ pump_stream ffi
            (handle_zone_pub ffi
              (deliver_on s cnx stream)
              cnx
              rtt
              (zpb_of id tick)
              (make_payload id tick))
            cnx
            stream
            rtt
            (between true (print_zpb (zpb_of id tick)) room (zpb_of id tick) rest)
  tick_read id tick s zone topic room z rest i b =
      let h = zpb_of id tick in
      let payload = make_payload id tick in
      let read =
        parse_zpb_fields-print_zpb h z
          (i, (b, (omega arith, (omega arith, (omega arith, (omega arith, tt)))))) in
      ap (λ l. pump_stream ffi s cnx stream rtt (between zone topic room z l))
        (tick_text id tick (payload ++ rest))
      ∙ skip s (deliver_on s cnx stream) _ _
          (header_read s zone topic room z h (payload ++ rest) read (Without-print_zpb id tick))
      ∙ skip (deliver_on s cnx stream) _ _ _ (
          payload_read (deliver_on s cnx stream) (print_zpb h) room h payload rest
            (length-make_payload id tick))

  stopped :
      (s : Server ffi.State) (zone : Bool) (topic : Bytes) (room : ℕ) (z : Zpb)
      → pump_stream ffi s cnx stream rtt (between zone topic room z [])
        ≡ (false, s, between zone topic room z [])
  unfolding pump_round split_first
  stopped s zone topic room z = Pumps-pump_stream ffi cnx stream rtt (wait refl)

  send_loop-Drained :
      (p : Player) (n : ℕ) (s : Server ffi.State) (zone : Bool) (topic : Bytes) (room : ℕ) (z : Zpb)
      → InRange p.player_id
      → n < 2 ^ 63
      → Drained (published p.player_id n s) (
          pump_stream ffi s cnx stream rtt
            (between zone topic room z (bytes_of (send_loop cnx n p).1)))
  unfolding send_loop
  send_loop-Drained p zero s zone topic room z i b =
      rw (stopped s zone topic room z) (refl, refl, refl, refl)
  send_loop-Drained p (suc n) s zone topic room z i b =
      let id = p.player_id in
      let later = record p { ticks_remaining = pos n } in
      let next =
        handle_zone_pub ffi (deliver_on s cnx stream) cnx rtt (zpb_of id (suc n))
          (make_payload id (suc n)) in
      rw (tick_read id (suc n) s zone topic room z (bytes_of (send_loop cnx n later).1) i b) (
        send_loop-Drained later n next true (print_zpb (zpb_of id (suc n))) room (zpb_of id (suc n))
          i (omega arith))

  -- All the bytes that a load client sends when its connection becomes ready are, for the parser
  -- of the server on a fresh stream, exactly the publishes of its ticks: from the last tick to the
  -- first, with the id and the tick as position, no velocity, and the payload of that tick. No
  -- line is refused and nothing is left in the buffer. The id is an int64_t and the ticks are
  -- fewer than 2^63.
  pub client_callback-Drained :
      (id : ℤ) (n old : ℕ) (s : Server ffi.State)
      → InRange id
      → n < 2 ^ 63
      → Drained (published id n s) (
          pump_stream ffi s cnx stream rtt (record new_stream {
            buf = bytes_of (client_callback ready cnx (starting id n old)).1;
          }))
  unfolding client_callback send_all_ticks
  client_callback-Drained id n old s i b =
      send_loop-Drained (record (starting id n 0) { state = publishing }) n s false [] 0
        new_stream.zpb i b
