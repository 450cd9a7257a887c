-- ===== src/Server.antt =====
-- The host's state and the handlers of picoquic_fanout_server.actor.cpp. A connection is the
-- address of its picoquic_cnx_t, and `connIdOf` is that number. A call of picoquic_add_to_stream
-- is an entry of `sent`.
pub mod Pump
pub mod Callback
pub mod Relay
pub mod Live
pub mod Tests
use weft_warp_loop.Base.{
  ℕ, zero, suc, ◌+◌, ◌<◌, ◌≡◌, refl, Bool, true, false, not, ◌&&◌, Option, none, some, List, [],
  ◌∷◌, ◌++◌, arith, ◌==◌, if◌then◌else◌, get_or, Bytes, length, Dict, lookup, insert, erase, nat_eq,
  bytes_eq,
}
use weft_warp_loop.Wire.Zpb.{Zpb}
use weft_warp_loop.Wire.Units.{abs_magnitude, rtt_to_ticks, len_prefix}
use weft_warp_loop.Ffi.{Ffi, sentinel}

-- `StreamState`.
pub record Stream : Type 0 where
  pub buf : Bytes
  pub header_parsed : Bool
  pub is_pub : Bool
  pub is_sketch : Bool
  pub is_zone_pub : Bool
  pub topic : Bytes
  pub room_id : ℕ
  pub zpb : Zpb

-- A call `picoquic_add_to_stream(cnx, stream, bytes.data(), bytes.size(), 0)`.
pub record Write : Type 0 where
  pub cnx : ℕ
  pub stream : ℕ
  pub bytes : Bytes

-- `BridgeState`, the kernels' state behind the FFI, and what was written so far.
pub record Server (C : Type 0) : Type 0 where
  pub topic_to_room : Dict Bytes ℕ
  pub delivery : Dict ℕ (ℕ × ℕ)
  pub streams : Dict ℕ (Dict ℕ Stream)
  pub core : C
  pub sent : List Write

-- A frame and its length, as two writes.
abbrev pub framed : Bytes → List Bytes
framed packet = len_prefix (length packet) ∷ packet ∷ []

module _ {C : Type 0} where
  abbrev pub add_to_stream : Server C → ℕ → ℕ → Bytes → Server C
  add_to_stream s cnx stream bytes = record s {
    sent = s.sent ++ (record { cnx = cnx; stream = stream; bytes = bytes } ∷ []);
  }

  -- `state.delivery[connId] = { cnx, streamId }`
  abbrev pub deliver_on : Server C → ℕ → ℕ → Server C
  deliver_on s cnx stream = record s { delivery = insert cnx (cnx, stream) s.delivery }

  -- One write for each piece, to one stream.
  unfoldable pub add_all : Server C → ℕ → ℕ → List Bytes → Server C
  add_all s cnx stream [] = s
  add_all s cnx stream (b ∷ bs) = add_all (add_to_stream s cnx stream b) cnx stream bs

  abbrev pub to_target : Server C → Option (ℕ × ℕ) → List Bytes → Server C
  to_target s none pieces = s
  to_target s (some (cnx, stream)) pieces = add_all s cnx stream pieces

  -- The loop over the targets: one whose delivery stream is gone is skipped.
  unfoldable pub relay : Server C → List ℕ → List Bytes → Server C
  relay s [] pieces = s
  relay s (t ∷ ts) pieces = relay (to_target s (lookup t s.delivery) pieces) ts pieces

  unfoldable pub replay : Server C → ℕ → ℕ → List Bytes → Server C
  replay s cnx stream [] = s
  replay s cnx stream (p ∷ ps) = replay (add_all s cnx stream (framed p)) cnx stream ps

module _ (ffi : Ffi) where
  -- `sketchCoreApplyPacket` (sketch_core_ffi.cpp).
  unfoldable pub sketch_core_apply : ℕ → Bytes → ffi.State → Bool × ffi.State
  sketch_core_apply room frame c =
      let (res, c') = ffi.sketch_apply_packet room frame c in (get_or res 0 == 1, c')

  abbrev with_packet : Option Bytes → List Bytes → List Bytes
  with_packet none later = later
  with_packet (some p) later = p ∷ later

  -- The loop of `sketchCoreHistory`: the packets from `i` on, without those that fail.
  unfoldable pub history_from : ℕ → ℕ → ℕ → ffi.State → List Bytes
  history_from room i zero c = []
  history_from room i (suc n) c =
      with_packet (ffi.sketch_history_packet room i c) (history_from room (i + 1) n c)

  -- `sketchCoreHistory`.
  unfoldable pub sketch_core_history : ℕ → ffi.State → List Bytes
  sketch_core_history room c = history_from room 0 (get_or (ffi.sketch_history_count room c) 0) c

  -- A room that could be allocated is entered under its topic.
  abbrev pub entered : Server ffi.State → Bytes → ℕ → ffi.State → ℕ × Server ffi.State
  entered s topic room c = (
    room,
    record s {
      core = c;
      topic_to_room =
          if room == sentinel then s.topic_to_room else insert topic room s.topic_to_room;
    },
  )

  -- `getOrCreateRoom`.
  unfoldable pub get_or_create_room : Server ffi.State → Bytes → ℕ × Server ffi.State
  get_or_create_room s topic = elim (lookup topic s.topic_to_room) [
    | some room ↦ (room, s)
    | none ↦ let (res, c) = ffi.alloc_room s.core in entered s topic (get_or res sentinel) c
  ]

  -- A room's subscription, with the stream that its publishes are delivered on.
  abbrev pub subscribed : Server ffi.State → ℕ → ℕ → ℕ → Server ffi.State
  subscribed s cnx stream room = record (deliver_on s cnx stream) {
    core = ffi.sub_room room cnx s.core;
  }

  -- `handleSub`.
  unfoldable pub handle_sub : Server ffi.State → ℕ → ℕ → Bytes → Server ffi.State
  handle_sub s cnx stream topic =
      let (room, s') = get_or_create_room s topic in
      if room == sentinel then s' else subscribed s' cnx stream room

  -- `handleSketchSub`, which also notes the room in the stream.
  unfoldable pub handle_sketch_sub : Server ffi.State → ℕ → ℕ → Stream → Server ffi.State × Stream
  handle_sketch_sub s cnx stream st =
      let (room, s') = get_or_create_room s st.topic in
      let s'' = subscribed s' cnx stream room in
      if room == sentinel
      then (s', st)
      else (replay s'' cnx stream (sketch_core_history room s''.core), record st { room_id = room })

  abbrev pub relay_if : Server ffi.State → Option (List ℕ) → List Bytes → Server ffi.State
  relay_if s none pieces = s
  relay_if s (some ts) pieces = relay s ts pieces

  -- `handleSketchFrame`.
  unfoldable pub handle_sketch_frame : Server ffi.State → ℕ → Stream → Bytes → Server ffi.State
  handle_sketch_frame s cnx st frame =
      let (accepted, c) = sketch_core_apply st.room_id frame s.core in
      let s' = record s { core = c } in
      if not accepted then s' else relay_if s' (ffi.room_targets st.room_id cnx c) (framed frame)

  -- `handlePub`.
  unfoldable pub handle_pub : Server ffi.State → ℕ → Bytes → Bytes → Server ffi.State
  handle_pub s cnx topic payload =
      let (room, s') = get_or_create_room s topic in
      if room == sentinel
      then s'
      else relay_if s' (ffi.room_targets room cnx s'.core) (payload ∷ [])

  -- `handleZonePub`; `rtt` is what picoquic_get_rtt says of the connection, in microseconds.
  unfoldable pub handle_zone_pub : Server ffi.State → ℕ → ℕ → Zpb → Bytes → Server ffi.State
  handle_zone_pub s cnx rtt h payload =
      let c =
        ffi.entity_move_v cnx h.x h.y h.z (abs_magnitude h.vx) (abs_magnitude h.vy)
          (abs_magnitude h.vz) (rtt_to_ticks rtt) s.core in
      relay_if (record s { core = c }) (ffi.zone_targets cnx h.x h.y h.z c) (payload ∷ [])

  -- Where the connection's publishes go, unless that is the stream that ends.
  abbrev pub forget : Server ffi.State → ℕ → ℕ → Option (ℕ × ℕ) → Server ffi.State
  forget s cnx stream none = s
  forget s cnx stream (some (c, i)) =
      if c == cnx && i == stream then record s { delivery = erase cnx s.delivery } else s

  abbrev pub leave : Server ffi.State → ℕ → Option ℕ → Server ffi.State
  leave s cnx none = s
  leave s cnx (some room) = record s { core = ffi.unsub_room room cnx s.core }

  -- `cleanupStream`.
  unfoldable pub cleanup_stream : Server ffi.State → ℕ → ℕ → Stream → Server ffi.State
  cleanup_stream s cnx stream st =
      let s' = forget s cnx stream (lookup cnx s.delivery) in
      if st.is_zone_pub
      then record s' { core = ffi.entity_remove cnx s'.core }
      else if st.header_parsed && not st.is_pub
      then leave s' cnx (lookup st.topic s'.topic_to_room)
      else s'
