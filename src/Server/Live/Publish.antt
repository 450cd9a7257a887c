-- ===== src/Server/Live/Publish.antt =====
-- What a connection publishes never comes back to it.
use weft_warp_loop.Base.{
  ℕ, ◌+◌, ◌^◌, ◌≡◌, ◌≢◌, refl, sym, ◌∙◌, true, not, Option, none, some, List, [], ◌∷◌, append-nil,
  ◌==◌, ltb, if_both, if_taken, get_or, Bytes, lookup, length, nat_eq, bytes_eq, All, All-map,
}
use weft_warp_loop.Wire.Zpb.{Zpb}
use weft_warp_loop.Wire.Units.{frame_len}
use weft_warp_loop.Ffi.{Ffi, sentinel, Laws}
use weft_warp_loop.Server.{
  Stream, Server, relay, relay_if, get_or_create_room, entered, sketch_core_apply,
  handle_sketch_frame, handle_pub, handle_zone_pub, framed,
}
use weft_warp_loop.Server.Relay.{deliveries, deliveries-All, relay_lem}
use weft_warp_loop.Server.Pump.{After, payload, pump_round}
use weft_warp_loop.Server.Live.{Live, Spared, Spared-refl, Spared-trans}
use weft_warp_loop.Server.Live.Handlers.{get_or_create_room-Safe}

module _ {C : Type 0} (s : Server C) (l : Live s) (cnx : ℕ) where
  -- Delivery streams belong to the connections they are entered for.
  relay-Spared :
      (ts : List ℕ) (pieces : List Bytes) → All (λ t. t ≢ cnx) ts → Spared s (relay s ts pieces) cnx
  relay-Spared ts pieces h = rw relay_lem (record {
    written = deliveries s.delivery ts pieces;
    sent_eq = refl;
    spared = deliveries-All (λ a i. a ≢ cnx) s.delivery ts pieces (All-map others ts h);
  })
    where
      others : (t : ℕ) → t ≢ cnx → (a i : ℕ) → lookup t s.delivery ≡ some (a, i) → a ≢ cnx
      others t apart a i e own = apart (sym (l t a i e).0 ∙ own)

module _ (ffi : Ffi) (laws : Laws ffi) (s : Server ffi.State) (l : Live s) (cnx : ℕ) where
  relay_if-Spared :
      (r : Option (List ℕ)) (pieces : List Bytes)
      → ((ts : List ℕ) → r ≡ some ts → All (λ t. t ≢ cnx) ts)
      → Spared s (relay_if ffi s r pieces) cnx
  relay_if-Spared none pieces h = Spared-refl s cnx
  relay_if-Spared (some ts) pieces h = relay-Spared s l cnx ts pieces (h ts refl)

  to_room :
      (room : ℕ) (pieces : List Bytes)
      → Spared s (relay_if ffi s (ffi.room_targets room cnx s.core) pieces) cnx
  to_room room pieces =
      relay_if-Spared (ffi.room_targets room cnx s.core) pieces
        (λ ts e. laws.room_targets_others room cnx s.core ts e)

  get_or_create_room-Spared : (topic : Bytes) → Spared s (get_or_create_room ffi s topic).1 cnx
  unfolding get_or_create_room
  get_or_create_room-Spared topic = go (lookup topic s.topic_to_room)
    where
      go :
          (r : Option ℕ)
          → Spared s
              (elim r as (λ _. ℕ × Server ffi.State) [
                | some room ↦ (room, s)
                | none ↦
                    let (res, c) = ffi.alloc_room s.core in
                    entered ffi s topic (get_or res sentinel) c
              ]).1
              cnx
      go (some room) = Spared-refl s cnx
      go none = record { written = []; sent_eq = sym (append-nil s.sent); spared = tt }

module _ (ffi : Ffi) (laws : Laws ffi) (s : Server ffi.State) (l : Live s) (cnx : ℕ) where
  handle_pub-Spared : (topic bytes : Bytes) → Spared s (handle_pub ffi s cnx topic bytes) cnx
  unfolding handle_pub
  handle_pub-Spared topic bytes =
      let (room, s') = get_or_create_room ffi s topic in
      let g = get_or_create_room-Spared ffi laws s l cnx topic in
      if_both (λ t. Spared s t cnx) (room == sentinel) _ _ g
        (Spared-trans g
          (to_room ffi laws s' (get_or_create_room-Safe ffi s l topic).live cnx room (bytes ∷ [])))

  handle_zone_pub-Spared :
      (rtt : ℕ) (h : Zpb) (bytes : Bytes) → Spared s (handle_zone_pub ffi s cnx rtt h bytes) cnx
  unfolding handle_zone_pub
  handle_zone_pub-Spared rtt h bytes =
      let r =
        relay_if-Spared ffi laws (record s { core = _ }) l cnx _ (bytes ∷ [])
          (λ ts e. laws.zone_targets_others cnx h.x h.y h.z _ ts e) in
      record { written = r.written; sent_eq = r.sent_eq; spared = r.spared }

  handle_sketch_frame-Spared :
      (st : Stream) (frame : Bytes) → Spared s (handle_sketch_frame ffi s cnx st frame) cnx
  unfolding handle_sketch_frame
  handle_sketch_frame-Spared st frame =
      let applied = sketch_core_apply ffi st.room_id frame s.core in
      let s' = record s { core = applied.1 } in
      let r = to_room ffi laws s' l cnx st.room_id (framed frame) in
      if_both (λ t. Spared s t cnx) (not applied.0) _ _
        (record { written = []; sent_eq = sym (append-nil s.sent); spared = tt })
        (record { written = r.written; sent_eq = r.sent_eq; spared = r.spared })

module _ (ffi : Ffi) (laws : Laws ffi) (s : Server ffi.State) (l : Live s) (cnx stream : ℕ) where
  -- A round of the loop on a stream whose header has been read, which takes a payload or a sketch
  -- frame or waits, writes nothing back to the connection that the stream belongs to. The kernels
  -- are assumed to leave a publisher out of its own targets, and the delivery entries to name
  -- streams of their connections.
  pub pump_round-Spared :
      (rtt : ℕ) (st : Stream)
      → st.header_parsed ≡ true
      → After (λ t. Spared s t cnx) (pump_round ffi s cnx stream rtt st)
  unfolding pump_round
  pump_round-Spared rtt st parsed =
      let A = After {C = ffi.State} (λ t. Spared s t cnx) in
      if_taken A st.header_parsed _ _ parsed (
        if_both A st.is_sketch _ _
          (if_both A (ltb (length st.buf) 4) _ _ tt (
            if_both A (ltb (2 ^ 20) (frame_len st.buf)) _ _ tt (
              if_both A (ltb (length st.buf) (4 + frame_len st.buf)) _ _ tt
                (handle_sketch_frame-Spared ffi laws s l cnx st _))))
          (if_both A st.is_pub _ _
            (if_both A (ltb (length st.buf) 100) _ _ tt
              (handle_pub-Spared ffi laws s l cnx st.topic (payload st)))
            (if_both A st.is_zone_pub _ _
              (if_both A (ltb (length st.buf) 100) _ _ tt
                (handle_zone_pub-Spared ffi laws s l cnx rtt st.zpb (payload st)))
              tt)))
