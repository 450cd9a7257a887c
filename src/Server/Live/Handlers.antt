-- ===== src/Server/Live/Handlers.antt =====
-- The handlers of picoquic_fanout_server.actor.cpp under the invariant of delivery streams.
use weft_warp_loop.Base.{
  ℕ, ◌≡◌, refl, true, Option, none, some, List, [], ◌∷◌, not, ◌==◌, if_both, get_or, Bytes, lookup,
  nat_eq, bytes_eq,
}
use weft_warp_loop.Wire.Zpb.{Zpb}
use weft_warp_loop.Ffi.{Ffi, sentinel}
use weft_warp_loop.Server.{
  Stream, Server, deliver_on, relay_if, entered, get_or_create_room, subscribed, handle_sub, replay,
  handle_sketch_sub, handle_sketch_frame, sketch_core_apply, handle_pub, handle_zone_pub, framed,
}
use weft_warp_loop.Server.Relay.{replayed, replayed-All, replay_lem}
use weft_warp_loop.Server.Live.{
  has_stream, Live, Safe, Safe-refl, Safe-trans, deliver_on-Safe, with_sent-Safe, quiet-Safe,
  relay-Safe,
}

module _ (ffi : Ffi) (s : Server ffi.State) (l : Live s) where
  pub get_or_create_room-Safe : (topic : Bytes) → Safe s (get_or_create_room ffi s topic).1
  unfolding get_or_create_room
  get_or_create_room-Safe topic = go (lookup topic s.topic_to_room)
    where
      go :
          (r : Option ℕ)
          → Safe s
              (elim r as (λ _. ℕ × Server ffi.State) [
                | some room ↦ (room, s)
                | none ↦
                    let (res, c) = ffi.alloc_room s.core in
                    entered ffi s topic (get_or res sentinel) c
              ]).1
      go (some room) = Safe-refl s l
      go none = quiet-Safe s _ l refl refl

  pub relay_if-Safe : (r : Option (List ℕ)) (pieces : List Bytes) → Safe s (relay_if ffi s r pieces)
  relay_if-Safe none pieces = Safe-refl s l
  relay_if-Safe (some ts) pieces = relay-Safe s ts pieces l

module _ (ffi : Ffi) (s : Server ffi.State) (l : Live s) where
  pub handle_pub-Safe :
      (cnx : ℕ) (topic payload : Bytes) → Safe s (handle_pub ffi s cnx topic payload)
  unfolding handle_pub
  handle_pub-Safe cnx topic payload =
      let g = get_or_create_room-Safe ffi s l topic in
      if_both (Safe s) ((get_or_create_room ffi s topic).0 == sentinel) _ _ g
        (Safe-trans g (relay_if-Safe ffi _ g.live _ (payload ∷ [])))

  pub handle_zone_pub-Safe :
      (cnx rtt : ℕ) (h : Zpb) (payload : Bytes) → Safe s (handle_zone_pub ffi s cnx rtt h payload)
  unfolding handle_zone_pub
  handle_zone_pub-Safe cnx rtt h payload =
      Safe-trans (quiet-Safe s (record s { core = _ }) l refl refl)
        (relay_if-Safe ffi (record s { core = _ }) l _ (payload ∷ []))

  pub handle_sketch_frame-Safe :
      (cnx : ℕ) (st : Stream) (frame : Bytes) → Safe s (handle_sketch_frame ffi s cnx st frame)
  unfolding handle_sketch_frame
  handle_sketch_frame-Safe cnx st frame =
      let applied = sketch_core_apply ffi st.room_id frame s.core in
      let s' = record s { core = applied.1 } in
      let q = quiet-Safe s s' l refl refl in
      if_both (Safe s) (not applied.0) _ _ q
        (Safe-trans q (relay_if-Safe ffi s' l _ (framed frame)))

module _ (ffi : Ffi) (s : Server ffi.State) (l : Live s) (cnx stream : ℕ)
    (here : has_stream s.streams cnx stream ≡ true) where
  subscribed-Safe :
      (t : Server ffi.State) (room : ℕ) → Safe s t → Safe s (subscribed ffi t cnx stream room)
  subscribed-Safe t room g =
      let there : has_stream t.streams cnx stream ≡ true = rw g.same here in
      let d = deliver_on-Safe t cnx stream g.live there in
      Safe-trans g (
        Safe-trans d (
          quiet-Safe (deliver_on t cnx stream) (subscribed ffi t cnx stream room) d.live refl refl))

  pub handle_sub-Safe : (topic : Bytes) → Safe s (handle_sub ffi s cnx stream topic)
  unfolding handle_sub
  handle_sub-Safe topic =
      let (room, s') = get_or_create_room ffi s topic in
      let g = get_or_create_room-Safe ffi s l topic in
      if_both (Safe s) (room == sentinel) _ _ g (subscribed-Safe s' room g)

  replay-Safe :
      (t : Server ffi.State) (ps : List Bytes) → Safe s t → Safe s (replay t cnx stream ps)
  replay-Safe t ps g = Safe-trans g (
      rw replay_lem (
        with_sent-Safe t (replayed cnx stream ps) g.live
          (replayed-All (λ c i. has_stream t.streams c i ≡ true) cnx stream ps (rw g.same here))))

  pub handle_sketch_sub-Safe : (st : Stream) → Safe s (handle_sketch_sub ffi s cnx stream st).0
  unfolding handle_sketch_sub
  handle_sketch_sub-Safe st =
      let (room, s') = get_or_create_room ffi s st.topic in
      let g = get_or_create_room-Safe ffi s l st.topic in
      if_both (λ (r : Server ffi.State × Stream). Safe s r.0) (room == sentinel) _ _ g
        (replay-Safe (subscribed ffi s' cnx stream room) _ (subscribed-Safe s' room g))
