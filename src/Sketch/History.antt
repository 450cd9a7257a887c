-- ===== src/Sketch/History.antt =====
-- The history of a room (History.lean): the packets that were accepted, and their keys.
use weft_warp_loop.Base.{
  ℕ, Bool, true, false, ◌&&◌, Option, none, some, List, [], ◌∷◌, ◌++◌, ◌==◌, if◌then◌else◌, Bytes,
}
use weft_warp_loop.Sketch.Codec.{Floats, Packet, decode}

pub record Key : Type 0 where
  pub peer_id : ℕ
  pub stroke_id : ℕ
  pub seq : ℕ

-- `==` on keys.
unfoldable pub same_key : Key → Key → Bool
same_key a b = a.peer_id == b.peer_id && (a.stroke_id == b.stroke_id && a.seq == b.seq)

unfoldable pub seen_before : List Key → Key → Bool
seen_before [] k = false
seen_before (j ∷ js) k = if same_key j k then true else seen_before js k

-- `RoomHistory`.
pub record RoomHistory : Type 0 where
  pub packets : List Bytes
  pub seen : List Key

abbrev pub empty_history : RoomHistory
empty_history = record { packets = []; seen = [] }

module _ (floats : Floats) where
  abbrev pub key_of : Packet floats → Key
  key_of p = record { peer_id = p.peer_id; stroke_id = p.stroke_id; seq = p.seq }

  abbrev pub apply_decoded : RoomHistory → Bytes → Option (Packet floats) → RoomHistory × Bool
  apply_decoded h bytes none = (h, false)
  apply_decoded h bytes (some p) =
      if seen_before h.seen (key_of p)
      then (h, false)
      else (record { packets = h.packets ++ (bytes ∷ []); seen = h.seen ++ (key_of p ∷ []) }, true)

  -- `RoomHistory.apply`.
  unfoldable pub apply : RoomHistory → Bytes → RoomHistory × Bool
  apply h bytes = apply_decoded h bytes (decode floats bytes)
