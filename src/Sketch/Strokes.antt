-- ===== src/Sketch/Strokes.antt =====
-- The strokes of a history (`RoomHistory.strokes`, History.lean): its packets by stroke, the strokes in
-- the order of their ids, and the packets of each in the order of their numbers.
use weft_warp_loop.Base.{
  ℕ, Bool, true, false, ◌&&◌, ◌||◌, Option, none, some, List, [], ◌∷◌, ◌++◌, map, ◌==◌, ltb,
  if◌then◌else◌, Bytes,
}
use weft_warp_loop.Sketch.Codec.{Floats, Vec3, Sample, Packet, decode}
use weft_warp_loop.Sketch.History.{RoomHistory}

-- (peerId, strokeId).
pub record StrokeKey : Type 0 where
  pub peer_id : ℕ
  pub stroke_id : ℕ

unfoldable pub same_stroke : StrokeKey → StrokeKey → Bool
same_stroke a b = a.peer_id == b.peer_id && a.stroke_id == b.stroke_id

-- `pi < pj || (pi == pj && si < sj)`.
unfoldable pub stroke_before : StrokeKey → StrokeKey → Bool
stroke_before a b =
    ltb a.peer_id b.peer_id || (a.peer_id == b.peer_id && ltb a.stroke_id b.stroke_id)

-- The insertion step of both sorts: before the first element that comes later.
unfoldable pub insert_by : {A : Type 0} → (A → A → Bool) → A → List A → List A
insert_by before a [] = a ∷ []
insert_by before a (b ∷ bs) =
    let rest = insert_by before a bs in if before a b then a ∷ b ∷ bs else b ∷ rest

-- The sort: one insertion after the other, from the front.
unfoldable pub sort_onto : {A : Type 0} → (A → A → Bool) → List A → List A → List A
sort_onto before sorted [] = sorted
sort_onto before sorted (a ∷ later) = sort_onto before (insert_by before a sorted) later

pub record Stroke (F : Type 0) : Type 0 where
  pub key : StrokeKey
  pub closed : Bool
  pub samples : List (Vec3 F)

module _ (floats : Floats) where
  -- `order` and `groups` side by side.
  abbrev pub Groups : Type 0
  Groups = List (StrokeKey × List (Packet floats))

  abbrev pub stroke_key : Packet floats → StrokeKey
  stroke_key p = record { peer_id = p.peer_id; stroke_id = p.stroke_id }

  -- The loop that pushes a packet to the groups of its key.
  unfoldable pub push_packet : Packet floats → Groups → Groups
  push_packet p [] = []
  push_packet p ((k, g) ∷ groups) =
      (k, if same_stroke k (stroke_key p) then g ++ (p ∷ []) else g) ∷ push_packet p groups

  unfoldable pub has_group : StrokeKey → Groups → Bool
  has_group k [] = false
  has_group k ((j, g) ∷ groups) = if same_stroke j k then true else has_group k groups

  unfoldable pub add_packet : Packet floats → Groups → Groups
  unfolding has_group
  add_packet p groups =
      if has_group (stroke_key p) groups
      then push_packet p groups
      else groups ++ ((stroke_key p, p ∷ []) ∷ [])

  abbrev pub add_decoded : Option (Packet floats) → Groups → Groups
  add_decoded none groups = groups
  add_decoded (some p) groups = add_packet p groups

  unfoldable pub collect : List Bytes → Groups → Groups
  collect [] groups = groups
  collect (b ∷ bs) groups = collect bs (add_decoded (decode floats b) groups)

  abbrev pub group_before :
      StrokeKey × List (Packet floats) → StrokeKey × List (Packet floats) → Bool
  group_before (i, g) (j, h) = stroke_before i j

  abbrev pub packet_before : Packet floats → Packet floats → Bool
  packet_before p q = ltb p.seq q.seq

  -- The samples and the flag of the packets of a stroke, in their order.
  unfoldable pub positions : List (Sample floats.Float) → List (Vec3 floats.Float)
  positions [] = []
  positions (s ∷ ss) = s.pos ∷ positions ss

  unfoldable pub stroke_samples : List (Packet floats) → List (Vec3 floats.Float)
  stroke_samples [] = []
  stroke_samples (p ∷ ps) = positions p.samples ++ stroke_samples ps

  unfoldable pub any_closed : List (Packet floats) → Bool
  any_closed [] = false
  any_closed (p ∷ ps) = p.closed || any_closed ps

  abbrev pub stroke_of : StrokeKey × List (Packet floats) → Stroke floats.Float
  stroke_of (k, g) =
      let sorted = sort_onto packet_before [] g in
      record { key = k; closed = any_closed sorted; samples = stroke_samples sorted }

  -- `RoomHistory.strokes`.
  unfoldable pub strokes : RoomHistory → List (Stroke floats.Float)
  strokes h = map stroke_of (sort_onto group_before [] (collect h.packets []))
