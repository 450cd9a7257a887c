-- ===== src/Zones/Split.antt =====
-- The split of a zone into its eight children (ZoneDispatch.lean).
use weft_warp_loop.Base.{ℕ, not, Option, none, some, List, [], ◌∷◌, map, if◌then◌else◌, length}
use weft_warp_loop.Core.SlotMap.{SlotId, SlotMap, find, update}
use weft_warp_loop.Zones.Area.{ZoneRange, EntityRecord, Zone, range_contains, zone_sub}
use weft_warp_loop.Zones.Octree.{octree_children, split_is_cheaper}
use weft_warp_loop.Zones.World.{ZoneWorld, alloc_zone, free_zone}

-- How many records have an index in the range.
unfoldable pub within : ZoneRange → List EntityRecord → List EntityRecord
within c [] = []
within c (r ∷ rs) = let rest = within c rs in if range_contains c r.idx then r ∷ rest else rest

-- `childPopulationsFor`.
abbrev pub child_populations : List EntityRecord → List ZoneRange → List ℕ
child_populations rs children = map (λ c. length (within c rs)) children

-- The loop that allocates the children: the world it leaves, and the ids, or none where the slots
-- ran out and the loop returned.
abbrev pub alloc_next :
    (ZoneWorld → ZoneWorld × Option (List SlotId))
    → ZoneWorld
    → Option (ZoneWorld × SlotId)
    → ZoneWorld × Option (List SlotId)
alloc_next rest w none = (w, none)
alloc_next rest w (some (w', id)) =
    let (w'', ids) = rest w' in (w'', elim ids [ none ↦ none | some l ↦ some (id ∷ l) ])

unfoldable pub alloc_children : List ZoneRange → ZoneWorld → ZoneWorld × Option (List SlotId)
alloc_children [] w = (w, some [])
alloc_children (c ∷ cs) w = alloc_next (alloc_children cs) w (alloc_zone w c)

abbrev pub file_in : SlotMap Zone → SlotId → EntityRecord → Option Zone → SlotMap Zone
file_in zones id r none = zones
file_in zones id r (some z) = update zones id (zone_sub z r)

-- The inner loop: a record goes into each child whose range has its index.
unfoldable pub file_record :
    List ZoneRange → List SlotId → EntityRecord → SlotMap Zone → SlotMap Zone
file_record (c ∷ cs) (id ∷ ids) r zones =
    file_record cs ids r
      (if range_contains c r.idx then file_in zones id r (find zones id) else zones)
file_record _ _ r zones = zones

unfoldable pub file_records :
    List ZoneRange → List SlotId → List EntityRecord → SlotMap Zone → SlotMap Zone
file_records cs ids [] zones = zones
file_records cs ids (r ∷ rs) zones = file_records cs ids rs (file_record cs ids r zones)

abbrev pub file_all :
    List ZoneRange → List EntityRecord → ZoneWorld × Option (List SlotId) → ZoneWorld
file_all cs rs (w, none) = w
file_all cs rs (w, some ids) = record w { zones = file_records cs ids rs w.zones }

abbrev pub split_into : ZoneWorld → SlotId → Zone → Option (List ZoneRange) → ZoneWorld
split_into w id z none = w
split_into w id z (some cs) =
    if not (split_is_cheaper (length z.entities) (child_populations z.entities cs))
    then w
    else file_all cs z.entities (alloc_children cs (free_zone w id))

abbrev pub split_zone : ZoneWorld → SlotId → Option Zone → ZoneWorld
split_zone w id none = w
split_zone w id (some z) = split_into w id z (octree_children w.bits z.range)

-- `ZoneWorld.maybeSplitZone`.
unfoldable pub maybe_split_zone : ZoneWorld → SlotId → ZoneWorld
maybe_split_zone w id = split_zone w id (find w.zones id)
