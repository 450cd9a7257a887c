-- ===== src/Zones/Merge.antt =====
-- The merge of eight sibling zones into their parent (ZoneDispatch.lean).
use weft_warp_loop.Base.{
  ◌&&◌, Option, none, some, List, [], ◌∷◌, ◌++◌, ◌==◌, ltb, if◌then◌else◌, length,
}
use weft_warp_loop.Core.SlotMap.{SlotId, find, update}
use weft_warp_loop.Zones.Area.{ZoneRange, EntityRecord, Zone, zone_sub, authority_capacity}
use weft_warp_loop.Zones.Octree.{octree_children, parent_range, split_is_cheaper}
use weft_warp_loop.Zones.World.{ZoneWorld, world_authority, alloc_zone, free_zone}
use weft_warp_loop.Zones.Split.{child_populations}

-- What the loop over the children has gathered: the siblings' ids and their entities.
pub record Family : Type 0 where
  pub ids : List SlotId
  pub members : List EntityRecord

-- The sibling that stands at a child range, if it is a zone of just that range.
abbrev pub exact_zone : ZoneRange → SlotId → Option Zone → Option (SlotId × Zone)
exact_zone c id none = none
exact_zone c id (some z) =
    if (z.range.start == c.start) && (z.range.stop == c.stop) then some (id, z) else none

abbrev pub sibling_by : ZoneWorld → ZoneRange → Option SlotId → Option (SlotId × Zone)
sibling_by w c none = none
sibling_by w c (some id) = exact_zone c id (find w.zones id)

unfoldable pub sibling_at : ZoneWorld → ZoneRange → Option (SlotId × Zone)
sibling_at w c = sibling_by w c (world_authority w c.start)

abbrev pub join_family : Option (SlotId × Zone) → Option Family → Option Family
join_family none rest = none
join_family (some (id, z)) none = none
join_family (some (id, z)) (some f) =
    some (record { ids = id ∷ f.ids; members = z.entities ++ f.members })

-- The loop over the children; none where it returns early.
unfoldable pub family_of : ZoneWorld → List ZoneRange → Option Family
family_of w [] = some (record { ids = []; members = [] })
family_of w (c ∷ cs) = join_family (sibling_at w c) (family_of w cs)

unfoldable pub free_all : List SlotId → ZoneWorld → ZoneWorld
free_all [] w = w
free_all (id ∷ ids) w = free_all ids (free_zone w id)

unfoldable pub sub_all : List EntityRecord → Zone → Zone
sub_all [] z = z
sub_all (r ∷ rs) z = sub_all rs (zone_sub z r)

abbrev pub fill_parent : ZoneWorld → SlotId → List EntityRecord → Option Zone → ZoneWorld
fill_parent w id rs none = w
fill_parent w id rs (some z) = record w { zones = update w.zones id (sub_all rs z) }

abbrev pub adopt : ZoneWorld → List EntityRecord → Option (ZoneWorld × SlotId) → ZoneWorld
adopt w rs none = w
adopt w rs (some (w', id)) = fill_parent w' id rs (find w'.zones id)

-- The parent takes the place of its children, unless staying split is cheaper or the parent would be
-- over its capacity. An allocation that fails leaves the world with the children freed.
abbrev pub merge_family : ZoneWorld → ZoneRange → List ZoneRange → Option Family → ZoneWorld
merge_family w parent cs none = w
merge_family w parent cs (some f) =
    if split_is_cheaper (length f.members) (child_populations f.members cs)
    then w
    else if ltb authority_capacity (length f.members)
    then w
    else let freed = free_all f.ids w in adopt freed f.members (alloc_zone freed parent)

abbrev pub merge_children : ZoneWorld → ZoneRange → Option (List ZoneRange) → ZoneWorld
merge_children w parent none = w
merge_children w parent (some cs) = merge_family w parent cs (family_of w cs)

abbrev pub merge_under : ZoneWorld → Option ZoneRange → ZoneWorld
merge_under w none = w
merge_under w (some parent) = merge_children w parent (octree_children w.bits parent)

abbrev pub merge_zone : ZoneWorld → Option Zone → ZoneWorld
merge_zone w none = w
merge_zone w (some z) = merge_under w (parent_range w.bits z.range)

-- `ZoneWorld.maybeMergeSiblings`.
unfoldable pub maybe_merge_siblings : ZoneWorld → SlotId → ZoneWorld
maybe_merge_siblings w id = merge_zone w (find w.zones id)
