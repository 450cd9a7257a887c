-- ===== src/Zones/Tests/Merges.antt =====
-- A merge on a concrete world: a run, and the theorem applied to it.
use weft_warp_loop.Base.{
  ℕ, ◌+◌, ◌^◌, ◌≡◌, refl, Option, none, some, List, [], ◌∷◌, get_elem?, arith,
}
use weft_warp_loop.Core.SlotMap.{find}
use weft_warp_loop.Core.Slots.{WellFormed}
use weft_warp_loop.Zones.Area.{EntityRecord, Zone, range_contains, holds, authority_for_index}
use weft_warp_loop.Zones.Octree.{
  range_length, strip_twos, zone_range_depth, octree_children, leaf_cost, split_cost,
  split_is_cheaper,
}
use weft_warp_loop.Zones.World.{ZoneWorld, live_from, world_authority}
use weft_warp_loop.Zones.Split.{within}
use weft_warp_loop.Zones.Population.{times, population}
use weft_warp_loop.Zones.Moved.{Once, slots_of}
use weft_warp_loop.Zones.Started.{whole_curve}
use weft_warp_loop.Zones.Merging.{maybe_merge_siblings-keeps}
use weft_warp_loop.Zones.Merge.{maybe_merge_siblings, family_of, sibling_at, free_all, sub_all}
use weft_warp_loop.Zones.Octree.{parent_range}
use weft_warp_loop.Zones.World.{free_zone, alloc_zone}
use weft_warp_loop.Zones.Area.{zone_sub, enter}
use weft_warp_loop.Core.SlotMap.{free, alloc, update}
use weft_warp_loop.Base.{◌*◌, set}
use weft_warp_loop.Zones.Tests.{resident, one_zone}

-- The eight children of the whole curve, and a slot for the zone that they become.
abbrev child_zone : ℕ → List EntityRecord → ℕ × Option Zone
child_zone i rs = (
  1,
  some (record { range = record { start = i * 2 ^ 60; stop = (i + 1) * 2 ^ 60 }; entities = rs }),
)

abbrev split_world : ZoneWorld
split_world = record {
  zones = record {
    slots =
        child_zone 0 (resident ∷ [])
        ∷ child_zone 1 []
        ∷ child_zone 2 []
        ∷ child_zone 3 []
        ∷ child_zone 4 []
        ∷ child_zone 5 []
        ∷ child_zone 6 []
        ∷ child_zone 7 []
        ∷ (0, none)
        ∷ [];
    free_list = 8 ∷ [];
  };
  bits = 21;
}

split_world-WellFormed : WellFormed split_world.zones
unfolding get_elem?
split_world-WellFormed = record { vacant = ((0, refl), tt); distinct = omega arith }

split_world-Once : Once split_world
unfolding population times
split_world-Once = record { small = omega arith; once = λ c. ground arith }

first_child :
    find split_world.zones (record { index = 0; generation = 1 })
    ≡ some (record { range = record { start = 0; stop = 2 ^ 60 }; entities = resident ∷ [] })
unfolding find get_elem?
first_child = refl

above_first : parent_range 21 (record { start = 0; stop = 2 ^ 60 }) ≡ some whole_curve
unfolding parent_range zone_range_depth range_length strip_twos
above_first = refl

-- The child zones become one zone, which has the entity.
merged_zone :
    find
      (maybe_merge_siblings split_world (record { index = 0; generation = 1 })).zones
      (record { index = 7; generation = 2 })
    ≡ some one_zone
unfolding maybe_merge_siblings parent_range octree_children zone_range_depth range_length strip_twos
    family_of sibling_at world_authority authority_for_index find get_elem? live_from range_contains
    split_is_cheaper split_cost leaf_cost within free_all free_zone free set alloc_zone alloc update
    sub_all zone_sub enter holds
merged_zone = refl

maybe_merge_siblings-keeps_example :
    population 5
      (slots_of (maybe_merge_siblings split_world (record { index = 0; generation = 1 })))
    ≡ population 5 split_world.zones.slots
maybe_merge_siblings-keeps_example =
    maybe_merge_siblings-keeps split_world (record { index = 0; generation = 1 })
      (record { range = record { start = 0; stop = 2 ^ 60 }; entities = resident ∷ [] }) whole_curve
      5 first_child above_first (omega arith) (omega arith) split_world-WellFormed split_world-Once
