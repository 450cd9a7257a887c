-- ===== src/Zones/Tests.antt =====
-- The zones on concrete worlds: runs, and the theorems applied to them.
mod Merges
mod Reach
use weft_warp_loop.Base.{
  ℕ, ◌+◌, ◌-◌, ◌/◌, ◌%◌, ◌^◌, ◌≡◌, refl, true, Option, none, some, List, [], ◌∷◌, map, get_elem?,
  if◌then◌else◌, arith,
}
use weft_warp_loop.Wire.Decimal.{pos, negsuc}
use weft_warp_loop.Core.SlotMap.{find, pack}
use weft_warp_loop.Core.Slots.{WellFormed}
use weft_warp_loop.Zones.Curve.{to_u64, quantize_axis, halvings, interleave, hilbert_index_of_grid}
use weft_warp_loop.Zones.Ghost.{Mover, within_ghost_range, ghost_expansion}
use weft_warp_loop.Zones.Area.{
  ZoneRange, EntityRecord, Zone, range_contains, holds, authority_for_index,
}
use weft_warp_loop.Zones.Octree.{
  range_length, strip_twos, zone_range_depth, octree_children, eight_children, leaf_cost,
  split_cost, split_is_cheaper,
}
use weft_warp_loop.Zones.World.{
  ZoneWorld, fresh_record, live_from, live_zones, zone_at, world_authority, authority_for,
  move_entity_to_index,
}
use weft_warp_loop.Zones.Targets.{origin, targets_for_index}
use weft_warp_loop.Zones.Split.{within, child_populations, maybe_split_zone}
use weft_warp_loop.Zones.Tiles.{hits, octree_children-tile}
use weft_warp_loop.Zones.Distance.{CanMeet, within_ghost_range-CanMeet}
use weft_warp_loop.Zones.Population.{times, population}
use weft_warp_loop.Zones.Moved.{Once, slots_of}
use weft_warp_loop.Zones.Arrival.{move_entity_to_index-stale}
use weft_warp_loop.Zones.Started.{whole_curve, first_zone, zone_alloc-authority_for}
use weft_warp_loop.Zones.Interest.{TargetsResult, targets_for_index-TargetsResult}
use weft_warp_loop.Zones.Splitting.{maybe_split_zone-loses}
use weft_warp_loop.Zones.Placed.{WellPlaced, move_entity_to_index-WellPlaced}
use weft_warp_loop.Zones.Exports.{zone_alloc, initial_world}
use weft_warp_loop.Zones.Merging.{maybe_merge_siblings-keeps}
use weft_warp_loop.Zones.Merge.{maybe_merge_siblings, family_of, sibling_at, free_all, sub_all}
use weft_warp_loop.Zones.Octree.{parent_range}
use weft_warp_loop.Zones.World.{free_zone, alloc_zone}
use weft_warp_loop.Zones.Area.{zone_sub, enter}
use weft_warp_loop.Core.SlotMap.{free, alloc, update}
use weft_warp_loop.Base.{◌*◌, set}

-- One zone over the whole curve, which holds the connection 5, and room for seven more.
abbrev resident : EntityRecord
resident = fresh_record 5 0 origin 0 0 0 0

abbrev one_zone : Zone
one_zone = record { range = whole_curve; entities = resident ∷ [] }

abbrev vacancies : List (ℕ × Option Zone)
vacancies = (0, none) ∷ (0, none) ∷ (0, none) ∷ (0, none) ∷ (0, none) ∷ (0, none) ∷ (0, none) ∷ []

abbrev small_world : ZoneWorld
small_world = record {
  zones = record {
    slots = (1, some one_zone) ∷ vacancies;
    free_list = 1 ∷ 2 ∷ 3 ∷ 4 ∷ 5 ∷ 6 ∷ 7 ∷ [];
  };
  bits = 21;
}

small_world-WellFormed : WellFormed small_world.zones
unfolding get_elem?
small_world-WellFormed = record {
  vacant = here (here (here (here (here (here (here tt))))));
  distinct = omega arith;
}
  where
    here :
        {P : Type 0}
        → P
        → ((g : ℕ) × (◌≡◌ {A = Option (ℕ × Option Zone)} (some (0, none)) (some (g, none)))) × P
    here p = ((0, refl), p)

small_world-Once : Once small_world
unfolding population times
small_world-Once = record { small = omega arith; once = λ c. ground arith }

small_world-WellPlaced : WellPlaced small_world
unfolding range_contains
small_world-WellPlaced = record {
  well = small_world-WellFormed;
  world = small_world-Once;
  fits = (
    record { ordered = omega arith; below = omega arith; size = omega arith; inside = (refl, tt) },
    (tt, (tt, (tt, (tt, (tt, (tt, (tt, tt))))))),
  );
}

-- The connection 5 again, elsewhere in its zone.
abbrev nearby : EntityRecord
nearby = fresh_record 5 7 origin 1 0 0 0

small_world-authority : world_authority small_world 7 ≡ some first_zone
unfolding world_authority live_from authority_for_index range_contains get_elem?
small_world-authority = refl

small_world-find : find small_world.zones first_zone ≡ some one_zone
unfolding find get_elem?
small_world-find = refl

one_zone-holds : holds 5 one_zone.entities ≡ true
unfolding holds
one_zone-holds = refl

move_entity_to_index-stale_example : move_entity_to_index small_world nearby ≡ small_world
move_entity_to_index-stale_example =
    move_entity_to_index-stale small_world nearby first_zone one_zone small_world-Once
      small_world-authority small_world-find one_zone-holds

move_entity_to_index-WellPlaced_example :
    WellPlaced (move_entity_to_index small_world (fresh_record 6 7 origin 1 0 0 0))
move_entity_to_index-WellPlaced_example =
    move_entity_to_index-WellPlaced small_world (fresh_record 6 7 origin 1 0 0 0)
      small_world-WellPlaced

targets_for_index-TargetsResult_example :
    TargetsResult 6
      (map zone_at (live_zones small_world))
      one_zone
      (targets_for_index small_world 6 7)
unfolding live_from authority_for_index range_contains get_elem?
targets_for_index-TargetsResult_example =
    targets_for_index-TargetsResult small_world 6 7 0 one_zone seen there
  where
    seen : authority_for_index (map zone_at (live_zones small_world)) 7 ≡ some 0
    seen = refl

    there : get_elem? (map zone_at (live_zones small_world)) 0 ≡ some one_zone
    there = refl

-- A world of one slot, with four entities in four of the eight cells of its zone.
abbrev cube : ZoneRange
cube = record { start = 0; stop = 8 }

abbrev four : List EntityRecord
four =
    fresh_record 1 0 origin 0 0 0 0
    ∷ fresh_record 2 1 origin 0 0 0 0
    ∷ fresh_record 3 2 origin 0 0 0 0
    ∷ fresh_record 4 3 origin 0 0 0 0
    ∷ []

abbrev crowded : Zone
crowded = record { range = cube; entities = four }

abbrev full_world : ZoneWorld
full_world = record { zones = record { slots = (1, some crowded) ∷ []; free_list = [] }; bits = 1 }

cube-children : octree_children 1 cube ≡ some (eight_children cube)
unfolding octree_children zone_range_depth range_length strip_twos
cube-children = refl

octree_children-tile_example :
    hits 3 (eight_children cube) ≡ (if range_contains cube 3 then 1 else 0)
octree_children-tile_example =
    octree_children-tile 1 cube (eight_children cube) 3 (omega arith) (omega arith) cube-children

crowded-cheaper : split_is_cheaper 4 (child_populations four (eight_children cube)) ≡ true
unfolding split_is_cheaper within split_cost leaf_cost range_contains range_length
crowded-cheaper = refl

full_world-WellFormed : WellFormed full_world.zones
full_world-WellFormed = record { vacant = tt; distinct = tt }

full_world-find : find full_world.zones first_zone ≡ some crowded
unfolding find get_elem?
full_world-find = refl

maybe_split_zone-loses_example :
    population 3 (slots_of (maybe_split_zone full_world first_zone)) + times 3 four
    ≡ population 3 full_world.zones.slots
maybe_split_zone-loses_example =
    maybe_split_zone-loses full_world first_zone crowded (eight_children cube) 3 full_world-find
      full_world-WellFormed cube-children crowded-cheaper (omega arith)

zone_alloc-authority_for_example :
    ((zone_alloc 0 (2 ^ 63) (initial_world 64)).0 ≡ pack first_zone)
    × (authority_for (zone_alloc 0 (2 ^ 63) (initial_world 64)).1 origin ≡ some first_zone)
zone_alloc-authority_for_example = zone_alloc-authority_for 64 origin (omega arith)

abbrev walker : Mover
walker = record {
  pos = record { x = pos 100; y = negsuc 4; z = pos 0 };
  vx = 10;
  vy = 1;
  vz = 0;
  lookahead = 6;
}

abbrev standing : Mover
standing = record {
  pos = record { x = pos 150; y = pos 0; z = pos 0 };
  vx = 0;
  vy = 0;
  vz = 0;
  lookahead = 6;
}

within_ghost_range-CanMeet_example :
    (within_ghost_range walker standing ≡ true → CanMeet walker standing)
    × (CanMeet walker standing → within_ghost_range walker standing ≡ true)
within_ghost_range-CanMeet_example =
    within_ghost_range-CanMeet walker standing
      (record { x = omega arith; y = omega arith; z = omega arith })
      (record { x = omega arith; y = omega arith; z = omega arith })
      (record { x = omega arith; y = omega arith; z = omega arith })

-- A step below zero is at the other end of the grid, above every position that is not negative.
below_zero : quantize_axis 21 (negsuc 0) ≡ 2 ^ 21 - 1
unfolding quantize_axis to_u64
below_zero = refl

-- The reach of a fast entity wraps, and is none.
reach_wraps : ghost_expansion (2 ^ 60) 0 16 ≡ 0
unfolding ghost_expansion
reach_wraps = refl

abbrev corner : ℕ → ℕ
corner i = hilbert_index_of_grid 1 (i / 4) (i / 2 % 2) (i % 2)

-- The eight cells of a cube in the order of the curve.
corners : map corner (0 ∷ 1 ∷ 2 ∷ 3 ∷ 4 ∷ 5 ∷ 6 ∷ 7 ∷ []) ≡ 0 ∷ 1 ∷ 3 ∷ 2 ∷ 7 ∷ 6 ∷ 4 ∷ 5 ∷ []
unfolding hilbert_index_of_grid halvings interleave
corners = refl
