-- ===== src/Zones/Octree.antt =====
-- Cells of the octree along the curve, and what a split costs (Partition.lean).
use weft_warp_loop.Base.{
  ℕ, zero, suc, ◌+◌, ◌-◌, ◌*◌, ◌/◌, ◌%◌, ◌^◌, Bool, ◌&&◌, Option, none, some, List, [], ◌∷◌, ◌==◌,
  leb, ltb, if◌then◌else◌,
}
use weft_warp_loop.Zones.Area.{ZoneRange}

-- The UInt64 difference `r.stop - r.start`.
unfoldable pub range_length : ZoneRange → ℕ
range_length r = (r.stop + 2 ^ 64 - r.start) % 2 ^ 64

-- `while rem > 1 && rem % 2 == 0`, on fuel: what is left, and how often it was halved. 64 rounds are
-- more than a UInt64 has bits.
unfoldable pub strip_twos : ℕ → ℕ → ℕ → ℕ × ℕ
strip_twos zero n levels = (n, levels)
strip_twos (suc f) n levels =
    let rest = strip_twos f (n / 2) (suc levels) in
    if ltb 1 n && (n % 2 == 0) then rest else (n, levels)

abbrev pub octree_max_depth : ℕ → ℕ
octree_max_depth bits = bits

abbrev pub depth_of : ℕ → ZoneRange → ℕ → ℕ × ℕ → Option ℕ
depth_of bits r len (n, levels) =
    if n == 1 && (levels % 3 == 0)
    then (if ltb bits (levels / 3)
        then none
        else if r.start % len == 0
        then some (bits - levels / 3)
        else none)
    else none

-- `zoneRangeDepth`.
unfoldable pub zone_range_depth : ℕ → ZoneRange → Option ℕ
zone_range_depth bits r =
    let len = range_length r in if len == 0 then none else depth_of bits r len (strip_twos 64 len 0)

-- The `i`-th child, in UInt64 arithmetic.
abbrev pub child : ZoneRange → ℕ → ZoneRange
child r i =
    let len = range_length r / 8 in
    record { start = (r.start + i * len) % 2 ^ 64; stop = (r.start + (i + 1) * len) % 2 ^ 64 }

abbrev pub eight_children : ZoneRange → List ZoneRange
eight_children r =
    child r 0
    ∷ child r 1
    ∷ child r 2
    ∷ child r 3
    ∷ child r 4
    ∷ child r 5
    ∷ child r 6
    ∷ child r 7
    ∷ []

abbrev pub children_at : ℕ → ZoneRange → Option ℕ → Option (List ZoneRange)
children_at bits r none = none
children_at bits r (some d) =
    if leb (octree_max_depth bits) d then none else some (eight_children r)

-- `octreeChildren`.
unfoldable pub octree_children : ℕ → ZoneRange → Option (List ZoneRange)
octree_children bits r = children_at bits r (zone_range_depth bits r)

abbrev pub parent_at : ZoneRange → Option ℕ → Option ZoneRange
parent_at r none = none
parent_at r (some d) =
    let len = range_length r * 8 % 2 ^ 64 in
    let start = (r.start + 2 ^ 64 - r.start % len) % 2 ^ 64 in
    if d == 0 then none else some (record { start = start; stop = (start + len) % 2 ^ 64 })

-- `parentRange` (ZoneDispatch.lean).
unfoldable pub parent_range : ℕ → ZoneRange → Option ZoneRange
parent_range bits r = parent_at r (zone_range_depth bits r)

unfoldable pub leaf_cost : ℕ → ℕ
leaf_cost population = population * population

abbrev pub zone_overhead : ℕ
zone_overhead = 1

unfoldable pub split_cost : List ℕ → ℕ
split_cost [] = 0
split_cost (p ∷ ps) = leaf_cost p + zone_overhead + split_cost ps

-- `splitIsCheaper`.
unfoldable pub split_is_cheaper : ℕ → List ℕ → Bool
split_is_cheaper population children = ltb (split_cost children) (leaf_cost population)
