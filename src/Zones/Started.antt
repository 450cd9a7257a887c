-- ===== src/Zones/Started.antt =====
-- The zones after the start of the kernels (fanoutCoreInitialize, fanout_core_ffi.cpp): one zone over
-- the whole curve.
use weft_warp_loop.Base.{ℕ, zero, suc, ◌^◌, ◌<◌, ◌≡◌, refl, true, some, get_elem?, set, arith}
use weft_warp_loop.Core.SlotMap.{SlotId, alloc, pack}
use weft_warp_loop.Zones.Curve.{Pos3, hilbert_3d}
use weft_warp_loop.Zones.Area.{ZoneRange, range_contains, authority_for_index}
use weft_warp_loop.Zones.World.{alloc_zone, live_from, world_authority, authority_for}
use weft_warp_loop.Zones.Exports.{zone_alloc, initial_world}
use weft_warp_loop.Zones.Bound.{hilbert_3d-lt}

abbrev pub whole_curve : ZoneRange
whole_curve = record { start = 0; stop = 2 ^ 63 }

abbrev pub first_zone : SlotId
first_zone = record { index = 0; generation = 1 }

whole_curve-contains : (p : Pos3) → range_contains whole_curve (hilbert_3d 21 p) ≡ true
unfolding range_contains
whole_curve-contains p =
    let below : hilbert_3d 21 p < 2 ^ 63 = omega (arith, hilbert_3d-lt 21 p (omega arith)) in
    ground (arith, below)

-- With at least one slot, the zone over [0, 2^63) that the start allocates gets the id of index 0
-- and generation 1, and it is the authority of every position.
pub zone_alloc-authority_for :
    (capacity : ℕ) (p : Pos3)
    → 0 < capacity
    → ((zone_alloc 0 (2 ^ 63) (initial_world capacity)).0 ≡ pack first_zone)
      × (authority_for (zone_alloc 0 (2 ^ 63) (initial_world capacity)).1 p ≡ some first_zone)
unfolding zone_alloc alloc_zone alloc world_authority live_from authority_for_index get_elem? set
zone_alloc-authority_for zero p h = absurd (omega arith)
zone_alloc-authority_for (suc n) p h = (refl, rw (whole_curve-contains p) refl)
