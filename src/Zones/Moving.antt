-- ===== src/Zones/Moving.antt =====
-- The export that moves an entity and then splits the zone it is in (`entityMoveV`, Ffi.lean).
use weft_warp_loop.Base.{ℕ, ◌≤◌, ◌≡◌, refl, Option, none, some, length}
use weft_warp_loop.Wire.Decimal.{ℤ}
use weft_warp_loop.Core.SlotMap.{SlotId}
use weft_warp_loop.Zones.Curve.{Pos3, hilbert_3d}
use weft_warp_loop.Zones.Area.{EntityRecord, Zone}
use weft_warp_loop.Zones.World.{ZoneWorld, authority_for, fresh_record}
use weft_warp_loop.Zones.Population.{population}
use weft_warp_loop.Zones.Authority.{world_authority-Governs, find-slot}
use weft_warp_loop.Zones.Moved.{slots_of}
use weft_warp_loop.Zones.Splitting.{Intact, maybe_split_zone-keeps}
use weft_warp_loop.Zones.Placed.{Fits, WellPlaced, All-get}
use weft_warp_loop.Zones.Exports.{point, split_there, rebalance_after_move}

Fits-Intact : (w : ZoneWorld) (z : Zone) → WellPlaced w → Fits z → Intact w z
Fits-Intact w z p f = record {
  well = p.well;
  world = p.world;
  ordered = f.ordered;
  fits = f.below;
  size = f.size;
  inside = f.inside;
}

split_there-keeps :
    (w : ZoneWorld) (p : Pos3) (a : Option SlotId) (c : ℕ)
    → authority_for w p ≡ a
    → WellPlaced w
    → 7 ≤ length w.zones.free_list
    → population c (slots_of (split_there w a)) ≡ population c w.zones.slots
split_there-keeps w p none c e wp seven = refl
split_there-keeps w p (some id) c e wp seven =
    let g = world_authority-Governs w (hilbert_3d w.bits p) id wp.world.small e in
    maybe_split_zone-keeps w id g.zone c (find-slot w.zones id g.zone g.slot)
      (Fits-Intact w g.zone wp (All-get w.zones.slots id.index id.generation g.zone g.slot wp.fits))
      seven

-- A rebalancing with enough free slots changes no count.
pub rebalance_after_move-keeps :
    (w : ZoneWorld) (p : Pos3) (c : ℕ)
    → WellPlaced w
    → 7 ≤ length w.zones.free_list
    → population c (slots_of (rebalance_after_move w p)) ≡ population c w.zones.slots
unfolding rebalance_after_move
rebalance_after_move-keeps w p c wp seven =
    split_there-keeps w p (authority_for w p) c refl wp seven

-- The record that a move files.
abbrev pub filed : ℕ → ℤ → ℤ → ℤ → ℕ → ℕ → ℕ → ℕ → ZoneWorld → EntityRecord
filed c x y z vx vy vz rtt w =
    fresh_record c (hilbert_3d w.bits (point x y z)) (point x y z) vx vy vz rtt
