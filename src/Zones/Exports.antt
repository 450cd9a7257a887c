-- ===== src/Zones/Exports.antt =====
-- The exports over zones of Ffi.lean, and the zones as the kernels take them.
use weft_warp_loop.Base.{ℕ, Option, none, some, List, [], ◌∷◌, if◌then◌else◌}
use weft_warp_loop.Ffi.{sentinel}
use weft_warp_loop.Wire.Decimal.{ℤ}
use weft_warp_loop.Core.SlotMap.{SlotId, pack, unpack}
use weft_warp_loop.Core.Kernels.{Zones}
use weft_warp_loop.Zones.Curve.{Pos3, hilbert_3d}
use weft_warp_loop.Zones.Area.{Zone, holds}
use weft_warp_loop.Zones.World.{
  ZoneWorld, empty_world, live_zones, alloc_zone, free_zone, authority_for, move_entity_v,
  move_entity_to_index, fresh_record, remove_entity,
}
use weft_warp_loop.Zones.Targets.{targets_for, origin}
use weft_warp_loop.Zones.Split.{maybe_split_zone}
use weft_warp_loop.Zones.Merge.{maybe_merge_siblings}

-- `zoneBits`, and the zones of `State.initial`.
abbrev pub zone_bits : ℕ
zone_bits = 21

abbrev pub initial_world : ℕ → ZoneWorld
initial_world capacity = empty_world capacity zone_bits

abbrev pub point : ℤ → ℤ → ℤ → Pos3
point x y z = record { x = x; y = y; z = z }

abbrev pub zone_alloc_result : ZoneWorld → Option (ZoneWorld × SlotId) → ℕ × ZoneWorld
zone_alloc_result w none = (sentinel, w)
zone_alloc_result w (some (w', id)) = (pack id, w')

-- `zoneAlloc` and `zoneFree`.
unfoldable pub zone_alloc : ℕ → ℕ → ZoneWorld → ℕ × ZoneWorld
zone_alloc start stop w = zone_alloc_result w (alloc_zone w (record { start = start; stop = stop }))

unfoldable pub zone_free : ℕ → ZoneWorld → ZoneWorld
zone_free id w = free_zone w (unpack id)

abbrev pub split_there : ZoneWorld → Option SlotId → ZoneWorld
split_there w none = w
split_there w (some id) = maybe_split_zone w id

-- `rebalanceAfterMove`.
unfoldable pub rebalance_after_move : ZoneWorld → Pos3 → ZoneWorld
rebalance_after_move w p = split_there w (authority_for w p)

-- `entityMoveV`.
unfoldable pub entity_move_v : ℕ → ℤ → ℤ → ℤ → ℕ → ℕ → ℕ → ℕ → ZoneWorld → ZoneWorld
unfolding rebalance_after_move move_entity_v
entity_move_v c x y z vx vy vz rtt w =
    rebalance_after_move (move_entity_v w c (point x y z) vx vy vz rtt) (point x y z)

-- `entityMove`, with no speed, no sample of the round-trip time, and the default position, which is
-- the origin: `moveEntity` passes on the index of the position and not the position.
unfoldable pub entity_move : ℕ → ℤ → ℤ → ℤ → ZoneWorld → ZoneWorld
unfolding rebalance_after_move move_entity_to_index
entity_move c x y z w =
    rebalance_after_move
      (move_entity_to_index w (fresh_record c (hilbert_3d w.bits (point x y z)) origin 0 0 0 0))
      (point x y z)

-- `find?` on the live zones: the first that holds the entity.
unfoldable pub first_holder : ℕ → List (SlotId × Zone) → Option SlotId
first_holder c [] = none
first_holder c ((id, z) ∷ live) =
    let rest = first_holder c live in if holds c z.entities then some id else rest

abbrev pub merge_there : ZoneWorld → Option SlotId → ZoneWorld
merge_there w none = w
merge_there w (some id) = maybe_merge_siblings w id

-- `entityRemove`.
unfoldable pub entity_remove : ℕ → ZoneWorld → ZoneWorld
unfolding remove_entity maybe_merge_siblings first_holder
entity_remove c w = merge_there (remove_entity w c) (first_holder c (live_zones w))

-- `zoneTargets`.
unfoldable pub zone_targets : ℕ → ℤ → ℤ → ℤ → ZoneWorld → List ℕ
zone_targets c x y z w = targets_for w c (point x y z)

-- What Core/Kernels takes.
abbrev pub fanout_zones : Zones
fanout_zones = record {
  World = ZoneWorld;
  entity_move_v = entity_move_v;
  entity_remove = entity_remove;
  zone_targets = zone_targets;
}
