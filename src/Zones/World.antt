-- ===== src/Zones/World.antt =====
-- `ZoneWorld` (ZoneDispatch.lean): the zones in a slot map, and the moves of entities between them.
use weft_warp_loop.Base.{
  ℕ, suc, ◌%◌, ◌^◌, Bool, false, not, ◌&&◌, Option, none, some, List, [], ◌∷◌, map, ◌==◌, leb,
  if◌then◌else◌, length, get_elem?,
}
use weft_warp_loop.Core.SlotMap
use weft_warp_loop.Core.SlotMap.{SlotId, SlotMap, find, alloc, free, update}
use weft_warp_loop.Zones.Curve.{Pos3, hilbert_3d}
use weft_warp_loop.Zones.Area.{
  ZoneRange, EntityRecord, Zone, holds, zone_sub, zone_unsub, authority_for_index,
  authority_capacity,
}

pub record ZoneWorld : Type 0 where
  pub zones : SlotMap Zone
  pub bits : ℕ

-- `ZoneWorld.empty`.
abbrev pub empty_world : ℕ → ℕ → ZoneWorld
empty_world capacity bits = record { zones = SlotMap.empty capacity; bits = bits }

abbrev pub live_slot : {A : Type 0} → ℕ → ℕ × Option A → List (SlotId × A) → List (SlotId × A)
live_slot i (g, none) rest = rest
live_slot i (g, some v) rest = (record { index = i % 2 ^ 32; generation = g }, v) ∷ rest

-- `SlotMap.liveEntries`, from slot `i` on.
unfoldable pub live_from : {A : Type 0} → ℕ → List (ℕ × Option A) → List (SlotId × A)
live_from i [] = []
live_from i (s ∷ ss) = live_slot i s (live_from (suc i) ss)

abbrev pub live_zones : ZoneWorld → List (SlotId × Zone)
live_zones w = live_from 0 w.zones.slots

abbrev pub zone_at : SlotId × Zone → Zone
zone_at (id, z) = z

abbrev pub new_zone : ZoneRange → Zone
new_zone r = record { range = r; entities = [] }

abbrev pub world_with : ZoneWorld → Option (SlotMap Zone × SlotId) → Option (ZoneWorld × SlotId)
world_with w none = none
world_with w (some (zones, id)) = some (record w { zones = zones }, id)

-- `ZoneWorld.allocZone` and `ZoneWorld.freeZone`.
unfoldable pub alloc_zone : ZoneWorld → ZoneRange → Option (ZoneWorld × SlotId)
alloc_zone w r = world_with w (alloc w.zones (new_zone r))

unfoldable pub free_zone : ZoneWorld → SlotId → ZoneWorld
free_zone w id = record w { zones = free w.zones id }

abbrev pub id_at : List (SlotId × Zone) → Option ℕ → Option SlotId
id_at live none = none
id_at live (some i) = elim (get_elem? live i) [ none ↦ none | some e ↦ some (e.0) ]

-- `ZoneWorld.authorityForIndex` and `ZoneWorld.authorityFor`.
unfoldable pub world_authority : ZoneWorld → ℕ → Option SlotId
unfolding get_elem?
world_authority w idx = id_at (live_zones w) (authority_for_index (map zone_at (live_zones w)) idx)

abbrev pub authority_for : ZoneWorld → Pos3 → Option SlotId
authority_for w p = world_authority w (hilbert_3d w.bits p)

-- `==` on ids.
abbrev pub same_id : SlotId → SlotId → Bool
same_id a b = (a.index == b.index) && (a.generation == b.generation)

-- The loops that expel an entity from the zones that hold it; `skip` says of which zone it is not.
unfoldable pub expel_live : (SlotId → Bool) → ℕ → List (SlotId × Zone) → SlotMap Zone → SlotMap Zone
expel_live skip c [] zones = zones
expel_live skip c ((id, z) ∷ live) zones =
    expel_live skip c live
      (if not (skip id) && holds c z.entities then update zones id (zone_unsub c z) else zones)

abbrev pub expelled : ZoneWorld → (SlotId → Bool) → ℕ → SlotMap Zone
expelled w skip c = expel_live skip c (live_zones w) w.zones

-- `ZoneWorld.removeEntity`.
unfoldable pub remove_entity : ZoneWorld → ℕ → ZoneWorld
remove_entity w c = record w { zones = expelled w (λ id. false) c }

abbrev pub enter_target : ZoneWorld → SlotId → EntityRecord → SlotMap Zone → Option Zone → ZoneWorld
enter_target w id r zones none = w
enter_target w id r zones (some z) = record w { zones = update zones id (zone_sub z r) }

-- The move into the zone `id`, unless it is full and does not hold the entity.
abbrev pub move_into : ZoneWorld → SlotId → EntityRecord → Option Zone → ZoneWorld
move_into w id r none = w
move_into w id r (some z) =
    if not (holds r.conn_id z.entities) && leb authority_capacity (length z.entities)
    then w
    else let zones = expelled w (λ other. same_id other id) r.conn_id in
      enter_target w id r zones (find zones id)

abbrev pub move_to : ZoneWorld → EntityRecord → Option SlotId → ZoneWorld
move_to w r none = remove_entity w r.conn_id
move_to w r (some id) = move_into w id r (find w.zones id)

-- `ZoneWorld.moveEntityToIndexV`, on the record that it files.
unfoldable pub move_entity_to_index : ZoneWorld → EntityRecord → ZoneWorld
unfolding remove_entity
move_entity_to_index w r = move_to w r (world_authority w r.idx)

abbrev pub fresh_record : ℕ → ℕ → Pos3 → ℕ → ℕ → ℕ → ℕ → EntityRecord
fresh_record c idx p vx vy vz rtt = record {
  conn_id = c;
  idx = idx;
  pos = p;
  vx = vx;
  vy = vy;
  vz = vz;
  rtt_ticks = rtt;
  pending_zone = none;
  migration_streak = 0;
}

-- `ZoneWorld.moveEntityV`.
unfoldable pub move_entity_v : ZoneWorld → ℕ → Pos3 → ℕ → ℕ → ℕ → ℕ → ZoneWorld
unfolding move_entity_to_index
move_entity_v w c p vx vy vz rtt =
    move_entity_to_index w (fresh_record c (hilbert_3d w.bits p) p vx vy vz rtt)
