-- ===== src/Zones/Hysteresis.antt =====
-- `ZoneWorld.moveEntityToIndexHysteresisV` (ZoneDispatch.lean): authority moves only after an entity
-- has pointed at the same other zone often enough in a row.
use weft_warp_loop.Base.{
  ℕ, ◌+◌, ◌%◌, ◌^◌, Bool, Option, none, some, List, [], ◌∷◌, leb, if◌then◌else◌, length,
}
use weft_warp_loop.Core.SlotMap.{SlotId, find, update}
use weft_warp_loop.Zones.Ghost.{hysteresis_ticks_for}
use weft_warp_loop.Zones.Area.{
  EntityRecord, Zone, holds, zone_sub, zone_unsub, lookahead_ticks, authority_capacity,
}
use weft_warp_loop.Zones.World.{ZoneWorld, live_zones, world_authority, same_id}
use weft_warp_loop.Zones.Targets.{record_of}

-- The last of the live zones that holds the entity.
unfoldable pub holder : ℕ → List (SlotId × Zone) → Option SlotId → Option SlotId
holder c [] current = current
holder c ((id, z) ∷ live) current = holder c live (if holds c z.entities then some id else current)

abbrev pub is_pending : Option SlotId → SlotId → Bool
is_pending none id = Bool.false
is_pending (some p) id = same_id p id

-- The record as it was, or one without a streak.
abbrev pub streak_of : Option EntityRecord → SlotId → ℕ
streak_of none target = 1
streak_of (some old) target =
    if is_pending old.pending_zone target then (old.migration_streak + 1) % 2 ^ 64 else 1

-- The record that stays in its zone and waits.
abbrev pub waiting : EntityRecord → SlotId → ℕ → EntityRecord
waiting r target streak = record r { pending_zone = some target; migration_streak = streak }

-- Taken out of its zone and filed there anew.
abbrev pub refile : ZoneWorld → SlotId → Zone → EntityRecord → ZoneWorld
refile w id z r = record w { zones = update w.zones id (zone_sub (zone_unsub r.conn_id z) r) }

abbrev pub transfer :
    ZoneWorld → SlotId → Zone → SlotId → EntityRecord → ℕ → Option Zone → ZoneWorld
transfer w current z target r streak none = w
transfer w current z target r streak (some t) =
    if leb authority_capacity (length t.entities)
    then refile w current z (waiting r target streak)
    else record w {
      zones = update (update w.zones current (zone_unsub r.conn_id z)) target (zone_sub t r);
    }

-- The entity points at another zone than its own.
abbrev pub crossing : ZoneWorld → SlotId → Zone → SlotId → EntityRecord → ℕ → ZoneWorld
crossing w current z target r streak =
    if leb (hysteresis_ticks_for (lookahead_ticks r)) streak
    then transfer w current z target r streak (find w.zones target)
    else refile w current z (waiting r target streak)

abbrev pub moved_from : ZoneWorld → SlotId → SlotId → EntityRecord → Option Zone → ZoneWorld
moved_from w current target r none = w
moved_from w current target r (some z) =
    if same_id current target
    then refile w current z r
    else crossing w current z target r (streak_of (record_of r.conn_id z.entities) target)

abbrev pub dropped_from : ZoneWorld → SlotId → EntityRecord → Option Zone → ZoneWorld
dropped_from w id r none = w
dropped_from w id r (some z) = record w { zones = update w.zones id (zone_unsub r.conn_id z) }

abbrev pub placed_in : ZoneWorld → SlotId → EntityRecord → Option Zone → ZoneWorld
placed_in w id r none = w
placed_in w id r (some z) = record w { zones = update w.zones id (zone_sub z r) }

abbrev pub hysteresis_step : ZoneWorld → EntityRecord → Option SlotId → Option SlotId → ZoneWorld
hysteresis_step w r none none = w
hysteresis_step w r none (some current) = dropped_from w current r (find w.zones current)
hysteresis_step w r (some target) none = placed_in w target r (find w.zones target)
hysteresis_step w r (some target) (some current) =
    moved_from w current target r (find w.zones current)

-- `moveEntityToIndexHysteresisV`, on the record that it files, which has no pending zone.
unfoldable pub move_entity_hysteresis : ZoneWorld → EntityRecord → ZoneWorld
move_entity_hysteresis w r =
    hysteresis_step w r (world_authority w r.idx) (holder r.conn_id (live_zones w) none)
