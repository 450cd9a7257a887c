-- ===== src/Zones/Moved.antt =====
-- The slots of the zones after a move into a zone.
use weft_warp_loop.Base.{
  ℕ, ◌^◌, ◌≤◌, ◌<◌, ◌≡◌, ◌≢◌, refl, ◌⊎◌, true, false, not, ◌&&◌, Option, some, List, length, leb,
  get_elem?, set, arith,
}
use weft_warp_loop.Core.SlotMap.{SlotId, SlotMap}
use weft_warp_loop.Zones.Area.{EntityRecord, Zone, holds, zone_sub, authority_capacity}
use weft_warp_loop.Zones.World.{ZoneWorld, move_into}
use weft_warp_loop.Zones.Population.{
  times, population, times-enter_ne, times-enter_self, population-set, population-slot,
}
use weft_warp_loop.Zones.Expelled.{expel_slots, expel_live_lem}
use weft_warp_loop.Zones.Emptied.{but, population-expel_ne, population-expel_but, get_elem?-expel}
use weft_warp_loop.Zones.Authority.{find-slot, update-slot}

abbrev pub slots_of : ZoneWorld → List (ℕ × Option Zone)
slots_of w = w.zones.slots

-- No connection has more than one record in the world, which has at most 2^32 slots.
pub record Once (w : ZoneWorld) : Type 0 where
  pub small : length w.zones.slots ≤ 2 ^ 32
  pub once : (c : ℕ) → population c w.zones.slots ≤ 1

-- The slots after a move into the zone `z` at `id`.
abbrev pub moved_slots : ZoneWorld → SlotId → EntityRecord → Zone → List (ℕ × Option Zone)
moved_slots w id r z =
    set (expel_slots (but id) r.conn_id 0 w.zones.slots) id.index
      (id.generation, some (zone_sub z r))

-- The move into a zone that is not refused.
pub move_into_lem :
    (w : ZoneWorld) (id : SlotId) (r : EntityRecord) (z : Zone)
    → length w.zones.slots ≤ 2 ^ 32
    → get_elem? w.zones.slots id.index ≡ some (id.generation, some z)
    → (not (holds r.conn_id z.entities) && leb authority_capacity (length z.entities)) ≡ false
    → move_into w id r (some z)
      ≡ record w { zones = record w.zones { slots = moved_slots w id r z } }
move_into_lem w id r z b e test =
    let kept =
      get_elem?-expel id r.conn_id 0 id.index w.zones.slots z (omega arith) (omega arith) e in
    let after : SlotMap Zone = record w.zones {
      slots = expel_slots (but id) r.conn_id 0 w.zones.slots;
    } in
    rw
      (
        test,
        expel_live_lem (but id) r.conn_id w.zones b,
        find-slot after id z kept,
        update-slot after id z (zone_sub z r) kept,
      )
      refl

module _ (w : ZoneWorld) (id : SlotId) (r : EntityRecord) (z : Zone) (o : Once w)
    (e : get_elem? w.zones.slots id.index ≡ some (id.generation, some z)) where
  pub kept_slot :
      get_elem? (expel_slots (but id) r.conn_id 0 w.zones.slots) id.index
      ≡ some (id.generation, some z)
  kept_slot =
      get_elem?-expel id r.conn_id 0 id.index w.zones.slots z (omega arith) (omega (arith, o.small))
        e

  pub moved_slots-others :
      (c : ℕ) → r.conn_id ≢ c → population c (moved_slots w id r z) ≡ population c w.zones.slots
  unfolding zone_sub
  moved_slots-others c h = omega (
    arith,
    population-set c (expel_slots (but id) r.conn_id 0 w.zones.slots) id.index
        (id.generation, some z) (id.generation, some (zone_sub z r)) kept_slot,
    population-expel_ne (but id) c r.conn_id 0 w.zones.slots h,
    times-enter_ne c r z.entities h,
  )

  pub moved_slots_self :
      (holds r.conn_id z.entities ≡ true) ⊎ (length z.entities < authority_capacity)
      → population r.conn_id (moved_slots w id r z) ≡ 1
  unfolding zone_sub
  moved_slots_self room =
      let before : times r.conn_id z.entities ≤ 1 = omega (
        arith,
        o.once r.conn_id,
        population-slot r.conn_id w.zones.slots id.index (id.generation, some z) e,
      ) in
      omega (
        arith,
        population-set r.conn_id (expel_slots (but id) r.conn_id 0 w.zones.slots) id.index
            (id.generation, some z) (id.generation, some (zone_sub z r)) kept_slot,
        population-expel_but id r.conn_id 0 id.index w.zones.slots z (omega arith)
            (omega (arith, o.small)) e,
        times-enter_self r z.entities room before,
      )
