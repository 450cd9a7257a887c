-- ===== src/Zones/Arrival.antt =====
-- How moves end: where the entity is afterwards, and what stays.
use weft_warp_loop.Base.{
  ℕ, suc, zero, ◌^◌, ◌≤◌, ◌<◌, ◌≡◌, ◌≢◌, refl, ap, sym, ◌∙◌, ◌⊎◌, inl, inr, true, false, not, ◌&&◌,
  Option, none, some, List, [], ◌∷◌, Bool-cases, length, leb, get_elem?, set, get_elem?-set, arith,
  Bool,
}
use weft_warp_loop.Core.SlotMap.{SlotId, SlotMap, find}
use weft_warp_loop.Zones.Area.{EntityRecord, Zone, holds, zone_sub, authority_capacity}
use weft_warp_loop.Zones.World.{
  ZoneWorld, world_authority, move_into, move_to, move_entity_to_index, remove_entity,
}
use weft_warp_loop.Zones.Population.{population, times-holds}
use weft_warp_loop.Zones.Expelled.{expel_slots, expel_live_lem}
use weft_warp_loop.Zones.Emptied.{but, population-expel_ne, population-expel_all, expel_slots_only}
use weft_warp_loop.Zones.Authority.{world_authority-Governs, find-slot}
use weft_warp_loop.Zones.Moved.{
  Once, slots_of, moved_slots, move_into_lem, kept_slot, moved_slots-others, moved_slots_self,
}

-- How a move into the zone that governs the index ends.
abbrev pub Arrived : ZoneWorld → SlotId → EntityRecord → Zone → ZoneWorld → Type 0
Arrived w id r z w' =
    ((holds r.conn_id z.entities ≡ false) × (authority_capacity ≤ length z.entities) × (w' ≡ w))
    ⊎ ((find w'.zones id ≡ some (zone_sub z r)) × (population r.conn_id (slots_of w') ≡ 1))

room_of_test :
    (c n : ℕ) (b : Bool)
    → (not b && leb authority_capacity n) ≡ false
    → (b ≡ true) ⊎ (n < authority_capacity)
room_of_test c n true h = inl refl
room_of_test c n false h = inr (ground arith)

full_of_test :
    (n : ℕ) (b : Bool)
    → (not b && leb authority_capacity n) ≡ true
    → (b ≡ false) × (authority_capacity ≤ n)
full_of_test n true h = absurd (ground arith)
full_of_test n false h = (refl, ground arith)

module _ (w : ZoneWorld) (id : SlotId) (r : EntityRecord) (z : Zone) (o : Once w)
    (e : get_elem? w.zones.slots id.index ≡ some (id.generation, some z)) where
  move_into-Arrived : Arrived w id r z (move_into w id r (some z))
  move_into-Arrived =
      elim (Bool-cases
        (not (holds r.conn_id z.entities) && leb authority_capacity (length z.entities))) [
          | inl full ↦
              let (gone, many) =
                full_of_test (length z.entities) (holds r.conn_id z.entities) full in
              rw full (inl (gone, many, refl))
          | inr open_zone ↦
              let room =
                room_of_test 0 (length z.entities) (holds r.conn_id z.entities) open_zone in
              rw (move_into_lem w id r z o.small e open_zone) (
                inr (
                  find-slot (record w.zones { slots = moved_slots w id r z }) id (zone_sub z r)
                      (get_elem?-set (expel_slots (but id) r.conn_id 0 w.zones.slots) id.index
                        (id.generation, some (zone_sub z r)) (id.generation, some z)
                        (kept_slot w id r z o e)),
                  moved_slots_self w id r z o e room,
                ))
        ]

  move_into-others :
      (c : ℕ)
      → r.conn_id ≢ c
      → population c (slots_of (move_into w id r (some z))) ≡ population c w.zones.slots
  move_into-others c h =
      elim (Bool-cases
        (not (holds r.conn_id z.entities) && leb authority_capacity (length z.entities))) [
          | inl full ↦ rw full refl
          | inr open_zone ↦
              rw (move_into_lem w id r z o.small e open_zone) (moved_slots-others w id r z o e c h)
        ]

-- How a move ends: no zone governs the index, and the entity is in no zone; or one does.
abbrev pub MoveResult : ZoneWorld → EntityRecord → ZoneWorld → Type 0
MoveResult w r w' =
    ((world_authority w r.idx ≡ none) × (population r.conn_id (slots_of w') ≡ 0))
    ⊎ ((id : SlotId) × (z : Zone) × (world_authority w r.idx ≡ some id)
        × (find w.zones id ≡ some z)
        × Arrived w id r z w')

pub remove_entity_lem :
    (w : ZoneWorld) (c : ℕ)
    → length w.zones.slots ≤ 2 ^ 32
    → slots_of (remove_entity w c) ≡ expel_slots (λ id. false) c 0 w.zones.slots
unfolding remove_entity
remove_entity_lem w c b =
    ap (λ (m : SlotMap Zone). m.slots) (expel_live_lem (λ id. false) c w.zones b)

pub remove_entity-others :
    (w : ZoneWorld) (c d : ℕ)
    → length w.zones.slots ≤ 2 ^ 32
    → d ≢ c
    → population c (slots_of (remove_entity w d)) ≡ population c w.zones.slots
remove_entity-others w c d b h =
    rw (remove_entity_lem w d b) (population-expel_ne (λ id. false) c d 0 w.zones.slots h)

pub remove_entity_self :
    (w : ZoneWorld) (c : ℕ)
    → length w.zones.slots ≤ 2 ^ 32
    → population c (slots_of (remove_entity w c)) ≡ 0
remove_entity_self w c b = rw (remove_entity_lem w c b) (population-expel_all c 0 w.zones.slots)

move_to-MoveResult :
    (w : ZoneWorld) (r : EntityRecord) (a : Option SlotId)
    → world_authority w r.idx ≡ a
    → Once w
    → MoveResult w r (move_to w r a)
move_to-MoveResult w r none e o = inl (e, remove_entity_self w r.conn_id o.small)
move_to-MoveResult w r (some id) e o =
    let g = world_authority-Governs w r.idx id o.small e in
    let found = find-slot w.zones id g.zone g.slot in
    inr (id, g.zone, e, found, rw found (move_into-Arrived w id r g.zone o g.slot))

move_to-others :
    (w : ZoneWorld) (r : EntityRecord) (a : Option SlotId) (c : ℕ)
    → world_authority w r.idx ≡ a
    → Once w
    → r.conn_id ≢ c
    → population c (slots_of (move_to w r a)) ≡ population c w.zones.slots
move_to-others w r none c e o h = remove_entity-others w c r.conn_id o.small h
move_to-others w r (some id) c e o h =
    let g = world_authority-Governs w r.idx id o.small e in
    rw (find-slot w.zones id g.zone g.slot) (move_into-others w id r g.zone o g.slot c h)

-- A move ends in one of these ways, and leaves the counts of all other connections.
pub move_entity_to_index-MoveResult :
    (w : ZoneWorld) (r : EntityRecord)
    → Once w
    → MoveResult w r (move_entity_to_index w r)
      × ((c : ℕ)
          → r.conn_id ≢ c
          → population c (slots_of (move_entity_to_index w r)) ≡ population c w.zones.slots)
unfolding move_entity_to_index
move_entity_to_index-MoveResult w r o = (
  move_to-MoveResult w r (world_authority w r.idx) refl o,
  λ c h. move_to-others w r (world_authority w r.idx) c refl o h,
)

set_same :
    (ss : List (ℕ × Option Zone)) (i : ℕ) (s : ℕ × Option Zone)
    → get_elem? ss i ≡ some s
    → set ss i s ≡ ss
unfolding get_elem? set
set_same [] i s e = refl
set_same (x ∷ ss) zero s e = rw (some_eq e) refl
  where
    some_eq : ◌≡◌ {A = Option (ℕ × Option Zone)} (some x) (some s) → x ≡ s
    some_eq q = cc
set_same (x ∷ ss) (suc i) s e = ap (◌∷◌ x) (set_same ss i s e)

zone_sub_there :
    (z : Zone) (r : EntityRecord) → holds r.conn_id z.entities ≡ true → zone_sub z r ≡ z
unfolding zone_sub
zone_sub_there z r h = rw h refl

-- A move of an entity within the zone that holds it changes nothing: its record keeps the old
-- index, position, speed and round-trip time, whatever the move says. It is assumed that no
-- connection has two records.
pub move_entity_to_index-stale :
    (w : ZoneWorld) (r : EntityRecord) (id : SlotId) (z : Zone)
    → Once w
    → world_authority w r.idx ≡ some id
    → find w.zones id ≡ some z
    → holds r.conn_id z.entities ≡ true
    → move_entity_to_index w r ≡ w
unfolding move_entity_to_index
move_entity_to_index-stale w r id z o e f h =
    let g = world_authority-Governs w r.idx id o.small e in
    let same : g.zone ≡ z = some_eq (sym (find-slot w.zones id g.zone g.slot) ∙ f) in
    let slot : get_elem? w.zones.slots id.index ≡ some (id.generation, some z) =
      rw same at g.slot in
    let still : moved_slots w id r z ≡ w.zones.slots =
      rw
        (
          zone_sub_there z r h,
          expel_slots_only id r.conn_id 0 id.index w.zones.slots z (omega arith)
              (omega (arith, o.small)) slot (times-holds r.conn_id z.entities h) (o.once r.conn_id),
        )
        (set_same w.zones.slots id.index (id.generation, some z) slot) in
    rw (e, f, move_into_lem w id r z o.small slot (rw h refl))
      (ap (λ (ss : List (ℕ × Option Zone)). record w { zones = record w.zones { slots = ss } })
        still)
  where
    some_eq : {a : Zone} → ◌≡◌ {A = Option Zone} (some a) (some z) → a ≡ z
    some_eq q = cc
