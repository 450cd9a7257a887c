-- ===== src/Zones/Placed.antt =====
-- The invariant of the zones under moves: every record stands in the range of its zone, no zone is over
-- its capacity, and no connection stands twice.
use weft_warp_loop.Base.{
  ℕ, zero, suc, ◌^◌, ◌≤◌, ◌<◌, ◌≡◌, refl, ap, subst, ◌∙◌, inl, inr, true, false, not, ◌&&◌, Bool,
  Option, none, some, List, [], ◌∷◌, ◌==◌, ==_iff, leb, if_split, Bool-cases, length, length-append,
  get_elem?, set, All, All-append, arith,
}
use weft_warp_loop.Core.SlotMap.{SlotId, SlotMap}
use weft_warp_loop.Core.Slots.{WellFormed, update-WellFormed}
use weft_warp_loop.Zones.Area.{
  EntityRecord, Zone, range_contains, holds, enter, expel, zone_sub, zone_unsub, authority_capacity,
}
use weft_warp_loop.Zones.World.{
  ZoneWorld, live_zones, expel_live, world_authority, move_into, move_to, move_entity_to_index,
  remove_entity,
}
use weft_warp_loop.Zones.Population.{population, length-expel-le}
use weft_warp_loop.Zones.Expelled.{slot_id, expel_slots, expel_live_lem}
use weft_warp_loop.Zones.Emptied.{but, get_elem?-expel}
use weft_warp_loop.Zones.Authority.{world_authority-Governs, find-slot, update-slot}
use weft_warp_loop.Zones.Moved.{Once, slots_of, moved_slots, move_into_lem}
use weft_warp_loop.Zones.Arrival.{MoveResult, move_entity_to_index-MoveResult}

-- A zone of a proper range, within its capacity, whose records stand in its range.
pub record Fits (z : Zone) : Type 0 where
  pub ordered : z.range.start ≤ z.range.stop
  pub below : z.range.stop < 2 ^ 64
  pub size : length z.entities ≤ authority_capacity
  pub inside : All (λ r. range_contains z.range r.idx ≡ true) z.entities

abbrev pub FitsSlot : ℕ × Option Zone → Type 0
FitsSlot (g, none) = Unit
FitsSlot (g, some z) = Fits z

pub record WellPlaced (w : ZoneWorld) : Type 0 where
  pub well : WellFormed w.zones
  pub world : Once w
  pub fits : All FitsSlot w.zones.slots

All-expel :
    (P : EntityRecord → Type 0) (c : ℕ) (rs : List EntityRecord) → All P rs → All P (expel c rs)
unfolding expel
All-expel P c [] h = tt
All-expel P c (r ∷ rs) (h, hs) =
    if_split (All P) (r.conn_id == c) (expel c rs) (r ∷ expel c rs) (λ _. All-expel P c rs hs)
      (λ _. (h, All-expel P c rs hs))

zone_unsub-Fits : (c : ℕ) (z : Zone) → Fits z → Fits (zone_unsub c z)
unfolding zone_unsub
zone_unsub-Fits c z f = record {
  ordered = f.ordered;
  below = f.below;
  size = omega (arith, length-expel-le c z.entities, f.size);
  inside = All-expel _ c z.entities f.inside;
}

zone_sub-Fits :
    (r : EntityRecord) (z : Zone)
    → range_contains z.range r.idx ≡ true
    → Fits z
    → Fits (zone_sub z r)
unfolding zone_sub enter
zone_sub-Fits r z has f =
    if_split (λ rs. Fits (record z { entities = rs })) (holds r.conn_id z.entities) _ _ (λ _. f)
      (λ _.
        if_split (λ rs. Fits (record z { entities = rs })) _ _ _ (λ _. f)
          (λ room. record {
            ordered = f.ordered;
            below = f.below;
            size = ground (arith, room, length-append z.entities (r ∷ []));
            inside = All-append _ z.entities (r ∷ []) f.inside (has, tt);
          }))

expel_slots-Fits :
    (skip : SlotId → Bool) (c i : ℕ) (ss : List (ℕ × Option Zone))
    → All FitsSlot ss
    → All FitsSlot (expel_slots skip c i ss)
unfolding expel_slots
expel_slots-Fits skip c i [] h = tt
expel_slots-Fits skip c i ((g, none) ∷ ss) (h, hs) = (tt, expel_slots-Fits skip c (suc i) ss hs)
expel_slots-Fits skip c i ((g, some z) ∷ ss) (h, hs) = (
  if_split FitsSlot (not (skip (slot_id i g)) && holds c z.entities) (g, some (zone_unsub c z))
      (g, some z) (λ _. zone_unsub-Fits c z h) (λ _. h),
  expel_slots-Fits skip c (suc i) ss hs,
)

All-set :
    (P : ℕ × Option Zone → Type 0) (ss : List (ℕ × Option Zone)) (i : ℕ) (s : ℕ × Option Zone)
    → P s
    → All P ss
    → All P (set ss i s)
unfolding set
All-set P [] i s h hs = tt
All-set P (x ∷ ss) zero s h (_, hs) = (h, hs)
All-set P (x ∷ ss) (suc i) s h (k, hs) = (k, All-set P ss i s h hs)

pub All-get :
    (ss : List (ℕ × Option Zone)) (i g : ℕ) (z : Zone)
    → get_elem? ss i ≡ some (g, some z)
    → All FitsSlot ss
    → Fits z
unfolding get_elem?
All-get [] i g z e h = absurd (ground arith)
All-get (s ∷ ss) zero g z e (h, hs) = subst FitsSlot (some_eq e) h
  where
    some_eq : ◌≡◌ {A = Option (ℕ × Option Zone)} (some s) (some (g, some z)) → s ≡ (g, some z)
    some_eq q = cc
All-get (s ∷ ss) (suc i) g z e (h, hs) = All-get ss i g z e hs

length-set :
    (ss : List (ℕ × Option Zone)) (i : ℕ) (s : ℕ × Option Zone) → length (set ss i s) ≡ length ss
unfolding set
length-set [] i s = refl
length-set (x ∷ ss) zero s = refl
length-set (x ∷ ss) (suc i) s = ap (λ (n : ℕ). suc n) (length-set ss i s)

length-expel_slots :
    (skip : SlotId → Bool) (c i : ℕ) (ss : List (ℕ × Option Zone))
    → length (expel_slots skip c i ss) ≡ length ss
unfolding expel_slots
length-expel_slots skip c i [] = refl
length-expel_slots skip c i (s ∷ ss) = ap (λ (n : ℕ). suc n) (length-expel_slots skip c (suc i) ss)

expel_live-WellFormed :
    (skip : SlotId → Bool) (c : ℕ) (live : List (SlotId × Zone)) (m : SlotMap Zone)
    → WellFormed m
    → WellFormed (expel_live skip c live m)
unfolding expel_live
expel_live-WellFormed skip c [] m h = h
expel_live-WellFormed skip c ((id, z) ∷ live) m h =
    expel_live-WellFormed skip c live _
      (if_split WellFormed _ _ _ (λ _. update-WellFormed m id (zone_unsub c z) h) (λ _. h))

-- A move leaves at most one record of each connection.
move-Once :
    (w : ZoneWorld) (r : EntityRecord)
    → Once w
    → length (slots_of (move_entity_to_index w r)) ≡ length w.zones.slots
    → Once (move_entity_to_index w r)
move-Once w r o same = record {
  small = omega (arith, same, o.small);
  once = λ c. elim (Bool-cases (r.conn_id == c)) [
    | inl own ↦
        rw (← (==_iff r.conn_id c).0 own)
          (own_once w r (move_entity_to_index w r) o (move_entity_to_index-MoveResult w r o).0)
    | inr other ↦ omega (
      arith,
      (move_entity_to_index-MoveResult w r o).1 c (λ e. ground (arith, other, e)),
      o.once c,
    )
  ];
}
  where
    own_once :
        (w : ZoneWorld) (r : EntityRecord) (w' : ZoneWorld)
        → Once w
        → MoveResult w r w'
        → population r.conn_id (slots_of w') ≤ 1
    own_once w r w' o (inl (_, gone)) = omega (arith, gone)
    own_once w r w' o (inr (id, z, e, f, inl (_, _, same))) = rw same (o.once r.conn_id)
    own_once w r w' o (inr (id, z, e, f, inr (_, one))) = omega (arith, one)

-- What else a move keeps.
pub record Kept (w w' : ZoneWorld) : Type 0 where
  pub well : WellFormed w'.zones
  pub fits : All FitsSlot w'.zones.slots
  pub count : length w'.zones.slots ≡ length w.zones.slots
  pub free : w'.zones.free_list ≡ w.zones.free_list
  pub bits : w'.bits ≡ w.bits

Kept-refl : (w : ZoneWorld) → WellPlaced w → Kept w w
Kept-refl w p = record { well = p.well; fits = p.fits; count = refl; free = refl; bits = refl }

expelled-WellFormed :
    (w : ZoneWorld) (skip : SlotId → Bool) (c : ℕ)
    → WellPlaced w
    → WellFormed (record w.zones { slots = expel_slots skip c 0 w.zones.slots })
expelled-WellFormed w skip c p =
    subst WellFormed (expel_live_lem skip c w.zones p.world.small)
      (expel_live-WellFormed skip c (live_zones w) w.zones p.well)

remove_entity-Kept : (w : ZoneWorld) (c : ℕ) → WellPlaced w → Kept w (remove_entity w c)
unfolding remove_entity
remove_entity-Kept w c p = rw (expel_live_lem (λ id. false) c w.zones p.world.small) (record {
  well = expelled-WellFormed w (λ id. false) c p;
  fits = expel_slots-Fits (λ id. false) c 0 w.zones.slots p.fits;
  count = length-expel_slots (λ id. false) c 0 w.zones.slots;
  free = refl;
  bits = refl;
})

module _ (w : ZoneWorld) (id : SlotId) (r : EntityRecord) (z : Zone) (p : WellPlaced w)
    (slot : get_elem? w.zones.slots id.index ≡ some (id.generation, some z))
    (has : range_contains z.range r.idx ≡ true) where
  abbrev after : SlotMap Zone
  after = record w.zones { slots = expel_slots (but id) r.conn_id 0 w.zones.slots }

  moved-Kept : Kept w (record w { zones = record w.zones { slots = moved_slots w id r z } })
  moved-Kept = record {
    well =
        subst WellFormed
          (update-slot after id z (zone_sub z r) (
            get_elem?-expel id r.conn_id 0 id.index w.zones.slots z (omega arith)
              (omega (arith, p.world.small)) slot))
          (update-WellFormed after id (zone_sub z r) (expelled-WellFormed w (but id) r.conn_id p));
    fits =
        All-set FitsSlot (expel_slots (but id) r.conn_id 0 w.zones.slots) id.index
          (id.generation, some (zone_sub z r))
          (zone_sub-Fits r z has (All-get w.zones.slots id.index id.generation z slot p.fits))
          (expel_slots-Fits (but id) r.conn_id 0 w.zones.slots p.fits);
    count =
        length-set (expel_slots (but id) r.conn_id 0 w.zones.slots) id.index
          (id.generation, some (zone_sub z r))
        ∙ length-expel_slots (but id) r.conn_id 0 w.zones.slots;
    free = refl;
    bits = refl;
  }

  move_into-Kept : Kept w (move_into w id r (some z))
  move_into-Kept =
      elim (Bool-cases
        (not (holds r.conn_id z.entities) && leb authority_capacity (length z.entities))) [
          | inl full ↦ rw full (Kept-refl w p)
          | inr room ↦ rw (move_into_lem w id r z p.world.small slot room) moved-Kept
        ]

move_to-Kept :
    (w : ZoneWorld) (r : EntityRecord) (a : Option SlotId)
    → world_authority w r.idx ≡ a
    → WellPlaced w
    → Kept w (move_to w r a)
move_to-Kept w r none e p = remove_entity-Kept w r.conn_id p
move_to-Kept w r (some id) e p =
    let g = world_authority-Governs w r.idx id p.world.small e in
    rw (find-slot w.zones id g.zone g.slot) (move_into-Kept w id r g.zone p g.slot g.has)

pub move_entity_to_index-Kept :
    (w : ZoneWorld) (r : EntityRecord) → WellPlaced w → Kept w (move_entity_to_index w r)
unfolding move_entity_to_index
move_entity_to_index-Kept w r p = move_to-Kept w r (world_authority w r.idx) refl p

-- A move keeps the invariant of the zones: every record stands in the range of its zone, no zone
-- has more than 256, no connection has two records, the ranges are proper, and the free list names
-- vacant slots, each once.
pub move_entity_to_index-WellPlaced :
    (w : ZoneWorld) (r : EntityRecord) → WellPlaced w → WellPlaced (move_entity_to_index w r)
move_entity_to_index-WellPlaced w r p =
    let k = move_entity_to_index-Kept w r p in
    record { well = k.well; world = move-Once w r p.world k.count; fits = k.fits }
