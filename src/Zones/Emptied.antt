-- ===== src/Zones/Emptied.antt =====
-- What the loops that expel an entity do to the counts.
use weft_warp_loop.Base.{
  ℕ, zero, suc, ◌+◌, ◌%◌, ◌^◌, ◌≤◌, ◌<◌, ◌≡◌, ◌≢◌, refl, ap, inl, inr, Bool, true, false, Option,
  none, some, List, [], ◌∷◌, ==_iff, ==-refl, if◌then◌else◌, Bool-cases, length, get_elem?, arith,
}
use weft_warp_loop.Core.SlotMap.{SlotId}
use weft_warp_loop.Zones.Area.{Zone, holds, zone_unsub}
use weft_warp_loop.Zones.World.{same_id}
use weft_warp_loop.Zones.Population.{
  times, slot_times, population, times-expel_self, times-expel_ne, times-not_holds, expel_absent,
  population-slot,
}
use weft_warp_loop.Zones.Expelled.{slot_id, expel_slot, expel_slots}

-- Other connections keep their counts.
slot_times-expel_ne :
    (skip : SlotId → Bool) (c d i : ℕ) (s : ℕ × Option Zone)
    → d ≢ c
    → slot_times c (expel_slot skip d i s) ≡ slot_times c s
unfolding zone_unsub
slot_times-expel_ne skip c d i (g, none) h = refl
slot_times-expel_ne skip c d i (g, some z) h = ground (arith, times-expel_ne c d z.entities)

pub population-expel_ne :
    (skip : SlotId → Bool) (c d i : ℕ) (ss : List (ℕ × Option Zone))
    → d ≢ c
    → population c (expel_slots skip d i ss) ≡ population c ss
unfolding population expel_slots
population-expel_ne skip c d i [] h = refl
population-expel_ne skip c d i (s ∷ ss) h =
    omega (arith, slot_times-expel_ne skip c d i s h, population-expel_ne skip c d (suc i) ss h)

slot_times-expel_self :
    (skip : SlotId → Bool) (c i : ℕ) (s : ℕ × Option Zone)
    → skip (slot_id i s.0) ≡ false
    → slot_times c (expel_slot skip c i s) ≡ 0
unfolding zone_unsub
slot_times-expel_self skip c i (g, none) h = refl
slot_times-expel_self skip c i (g, some z) h = elim (Bool-cases (holds c z.entities)) [
  | inl there ↦ rw (h, there) (times-expel_self c z.entities)
  | inr gone ↦ rw (h, gone) (times-not_holds c z.entities gone)
]

-- With no zone left out, the connection is gone.
pub population-expel_all :
    (c i : ℕ) (ss : List (ℕ × Option Zone)) → population c (expel_slots (λ id. false) c i ss) ≡ 0
unfolding population expel_slots
population-expel_all c i [] = refl
population-expel_all c i (s ∷ ss) =
    omega (arith, slot_times-expel_self (λ id. false) c i s refl, population-expel_all c (suc i) ss)

abbrev pub but : SlotId → SlotId → Bool
but id other = same_id other id

but-index : (id : SlotId) (i g : ℕ) → i ≢ id.index → i < 2 ^ 32 → but id (slot_id i g) ≡ false
but-index id i g h b =
    let small : i % 2 ^ 32 ≡ i = omega arith in rw small (ground (arith, ==_iff i id.index))

population-expel_later :
    (id : SlotId) (c i : ℕ) (ss : List (ℕ × Option Zone))
    → id.index < i
    → i + length ss ≤ 2 ^ 32
    → population c (expel_slots (but id) c i ss) ≡ 0
unfolding population expel_slots
population-expel_later id c i [] h b = refl
population-expel_later id c i (s ∷ ss) h b = omega (
  arith,
  slot_times-expel_self (but id) c i s
      (but-index id i s.0 (λ e. absurd (omega (arith, e, h))) (omega arith)),
  population-expel_later id c (suc i) ss (omega arith) (omega arith),
)

-- The slot of the zone that is left out stays as it is.
pub get_elem?-expel :
    (id : SlotId) (c i k : ℕ) (ss : List (ℕ × Option Zone)) (z : Zone)
    → i + k ≡ id.index
    → i + length ss ≤ 2 ^ 32
    → get_elem? ss k ≡ some (id.generation, some z)
    → get_elem? (expel_slots (but id) c i ss) k ≡ some (id.generation, some z)
unfolding expel_slots get_elem?
get_elem?-expel id c i k [] z h b e = absurd (ground arith)
get_elem?-expel id c i zero (s ∷ ss) z h b e =
    let here : s ≡ (id.generation, some z) = some_eq e in
    let small : i % 2 ^ 32 ≡ id.index = omega arith in
    rw (here, small, ==-refl id.index, ==-refl id.generation) refl
  where
    some_eq :
        ◌≡◌ {A = Option (ℕ × Option Zone)} (some s) (some (id.generation, some z))
        → s ≡ (id.generation, some z)
    some_eq q = cc
get_elem?-expel id c i (suc k) (s ∷ ss) z h b e =
    get_elem?-expel id c (suc i) k ss z (omega arith) (omega arith) e

-- With that zone left out, what is left of the connection is what stands there.
pub population-expel_but :
    (id : SlotId) (c i k : ℕ) (ss : List (ℕ × Option Zone)) (z : Zone)
    → i + k ≡ id.index
    → i + length ss ≤ 2 ^ 32
    → get_elem? ss k ≡ some (id.generation, some z)
    → population c (expel_slots (but id) c i ss) ≡ times c z.entities
unfolding expel_slots get_elem? population
population-expel_but id c i k [] z h b e = absurd (ground arith)
population-expel_but id c i zero (s ∷ ss) z h b e =
    let here : s ≡ (id.generation, some z) = some_eq e in
    let small : i % 2 ^ 32 ≡ id.index = omega arith in
    rw (here, small, ==-refl id.index, ==-refl id.generation)
      (omega (arith, population-expel_later id c (suc i) ss (omega arith) (omega arith)))
  where
    some_eq :
        ◌≡◌ {A = Option (ℕ × Option Zone)} (some s) (some (id.generation, some z))
        → s ≡ (id.generation, some z)
    some_eq q = cc
population-expel_but id c i (suc k) (s ∷ ss) z h b e = omega (
  arith,
  slot_times-expel_self (but id) c i s
      (but-index id i s.0 (λ e'. absurd (omega (arith, e', h))) (omega arith)),
  population-expel_but id c (suc i) k ss z (omega arith) (omega arith) e,
)

slot_absent :
    (skip : SlotId → Bool) (c i : ℕ) (s : ℕ × Option Zone)
    → slot_times c s ≡ 0
    → expel_slot skip c i s ≡ s
unfolding zone_unsub
slot_absent skip c i (g, none) h = refl
slot_absent skip c i (g, some z) h = rw (expel_absent c z.entities h) (if_same _ (g, some z))
  where
    if_same : (b : Bool) (x : ℕ × Option Zone) → (if b then x else x) ≡ x
    if_same true x = refl
    if_same false x = refl

-- A loop that finds nothing changes nothing.
pub expel_slots_absent :
    (skip : SlotId → Bool) (c i : ℕ) (ss : List (ℕ × Option Zone))
    → population c ss ≡ 0
    → expel_slots skip c i ss ≡ ss
unfolding expel_slots population
expel_slots_absent skip c i [] h = refl
expel_slots_absent skip c i (s ∷ ss) h =
    rw (slot_absent skip c i s (omega arith), expel_slots_absent skip c (suc i) ss (omega arith))
      refl

-- A loop that leaves out the only zone with the connection changes nothing.
pub expel_slots_only :
    (id : SlotId) (c i k : ℕ) (ss : List (ℕ × Option Zone)) (z : Zone)
    → i + k ≡ id.index
    → i + length ss ≤ 2 ^ 32
    → get_elem? ss k ≡ some (id.generation, some z)
    → 0 < times c z.entities
    → population c ss ≤ 1
    → expel_slots (but id) c i ss ≡ ss
unfolding expel_slots population get_elem?
expel_slots_only id c i k [] z h b e t o = refl
expel_slots_only id c i zero (s ∷ ss) z h b e t o =
    let here : s ≡ (id.generation, some z) = some_eq e in
    let counts : slot_times c s ≡ times c z.entities = ap (slot_times c) here in
    let small : i % 2 ^ 32 ≡ id.index = omega arith in
    rw (expel_slots_absent (but id) c (suc i) ss (omega (arith, counts))) (
      ap (λ (x : ℕ × Option Zone). x ∷ ss)
        (rw (here, small, ==-refl id.index, ==-refl id.generation) refl))
  where
    some_eq :
        ◌≡◌ {A = Option (ℕ × Option Zone)} (some s) (some (id.generation, some z))
        → s ≡ (id.generation, some z)
    some_eq q = cc
expel_slots_only id c i (suc k) (s ∷ ss) z h b e t o =
    let there : times c z.entities ≤ population c ss =
      population-slot c ss k (id.generation, some z) e in
    rw
      (
        slot_absent (but id) c i s (omega (arith, there)),
        expel_slots_only id c (suc i) k ss z (omega arith) (omega arith) e t (omega (arith, there)),
      )
      refl
