-- ===== src/Zones/Authority.antt =====
-- The zone that `authorityForIndex` names is live, and its range has the index.
use weft_warp_loop.Base.{
  ℕ, suc, ◌+◌, ◌%◌, ◌^◌, ◌≤◌, ◌≡◌, refl, ap, ◌∙◌, sym, ◌⊎◌, inl, inr, true, false, Option, none,
  some, List, [], ◌∷◌, map, ==-refl, Bool-cases, length, get_elem?, set, arith,
}
use weft_warp_loop.Core.SlotMap.{SlotId, SlotMap, find, update}
use weft_warp_loop.Zones.Area.{Zone, range_contains, authority_for_index, next_index}
use weft_warp_loop.Zones.World.{ZoneWorld, live_from, live_zones, id_at, zone_at, world_authority}

-- An id stands beside a zone in the list of the live zones.
abbrev pub Entry : List (SlotId × Zone) → SlotId → Zone → Type 0
Entry [] id z = ⊥
Entry (e ∷ live) id z = (e ≡ (id, z)) ⊎ Entry live id z

id_at-next :
    (e : SlotId × Zone) (live : List (SlotId × Zone)) (o : Option ℕ)
    → id_at (e ∷ live) (next_index o) ≡ id_at live o
unfolding get_elem?
id_at-next e live none = refl
id_at-next e live (some i) = refl

none-some : (id : SlotId) → ◌≡◌ {A = Option SlotId} none (some id) → ⊥
none-some id e = cc

authority-Entry :
    (live : List (SlotId × Zone)) (idx : ℕ) (id : SlotId)
    → id_at live (authority_for_index (map zone_at live) idx) ≡ some id
    → (z : Zone) × Entry live id z × (range_contains z.range idx ≡ true)
unfolding authority_for_index get_elem?
authority-Entry [] idx id e = absurd (none-some id e)
authority-Entry ((j, z) ∷ live) idx id e = elim (Bool-cases (range_contains z.range idx)) [
  | inl there ↦ (z, inl (ap (λ (k : SlotId). (k, z)) (some_eq (first there))), there)
  | inr gone ↦ let (y, entry, has) = authority-Entry live idx id (later gone) in (y, inr entry, has)
]
  where
    some_eq : ◌≡◌ {A = Option SlotId} (some j) (some id) → j ≡ id
    some_eq q = cc

    first : range_contains z.range idx ≡ true → some j ≡ some id
    first there = rw there at e

    later :
        range_contains z.range idx ≡ false
        → id_at live (authority_for_index (map zone_at live) idx) ≡ some id
    later gone =
        let e' : id_at ((j, z) ∷ live) (next_index (authority_for_index (map zone_at live) idx))
            ≡ some id =
          rw gone at e in
        sym (id_at-next (j, z) live (authority_for_index (map zone_at live) idx)) ∙ e'

live_from-Entry :
    (i : ℕ) (ss : List (ℕ × Option Zone)) (id : SlotId) (z : Zone)
    → i + length ss ≤ 2 ^ 32
    → Entry (live_from i ss) id z
    → (k : ℕ) × (i + k ≡ id.index) × (get_elem? ss k ≡ some (id.generation, some z))
unfolding live_from get_elem?
live_from-Entry i [] id z b h = elim h [ ]
live_from-Entry i ((g, none) ∷ ss) id z b h =
    let (k, e, f) = live_from-Entry (suc i) ss id z (omega arith) h in (suc k, omega (arith, e), f)
live_from-Entry i ((g, some y) ∷ ss) id z b (inl here) =
    let small : i % 2 ^ 32 ≡ i = omega arith in
    let at_i : i % 2 ^ 32 ≡ id.index = ap (λ (e : SlotId × Zone). e.0.index) here in
    let gen : g ≡ id.generation = ap (λ (e : SlotId × Zone). e.0.generation) here in
    let zone : y ≡ z = ap (λ (e : SlotId × Zone). e.1) here in
    (0, omega (arith, small, at_i), rw (gen, zone) refl)
live_from-Entry i ((g, some y) ∷ ss) id z b (inr h) =
    let (k, e, f) = live_from-Entry (suc i) ss id z (omega arith) h in (suc k, omega (arith, e), f)

-- What the authority of an index comes to.
pub record Governs (w : ZoneWorld) (idx : ℕ) (id : SlotId) : Type 0 where
  pub zone : Zone
  pub slot : get_elem? w.zones.slots id.index ≡ some (id.generation, some zone)
  pub has : range_contains zone.range idx ≡ true

pub world_authority-Governs :
    (w : ZoneWorld) (idx : ℕ) (id : SlotId)
    → length w.zones.slots ≤ 2 ^ 32
    → world_authority w idx ≡ some id
    → Governs w idx id
unfolding world_authority
world_authority-Governs w idx id b e =
    let (z, entry, has) = authority-Entry (live_zones w) idx id e in
    let (k, at_k, slot) = live_from-Entry 0 w.zones.slots id z (omega arith) entry in
    let same : k ≡ id.index = omega (arith, at_k) in
    record { zone = z; slot = rw same at slot; has = has }

-- An id finds what stands in its slot with its generation.
pub find-slot :
    (m : SlotMap Zone) (id : SlotId) (z : Zone)
    → get_elem? m.slots id.index ≡ some (id.generation, some z)
    → find m id ≡ some z
unfolding find
find-slot m id z e = rw (e, ==-refl id.generation) refl

-- An update by such an id sets the slot.
pub update-slot :
    (m : SlotMap Zone) (id : SlotId) (z z' : Zone)
    → get_elem? m.slots id.index ≡ some (id.generation, some z)
    → update m id z' ≡ record m { slots = set m.slots id.index (id.generation, some z') }
unfolding update
update-slot m id z z' e = rw (e, ==-refl id.generation) refl
