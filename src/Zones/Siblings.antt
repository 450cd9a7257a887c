-- ===== src/Zones/Siblings.antt =====
-- The siblings that a merge finds at the children of a cell, and what is left when they are freed.
use weft_warp_loop.Base.{
  ℕ, suc, ◌+◌, ◌^◌, ◌≤◌, ◌≡◌, ◌≢◌, refl, sym, ap, subst, ◌∙◌, inl, inr, true, ◌&&◌, Option, none,
  some, List, [], ◌∷◌, ◌++◌, ◌==◌, Bool-cases, length, get_elem?, set, get_elem?-set_ne, All, arith,
}
use weft_warp_loop.Core.SlotMap.{SlotId, free}
use weft_warp_loop.Core.Slots.{WellFormed, free-WellFormed}
use weft_warp_loop.Zones.Area.{ZoneRange, EntityRecord, Zone, range_contains}
use weft_warp_loop.Zones.World.{ZoneWorld, world_authority, free_zone}
use weft_warp_loop.Zones.Merge.{
  Family, exact_zone, sibling_by, sibling_at, join_family, family_of, free_all,
}
use weft_warp_loop.Zones.Tiles.{hits}
use weft_warp_loop.Zones.Population.{times, population, times-append}
use weft_warp_loop.Zones.Authority.{world_authority-Governs, find-slot}
use weft_warp_loop.Zones.Splitting.{free-slot, free-counts, free-length}

-- A zone that stands just at a child range, which has its first index.
pub record Sibling (ss : List (ℕ × Option Zone)) (c : ZoneRange) (id : SlotId) (z : Zone)
    : Type 0 where
  pub slot : get_elem? ss id.index ≡ some (id.generation, some z)
  pub start_eq : z.range.start ≡ c.start
  pub stop_eq : z.range.stop ≡ c.stop
  pub has : range_contains z.range c.start ≡ true

pub data Kin (ss : List (ℕ × Option Zone))
    : List ZoneRange → List SlotId → List EntityRecord → Type 0 where
  alone : Kin ss [] [] []
  joined :
      (c : ZoneRange) (id : SlotId) (z : Zone) (cs : List ZoneRange) (ids : List SlotId)
      (rs : List EntityRecord)
      → Sibling ss c id z
      → Kin ss cs ids rs
      → Kin ss (c ∷ cs) (id ∷ ids) (z.entities ++ rs)

same_slot :
    {a b : Zone} {g h : ℕ} {o : Option (ℕ × Option Zone)}
    → o ≡ some (g, some a)
    → o ≡ some (h, some b)
    → a ≡ b
same_slot p q = some_eq (ap (λ (s : ℕ × Option Zone). s.1) (pair_eq (sym p ∙ q)))
  where
    pair_eq : {s t : ℕ × Option Zone} → some s ≡ some t → s ≡ t
    pair_eq e = cc

    some_eq : {a b : Zone} → some a ≡ some b → a ≡ b
    some_eq e = cc

contains_at :
    (r s : ZoneRange) (i : ℕ)
    → r.start ≡ s.start
    → r.stop ≡ s.stop
    → range_contains r i ≡ range_contains s i
unfolding range_contains
contains_at r s i a b = rw (a, b) refl

-- No later sibling stands in the slot of one whose first index no later child has.
Kin-apart :
    (ss : List (ℕ × Option Zone)) (c : ZoneRange) (id : SlotId) (z : Zone) (cs : List ZoneRange)
    (ids : List SlotId) (rs : List EntityRecord)
    → Sibling ss c id z
    → hits c.start cs ≡ 0
    → Kin ss cs ids rs
    → All (λ (j : SlotId). j.index ≢ id.index) ids
unfolding hits
Kin-apart ss c id z _ _ _ s h alone = tt
Kin-apart ss c id z _ _ _ s h (joined c' j y cs ids rs t kin) = (
  (λ e.
      let same : y ≡ z = same_slot {h = id.generation} t.slot (rw e s.slot) in
      let there : range_contains c' c.start ≡ true =
        sym (contains_at y.range c' c.start t.start_eq t.stop_eq)
        ∙ ap (λ (x : Zone). range_contains x.range c.start) same
        ∙ s.has in
      absurd (ground (arith, there))),
  Kin-apart ss c id z cs ids rs s (omega arith) kin,
)

-- The siblings stay when another slot is cleared.
Kin-set :
    (ss : List (ℕ × Option Zone)) (i : ℕ) (v : ℕ × Option Zone) (cs : List ZoneRange)
    (ids : List SlotId) (rs : List EntityRecord)
    → Kin ss cs ids rs
    → All (λ (j : SlotId). j.index ≢ i) ids
    → Kin (set ss i v) cs ids rs
Kin-set ss i v _ _ _ alone apart = alone
Kin-set ss i v _ _ _ (joined c j y cs ids rs t kin) (here, apart) =
    joined c j y cs ids rs
      (record {
        slot = get_elem?-set_ne ss i j.index v (λ e. here (sym e)) ∙ t.slot;
        start_eq = t.start_eq;
        stop_eq = t.stop_eq;
        has = t.has;
      })
      (Kin-set ss i v cs ids rs kin apart)

only_first :
    (c : ZoneRange) (cs : List ZoneRange)
    → hits c.start (c ∷ cs) ≤ 1
    → range_contains c c.start ≡ true
    → hits c.start cs ≡ 0
unfolding hits
only_first c cs h there = ground (arith, h, there)

later_hits : (c : ZoneRange) (cs : List ZoneRange) (i : ℕ) → hits i (c ∷ cs) ≤ 1 → hits i cs ≤ 1
unfolding hits
later_hits c cs i h = omega arith

-- What is left of a world when the siblings are freed.
pub record Freed (w w' : ZoneWorld) (ids : List SlotId) (rs : List EntityRecord) : Type 0 where
  pub well : WellFormed w'.zones
  pub counts : (c : ℕ) → population c w'.zones.slots + times c rs ≡ population c w.zones.slots
  pub vacated : length w'.zones.free_list ≡ length ids + length w.zones.free_list

pub free_all-Freed :
    (w : ZoneWorld) (cs : List ZoneRange) (ids : List SlotId) (rs : List EntityRecord)
    → WellFormed w.zones
    → ((i : ℕ) → hits i cs ≤ 1)
    → Kin w.zones.slots cs ids rs
    → Freed w (free_all ids w) ids rs
unfolding free_all times free_zone
free_all-Freed w [] _ _ wf once alone = record {
  well = wf;
  counts = λ c. omega arith;
  vacated = omega arith;
}
free_all-Freed w (c ∷ cs) _ _ wf once (joined _ id z _ ids rs s kin) =
    let first : range_contains c c.start ≡ true =
      sym (contains_at z.range c c.start s.start_eq s.stop_eq) ∙ s.has in
    let apart =
      Kin-apart w.zones.slots c id z cs ids rs s (only_first c cs (once c.start) first) kin in
    let kin' : Kin (free w.zones id).slots cs ids rs =
      rw (free-slot w id z s.slot)
        (Kin-set w.zones.slots id.index (id.generation, none) cs ids rs kin apart) in
    let rest =
      free_all-Freed (free_zone w id) cs ids rs (free-WellFormed w.zones id wf)
        (λ i. later_hits c cs i (once i)) kin' in
    record {
      well = rest.well;
      counts = λ d.
          omega (arith, rest.counts d, free-counts w id z s.slot d, times-append d z.entities rs);
      vacated = omega (arith, rest.vacated, free-length w id z s.slot);
    }

same_family : {f g : Family} → some f ≡ some g → f ≡ g
same_family e = cc

no_family : {f : Family} → none ≡ some f → ⊥
no_family e = cc

-- What the loop over the children gathers.
exact_zone-some :
    (c : ZoneRange) (id j : SlotId) (y z : Zone)
    → exact_zone c id (some y) ≡ some (j, z)
    → (id ≡ j) × ((y ≡ z) × ((z.range.start ≡ c.start) × (z.range.stop ≡ c.stop)))
exact_zone-some c id j y z e =
    elim (Bool-cases ((y.range.start == c.start) && (y.range.stop == c.stop))) [
      | inl exact ↦
          let (ids, zones) = pair_parts (rw exact at e) in
          (ids, (zones, (ground (arith, exact, zones), ground (arith, exact, zones))))
      | inr other ↦ absurd (clash (rw other at e))
    ]
  where
    clash : ◌≡◌ {A = Option (SlotId × Zone)} none (some (j, z)) → ⊥
    clash q = cc

    inner :
        ◌≡◌ {A = Option (SlotId × Zone)} (some (id, y)) (some (j, z))
        → ◌≡◌ {A = SlotId × Zone} (id, y) (j, z)
    inner q = cc

    pair_parts : ◌≡◌ {A = Option (SlotId × Zone)} (some (id, y)) (some (j, z)) → (id ≡ j) × (y ≡ z)
    pair_parts q =
        (ap (λ (p : SlotId × Zone). p.0) (inner q), ap (λ (p : SlotId × Zone). p.1) (inner q))

module _ (w : ZoneWorld) (small : length w.zones.slots ≤ 2 ^ 32) where
  sibling_by-Sibling :
      (c : ZoneRange) (o : Option SlotId) (id : SlotId) (z : Zone)
      → world_authority w c.start ≡ o
      → sibling_by w c o ≡ some (id, z)
      → Sibling w.zones.slots c id z
  sibling_by-Sibling c none id z a e = absurd (clash e)
    where
      clash : ◌≡◌ {A = Option (SlotId × Zone)} none (some (id, z)) → ⊥
      clash q = cc
  sibling_by-Sibling c (some j) id z a e =
      let g = world_authority-Governs w c.start j small a in
      let (ids, (zones, (start, stop))) =
        exact_zone-some c j id g.zone z (rw (find-slot w.zones j g.zone g.slot) at e) in
      record {
        slot = rw (← ids, ← zones) g.slot;
        start_eq = start;
        stop_eq = stop;
        has = rw (← zones) g.has;
      }

  pub family_of-Kin :
      (cs : List ZoneRange) (f : Family)
      → family_of w cs ≡ some f
      → Kin w.zones.slots cs f.ids f.members
  unfolding family_of sibling_at
  family_of-Kin [] f e =
      subst (λ (g : Family). Kin w.zones.slots [] g.ids g.members) (same_family e) alone
  family_of-Kin (c ∷ cs) f e =
      with_first (sibling_at w c) (family_of w cs) refl (λ g b. family_of-Kin cs g b) e
    where
      with_first :
          (p : Option (SlotId × Zone)) (q : Option Family)
          → sibling_at w c ≡ p
          → ((g : Family) → q ≡ some g → Kin w.zones.slots cs g.ids g.members)
          → join_family p q ≡ some f
          → Kin w.zones.slots (c ∷ cs) f.ids f.members
      with_first none q a b j = absurd (no_family j)
      with_first (some (id, z)) none a b j = absurd (no_family j)
      with_first (some (id, z)) (some g) a b j =
          subst (λ (g : Family). Kin w.zones.slots (c ∷ cs) g.ids g.members) (same_family j)
            (joined c id z cs g.ids g.members
              (sibling_by-Sibling c (world_authority w c.start) id z refl a) (b g refl))

pub length-Kin :
    (ss : List (ℕ × Option Zone)) (cs : List ZoneRange) (ids : List SlotId) (rs : List EntityRecord)
    → Kin ss cs ids rs
    → length ids ≡ length cs
length-Kin ss _ _ _ alone = refl
length-Kin ss _ _ _ (joined c id z cs ids rs s kin) = ap suc (length-Kin ss cs ids rs kin)
