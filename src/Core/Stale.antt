-- ===== src/Core/Stale.antt =====
-- Ids that went stale, and entries that an operation on another id leaves alone.
use weft_warp_loop.Base.{
  ℕ, ◌≡◌, refl, inl, inr, Option, none, some, ◌==◌, ==_iff, ==-refl, get_elem?, get_elem?-set,
  arith, Bool-cases,
}
use weft_warp_loop.Core.SlotMap.{
  update, update_slot, SlotId, SlotMap, find, find_slot, free, free_slot,
}
use weft_warp_loop.Core.Slots.{find_slot-none}

module _ {A : Type 0} where
  free_slot-find :
      (m : SlotMap A) (id : SlotId) (r : Option (ℕ × Option A))
      → get_elem? m.slots id.index ≡ r
      → find_slot (get_elem? (free_slot m id r).slots id.index) id.generation ≡ none
  free_slot-find m id none e = rw e refl
  free_slot-find m id (some (g, none)) e = elim (Bool-cases (g == id.generation)) [
    | inl same ↦ rw (same, e) (find_slot-none g id.generation)
    | inr apart ↦ rw (apart, e) (find_slot-none g id.generation)
  ]
  free_slot-find m id (some (g, some v)) e = elim (Bool-cases (g == id.generation)) [
    | inl same ↦
        rw (same, get_elem?-set m.slots id.index (g, none) (g, some v) e)
          (find_slot-none g id.generation)
    | inr apart ↦ rw (apart, e) (rw apart refl)
  ]

  -- An id that was freed finds nothing, whatever it was.
  pub free-find : (m : SlotMap A) (id : SlotId) → find (free m id) id ≡ none
  unfolding find free
  free-find m id = free_slot-find m id (get_elem? m.slots id.index) refl

  find_slot-some :
      (r : Option (ℕ × Option A)) (gen : ℕ) (v : A)
      → find_slot r gen ≡ some v
      → r ≡ some (gen, some v)
  find_slot-some none gen v h = absurd (ground arith)
  find_slot-some (some (g, c)) gen v h = elim (Bool-cases (g == gen)) [
    | inl same ↦ rw ((==_iff g gen).0 same, rw same at h) refl
    | inr apart ↦ absurd (clash (rw apart at h))
  ]
    where
      clash : ◌≡◌ {A = Option A} none (some v) → ⊥
      clash q = ground arith

  -- An id finds its entry exactly when its slot is in use under its generation.
  pub find-slot :
      (m : SlotMap A) (id : SlotId) (v : A)
      → find m id ≡ some v
      → get_elem? m.slots id.index ≡ some (id.generation, some v)
  unfolding find
  find-slot m id v h = find_slot-some (get_elem? m.slots id.index) id.generation v h

module _ {A : Type 0} where
  -- What was put under an id in use is what it finds.
  pub update-find :
      (m : SlotMap A) (id : SlotId) (v w : A)
      → find m id ≡ some v
      → find (update m id w) id ≡ some w
  unfolding find update
  update-find m id v w h =
      let slot = find-slot m id v h in
      let there =
        get_elem?-set m.slots id.index (id.generation, some w) (id.generation, some v) slot in
      rw (slot, update_slot, ==-refl id.generation, there, ==-refl id.generation) refl
