-- ===== src/Core/Partial.antt =====
-- The slot map as a partial map from ids to entries: what each id finds after an operation.
use weft_warp_loop.Base.{
  ℕ, ◌≡◌, refl, sym, inl, inr, Bool, ◌&&◌, Option, none, some, List, [], ◌==◌, ==_iff,
  if◌then◌else◌, get_elem?, set, get_elem?-set, get_elem?-set_ne, arith, Bool-cases,
}
use weft_warp_loop.Core.SlotMap.{
  SlotId, SlotMap, find, find_slot, alloc, free, free_slot, update, update_slot,
}
use weft_warp_loop.Core.Slots.{WellFormed, AllocResult, alloc_lem, find_slot-none}

abbrev pub same_id : SlotId → SlotId → Bool
same_id i j = i.index == j.index && i.generation == j.generation

module _ {A : Type 0} where
  -- A slot that is replaced changes what its own ids find, and no other.
  find_replaced :
      (slots : List (ℕ × Option A)) (id j : SlotId) (old new : ℕ × Option A) (r : Option A)
      → get_elem? slots id.index ≡ some old
      → (find_slot (some new) j.generation
          ≡ (if id.generation == j.generation then r else find_slot (some old) j.generation))
      → find_slot (get_elem? (set slots id.index new) j.index) j.generation
        ≡ (if same_id id j then r else find_slot (get_elem? slots j.index) j.generation)
  find_replaced slots id j old new r at h = elim (Bool-cases (id.index == j.index)) [
    | inl same ↦
        let here : id.index ≡ j.index = (==_iff id.index j.index).0 same in
        rw (same, ← here, get_elem?-set slots id.index new old at, at) h
    | inr apart ↦
        rw (apart, get_elem?-set_ne slots id.index j.index new (ground (arith, apart))) refl
  ]

  -- Either there is no free slot, or the id is one that found nothing, and then it finds the value
  -- and every other id what it found.
  abbrev pub OneMore : SlotMap A → A → Option (SlotMap A × SlotId) → Type 0
  OneMore m v none = m.free_list ≡ []
  OneMore m v (some (m', id)) =
      (find m id ≡ none) × ((j : SlotId) → find m' j ≡ (if same_id id j then some v else find m j))

  put-find :
      (old gen j : ℕ) (v : A)
      → find_slot (some (gen, some v)) j
        ≡ (if gen == j then some v else find_slot (some (old, none)) j)
  put-find old gen j v = elim (Bool-cases (gen == j)) [
    | inl same ↦ rw same refl
    | inr apart ↦ rw apart (sym (find_slot-none {A = A} old j))
  ]

  OneMore-AllocResult :
      (m : SlotMap A) (v : A) (r : Option (SlotMap A × SlotId)) → AllocResult m v r → OneMore m v r
  unfolding find
  OneMore-AllocResult m v none a = a
  OneMore-AllocResult m v (some (m', id)) a = (
    rw a.was (find_slot-none a.before id.generation),
    λ j. rw a.slots_eq (
        find_replaced m.slots id j (a.before, none) (id.generation, some v) (some v) a.was
          (put-find a.before id.generation j.generation v)),
  )

  take-find :
      (gen j : ℕ) (v : A)
      → find_slot (some (gen, none)) j
        ≡ (if gen == j then none else find_slot (some (gen, some v)) j)
  take-find gen j v = elim (Bool-cases (gen == j)) [
    | inl same ↦ rw same refl
    | inr apart ↦ rw apart refl
  ]

  -- An id that finds nothing may be left out.
  absent-find :
      (slots : List (ℕ × Option A)) (id j : SlotId)
      → find_slot (get_elem? slots id.index) id.generation ≡ none
      → find_slot (get_elem? slots j.index) j.generation
        ≡ (if same_id id j then none else find_slot (get_elem? slots j.index) j.generation)
  absent-find slots id j h = elim (Bool-cases (id.index == j.index)) [
    | inl same ↦ elim (Bool-cases (id.generation == j.generation)) [
      | inl gen ↦
          rw
            (
              same,
              gen,
              ← (==_iff id.index j.index).0 same,
              ← (==_iff id.generation j.generation).0 gen,
            )
            h
      | inr apart ↦ rw (same, apart) refl
    ]
    | inr apart ↦ rw apart refl
  ]

  free_slot-find_each :
      (m : SlotMap A) (id j : SlotId) (r : Option (ℕ × Option A))
      → get_elem? m.slots id.index ≡ r
      → find (free_slot m id r) j ≡ (if same_id id j then none else find m j)
  unfolding find
  free_slot-find_each m id j none e = absent-find m.slots id j (rw e refl)
  free_slot-find_each m id j (some (g, none)) e = elim (Bool-cases (g == id.generation)) [
    | inl same ↦ rw same (absent-find m.slots id j (rw e (find_slot-none g id.generation)))
    | inr apart ↦ rw apart (absent-find m.slots id j (rw e (find_slot-none g id.generation)))
  ]
  free_slot-find_each m id j (some (g, some v)) e = elim (Bool-cases (g == id.generation)) [
    | inl same ↦
        let here : g ≡ id.generation = (==_iff g id.generation).0 same in
        rw same (
          find_replaced m.slots id j (g, some v) (g, none) none e
            (rw here (take-find id.generation j.generation v)))
    | inr apart ↦ rw apart (absent-find m.slots id j (rw e (rw apart refl)))
  ]

  free-find_each :
      (m : SlotMap A) (id j : SlotId)
      → find (free m id) j ≡ (if same_id id j then none else find m j)
  unfolding free
  free-find_each m id j = free_slot-find_each m id j (get_elem? m.slots id.index) refl

  -- What an update leaves under an id: the new entry where there was one.
  abbrev pub replaced : Option A → A → Option A
  replaced none w = none
  replaced (some v) w = some w

  absent-replaced :
      (slots : List (ℕ × Option A)) (id j : SlotId) (w : A)
      → find_slot (get_elem? slots id.index) id.generation ≡ none
      → find_slot (get_elem? slots j.index) j.generation ≡ (
          if same_id id j
          then replaced (find_slot (get_elem? slots id.index) id.generation) w
          else find_slot (get_elem? slots j.index) j.generation)
  absent-replaced slots id j w h = rw h (absent-find slots id j h)

  keep-find :
      (gen j : ℕ) (v w : A)
      → find_slot (some (gen, some w)) j
        ≡ (if gen == j then some w else find_slot (some (gen, some v)) j)
  keep-find gen j v w = elim (Bool-cases (gen == j)) [
    | inl same ↦ rw same refl
    | inr apart ↦ rw apart refl
  ]

  update_slot-find_each :
      (m : SlotMap A) (id j : SlotId) (w : A) (r : Option (ℕ × Option A))
      → get_elem? m.slots id.index ≡ r
      → find (update_slot m id w r) j ≡ (if same_id id j then replaced (find m id) w else find m j)
  unfolding find
  update_slot-find_each m id j w none e = absent-replaced m.slots id j w (rw e refl)
  update_slot-find_each m id j w (some (g, none)) e = elim (Bool-cases (g == id.generation)) [
    | inl same ↦ rw same (absent-replaced m.slots id j w (rw e (find_slot-none g id.generation)))
    | inr apart ↦ rw apart (absent-replaced m.slots id j w (rw e (find_slot-none g id.generation)))
  ]
  update_slot-find_each m id j w (some (g, some v)) e = elim (Bool-cases (g == id.generation)) [
    | inl same ↦
        let here : g ≡ id.generation = (==_iff g id.generation).0 same in
        rw (same, e, same)
          (find_replaced m.slots id j (g, some v) (g, some w) (some w) e
            (rw here (keep-find id.generation j.generation v w)))
    | inr apart ↦ rw apart (absent-replaced m.slots id j w (rw e (rw apart refl)))
  ]

  update-find_each :
      (m : SlotMap A) (id j : SlotId) (w : A)
      → find (update m id w) j ≡ (if same_id id j then replaced (find m id) w else find m j)
  unfolding update
  update-find_each m id j w = update_slot-find_each m id j w (get_elem? m.slots id.index) refl

  -- The three operations as those of a partial map from ids.
  pub record IsPartialMap (m : SlotMap A) : Type 0 where
    pub allocates : (v : A) → OneMore m v (alloc m v)
    pub frees : (id j : SlotId) → find (free m id) j ≡ (if same_id id j then none else find m j)
    pub updates :
        (id j : SlotId) (w : A)
        → find (update m id w) j ≡ (if same_id id j then replaced (find m id) w else find m j)

  -- A well-formed slot map is a partial map from ids to entries. An allocation either has no free
  -- slot, or gives an id that found nothing before and finds the value after it, while every other
  -- id finds what it found before. After an id was freed it finds nothing, and every other id what
  -- it found before. After an update under an id it finds the new entry if it found one before and
  -- otherwise nothing, and every other id what it found before. Another generation of the same
  -- slot counts as another id.
  pub slot_map-IsPartialMap : (m : SlotMap A) → WellFormed m → IsPartialMap m
  slot_map-IsPartialMap m wf = record {
    allocates = λ v. OneMore-AllocResult m v (alloc m v) (alloc_lem m v wf);
    frees = λ id j. free-find_each m id j;
    updates = λ id j w. update-find_each m id j w;
  }
