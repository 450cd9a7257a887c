-- ===== src/Core/Slots.antt =====
-- The slot map's contract: an id finds its own entry, and nothing else, until it is freed.
use weft_warp_loop.Base.{
  ℕ, suc, ◌%◌, ◌^◌, ◌≡◌, ◌≢◌, refl, sym, ap, ◌∙◌, inl, inr, Option, none, some, List, [], ◌∷◌, ◌==◌,
  ==_iff, get_elem?, set, get_elem?-set, get_elem?-set_ne, arith, All, Bool-cases,
}
use weft_warp_loop.Core.SlotMap.{
  SlotId, SlotMap, find, find_slot, alloc, alloc_from, alloc_at, free, free_slot, update,
  update_slot,
}

-- No index stands twice in the list.
abbrev pub Distinct : List ℕ → Type 0
Distinct [] = Unit
Distinct (i ∷ is) = All (λ j. i ≢ j) is × Distinct is

module _ {A : Type 0} where
  -- A slot that is there and holds nothing.
  abbrev pub Vacant : List (ℕ × Option A) → ℕ → Type 0
  Vacant slots i = (g : ℕ) × (get_elem? slots i ≡ some (g, none))

  -- The free list names vacant slots, each once.
  pub record WellFormed (m : SlotMap A) : Type 0 where
    pub vacant : All (Vacant m.slots) m.free_list
    pub distinct : Distinct m.free_list

  Vacant-set :
      (slots : List (ℕ × Option A)) (i : ℕ) (c : ℕ × Option A) (j : ℕ)
      → i ≢ j
      → Vacant slots j
      → Vacant (set slots i c) j
  Vacant-set slots i c j h (g, e) = (g, get_elem?-set_ne slots i j c h ∙ e)

  Vacant-All :
      (slots : List (ℕ × Option A)) (i : ℕ) (c : ℕ × Option A) (is : List ℕ)
      → All (λ j. i ≢ j) is
      → All (Vacant slots) is
      → All (Vacant (set slots i c)) is
  Vacant-All slots i c [] h v = tt
  Vacant-All slots i c (j ∷ is) (h, hs) (v, vs) =
      (Vacant-set slots i c j h v, Vacant-All slots i c is hs vs)

  -- What an allocation gives: the slot at the head of the free list, one generation on.
  pub record Allocated (m : SlotMap A) (v : A) (m' : SlotMap A) (id : SlotId) : Type 0 where
    pub free_eq : m.free_list ≡ id.index ∷ m'.free_list
    pub before : ℕ
    pub was : get_elem? m.slots id.index ≡ some (before, none)
    pub next_generation : id.generation ≡ suc before % 2 ^ 32
    pub slots_eq : m'.slots ≡ set m.slots id.index (id.generation, some v)

  -- Allocation fails when the free list is empty, and only then.
  abbrev pub AllocResult : SlotMap A → A → Option (SlotMap A × SlotId) → Type 0
  AllocResult m v none = m.free_list ≡ []
  AllocResult m v (some (m', id)) = Allocated m v m' id

  alloc_at-Allocated :
      (m : SlotMap A) (v : A) (i : ℕ) (rest : List ℕ) (g : ℕ)
      → m.free_list ≡ i ∷ rest
      → get_elem? m.slots i ≡ some (g, none)
      → AllocResult m v (alloc_at m v i rest (some (g, none)))
  alloc_at-Allocated m v i rest g f w = record {
    free_eq = f;
    before = g;
    was = w;
    next_generation = refl;
    slots_eq = refl;
  }

  alloc_from-AllocResult :
      (m : SlotMap A) (v : A) (l : List ℕ)
      → m.free_list ≡ l
      → All (Vacant m.slots) l
      → AllocResult m v (alloc_from m v l)
  alloc_from-AllocResult m v [] f w = f
  alloc_from-AllocResult m v (i ∷ l) f ((g, h), _) =
      rw (h, alloc_at) (alloc_at-Allocated m v i l g f h)

  -- In a well-formed slot map an allocation fails exactly when the free list is empty, and
  -- otherwise takes the slot at the back of the free list, which held nothing, advances its
  -- generation modulo 2^32, and puts the value there.
  pub alloc_lem : (m : SlotMap A) (v : A) → WellFormed m → AllocResult m v (alloc m v)
  unfolding alloc
  alloc_lem m v wf = alloc_from-AllocResult m v m.free_list refl wf.vacant

  -- The new id finds the new entry.
  pub alloc-find :
      (m : SlotMap A) (v : A) (m' : SlotMap A) (id : SlotId)
      → Allocated m v m' id
      → find m' id ≡ some v
  unfolding find
  alloc-find m v m' id a =
      rw (a.slots_eq, get_elem?-set m.slots id.index (id.generation, some v) (a.before, none) a.was)
        (ground (arith, ==_iff id.generation id.generation))

  pub find_slot-none : (g gen : ℕ) → find_slot {A = A} (some (g, none)) gen ≡ none
  find_slot-none g gen = ground arith

  -- An allocation leaves every entry that an id found before: the same id finds the same entry
  -- after it.
  pub alloc-find_other :
      (m : SlotMap A) (v : A) (m' : SlotMap A) (id other : SlotId) (w : A)
      → Allocated m v m' id
      → find m other ≡ some w
      → find m' other ≡ some w
  unfolding find
  alloc-find_other m v m' id other w a h = elim (Bool-cases (id.index == other.index)) [
    | inl same ↦
        let none_there : find_slot (get_elem? m.slots other.index) other.generation ≡ none =
          rw (← (==_iff id.index other.index).0 same, a.was)
            (find_slot-none a.before other.generation) in
        absurd (ground arith)
    | inr apart ↦
        rw
          (
            a.slots_eq,
            get_elem?-set_ne m.slots id.index other.index (id.generation, some v)
                (ground (arith, apart)),
          )
          h
  ]

module _ {A : Type 0} where
  pub alloc-WellFormed :
      (m : SlotMap A) (v : A) (m' : SlotMap A) (id : SlotId)
      → WellFormed m
      → Allocated m v m' id
      → WellFormed m'
  alloc-WellFormed m v m' id wf a =
      let (_, vs) = rw a.free_eq at wf.vacant in
      let (apart, ds) = rw a.free_eq at wf.distinct in
      record {
        vacant =
            rw a.slots_eq
              (Vacant-All m.slots id.index (id.generation, some v) m'.free_list apart vs);
        distinct = ds;
      }

  -- A vacant slot is none of the occupied ones.
  occupied-apart :
      (slots : List (ℕ × Option A)) (i g : ℕ) (v : A)
      → get_elem? slots i ≡ some (g, some v)
      → (is : List ℕ) → All (Vacant slots) is
      → All (λ j. i ≢ j) is
  occupied-apart slots i g v e [] h = tt
  occupied-apart slots i g v e (j ∷ is) ((g', f), h) = (
    (λ same. absurd (clash (sym e ∙ ap (get_elem? slots) same ∙ f))),
    occupied-apart slots i g v e is h,
  )
    where
      clash : ◌≡◌ {A = Option (ℕ × Option A)} (some (g, some v)) (some (g', none)) → ⊥
      clash q = ground arith

  -- What the operations on a slot in use leave: either nothing changed, or it was the id's slot.
  pub data Touched (m : SlotMap A) (id : SlotId) : SlotMap A → Type 0 where
    kept : Touched m id m
    freed :
        (v : A)
        → get_elem? m.slots id.index ≡ some (id.generation, some v)
        → Touched m id (record {
          slots = set m.slots id.index (id.generation, none);
          free_list = id.index ∷ m.free_list;
        })
    updated :
        (v w : A)
        → get_elem? m.slots id.index ≡ some (id.generation, some v)
        → Touched m id (record m { slots = set m.slots id.index (id.generation, some w) })

  free_slot-Touched :
      (m : SlotMap A) (id : SlotId) (r : Option (ℕ × Option A))
      → get_elem? m.slots id.index ≡ r
      → Touched m id (free_slot m id r)
  free_slot-Touched m id none e = kept
  free_slot-Touched m id (some (g, none)) e = elim (Bool-cases (g == id.generation)) [
    | inl same ↦ rw same kept
    | inr apart ↦ rw apart kept
  ]
  free_slot-Touched m id (some (g, some v)) e = elim (Bool-cases (g == id.generation)) [
    | inl same ↦
        let here : g ≡ id.generation = (==_iff g id.generation).0 same in
        rw (same, here) (freed v (rw here at e))
    | inr apart ↦ rw apart kept
  ]

  update_slot-Touched :
      (m : SlotMap A) (id : SlotId) (w : A) (r : Option (ℕ × Option A))
      → get_elem? m.slots id.index ≡ r
      → Touched m id (update_slot m id w r)
  update_slot-Touched m id w none e = kept
  update_slot-Touched m id w (some (g, none)) e = elim (Bool-cases (g == id.generation)) [
    | inl same ↦ rw same kept
    | inr apart ↦ rw apart kept
  ]
  update_slot-Touched m id w (some (g, some v)) e = elim (Bool-cases (g == id.generation)) [
    | inl same ↦
        let here : g ≡ id.generation = (==_iff g id.generation).0 same in
        rw (same, here) (updated v w (rw here at e))
    | inr apart ↦ rw apart kept
  ]

  Touched-WellFormed :
      (m : SlotMap A) (id : SlotId) (m' : SlotMap A)
      → WellFormed m
      → Touched m id m'
      → WellFormed m'
  Touched-WellFormed m id m' wf kept = wf
  Touched-WellFormed m id m' wf (freed v e) =
      let apart = occupied-apart m.slots id.index id.generation v e m.free_list wf.vacant in
      record {
        vacant = (
          (
            id.generation,
            get_elem?-set m.slots id.index (id.generation, none) (id.generation, some v) e,
          ),
          Vacant-All m.slots id.index (id.generation, none) m.free_list apart wf.vacant,
        );
        distinct = (apart, wf.distinct);
      }
  Touched-WellFormed m id m' wf (updated v w e) =
      let apart = occupied-apart m.slots id.index id.generation v e m.free_list wf.vacant in
      record {
        vacant = Vacant-All m.slots id.index (id.generation, some w) m.free_list apart wf.vacant;
        distinct = wf.distinct;
      }

  -- Freeing any id, also one that is stale or out of range, keeps the free list a list of vacant
  -- slots without repetition.
  pub free-WellFormed : (m : SlotMap A) (id : SlotId) → WellFormed m → WellFormed (free m id)
  unfolding free
  free-WellFormed m id wf =
      Touched-WellFormed m id _ wf (free_slot-Touched m id (get_elem? m.slots id.index) refl)

  pub update-WellFormed :
      (m : SlotMap A) (id : SlotId) (w : A) → WellFormed m → WellFormed (update m id w)
  unfolding update
  update-WellFormed m id w wf =
      Touched-WellFormed m id _ wf (update_slot-Touched m id w (get_elem? m.slots id.index) refl)
