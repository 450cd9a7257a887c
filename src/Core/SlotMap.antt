-- ===== src/Core/SlotMap.antt =====
-- `SlotMap` (fanout-core/Fanoutcore/SlotMap.lean): slots with generations, and the ids of
-- FanoutCore.lean as the single number that crosses the FFI.
use weft_warp_loop.Base.{
  ℕ, suc, zero, ◌+◌, ◌*◌, ◌/◌, ◌%◌, ◌^◌, ◌<◌, ◌≡◌, ◌&&◌, Option, none, some, List, [], ◌∷◌, ◌==◌,
  if◌then◌else◌, is_some, get_elem?, set, arith, refl,
}

-- `Id`, two 32-bit numbers.
pub record SlotId : Type 0 where
  pub index : ℕ
  pub generation : ℕ

-- The back of the array `freeList` is the head of `free_list`.
pub record SlotMap (A : Type 0) : Type 0 where
  pub slots : List (ℕ × Option A)
  pub free_list : List ℕ

abbrev pub replicate : {A : Type 0} → ℕ → A → List A
replicate zero a = []
replicate (suc n) a = a ∷ replicate n a

-- The numbers from `i` on, `n` of them.
abbrev pub range_from : ℕ → ℕ → List ℕ
range_from i zero = []
range_from i (suc n) = i ∷ range_from (suc i) n

module _ {A : Type 0} where
  -- `SlotMap.empty`.
  abbrev pub empty : ℕ → SlotMap A
  empty capacity = record {
    slots = replicate capacity (0, none);
    free_list = range_from 0 capacity;
  }

  abbrev pub find_slot : Option (ℕ × Option A) → ℕ → Option A
  find_slot none gen = none
  find_slot (some (g, v)) gen = if g == gen then v else none

  -- `SlotMap.find`.
  unfoldable pub find : SlotMap A → SlotId → Option A
  find m id = find_slot (get_elem? m.slots id.index) id.generation

  abbrev pub alloc_at :
      SlotMap A → A → ℕ → List ℕ → Option (ℕ × Option A) → Option (SlotMap A × SlotId)
  alloc_at m v idx rest none = none
  alloc_at m v idx rest (some (prev, _)) =
      let gen = suc prev % 2 ^ 32 in
      some (
        record { slots = set m.slots idx (gen, some v); free_list = rest },
        record { index = idx; generation = gen },
      )

  abbrev pub alloc_from : SlotMap A → A → List ℕ → Option (SlotMap A × SlotId)
  alloc_from m v [] = none
  alloc_from m v (idx ∷ rest) = alloc_at m v idx rest (get_elem? m.slots idx)

  -- `SlotMap.alloc`.
  unfoldable pub alloc : SlotMap A → A → Option (SlotMap A × SlotId)
  alloc m v = alloc_from m v m.free_list

  abbrev pub free_slot : SlotMap A → SlotId → Option (ℕ × Option A) → SlotMap A
  free_slot m id none = m
  free_slot m id (some (g, v)) =
      if g == id.generation && is_some v
      then record { slots = set m.slots id.index (g, none); free_list = id.index ∷ m.free_list }
      else m

  -- `SlotMap.free`: the generation stays.
  unfoldable pub free : SlotMap A → SlotId → SlotMap A
  free m id = free_slot m id (get_elem? m.slots id.index)

  abbrev pub update_slot : SlotMap A → SlotId → A → Option (ℕ × Option A) → SlotMap A
  update_slot m id v none = m
  update_slot m id v (some (g, cur)) =
      if g == id.generation && is_some cur
      then record m { slots = set m.slots id.index (g, some v) }
      else m

  -- `SlotMap.update`.
  unfoldable pub update : SlotMap A → SlotId → A → SlotMap A
  update m id v = update_slot m id v (get_elem? m.slots id.index)

-- `Id.pack` and `Id.unpack`; the two halves do not overlap.
unfoldable pub pack : SlotId → ℕ
pack id = id.index * 2 ^ 32 + id.generation

unfoldable pub unpack : ℕ → SlotId
unpack v = record { index = (v / 2 ^ 32) % 2 ^ 32; generation = v % 2 ^ 32 }

-- An id of two 32-bit numbers comes back from the single 64-bit number that it is packed into.
pub unpack-pack : (id : SlotId) → id.index < 2 ^ 32 → id.generation < 2 ^ 32 → unpack (pack id) ≡ id
unfolding unpack pack
unpack-pack id i g =
    let e : (id.index * 2 ^ 32 + id.generation) / 2 ^ 32 % 2 ^ 32 ≡ id.index = omega arith in
    let f : (id.index * 2 ^ 32 + id.generation) % 2 ^ 32 ≡ id.generation = omega arith in
    rw (e, f) refl
