-- ===== src/Core/Tests.antt =====
-- The slot map and the rooms on concrete ids: runs, and the theorems applied to them.
use weft_warp_loop.Base.{ℕ, refl, none, some, [], ◌∷◌, get_elem?, set}
use weft_warp_loop.Core.SlotMap.{SlotId, SlotMap, free}
use weft_warp_loop.Core.Slots.{WellFormed, Allocated, free-WellFormed}
use weft_warp_loop.Core.Partial.{IsPartialMap, slot_map-IsPartialMap}
use weft_warp_loop.Core.Rooms.{Room}

-- Two slots, of which the first is in use for the third time.
abbrev busy : SlotMap ℕ
busy = record { slots = (3, some 40) ∷ (0, none) ∷ []; free_list = 1 ∷ [] }

abbrev first_id : SlotId
first_id = record { index = 0; generation = 3 }

busy-WellFormed : WellFormed busy
unfolding get_elem?
busy-WellFormed = record { vacant = ((0, refl), tt); distinct = (tt, tt) }

slot_map-IsPartialMap_example : IsPartialMap busy
slot_map-IsPartialMap_example = slot_map-IsPartialMap busy busy-WellFormed

abbrev fuller : SlotMap ℕ
fuller = record { slots = (3, some 40) ∷ (1, some 50) ∷ []; free_list = [] }

abbrev second_id : SlotId
second_id = record { index = 1; generation = 1 }

busy-Allocated : Allocated busy 50 fuller second_id
unfolding get_elem? set
busy-Allocated = record {
  free_eq = refl;
  before = 0;
  was = refl;
  next_generation = refl;
  slots_eq = refl;
}

free-WellFormed_example : WellFormed (free busy first_id)
free-WellFormed_example = free-WellFormed busy first_id busy-WellFormed

abbrev reused : SlotMap ℕ
reused = record { slots = (4, some 60) ∷ (0, none) ∷ []; free_list = 1 ∷ [] }

abbrev fourth_id : SlotId
fourth_id = record { index = 0; generation = 4 }

abbrev pair_room : Room
pair_room = record { subscribers = 5 ∷ 6 ∷ [] }
