-- ===== src/Zones/Expelled.antt =====
-- The loops that expel an entity from the live zones, slot by slot.
use weft_warp_loop.Base.{
  ℕ, zero, suc, ◌+◌, ◌%◌, ◌^◌, ◌≤◌, ◌<◌, ◌≡◌, refl, ap, ◌∙◌, Bool, true, false, not, ◌&&◌, Option,
  none, some, List, [], ◌∷◌, ◌++◌, append_assoc, ==-refl, if◌then◌else◌, length, length-append,
  get_elem?, set, arith,
}
use weft_warp_loop.Core.SlotMap.{SlotId, SlotMap, update}
use weft_warp_loop.Zones.Area.{Zone, holds, zone_unsub}
use weft_warp_loop.Zones.World.{live_from, expel_live}

abbrev pub slot_id : ℕ → ℕ → SlotId
slot_id i g = record { index = i % 2 ^ 32; generation = g }

-- What becomes of slot `i`.
abbrev pub expel_slot : (SlotId → Bool) → ℕ → ℕ → ℕ × Option Zone → ℕ × Option Zone
expel_slot skip c i (g, none) = (g, none)
expel_slot skip c i (g, some z) =
    if not (skip (slot_id i g)) && holds c z.entities
    then (g, some (zone_unsub c z))
    else (g, some z)

unfoldable pub expel_slots :
    (SlotId → Bool) → ℕ → ℕ → List (ℕ × Option Zone) → List (ℕ × Option Zone)
expel_slots skip c i [] = []
expel_slots skip c i (s ∷ ss) = expel_slot skip c i s ∷ expel_slots skip c (suc i) ss

get_elem?-append :
    (pre post : List (ℕ × Option Zone)) (s : ℕ × Option Zone) (n : ℕ)
    → length pre ≡ n
    → get_elem? (pre ++ (s ∷ post)) n ≡ some s
unfolding get_elem?
get_elem?-append [] post s zero h = refl
get_elem?-append [] post s (suc n) h = absurd (omega arith)
get_elem?-append (x ∷ pre) post s zero h = absurd (omega arith)
get_elem?-append (x ∷ pre) post s (suc n) h = get_elem?-append pre post s n (omega arith)

set-append :
    (pre post : List (ℕ × Option Zone)) (s t : ℕ × Option Zone) (n : ℕ)
    → length pre ≡ n
    → set (pre ++ (s ∷ post)) n t ≡ pre ++ (t ∷ post)
unfolding set
set-append [] post s t zero h = refl
set-append [] post s t (suc n) h = absurd (omega arith)
set-append (x ∷ pre) post s t zero h = absurd (omega arith)
set-append (x ∷ pre) post s t (suc n) h = ap (◌∷◌ x) (set-append pre post s t n (omega arith))

-- An update by the id of slot `n` sets that slot.
update_here :
    (pre post : List (ℕ × Option Zone)) (free : List ℕ) (g n : ℕ) (z z' : Zone)
    → length pre ≡ n
    → n < 2 ^ 32
    → update (record { slots = pre ++ ((g, some z) ∷ post); free_list = free }) (slot_id n g) z'
      ≡ record { slots = pre ++ ((g, some z') ∷ post); free_list = free }
unfolding update
update_here pre post free g n z z' h b =
    let small : n % 2 ^ 32 ≡ n = omega arith in
    rw
      (
        small,
        get_elem?-append pre post (g, some z) n h,
        ==-refl g,
        set-append pre post (g, some z) (g, some z') n h,
      )
      refl

-- A slot that the loop has passed joins the ones before it.
passed :
    (loop : SlotMap Zone → SlotMap Zone) (pre post post' : List (ℕ × Option Zone))
    (s : ℕ × Option Zone) (free : List ℕ)
    → loop (record { slots = (pre ++ (s ∷ [])) ++ post; free_list = free })
      ≡ record { slots = (pre ++ (s ∷ [])) ++ post'; free_list = free }
    → loop (record { slots = pre ++ (s ∷ post); free_list = free })
      ≡ record { slots = pre ++ (s ∷ post'); free_list = free }
passed loop pre post post' s free h =
    rw (append_assoc pre (s ∷ []) post, append_assoc pre (s ∷ []) post') at h

step_slot :
    (loop : SlotMap Zone → SlotMap Zone) (rest pre : List (ℕ × Option Zone)) (free : List ℕ)
    (b : Bool) (u m : SlotMap Zone) (t s : ℕ × Option Zone)
    → loop u ≡ record { slots = pre ++ (t ∷ rest); free_list = free }
    → loop m ≡ record { slots = pre ++ (s ∷ rest); free_list = free }
    → loop (if b then u else m)
      ≡ record { slots = pre ++ ((if b then t else s) ∷ rest); free_list = free }
step_slot loop rest pre free true u m t s h k = h
step_slot loop rest pre free false u m t s h k = k

-- The loop over the live zones from slot `n` on.
expel_live-from :
    (skip : SlotId → Bool) (c : ℕ) (pre post : List (ℕ × Option Zone)) (free : List ℕ) (n : ℕ)
    → length pre ≡ n
    → n + length post ≤ 2 ^ 32
    → expel_live skip c (live_from n post) (record { slots = pre ++ post; free_list = free })
      ≡ record { slots = pre ++ expel_slots skip c n post; free_list = free }
unfolding expel_live live_from expel_slots
expel_live-from skip c pre [] free n h b = refl
expel_live-from skip c pre ((g, none) ∷ post) free n h b =
    passed (expel_live skip c (live_from (suc n) post)) pre post _ (g, none) free
      (expel_live-from skip c (pre ++ ((g, none) ∷ [])) post free (suc n)
        (omega (arith, length-append pre ((g, none) ∷ []))) (omega arith))
expel_live-from skip c pre ((g, some z) ∷ post) free n h b =
    let tail = λ (s : ℕ × Option Zone).
      passed (expel_live skip c (live_from (suc n) post)) pre post (expel_slots skip c (suc n) post)
        s free
        (expel_live-from skip c (pre ++ (s ∷ [])) post free (suc n)
          (omega (arith, length-append pre (s ∷ []))) (omega arith)) in
    step_slot (expel_live skip c (live_from (suc n) post)) (expel_slots skip c (suc n) post) pre
      free (not (skip (slot_id n g)) && holds c z.entities) _ _ (g, some (zone_unsub c z))
      (g, some z)
      (ap (expel_live skip c (live_from (suc n) post))
          (update_here pre post free g n z (zone_unsub c z) h (omega arith))
        ∙ tail (g, some (zone_unsub c z)))
      (tail (g, some z))

-- The whole loop, on a map of at most 2^32 slots.
pub expel_live_lem :
    (skip : SlotId → Bool) (c : ℕ) (m : SlotMap Zone)
    → length m.slots ≤ 2 ^ 32
    → expel_live skip c (live_from 0 m.slots) m ≡ record m { slots = expel_slots skip c 0 m.slots }
expel_live_lem skip c m b = expel_live-from skip c [] m.slots m.free_list 0 refl (omega arith)
