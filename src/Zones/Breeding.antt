-- ===== src/Zones/Breeding.antt =====
-- The allocation of the children of a split: what it finds free, and what it leaves.
use weft_warp_loop.Base.{
  ℕ, ◌≤◌, ◌<◌, ◌≡◌, ◌≢◌, refl, sym, ap, ◌∙◌, Option, none, some, List, [], ◌∷◌, length, get_elem?,
  get_elem?-set, get_elem?-set_ne, All, arith,
}
use weft_warp_loop.Core.SlotMap.{SlotId, SlotMap, alloc}
use weft_warp_loop.Core.Slots.{WellFormed, Allocated, AllocResult, alloc_lem, alloc-WellFormed}
use weft_warp_loop.Zones.Area.{ZoneRange, Zone}
use weft_warp_loop.Zones.World.{ZoneWorld, new_zone, alloc_zone, world_with}
use weft_warp_loop.Zones.Split.{alloc_children, alloc_next}
use weft_warp_loop.Zones.Population.{times, population, population-set}

-- Each range has its zone, at its id, of at most `n` records.
abbrev pub Litter : ℕ → List (ℕ × Option Zone) → List ZoneRange → List SlotId → Type 0
Litter n ss [] [] = Unit
Litter n ss [] (id ∷ ids) = ⊥
Litter n ss (c ∷ cs) [] = ⊥
Litter n ss (c ∷ cs) (id ∷ ids) =
    ((z : Zone) × (get_elem? ss id.index ≡ some (id.generation, some z))
      × (z.range ≡ c)
      × (length z.entities ≤ n))
    × Litter n ss cs ids

-- The slots outside a list are as they were.
abbrev pub KeepsBut : List ℕ → List (ℕ × Option Zone) → List (ℕ × Option Zone) → Type 0
KeepsBut is ss ss' = (i : ℕ) → All (λ j. i ≢ j) is → get_elem? ss' i ≡ get_elem? ss i

-- All children have a zone.
pub record Bred (w : ZoneWorld) (cs : List ZoneRange) (w' : ZoneWorld) (ids : List SlotId)
    : Type 0 where
  pub litter : Litter 0 w'.zones.slots cs ids
  pub counts : (c : ℕ) → population c w'.zones.slots ≡ population c w.zones.slots
  pub keeps : KeepsBut w.zones.free_list w.zones.slots w'.zones.slots

-- The slots ran out.
pub record Ended (w : ZoneWorld) (cs : List ZoneRange) (w' : ZoneWorld) : Type 0 where
  pub counts : (c : ℕ) → population c w'.zones.slots ≡ population c w.zones.slots
  pub short : length w.zones.free_list < length cs

abbrev pub BreedResult : ZoneWorld → List ZoneRange → ZoneWorld × Option (List SlotId) → Type 0
BreedResult w cs (w', none) = Ended w cs w'
BreedResult w cs (w', some ids) = Bred w cs w' ids × (length cs ≤ length w.zones.free_list)

module _ (w : ZoneWorld) (c : ZoneRange) (m' : SlotMap Zone) (id : SlotId)
    (a : Allocated w.zones (new_zone c) m' id) where
  pub one-counts : (d : ℕ) → population d m'.slots ≡ population d w.zones.slots
  unfolding times
  one-counts d = rw a.slots_eq (
      omega (
        arith,
        population-set d w.zones.slots id.index (a.before, none) (id.generation, some (new_zone c))
            a.was,
      ))

  pub one-slot : get_elem? m'.slots id.index ≡ some (id.generation, some (new_zone c))
  one-slot = rw a.slots_eq (
      get_elem?-set w.zones.slots id.index (id.generation, some (new_zone c)) (a.before, none)
        a.was)

  one-keeps : KeepsBut w.zones.free_list w.zones.slots m'.slots
  one-keeps i apart =
      let (here, _) = rw a.free_eq at apart in
      rw a.slots_eq (
        get_elem?-set_ne w.zones.slots id.index i (id.generation, some (new_zone c))
          (λ e. here (sym e)))

  bred-next :
      (wf : WellFormed w.zones) (cs : List ZoneRange) (r : ZoneWorld × Option (List SlotId))
      → BreedResult (record w { zones = m' }) cs r
      → BreedResult w (c ∷ cs) (alloc_next (λ _. r) w (some (record w { zones = m' }, id)))
  bred-next wf cs (w', none) h = record {
    counts = λ d. h.counts d ∙ one-counts d;
    short = omega (arith, h.short, ap (λ (l : List ℕ). length l) a.free_eq);
  }
  bred-next wf cs (w', some ids) (b, enough) = (
    record {
      litter = (
        (
          new_zone c,
          b.keeps id.index (rw a.free_eq at wf.distinct).0 ∙ one-slot,
          refl,
          omega arith,
        ),
        b.litter,
      );
      counts = λ d. b.counts d ∙ one-counts d;
      keeps = λ i apart. b.keeps i (rw a.free_eq at apart).1 ∙ one-keeps i apart;
    },
    omega (arith, enough, ap (λ (l : List ℕ). length l) a.free_eq),
  )

alloc_next-BreedResult :
    (w : ZoneWorld) (c : ZoneRange) (cs : List ZoneRange)
    (rest : ZoneWorld → ZoneWorld × Option (List SlotId)) (r : Option (SlotMap Zone × SlotId))
    → WellFormed w.zones
    → AllocResult w.zones (new_zone c) r
    → ((w' : ZoneWorld) → WellFormed w'.zones → BreedResult w' cs (rest w'))
    → BreedResult w (c ∷ cs) (alloc_next rest w (world_with w r))
alloc_next-BreedResult w c cs rest none wf e ih = record {
  counts = λ d. refl;
  short = rw e (omega arith);
}
alloc_next-BreedResult w c cs rest (some (m', id)) wf a ih =
    bred-next w c m' id a wf cs (rest (record w { zones = m' }))
      (ih (record w { zones = m' }) (alloc-WellFormed w.zones (new_zone c) m' id wf a))

-- The allocation of the children either gives each its zone, or runs out of slots; in both cases no
-- count changes.
pub alloc_children-BreedResult :
    (cs : List ZoneRange) (w : ZoneWorld)
    → WellFormed w.zones
    → BreedResult w cs (alloc_children cs w)
unfolding alloc_children alloc_zone
alloc_children-BreedResult [] w wf =
    (record { litter = tt; counts = λ d. refl; keeps = λ i h. refl }, omega arith)
alloc_children-BreedResult (c ∷ cs) w wf =
    alloc_next-BreedResult w c cs (alloc_children cs) (alloc w.zones (new_zone c)) wf
      (alloc_lem w.zones (new_zone c) wf) (λ w' wf'. alloc_children-BreedResult cs w' wf')
