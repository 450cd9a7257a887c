-- ===== src/Zones/Splitting.antt =====
-- What a split does to the entities of the zone: with slots for all the children it keeps each, and
-- without it loses them.
use weft_warp_loop.Base.{
  ℕ, suc, ◌+◌, ◌^◌, ◌≤◌, ◌<◌, ◌≡◌, refl, sym, ap, ◌∙◌, inl, inr, true, not, Option, none, some,
  List, ◌∷◌, ◌==◌, ==_iff, ==-refl, Bool-cases, length, get_elem?, set, All, All-map, arith,
}
use weft_warp_loop.Core.SlotMap.{SlotId, SlotMap, find, find_slot, free}
use weft_warp_loop.Core.Slots.{WellFormed, free-WellFormed}
use weft_warp_loop.Zones.Area.{ZoneRange, EntityRecord, Zone, range_contains, authority_capacity}
use weft_warp_loop.Zones.Octree.{octree_children, zone_range_depth, split_is_cheaper}
use weft_warp_loop.Zones.World.{ZoneWorld, free_zone}
use weft_warp_loop.Zones.Split.{
  child_populations, alloc_children, file_all, split_into, maybe_split_zone,
}
use weft_warp_loop.Zones.Tiles.{hits, children_at-some, octree_children-tile}
use weft_warp_loop.Zones.Population.{times, population, population-set}
use weft_warp_loop.Zones.Moved.{Once, slots_of}
use weft_warp_loop.Zones.Breeding.{BreedResult, alloc_children-BreedResult}
use weft_warp_loop.Zones.Filing.{file_records-counts}

-- What an id finds stands in its slot.
pub slot-find :
    (m : SlotMap Zone) (id : SlotId) (z : Zone)
    → find m id ≡ some z
    → get_elem? m.slots id.index ≡ some (id.generation, some z)
unfolding find
slot-find m id z e = at_slot (get_elem? m.slots id.index) refl e
  where
    clash : ◌≡◌ {A = Option Zone} none (some z) → ⊥
    clash q = cc

    at_slot :
        (o : Option (ℕ × Option Zone))
        → get_elem? m.slots id.index ≡ o
        → find_slot o id.generation ≡ some z
        → get_elem? m.slots id.index ≡ some (id.generation, some z)
    at_slot none h f = absurd (clash f)
    at_slot (some (g, v)) h f = elim (Bool-cases (g == id.generation)) [
      | inl same ↦
          let v_eq : v ≡ some z = rw same at f in
          let g_eq : g ≡ id.generation = (==_iff g id.generation).0 same in rw (← v_eq, ← g_eq) h
      | inr differ ↦ absurd (clash (rw differ at f))
    ]

module _ (w : ZoneWorld) (id : SlotId) (z : Zone)
    (slot : get_elem? w.zones.slots id.index ≡ some (id.generation, some z)) where
  pub free-slot : free w.zones id ≡ record {
    slots = set w.zones.slots id.index (id.generation, none);
    free_list = id.index ∷ w.zones.free_list;
  }
  unfolding free
  free-slot = rw (slot, ==-refl id.generation) refl

  -- The freed zone's records are gone from the counts.
  pub free-counts :
      (c : ℕ)
      → population c (free w.zones id).slots + times c z.entities ≡ population c w.zones.slots
  free-counts c = rw free-slot (
      omega (
        arith,
        population-set c w.zones.slots id.index (id.generation, some z) (id.generation, none) slot,
      ))

  pub free-length : length (free w.zones id).free_list ≡ suc (length w.zones.free_list)
  free-length = rw free-slot refl

-- A zone whose records stand in its range, in a sound world.
pub record Intact (w : ZoneWorld) (z : Zone) : Type 0 where
  pub well : WellFormed w.zones
  pub world : Once w
  pub ordered : z.range.start ≤ z.range.stop
  pub fits : z.range.stop < 2 ^ 64
  pub size : length z.entities ≤ authority_capacity
  pub inside : All (λ r. range_contains z.range r.idx ≡ true) z.entities

pub eight-length :
    (bits : ℕ) (r : ZoneRange) (cs : List ZoneRange)
    → octree_children bits r ≡ some cs
    → length cs ≡ 8
unfolding octree_children
eight-length bits r cs e =
    let (d, _, _, eight) = children_at-some bits r cs (zone_range_depth bits r) e in
    ap (λ (l : List ZoneRange). length l) (sym eight)

module _ (w : ZoneWorld) (id : SlotId) (z : Zone) (cs : List ZoneRange)
    (slot : get_elem? w.zones.slots id.index ≡ some (id.generation, some z))
    (children : octree_children w.bits z.range ≡ some cs) where
  filed-counts :
      (i : Intact w z) (r : ZoneWorld × Option (List SlotId)) (c : ℕ)
      → 7 ≤ length w.zones.free_list
      → BreedResult (free_zone w id) cs r
      → population c (slots_of (file_all cs z.entities r)) ≡ population c w.zones.slots
  unfolding free_zone
  filed-counts i (w', none) c seven h =
      absurd
        (omega (arith, h.short, free-length w id z slot, eight-length w.bits z.range cs children))
  filed-counts i (w', some ids) c seven (b, _) =
      let each : All (λ (r : EntityRecord). hits r.idx cs ≡ 1) z.entities =
        All-map
          (λ (r : EntityRecord) (h : range_contains z.range r.idx ≡ true).
            octree_children-tile w.bits z.range cs r.idx i.ordered i.fits children ∙ rw h refl)
          z.entities i.inside in
      omega (
        arith,
        file_records-counts z.entities 0 cs ids w'.zones b.litter each (omega (arith, i.size))
            (λ d. omega (arith, b.counts d, free-counts w id z slot d, i.world.once d)) c,
        b.counts c,
        free-counts w id z slot c,
      )

  lost-counts :
      (r : ZoneWorld × Option (List SlotId)) (c : ℕ)
      → length w.zones.free_list < 7
      → BreedResult (free_zone w id) cs r
      → population c (slots_of (file_all cs z.entities r)) + times c z.entities
        ≡ population c w.zones.slots
  unfolding free_zone
  lost-counts (w', none) c few h = omega (arith, h.counts c, free-counts w id z slot c)
  lost-counts (w', some ids) c few (b, enough) =
      absurd
        (omega (arith, enough, free-length w id z slot, eight-length w.bits z.range cs children))

split_into-counts :
    (w : ZoneWorld) (id : SlotId) (z : Zone) (o : Option (List ZoneRange)) (c : ℕ)
    → get_elem? w.zones.slots id.index ≡ some (id.generation, some z)
    → octree_children w.bits z.range ≡ o
    → Intact w z
    → 7 ≤ length w.zones.free_list
    → population c (slots_of (split_into w id z o)) ≡ population c w.zones.slots
unfolding free_zone
split_into-counts w id z none c slot children i seven = refl
split_into-counts w id z (some cs) c slot children i seven =
    elim (Bool-cases
      (not (split_is_cheaper (length z.entities) (child_populations z.entities cs)))) [
        | inl stays ↦ rw stays refl
        | inr splits ↦ rw splits (
            filed-counts w id z cs slot children i (alloc_children cs (free_zone w id)) c seven
              (alloc_children-BreedResult cs (free_zone w id) (free-WellFormed w.zones id i.well)))
      ]

-- With slots for all children a split changes no count, whether or not it takes place.
pub maybe_split_zone-keeps :
    (w : ZoneWorld) (id : SlotId) (z : Zone) (c : ℕ)
    → find w.zones id ≡ some z
    → Intact w z
    → 7 ≤ length w.zones.free_list
    → population c (slots_of (maybe_split_zone w id)) ≡ population c w.zones.slots
unfolding maybe_split_zone
maybe_split_zone-keeps w id z c e i seven =
    rw e (split_into-counts w id z _ c (slot-find w.zones id z e) refl i seven)

-- If a split is cheaper and fewer than seven slots are free, then after it every connection has
-- fewer records by all those that the zone had: the zone is freed, the children do not all get a
-- slot, and the entities are filed nowhere.
pub maybe_split_zone-loses :
    (w : ZoneWorld) (id : SlotId) (z : Zone) (cs : List ZoneRange) (c : ℕ)
    → find w.zones id ≡ some z
    → WellFormed w.zones
    → octree_children w.bits z.range ≡ some cs
    → split_is_cheaper (length z.entities) (child_populations z.entities cs) ≡ true
    → length w.zones.free_list < 7
    → population c (slots_of (maybe_split_zone w id)) + times c z.entities
      ≡ population c w.zones.slots
unfolding maybe_split_zone free_zone
maybe_split_zone-loses w id z cs c e wf children cheaper few =
    rw (e, children, cheaper)
      (lost-counts w id z cs (slot-find w.zones id z e) children
        (alloc_children cs (free_zone w id)) c few
        (alloc_children-BreedResult cs (free_zone w id) (free-WellFormed w.zones id wf)))
