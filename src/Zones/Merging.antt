-- ===== src/Zones/Merging.antt =====
-- A merge keeps the entities of the siblings.
use weft_warp_loop.Base.{
  ℕ, ◌+◌, ◌^◌, ◌≤◌, ◌<◌, ◌≡◌, refl, ap, ◌∙◌, inl, inr, Option, none, some, List, [], ◌∷◌, ◌==◌,
  ==_iff, ltb, if◌then◌else◌, Bool-cases, length, arith,
}
use weft_warp_loop.Core.SlotMap.{SlotId, SlotMap, find, alloc}
use weft_warp_loop.Core.Slots.{WellFormed, AllocResult, alloc_lem}
use weft_warp_loop.Zones.Area.{ZoneRange, EntityRecord, Zone, enter, zone_sub, authority_capacity}
use weft_warp_loop.Zones.Octree.{octree_children, parent_range, split_is_cheaper}
use weft_warp_loop.Zones.World.{ZoneWorld, new_zone, alloc_zone, world_with}
use weft_warp_loop.Zones.Split.{child_populations}
use weft_warp_loop.Zones.Merge.{
  Family, family_of, free_all, sub_all, adopt, merge_family, merge_children, maybe_merge_siblings,
}
use weft_warp_loop.Zones.Tiles.{hits, octree_children-tile}
use weft_warp_loop.Zones.Population.{
  times, population, population-set, times-enter_ne, times-enter_self,
}
use weft_warp_loop.Zones.Authority.{find-slot, update-slot}
use weft_warp_loop.Zones.Moved.{Once, slots_of}
use weft_warp_loop.Zones.Breeding.{one-counts, one-slot}
use weft_warp_loop.Zones.Filing.{length-enter}
use weft_warp_loop.Zones.Splitting.{eight-length}
use weft_warp_loop.Zones.Siblings.{free_all-Freed, family_of-Kin, length-Kin}

-- One record more in the parent.
sub-counts :
    (r : EntityRecord) (rs : List EntityRecord) (c : ℕ)
    → length rs < authority_capacity
    → times r.conn_id rs ≡ 0
    → times c (enter r rs) ≡ times c rs + (if r.conn_id == c then 1 else 0)
sub-counts r rs c room gone = elim (Bool-cases (r.conn_id == c)) [
  | inl same ↦
      let e : r.conn_id ≡ c = (==_iff r.conn_id c).0 same in
      rw (same, ← e) (omega (arith, gone, times-enter_self r rs (inr room) (omega (arith, gone))))
  | inr differ ↦ rw differ (omega (arith, times-enter_ne c r rs (λ e. ground (arith, differ, e))))
]

sub_all-counts :
    (rs : List EntityRecord) (z : Zone)
    → length z.entities + length rs ≤ authority_capacity
    → ((c : ℕ) → times c z.entities + times c rs ≤ 1)
    → (c : ℕ) → times c (sub_all rs z).entities ≡ times c z.entities + times c rs
unfolding sub_all times zone_sub
sub_all-counts [] z room once c = omega arith
sub_all-counts (r ∷ rs) z room once c =
    let gone : times r.conn_id z.entities ≡ 0 = ground (arith, once r.conn_id) in
    let step = λ (d : ℕ). sub-counts r z.entities d (omega arith) gone in
    omega (
      arith,
      step c,
      sub_all-counts rs (zone_sub z r) (omega (arith, length-enter r z.entities, room))
          (λ d. omega (arith, once d, step d)) c,
    )

module _ (w : ZoneWorld) (parent : ZoneRange) (rs : List EntityRecord) where
  -- The allocation of the parent, and what enters it.
  adopt-counts :
      (o : Option (SlotMap Zone × SlotId)) (c : ℕ)
      → AllocResult w.zones (new_zone parent) o
      → 0 < length w.zones.free_list
      → length rs ≤ authority_capacity
      → ((d : ℕ) → times d rs ≤ 1)
      → population c (slots_of (adopt w rs (world_with w o)))
        ≡ population c w.zones.slots + times c rs
  unfolding times
  adopt-counts none c full some_free few once =
      absurd (omega (arith, ap (λ (l : List ℕ). length l) full))
  adopt-counts (some (m', id)) c a some_free few once =
      let slot = one-slot w parent m' id a in
      rw
        (
          find-slot m' id (new_zone parent) slot,
          update-slot m' id (new_zone parent) (sub_all rs (new_zone parent)) slot,
        )
        (omega (
          arith,
          population-set c m'.slots id.index (id.generation, some (new_zone parent))
              (id.generation, some (sub_all rs (new_zone parent))) slot,
          one-counts w parent m' id a c,
          sub_all-counts rs (new_zone parent) (omega arith) (λ d. omega (arith, once d)) c,
        ))

module _ (w : ZoneWorld) (parent : ZoneRange) (well : WellFormed w.zones) (world : Once w)
    (ordered : parent.start ≤ parent.stop) (fits : parent.stop < 2 ^ 64) where
  one_child :
      (cs : List ZoneRange) → octree_children w.bits parent ≡ some cs → (i : ℕ) → hits i cs ≤ 1
  one_child cs e i = ground (arith, octree_children-tile w.bits parent cs i ordered fits e)

  merge_family-counts :
      (cs : List ZoneRange) (o : Option Family) (c : ℕ)
      → octree_children w.bits parent ≡ some cs
      → family_of w cs ≡ o
      → population c (slots_of (merge_family w parent cs o)) ≡ population c w.zones.slots
  unfolding alloc_zone
  merge_family-counts cs none c children e = refl
  merge_family-counts cs (some f) c children e =
      let kin = family_of-Kin w world.small cs f e in
      let freed = free_all-Freed w cs f.ids f.members well (one_child cs children) kin in
      elim (Bool-cases (split_is_cheaper (length f.members) (child_populations f.members cs))) [
        | inl apart ↦ rw apart refl
        | inr together ↦ elim (Bool-cases (ltb authority_capacity (length f.members))) [
          | inl many ↦ rw (together, many) refl
          | inr few ↦
              rw (together, few)
                (adopt-counts (free_all f.ids w) parent f.members
                    (alloc (free_all f.ids w).zones (new_zone parent)) c
                    (alloc_lem (free_all f.ids w).zones (new_zone parent) freed.well)
                    (omega (
                      arith,
                      freed.vacated,
                      length-Kin w.zones.slots cs f.ids f.members kin,
                      eight-length w.bits parent cs children,
                    ))
                    (ground (arith, few)) (λ d. omega (arith, freed.counts d, world.once d))
                  ∙ freed.counts c)
        ]
      ]

  merge_children-counts :
      (o : Option (List ZoneRange)) (c : ℕ)
      → octree_children w.bits parent ≡ o
      → population c (slots_of (merge_children w parent o)) ≡ population c w.zones.slots
  merge_children-counts none c e = refl
  merge_children-counts (some cs) c e = merge_family-counts cs (family_of w cs) c e refl

-- A merge of a zone with its siblings, whether or not it takes place, leaves every connection with
-- as many records as it had. The parent cell has to be proper and to end below 2^64, the slot map
-- well-formed, and no connection may have two records.
pub maybe_merge_siblings-keeps :
    (w : ZoneWorld) (id : SlotId) (z : Zone) (parent : ZoneRange) (c : ℕ)
    → find w.zones id ≡ some z
    → parent_range w.bits z.range ≡ some parent
    → parent.start ≤ parent.stop
    → parent.stop < 2 ^ 64
    → WellFormed w.zones
    → Once w
    → population c (slots_of (maybe_merge_siblings w id)) ≡ population c w.zones.slots
unfolding maybe_merge_siblings
maybe_merge_siblings-keeps w id z parent c found above ordered fits well world =
    rw (found, above)
      (merge_children-counts w parent well world ordered fits (octree_children w.bits parent) c
        refl)
