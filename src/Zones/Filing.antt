-- ===== src/Zones/Filing.antt =====
-- The entities of a zone that was split, filed into its children.
use weft_warp_loop.Base.{
  ℕ, suc, ◌+◌, ◌≤◌, ◌<◌, ◌≡◌, ◌≢◌, refl, sym, ap, ◌∙◌, inl, inr, Option, some, List, [], ◌∷◌, ◌==◌,
  ==_iff, ==-refl, if◌then◌else◌, Bool-cases, length, length-append, get_elem?, set, get_elem?-set,
  get_elem?-set_ne, All, arith,
}
use weft_warp_loop.Core.SlotMap.{SlotId, SlotMap}
use weft_warp_loop.Zones.Area.{
  ZoneRange, EntityRecord, Zone, range_contains, enter, zone_sub, authority_capacity,
}
use weft_warp_loop.Zones.Split.{file_record, file_records}
use weft_warp_loop.Zones.Tiles.{hits}
use weft_warp_loop.Zones.Population.{
  times, population, population-set, population-slot, times-enter_ne, times-enter_self,
}
use weft_warp_loop.Zones.Authority.{find-slot, update-slot}
use weft_warp_loop.Zones.Breeding.{Litter}

pub length-enter :
    (r : EntityRecord) (rs : List EntityRecord) → length (enter r rs) ≤ suc (length rs)
unfolding enter
length-enter r rs = ground (arith, length-append rs (r ∷ []))

module _ (r : EntityRecord) where
  -- A record that no range has goes nowhere.
  file_record-misses :
      (cs : List ZoneRange) (ids : List SlotId) (m : SlotMap Zone)
      → hits r.idx cs ≡ 0
      → file_record cs ids r m ≡ m
  unfolding file_record hits
  file_record-misses [] ids m h = refl
  file_record-misses (c ∷ cs) [] m h = refl
  file_record-misses (c ∷ cs) (id ∷ ids) m h = elim (Bool-cases (range_contains c r.idx)) [
    | inl there ↦ absurd (ground (arith, there))
    | inr gone ↦ rw gone (file_record-misses cs ids m (ground (arith, gone)))
  ]

  -- What filing a record comes to: it enters one of the children.
  pub record Filed (n : ℕ) (m m' : SlotMap Zone) : Type 0 where
    pub id : SlotId
    pub zone : Zone
    pub slot : get_elem? m.slots id.index ≡ some (id.generation, some zone)
    pub size : length zone.entities ≤ n
    pub slots_eq :
        m' ≡ record m { slots = set m.slots id.index (id.generation, some (zone_sub zone r)) }

  file_record-Filed :
      (n : ℕ) (cs : List ZoneRange) (ids : List SlotId) (m : SlotMap Zone)
      → Litter n m.slots cs ids
      → hits r.idx cs ≡ 1
      → Filed n m (file_record cs ids r m)
  unfolding file_record hits
  file_record-Filed n [] ids m l h = absurd (omega arith)
  file_record-Filed n (c ∷ cs) [] m l h = elim l [ ]
  file_record-Filed n (c ∷ cs) (id ∷ ids) m ((z, slot, at, size), l) h =
      elim (Bool-cases (range_contains c r.idx)) [
        | inl there ↦ record {
          id = id;
          zone = z;
          slot = slot;
          size = size;
          slots_eq =
              rw (there, find-slot m id z slot, update-slot m id z (zone_sub z r) slot)
                (file_record-misses cs ids
                  (record m { slots = set m.slots id.index (id.generation, some (zone_sub z r)) })
                  (ground (arith, there)));
        }
        | inr gone ↦ rw gone (file_record-Filed n cs ids m l (ground (arith, gone)))
      ]

  -- The children stay, of one record more at most.
  Litter-set :
      (n : ℕ) (ss : List (ℕ × Option Zone)) (cs : List ZoneRange) (ids : List SlotId) (at : SlotId)
      (z : Zone)
      → get_elem? ss at.index ≡ some (at.generation, some z)
      → length z.entities ≤ n
      → Litter n ss cs ids
      → Litter (suc n) (set ss at.index (at.generation, some (zone_sub z r))) cs ids
  unfolding zone_sub
  Litter-set n ss [] [] at z e b l = tt
  Litter-set n ss [] (id ∷ ids) at z e b l = elim l [ ]
  Litter-set n ss (c ∷ cs) [] at z e b l = elim l [ ]
  Litter-set n ss (c ∷ cs) (id ∷ ids) at z e b ((y, slot, range, size), l) = (
    elim (Bool-cases (at.index == id.index)) [
      | inl same ↦
          let i : at.index ≡ id.index = (==_iff at.index id.index).0 same in
          let both : (at.generation, some z) ≡ (id.generation, some y) =
            some_eq (sym e ∙ rw (← i) at slot) in
          let gen : at.generation ≡ id.generation = ap (λ (s : ℕ × Option Zone). s.0) both in
          let zone : z ≡ y = zone_eq (ap (λ (s : ℕ × Option Zone). s.1) both) in
          (
            zone_sub z r,
            rw (← i, ← gen)
                (get_elem?-set ss at.index (at.generation, some (zone_sub z r))
                  (at.generation, some z) e),
            ap (λ (x : Zone). x.range) zone ∙ range,
            omega (arith, length-enter r z.entities, b),
          )
      | inr differ ↦ (
        y,
        get_elem?-set_ne ss at.index id.index (at.generation, some (zone_sub z r))
              (λ i. ground (arith, differ, i))
            ∙ slot,
        range,
        omega arith,
      )
    ],
    Litter-set n ss cs ids at z e b l,
  )
    where
      some_eq :
          {a b : ℕ × Option Zone} → ◌≡◌ {A = Option (ℕ × Option Zone)} (some a) (some b) → a ≡ b
      some_eq q = cc

      zone_eq : ◌≡◌ {A = Option Zone} (some z) (some y) → z ≡ y
      zone_eq q = cc

  -- A record of a connection that has none counts once.
  Filed-counts_ne :
      (n : ℕ) (m m' : SlotMap Zone) (c : ℕ)
      → Filed n m m'
      → r.conn_id ≢ c
      → population c m'.slots ≡ population c m.slots
  unfolding zone_sub
  Filed-counts_ne n m m' c f h =
      ap (λ (x : SlotMap Zone). population c x.slots) f.slots_eq
      ∙ omega (
        arith,
        population-set c m.slots f.id.index (f.id.generation, some f.zone)
            (f.id.generation, some (zone_sub f.zone r)) f.slot,
        times-enter_ne c r f.zone.entities h,
      )

  Filed-counts_self :
      (n : ℕ) (m m' : SlotMap Zone)
      → Filed n m m'
      → n < authority_capacity
      → population r.conn_id m.slots ≡ 0
      → population r.conn_id m'.slots ≡ 1
  unfolding zone_sub
  Filed-counts_self n m m' f b gone =
      let before : times r.conn_id f.zone.entities ≡ 0 = omega (
        arith,
        gone,
        population-slot r.conn_id m.slots f.id.index (f.id.generation, some f.zone) f.slot,
      ) in
      ap (λ (x : SlotMap Zone). population r.conn_id x.slots) f.slots_eq
      ∙ omega (
        arith,
        gone,
        before,
        population-set r.conn_id m.slots f.id.index (f.id.generation, some f.zone)
            (f.id.generation, some (zone_sub f.zone r)) f.slot,
        times-enter_self r f.zone.entities (inr (omega (arith, b, f.size))) (omega (arith, before)),
      )

  Filed-counts :
      (n : ℕ) (m m' : SlotMap Zone) (c : ℕ)
      → Filed n m m'
      → n < authority_capacity
      → population r.conn_id m.slots ≡ 0
      → population c m'.slots ≡ population c m.slots + (if r.conn_id == c then 1 else 0)
  Filed-counts n m m' c f b gone = elim (Bool-cases (r.conn_id == c)) [
    | inl same ↦
        let e : r.conn_id ≡ c = (==_iff r.conn_id c).0 same in
        rw (same, ← e) (omega (arith, Filed-counts_self n m m' f b gone, gone))
    | inr differ ↦
        rw differ (omega (arith, Filed-counts_ne n m m' c f (λ e. ground (arith, differ, e))))
  ]

-- All records, one after the other: each counts once in the end.
pub file_records-counts :
    (rs : List EntityRecord) (n : ℕ) (cs : List ZoneRange) (ids : List SlotId) (m : SlotMap Zone)
    → Litter n m.slots cs ids
    → All (λ r. hits r.idx cs ≡ 1) rs
    → n + length rs ≤ authority_capacity
    → ((c : ℕ) → population c m.slots + times c rs ≤ 1)
    → (c : ℕ) → population c (file_records cs ids rs m).slots ≡ population c m.slots + times c rs
unfolding file_records times
file_records-counts [] n cs ids m l hs b once c = omega arith
file_records-counts (r ∷ rs) n cs ids m l (h, hs) b once c =
    let f = file_record-Filed r n cs ids m l h in
    let room : n < authority_capacity = omega arith in
    let gone : population r.conn_id m.slots ≡ 0 =
      ground (arith, once r.conn_id, ==-refl r.conn_id) in
    let step = λ (d : ℕ). Filed-counts r n m (file_record cs ids r m) d f room gone in
    let litter : Litter (suc n) (file_record cs ids r m).slots cs ids =
      rw f.slots_eq (Litter-set r n m.slots cs ids f.id f.zone f.slot f.size l) in
    let rest =
      file_records-counts rs (suc n) cs ids (file_record cs ids r m) litter hs (omega arith)
        (λ d. omega (arith, once d, step d)) c in
    omega (arith, rest, step c)
