-- ===== src/Zones/Reaching.antt =====
-- Who of the zones beside the publisher's gets a publish: all in reach, unless the number is used up.
use weft_warp_loop.Base.{
  ℕ, ◌+◌, ◌≤◌, ◌<◌, ◌≡◌, ◌≢◌, refl, sym, ap, ◌⊎◌, inl, inr, Bool, true, not, ◌&&◌, Option, none,
  some, List, [], ◌∷◌, ◌++◌, map, append-nil, ◌==◌, ==_iff, ==-refl, ltb, if◌then◌else◌, if_split,
  Bool-cases, length, length-append, occurs, occurs-append, get_elem?, arith,
}
use weft_warp_loop.Zones.Ghost.{Mover, within_ghost_range}
use weft_warp_loop.Zones.Area.{
  EntityRecord, Zone, mover, authority_for_index, adjacent_zones, interest_capacity,
}
use weft_warp_loop.Zones.World.{ZoneWorld, live_zones, zone_at}
use weft_warp_loop.Zones.Targets.{
  record_of, publisher_mover, mates, interested, interest_of, neighbour, neighbours, targets_in,
  targets_for_index,
}
use weft_warp_loop.Zones.Population.{times}
use weft_warp_loop.Zones.Interest.{In, neighbours-Grown}
use weft_warp_loop.Zones.Beside.{NearestBefore, NearestAfter, beside-before, beside-after}

module _ (c : ℕ) (p : Mover) (t : ℕ) where
  -- The loops only add.
  record More (a b : List ℕ × ℕ) : Type 0 where
    occurs_le : occurs t a.0 ≤ occurs t b.0
    count_le : a.1 ≤ b.1

  More-trans : (a b d : List ℕ × ℕ) → More a b → More b d → More a d
  More-trans a b d m n = record {
    occurs_le = omega (arith, m.occurs_le, n.occurs_le);
    count_le = omega (arith, m.count_le, n.count_le);
  }

  More-refl : (a : List ℕ × ℕ) → More a a
  More-refl a = record { occurs_le = omega arith; count_le = omega arith }

  -- The test of the loop over the records.
  abbrev wanted : EntityRecord → ℕ → Bool
  wanted r n = ltb n interest_capacity && (not (r.conn_id == c) && within_ghost_range p (mover r))

  interested-More : (r : EntityRecord) (a : List ℕ × ℕ) → More a (interested c p r a)
  interested-More r (result, n) =
      if_split (More (result, n)) (wanted r n) (result ++ (r.conn_id ∷ []), n + 1) (result, n)
        (λ _. record {
          occurs_le = omega (arith, occurs-append t result (r.conn_id ∷ []));
          count_le = omega arith;
        })
        (λ _. More-refl (result, n))

  interest_of-More : (rs : List EntityRecord) (a : List ℕ × ℕ) → More a (interest_of c p rs a)
  unfolding interest_of
  interest_of-More [] a = More-refl a
  interest_of-More (r ∷ rs) a =
      More-trans a (interested c p r a) _ (interested-More r a)
        (interest_of-More rs (interested c p r a))

  neighbour-More : (o : Option Zone) (a : List ℕ × ℕ) → More a (neighbour c p o a)
  neighbour-More none a = More-refl a
  neighbour-More (some z) a = interest_of-More z.entities a

  module _ (zones : List Zone) where
    -- What the loop over the neighbours does with one of them.
    abbrev visit : ℕ → List ℕ × ℕ → List ℕ × ℕ
    visit j (result, n) =
        if ltb n interest_capacity
        then neighbour c p (get_elem? zones j) (result, n)
        else (result, n)

    visit-More : (j : ℕ) (a : List ℕ × ℕ) → More a (visit j a)
    visit-More j (result, n) =
        if_split (More (result, n)) _ _ _ (λ _. neighbour-More (get_elem? zones j) (result, n))
          (λ _. More-refl (result, n))

    neighbours-More : (js : List ℕ) (a : List ℕ × ℕ) → More a (neighbours c p zones js a)
    unfolding neighbours
    neighbours-More [] a = More-refl a
    neighbours-More (j ∷ js) (result, n) =
        More-trans (result, n) (visit j (result, n)) _ (visit-More j (result, n))
          (neighbours-More js (visit j (result, n)))

  -- The connection is among the targets, or there is no more room for one.
  abbrev Served : List ℕ × ℕ → Type 0
  Served a = (0 < occurs t a.0) ⊎ (interest_capacity ≤ a.1)

  Served-More : (a b : List ℕ × ℕ) → Served a → More a b → Served b
  Served-More a b (inl o) m = inl (omega (arith, o, m.occurs_le))
  Served-More a b (inr n) m = inr (omega (arith, n, m.count_le))

  module _ (r : EntityRecord) (conn : r.conn_id ≡ t) (other : t ≢ c)
      (near : within_ghost_range p (mover r) ≡ true) where
    interested-Served : (a : List ℕ × ℕ) → Served (interested c p r a)
    unfolding occurs
    interested-Served (result, n) =
        if_split Served (wanted r n) (result ++ (r.conn_id ∷ []), n + 1) (result, n)
          (λ _. inl (rw (occurs-append t result (r.conn_id ∷ []), conn, ==-refl t) (omega arith)))
          (λ left. inr (ground (arith, left, near, conn, other, ==_iff r.conn_id c)))

    interest_of-Served :
        (rs : List EntityRecord) (a : List ℕ × ℕ) → In r rs → Served (interest_of c p rs a)
    unfolding interest_of
    interest_of-Served [] a h = absurd h
    interest_of-Served (s ∷ rs) a (inl same) =
        Served-More (interested c p s a) _ (rw (← same) (interested-Served a))
          (interest_of-More rs (interested c p s a))
    interest_of-Served (s ∷ rs) a (inr h) = interest_of-Served rs (interested c p s a) h

    module _ (zones : List Zone) (j : ℕ) (y : Zone) (at : get_elem? zones j ≡ some y)
        (h : In r y.entities) where
      visit-Served : (a : List ℕ × ℕ) → Served (visit zones j a)
      visit-Served (result, n) =
          if_split Served (ltb n interest_capacity) (neighbour c p (get_elem? zones j) (result, n))
            (result, n) (λ _. rw at (interest_of-Served y.entities (result, n) h))
            (λ full. inr (ground (arith, full)))

      neighbours-Served :
          (js : List ℕ) (a : List ℕ × ℕ) → 0 < occurs j js → Served (neighbours c p zones js a)
      unfolding neighbours occurs
      neighbours-Served [] a m = absurd (omega arith)
      neighbours-Served (i ∷ js) (result, n) m = elim (Bool-cases (i == j)) [
        | inl same ↦
            Served-More (visit zones i (result, n)) _
              (rw ((==_iff i j).0 same) (visit-Served (result, n)))
              (neighbours-More zones js (visit zones i (result, n)))
        | inr apart ↦ neighbours-Served js (visit zones i (result, n)) (ground (arith, m, apart))
      ]

-- All of a zone's records are the publisher's or its mates'.
length-mates : (c : ℕ) (rs : List EntityRecord) → length (mates c rs) + times c rs ≡ length rs
unfolding mates times
length-mates c [] = omega arith
length-mates c (r ∷ rs) = ground (arith, length-mates c rs)

-- The zone at an index is the nearest on one side of another.
abbrev pub Beside : List Zone → ℕ → Zone → ℕ → Zone → Type 0
Beside zones own z j y = NearestBefore zones own z.range j y ⊎ NearestAfter zones own z.range j y

module _ (c own j t : ℕ) (zones : List Zone) (z y : Zone) (r : EntityRecord) where
  Beside-occurs : Beside zones own z j y → 0 < occurs j (adjacent_zones zones own (some z))
  Beside-occurs (inl n) = beside-before zones own j z y n
  Beside-occurs (inr n) = beside-after zones own j z y n

  Beside-there : Beside zones own z j y → get_elem? zones j ≡ some y
  Beside-there (inl n) = n.at_index
  Beside-there (inr n) = n.at_index

  targets_in-reaches :
      get_elem? zones own ≡ some z
      → Beside zones own z j y
      → In r y.entities
      → r.conn_id ≡ t
      → t ≢ c
      → within_ghost_range (publisher_mover (record_of c z.entities)) (mover r) ≡ true
      → (0 < occurs t (targets_in c zones own (some z)))
        ⊎ (length (targets_in c zones own (some z)) + times c z.entities
            ≡ length z.entities + interest_capacity)
  targets_in-reaches at n h conn other near =
      let p = publisher_mover (record_of c z.entities) in
      let js = adjacent_zones zones own (get_elem? zones own) in
      let g =
        neighbours-Grown c p zones (mates c z.entities) js (mates c z.entities, 0)
          (record {
            extra = [];
            grew = sym (append-nil (mates c z.entities));
            counted = refl;
            capped = omega arith;
            reached = tt;
          }) in
      elim (neighbours-Served c p t r conn other near zones j y (Beside-there n) h js
        (mates c z.entities, 0) (rw at (Beside-occurs n))) [
          | inl there ↦ inl there
          | inr full ↦ inr (
              omega (
                arith,
                full,
                g.capped,
                g.counted,
                ap length g.grew,
                length-append (mates c z.entities) g.extra,
                length-mates c z.entities,
              ))
        ]

-- A record in the nearest zone before or after the one that governs a publish, of another
-- connection than the publisher and in ghost range of the publisher as its zone knows it, is among
-- the targets of the publish, unless there are 400 targets besides the other records of the
-- governing zone. The nearest zone before is the one that ends at or before the start of the
-- governing zone and later than every other such zone, and its end is above 0; the nearest after
-- is the one that starts at or after the end of the governing zone and sooner than every other
-- such zone, and its start is below 2^64 - 1.
pub targets_for_index-reaches :
    (w : ZoneWorld) (c idx own j : ℕ) (z y : Zone) (r : EntityRecord)
    → authority_for_index (map zone_at (live_zones w)) idx ≡ some own
    → get_elem? (map zone_at (live_zones w)) own ≡ some z
    → Beside (map zone_at (live_zones w)) own z j y
    → In r y.entities
    → r.conn_id ≢ c
    → within_ghost_range (publisher_mover (record_of c z.entities)) (mover r) ≡ true
    → (0 < occurs r.conn_id (targets_for_index w c idx))
      ⊎ (length (targets_for_index w c idx) + times c z.entities
          ≡ length z.entities + interest_capacity)
unfolding targets_for_index
targets_for_index-reaches w c idx own j z y r e at n h other near =
    let zones = map zone_at (live_zones w) in
    rw (e, at) (targets_in-reaches c own j r.conn_id zones z y r at n h refl other near)
