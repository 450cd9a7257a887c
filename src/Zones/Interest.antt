-- ===== src/Zones/Interest.antt =====
-- Who gets a publish: all of the publisher's own zone, and of the zones beside it those in reach, up to
-- a number.
use weft_warp_loop.Base.{
  ℕ, ◌≤◌, ◌≡◌, ◌≢◌, refl, sym, ap, ◌∙◌, ◌⊎◌, inl, inr, true, false, Option, none, some, List, [],
  ◌∷◌, ◌++◌, append_assoc, append-nil, map, ◌==◌, ==_iff, if◌then◌else◌, if_split, Bool-cases,
  length, length-append, occurs, get_elem?, All, All-append, All-map, arith,
}
use weft_warp_loop.Ffi.{Laws}
use weft_warp_loop.Core.Rooms.{contains}
use weft_warp_loop.Core.Kernels.{Sketches, kernels, kernels-Laws, ZoneLaw}
use weft_warp_loop.Zones.Ghost.{Mover, within_ghost_range}
use weft_warp_loop.Zones.Area.{
  EntityRecord, Zone, holds, mover, authority_for_index, adjacent_zones, interest_capacity,
}
use weft_warp_loop.Zones.World.{ZoneWorld, live_zones, zone_at}
use weft_warp_loop.Zones.Targets.{
  record_of, publisher_mover, mates, interested, interest_of, neighbour, neighbours, targets_in,
  targets_from, targets_for_index,
}
use weft_warp_loop.Zones.Population.{times}
use weft_warp_loop.Zones.Exports.{zone_targets, fanout_zones}

-- A record stands in a list.
abbrev pub In : EntityRecord → List EntityRecord → Type 0
In r [] = ⊥
In r (s ∷ ss) = (r ≡ s) ⊎ In r ss

-- A connection other than `c` of which some zone has a record in reach of `p`.
pub record Reached (c : ℕ) (p : Mover) (zones : List Zone) (t : ℕ) : Type 0 where
  pub index : ℕ
  pub zone : Zone
  pub at_index : get_elem? zones index ≡ some zone
  pub entity : EntityRecord
  pub there : In entity zone.entities
  pub conn : entity.conn_id ≡ t
  pub near : within_ghost_range p (mover entity) ≡ true
  pub other : t ≢ c

-- What the loops over the neighbours have added to the targets before them.
pub record Grown (c : ℕ) (p : Mover) (zones : List Zone) (base : List ℕ) (acc : List ℕ × ℕ)
    : Type 0 where
  pub extra : List ℕ
  pub grew : acc.0 ≡ base ++ extra
  pub counted : length extra ≡ acc.1
  pub capped : acc.1 ≤ interest_capacity
  pub reached : All (Reached c p zones) extra

module _ (c : ℕ) (p : Mover) (zones : List Zone) (base : List ℕ) where
  interested-Grown :
      (acc : List ℕ × ℕ) (j : ℕ) (z : Zone) (r : EntityRecord)
      → get_elem? zones j ≡ some z
      → In r z.entities
      → Grown c p zones base acc
      → Grown c p zones base (interested c p r acc)
  interested-Grown (result, n) j z r e there g =
      if_split (Grown c p zones base) _ _ _
        (λ taken. record {
          extra = g.extra ++ (r.conn_id ∷ []);
          grew =
              ap (λ (l : List ℕ). l ++ (r.conn_id ∷ [])) g.grew
              ∙ append_assoc base g.extra (r.conn_id ∷ []);
          counted = omega (arith, length-append g.extra (r.conn_id ∷ []), g.counted);
          capped = ground (arith, taken);
          reached = All-append (Reached c p zones) g.extra (r.conn_id ∷ []) g.reached (
            record {
              index = j;
              zone = z;
              at_index = e;
              entity = r;
              there = there;
              conn = refl;
              near = ground (arith, taken);
              other = λ same. ground (arith, taken, same);
            },
            tt,
          );
        })
        (λ _. g)

  interest_of-Grown :
      (acc : List ℕ × ℕ) (j : ℕ) (z : Zone) (rs : List EntityRecord)
      → get_elem? zones j ≡ some z
      → ((r : EntityRecord) → In r rs → In r z.entities)
      → Grown c p zones base acc
      → Grown c p zones base (interest_of c p rs acc)
  unfolding interest_of
  interest_of-Grown acc j z [] e sub g = g
  interest_of-Grown acc j z (r ∷ rs) e sub g =
      interest_of-Grown (interested c p r acc) j z rs e (λ s h. sub s (inr h))
        (interested-Grown acc j z r e (sub r (inl refl)) g)

  neighbour-Grown :
      (acc : List ℕ × ℕ) (j : ℕ) (o : Option Zone)
      → get_elem? zones j ≡ o
      → Grown c p zones base acc
      → Grown c p zones base (neighbour c p o acc)
  neighbour-Grown acc j none e g = g
  neighbour-Grown acc j (some z) e g = interest_of-Grown acc j z z.entities e (λ r h. h) g

  pub neighbours-Grown :
      (js : List ℕ) (acc : List ℕ × ℕ)
      → Grown c p zones base acc
      → Grown c p zones base (neighbours c p zones js acc)
  unfolding neighbours
  neighbours-Grown [] acc g = g
  neighbours-Grown (j ∷ js) (result, n) g = neighbours-Grown js _ (
      if_split (Grown c p zones base) _ _ _
        (λ _. neighbour-Grown (result, n) j (get_elem? zones j) refl g) (λ _. g))

-- The mates are the other connections of the zone.
pub contains-mates :
    (c d : ℕ) (rs : List EntityRecord)
    → contains (mates c rs) d ≡ (if c == d then false else holds d rs)
unfolding contains mates holds
contains-mates c d [] = ground arith
contains-mates c d (r ∷ rs) = ground (arith, contains-mates c d rs, ==_iff r.conn_id c, ==_iff c d)

mates-All : (c : ℕ) (rs : List EntityRecord) → All (λ t. t ≢ c) (mates c rs)
unfolding mates
mates-All c [] = tt
mates-All c (r ∷ rs) = elim (Bool-cases (r.conn_id == c)) [
  | inl same ↦ rw same (mates-All c rs)
  | inr apart ↦ rw apart (ground (arith, apart), mates-All c rs)
]

-- Each of them as often as it has a record there, and the publisher not at all.
occurs-mates :
    (t c : ℕ) (rs : List EntityRecord) → occurs t (mates c rs) ≡ (if t == c then 0 else times t rs)
unfolding occurs mates times
occurs-mates t c [] = ground arith
occurs-mates t c (r ∷ rs) =
    ground (arith, occurs-mates t c rs, ==_iff r.conn_id c, ==_iff r.conn_id t)

-- The targets of a publish at an index that the zone `z` governs.
abbrev pub TargetsResult : ℕ → List Zone → Zone → List ℕ → Type 0
TargetsResult c zones z targets =
    (extra : List ℕ) × (targets ≡ mates c z.entities ++ extra)
    × ((t : ℕ) → occurs t (mates c z.entities) ≡ (if t == c then 0 else times t z.entities))
    × (length extra ≤ interest_capacity)
    × All (Reached c (publisher_mover (record_of c z.entities)) zones) extra

targets_in-TargetsResult :
    (c : ℕ) (zones : List Zone) (own : ℕ) (z : Zone)
    → TargetsResult c zones z (targets_in c zones own (some z))
targets_in-TargetsResult c zones own z =
    let g =
      neighbours-Grown c (publisher_mover (record_of c z.entities)) zones (mates c z.entities)
        (adjacent_zones zones own (get_elem? zones own)) (mates c z.entities, 0)
        (record {
          extra = [];
          grew = sym (append-nil (mates c z.entities));
          counted = refl;
          capped = omega arith;
          reached = tt;
        }) in
    (
      g.extra,
      g.grew,
      λ t. occurs-mates t c z.entities,
      omega (arith, g.counted, g.capped),
      g.reached,
    )

-- The targets of a publish at an index that a zone governs begin with all records of that zone but
-- those of the publisher: every other connection stands there as often as it has records in the
-- zone, and the publisher not at all. After them come at most 400 more, each of a connection other
-- than the publisher of which some live zone has a record in ghost range of the publisher as its
-- zone knows it.
pub targets_for_index-TargetsResult :
    (w : ZoneWorld) (c idx own : ℕ) (z : Zone)
    → authority_for_index (map zone_at (live_zones w)) idx ≡ some own
    → get_elem? (map zone_at (live_zones w)) own ≡ some z
    → TargetsResult c (map zone_at (live_zones w)) z (targets_for_index w c idx)
unfolding targets_for_index
targets_for_index-TargetsResult w c idx own z e f =
    rw (e, f) (targets_in-TargetsResult c (map zone_at (live_zones w)) own z)

targets_in-All :
    (c : ℕ) (zones : List Zone) (own : ℕ) (o : Option Zone)
    → All (λ t. t ≢ c) (targets_in c zones own o)
targets_in-All c zones own none = tt
targets_in-All c zones own (some z) =
    let (extra, whole, _, _, reached) = targets_in-TargetsResult c zones own z in
    rw whole (
      All-append (λ t. t ≢ c) (mates c z.entities) extra (mates-All c z.entities)
        (All-map (λ t h. h.other) extra reached))

targets_from-All :
    (c : ℕ) (zones : List Zone) (o : Option ℕ) → All (λ t. t ≢ c) (targets_from c zones o)
targets_from-All c zones none = tt
targets_from-All c zones (some own) = targets_in-All c zones own (get_elem? zones own)

-- The zones keep the law that the kernels need of them.
pub fanout_zones-ZoneLaw : ZoneLaw fanout_zones
unfolding zone_targets targets_for_index
fanout_zones-ZoneLaw c x y z w = targets_from-All c (map zone_at (live_zones w)) _

-- Whatever the sketches are, the kernels with these zones keep what the host relies on.
pub kernels-fanout_zones : (sketches : Sketches) → Laws (kernels fanout_zones sketches)
kernels-fanout_zones sketches = kernels-Laws fanout_zones sketches fanout_zones-ZoneLaw
