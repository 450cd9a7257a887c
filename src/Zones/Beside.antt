-- ===== src/Zones/Beside.antt =====
-- The zones beside a zone (adjacentZones of Zone.lean): the nearest on either side.
use weft_warp_loop.Base.{
  ℕ, zero, suc, ◌+◌, ◌-◌, ◌^◌, ◌≤◌, ◌<◌, ◌≡◌, ◌≢◌, refl, subst, ◌∙◌, inl, inr, Option, some, List,
  [], ◌∷◌, ◌==◌, ==_iff, ==-refl, Bool-cases, occurs, occurs-append, get_elem?, arith,
}
use weft_warp_loop.Zones.Area.{
  ZoneRange, Zone, Sides, see, sides_from, listed, no_sides, adjacent_zones,
}

-- The zone `y` at `j` ends before `t` starts, and every other zone that does ends sooner.
pub record NearestBefore (zones : List Zone) (own : ℕ) (t : ZoneRange) (j : ℕ) (y : Zone)
    : Type 0 where
  pub at_index : get_elem? zones j ≡ some y
  pub other : j ≢ own
  pub ends_before : y.range.stop ≤ t.start
  pub proper : 0 < y.range.stop
  pub closest :
      (i : ℕ) (x : Zone)
      → get_elem? zones i ≡ some x
      → i ≢ own
      → i ≢ j
      → x.range.stop ≤ t.start
      → x.range.stop < y.range.stop

-- The zone `y` at `j` starts after `t` ends, and every other zone that does starts later.
pub record NearestAfter (zones : List Zone) (own : ℕ) (t : ZoneRange) (j : ℕ) (y : Zone)
    : Type 0 where
  pub at_index : get_elem? zones j ≡ some y
  pub other : j ≢ own
  pub starts_after : t.stop ≤ y.range.start
  pub proper : y.range.start < 2 ^ 64 - 1
  pub closest :
      (i : ℕ) (x : Zone)
      → get_elem? zones i ≡ some x
      → i ≢ own
      → i ≢ j
      → t.stop ≤ x.range.start
      → y.range.start < x.range.start

-- The zones of a list with their indices, from `i` on.
abbrev Each : (ℕ → Zone → Type 0) → ℕ → List Zone → Type 0
Each P i [] = Unit
Each P i (z ∷ zs) = P i z × Each P (suc i) zs

Each-at :
    (P : ℕ → Zone → Type 0) (i : ℕ) (zs : List Zone)
    → ((m : ℕ) (x : Zone) → get_elem? zs m ≡ some x → P (i + m) x)
    → Each P i zs
unfolding get_elem?
Each-at P i [] h = tt
Each-at P i (z ∷ zs) h = (
  subst (λ n. P n z) (omega arith) (h 0 z refl),
  Each-at P (suc i) zs (λ m x e. subst (λ n. P n x) (omega arith) (h (suc m) x e)),
)

Each-from_start :
    (P : ℕ → Zone → Type 0) (zs : List Zone)
    → ((m : ℕ) (x : Zone) → get_elem? zs m ≡ some x → P m x)
    → Each P 0 zs
Each-from_start P zs h = Each-at P 0 zs (λ m x e. subst (λ n. P n x) (omega arith) (h m x e))

some_eq : {a b : Zone} → ◌≡◌ {A = Option Zone} (some a) (some b) → a ≡ b
some_eq q = ground arith

module _ (own : ℕ) (t : ZoneRange) (j : ℕ) (y : Zone) where
  abbrev Sooner : ℕ → Zone → Type 0
  Sooner i x = i ≢ own → i ≢ j → x.range.stop ≤ t.start → x.range.stop < y.range.stop

  before_below :
      (i : ℕ) (z : Zone) (s : Sides)
      → Sooner i z
      → i ≢ j
      → s.before_stop < y.range.stop
      → (see own t i z.range s).before_stop < y.range.stop
  before_below i z s h apart b = elim (Bool-cases (i == own)) [
    | inl same ↦ rw same b
    | inr far ↦ rw far (ground (arith, b, h (λ e. ground (arith, far, ==_iff i own, e)) apart))
  ]

  before_same :
      (i : ℕ) (z : Zone) (s : Sides)
      → Sooner i z
      → i ≢ j
      → s.before_stop ≡ y.range.stop
      → ((see own t i z.range s).before ≡ s.before)
        × ((see own t i z.range s).before_stop ≡ y.range.stop)
  before_same i z s h apart b = elim (Bool-cases (i == own)) [
    | inl same ↦ rw same (refl, b)
    | inr far ↦ rw far (
      ground (arith, b, h (λ e. ground (arith, far, ==_iff i own, e)) apart),
      ground (arith, b, h (λ e. ground (arith, far, ==_iff i own, e)) apart),
    )
  ]

  before_taken :
      (s : Sides)
      → j ≢ own
      → y.range.stop ≤ t.start
      → s.before_stop < y.range.stop
      → ((see own t j y.range s).before ≡ some j)
        × ((see own t j y.range s).before_stop ≡ y.range.stop)
  before_taken s o e b = elim (Bool-cases (j == own)) [
    | inl same ↦ absurd (o ((==_iff j own).0 same))
    | inr far ↦ rw far (ground (arith, e, b), ground (arith, e, b))
  ]

  before_stays :
      (i : ℕ) (zs : List Zone) (s : Sides)
      → j < i
      → Each Sooner i zs
      → s.before_stop ≡ y.range.stop
      → (sides_from own t i zs s).before ≡ s.before
  unfolding sides_from
  before_stays i [] s l h b = refl
  before_stays i (z ∷ zs) s l (h, hs) b =
      let (same, stop) = before_same i z s h (λ e. omega (arith, l, e)) b in
      before_stays (suc i) zs (see own t i z.range s) (omega (arith, l)) hs stop ∙ same

  before_found :
      (i k : ℕ) (zs : List Zone) (s : Sides)
      → j ≢ own
      → y.range.stop ≤ t.start
      → i + k ≡ j
      → get_elem? zs k ≡ some y
      → Each Sooner i zs
      → s.before_stop < y.range.stop
      → (sides_from own t i zs s).before ≡ some j
  unfolding sides_from get_elem?
  before_found i k [] s o e at there h b = absurd (ground arith)
  before_found i zero (z ∷ zs) s o e at there (h, hs) b =
      let here : i ≡ j = omega (arith, at) in
      let same : z ≡ y = some_eq there in
      let (taken, stop) = before_taken s o e b in
      rw (here, same)
        (before_stays (suc j) zs (see own t j y.range s) (omega arith)
            (subst (λ n. Each Sooner (suc n) zs) here hs) stop
          ∙ taken)
  before_found i (suc k) (z ∷ zs) s o e at there (h, hs) b =
      before_found (suc i) k zs (see own t i z.range s) o e (omega (arith, at)) there hs
        (before_below i z s h (λ q. omega (arith, at, q)) b)

  abbrev Later : ℕ → Zone → Type 0
  Later i x = i ≢ own → i ≢ j → t.stop ≤ x.range.start → y.range.start < x.range.start

  after_below :
      (i : ℕ) (z : Zone) (s : Sides)
      → Later i z
      → i ≢ j
      → y.range.start < s.after_start
      → y.range.start < (see own t i z.range s).after_start
  after_below i z s h apart b = elim (Bool-cases (i == own)) [
    | inl same ↦ rw same b
    | inr far ↦ rw far (ground (arith, b, h (λ e. ground (arith, far, ==_iff i own, e)) apart))
  ]

  after_same :
      (i : ℕ) (z : Zone) (s : Sides)
      → Later i z
      → i ≢ j
      → s.after_start ≡ y.range.start
      → ((see own t i z.range s).after ≡ s.after)
        × ((see own t i z.range s).after_start ≡ y.range.start)
  after_same i z s h apart b = elim (Bool-cases (i == own)) [
    | inl same ↦ rw same (refl, b)
    | inr far ↦ rw far (
      ground (arith, b, h (λ e. ground (arith, far, ==_iff i own, e)) apart),
      ground (arith, b, h (λ e. ground (arith, far, ==_iff i own, e)) apart),
    )
  ]

  after_taken :
      (s : Sides)
      → j ≢ own
      → t.stop ≤ y.range.start
      → y.range.start < s.after_start
      → ((see own t j y.range s).after ≡ some j)
        × ((see own t j y.range s).after_start ≡ y.range.start)
  after_taken s o e b = elim (Bool-cases (j == own)) [
    | inl same ↦ absurd (o ((==_iff j own).0 same))
    | inr far ↦ rw far (ground (arith, e, b), ground (arith, e, b))
  ]

  after_stays :
      (i : ℕ) (zs : List Zone) (s : Sides)
      → j < i
      → Each Later i zs
      → s.after_start ≡ y.range.start
      → (sides_from own t i zs s).after ≡ s.after
  unfolding sides_from
  after_stays i [] s l h b = refl
  after_stays i (z ∷ zs) s l (h, hs) b =
      let (same, stop) = after_same i z s h (λ e. omega (arith, l, e)) b in
      after_stays (suc i) zs (see own t i z.range s) (omega (arith, l)) hs stop ∙ same

  after_found :
      (i k : ℕ) (zs : List Zone) (s : Sides)
      → j ≢ own
      → t.stop ≤ y.range.start
      → i + k ≡ j
      → get_elem? zs k ≡ some y
      → Each Later i zs
      → y.range.start < s.after_start
      → (sides_from own t i zs s).after ≡ some j
  unfolding sides_from get_elem?
  after_found i k [] s o e at there h b = absurd (ground arith)
  after_found i zero (z ∷ zs) s o e at there (h, hs) b =
      let here : i ≡ j = omega (arith, at) in
      let same : z ≡ y = some_eq there in
      let (taken, stop) = after_taken s o e b in
      rw (here, same)
        (after_stays (suc j) zs (see own t j y.range s) (omega arith)
            (subst (λ n. Each Later (suc n) zs) here hs) stop
          ∙ taken)
  after_found i (suc k) (z ∷ zs) s o e at there (h, hs) b =
      after_found (suc i) k zs (see own t i z.range s) o e (omega (arith, at)) there hs
        (after_below i z s h (λ q. omega (arith, at, q)) b)

module _ (zones : List Zone) (own j : ℕ) (z y : Zone) where
  pub beside-before :
      NearestBefore zones own z.range j y → 0 < occurs j (adjacent_zones zones own (some z))
  unfolding adjacent_zones occurs
  beside-before n =
      let found =
        before_found own z.range j y 0 j zones no_sides n.other n.ends_before (omega arith)
          n.at_index (Each-from_start (Sooner own z.range j y) zones n.closest) n.proper in
      rw found (ground (arith, ==-refl j))

  pub beside-after :
      NearestAfter zones own z.range j y → 0 < occurs j (adjacent_zones zones own (some z))
  unfolding adjacent_zones occurs
  beside-after n =
      let s = sides_from own z.range 0 zones no_sides in
      let found =
        after_found own z.range j y 0 j zones no_sides n.other n.starts_after (omega arith)
          n.at_index (Each-from_start (Later own z.range j y) zones n.closest) n.proper in
      rw (found, occurs-append j (listed s.before) (j ∷ [])) (ground (arith, ==-refl j))
