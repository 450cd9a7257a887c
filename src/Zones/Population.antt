-- ===== src/Zones/Population.antt =====
-- How often a connection stands in the zones of a world, and what a change of one slot does to that.
use weft_warp_loop.Base.{
  ℕ, zero, suc, ◌+◌, ◌≤◌, ◌<◌, ◌≡◌, ◌≢◌, refl, ◌⊎◌, inl, inr, true, false, Option, none, some, List,
  [], ◌∷◌, ◌++◌, ◌==◌, ==_iff, ==-refl, if◌then◌else◌, Bool-cases, length, leb, get_elem?, set,
  arith,
}
use weft_warp_loop.Zones.Area.{EntityRecord, Zone, holds, enter, expel, authority_capacity}

-- The records of a connection.
unfoldable pub times : ℕ → List EntityRecord → ℕ
times c [] = 0
times c (r ∷ rs) = (if r.conn_id == c then 1 else 0) + times c rs

abbrev pub slot_times : ℕ → ℕ × Option Zone → ℕ
slot_times c (g, none) = 0
slot_times c (g, some z) = times c z.entities

unfoldable pub population : ℕ → List (ℕ × Option Zone) → ℕ
population c [] = 0
population c (s ∷ ss) = slot_times c s + population c ss

pub times-append :
    (c : ℕ) (rs ss : List EntityRecord) → times c (rs ++ ss) ≡ times c rs + times c ss
unfolding times
times-append c [] ss = omega arith
times-append c (r ∷ rs) ss = omega (arith, times-append c rs ss)

pub times-expel_self : (c : ℕ) (rs : List EntityRecord) → times c (expel c rs) ≡ 0
unfolding times expel
times-expel_self c [] = refl
times-expel_self c (r ∷ rs) = elim (Bool-cases (r.conn_id == c)) [
  | inl same ↦ rw same (times-expel_self c rs)
  | inr apart ↦ rw (apart, apart) (omega (arith, times-expel_self c rs))
]

pub times-expel_ne : (c d : ℕ) (rs : List EntityRecord) → d ≢ c → times c (expel d rs) ≡ times c rs
unfolding times expel
times-expel_ne c d [] h = refl
times-expel_ne c d (r ∷ rs) h =
    ground (arith, times-expel_ne c d rs, ==_iff r.conn_id d, ==_iff r.conn_id c)

pub times-holds : (c : ℕ) (rs : List EntityRecord) → holds c rs ≡ true → 0 < times c rs
unfolding times holds
times-holds c [] h = absurd (ground arith)
times-holds c (r ∷ rs) h = ground (arith, times-holds c rs)

pub times-not_holds : (c : ℕ) (rs : List EntityRecord) → holds c rs ≡ false → times c rs ≡ 0
unfolding times holds
times-not_holds c [] h = refl
times-not_holds c (r ∷ rs) h = ground (arith, times-not_holds c rs)

pub expel_absent : (c : ℕ) (rs : List EntityRecord) → times c rs ≡ 0 → expel c rs ≡ rs
unfolding times expel
expel_absent c [] h = refl
expel_absent c (r ∷ rs) h = ground (arith, expel_absent c rs)

pub length-expel-le : (c : ℕ) (rs : List EntityRecord) → length (expel c rs) ≤ length rs
unfolding expel
length-expel-le c [] = omega arith
length-expel-le c (r ∷ rs) = ground (arith, length-expel-le c rs)

-- An entry changes the count of its own connection only.
pub times-enter_ne :
    (c : ℕ) (r : EntityRecord) (rs : List EntityRecord)
    → r.conn_id ≢ c
    → times c (enter r rs) ≡ times c rs
unfolding enter times
times-enter_ne c r rs h = ground (arith, times-append c rs (r ∷ []), ==_iff r.conn_id c)

-- Into a zone with room, or one that holds it, a connection of at most one record enters once.
pub times-enter_self :
    (r : EntityRecord) (rs : List EntityRecord)
    → (holds r.conn_id rs ≡ true) ⊎ (length rs < authority_capacity)
    → times r.conn_id rs ≤ 1
    → times r.conn_id (enter r rs) ≡ 1
unfolding enter times
times-enter_self r rs (inl there) h = rw there (omega (arith, times-holds r.conn_id rs there))
times-enter_self r rs (inr room) h = elim (Bool-cases (holds r.conn_id rs)) [
  | inl there ↦ rw there (omega (arith, times-holds r.conn_id rs there))
  | inr gone ↦
      let small : leb authority_capacity (length rs) ≡ false = ground arith in
      rw (gone, small, times-append r.conn_id rs (r ∷ []), ==-refl r.conn_id)
        (omega (arith, times-not_holds r.conn_id rs gone))
]

-- Setting a slot exchanges what the old entry counts for what the new one does.
pub population-set :
    (c : ℕ) (ss : List (ℕ × Option Zone)) (i : ℕ) (old new : ℕ × Option Zone)
    → get_elem? ss i ≡ some old
    → population c (set ss i new) + slot_times c old ≡ population c ss + slot_times c new
unfolding population get_elem? set
population-set c [] i old new e = absurd (ground arith)
population-set c (s ∷ ss) zero old new e = rw (some_eq e) (omega arith)
  where
    some_eq : ◌≡◌ {A = Option (ℕ × Option Zone)} (some s) (some old) → s ≡ old
    some_eq q = cc
population-set c (s ∷ ss) (suc i) old new e = omega (arith, population-set c ss i old new e)

-- What a slot counts is part of the whole.
pub population-slot :
    (c : ℕ) (ss : List (ℕ × Option Zone)) (i : ℕ) (s : ℕ × Option Zone)
    → get_elem? ss i ≡ some s
    → slot_times c s ≤ population c ss
unfolding population get_elem?
population-slot c [] i s e = absurd (ground arith)
population-slot c (x ∷ ss) zero s e = rw (some_eq e) (omega arith)
  where
    some_eq : ◌≡◌ {A = Option (ℕ × Option Zone)} (some x) (some s) → x ≡ s
    some_eq q = cc
population-slot c (x ∷ ss) (suc i) s e = omega (arith, population-slot c ss i s e)
