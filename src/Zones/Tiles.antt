-- ===== src/Zones/Tiles.antt =====
-- The children of a cell of the octree tile it.
use weft_warp_loop.Base.{
  ℕ, zero, suc, ◌+◌, ◌-◌, ◌*◌, ◌/◌, ◌%◌, ◌^◌, ◌≤◌, ◌<◌, ◌≡◌, refl, sym, ◌∙◌, ◌&&◌, Option, none,
  some, List, [], ◌∷◌, ◌==◌, ==_iff, leb, ltb, if◌then◌else◌, Bool-cases, inl, inr, arith,
}
use native.Mathlib.Nat.{pow-suc, mul_assoc}
use weft_warp_loop.Zones.Area.{ZoneRange, range_contains}
use weft_warp_loop.Zones.Octree.{
  range_length, strip_twos, depth_of, zone_range_depth, child, eight_children, children_at,
  octree_children,
}

-- How many of the ranges have an index.
unfoldable pub hits : ℕ → List ZoneRange → ℕ
hits idx [] = 0
hits idx (c ∷ cs) = (if range_contains c idx then 1 else 0) + hits idx cs

cell : ℕ → ℕ → ℕ → ℕ
cell idx lo hi = if leb lo idx && ltb idx hi then 1 else 0

cell-join :
    (idx lo mid hi : ℕ) → lo ≤ mid → mid ≤ hi → cell idx lo mid + cell idx mid hi ≡ cell idx lo hi
unfolding cell
cell-join idx lo mid hi a b = ground arith

-- A number is what its stripping leaves, times a power of two.
strip_twos_lem :
    (f n l : ℕ) → (j : ℕ) × ((strip_twos f n l).1 ≡ l + j) × (n ≡ (strip_twos f n l).0 * 2 ^ j)
unfolding strip_twos
strip_twos_lem zero n l = (0, omega arith, omega arith)
strip_twos_lem (suc f) n l = elim (Bool-cases (ltb 1 n && (n % 2 == 0))) [
  | inl even ↦
      let (j, levels, rest) = strip_twos_lem f (n / 2) (suc l) in
      let halves : n ≡ n / 2 * 2 = ground (arith, even) in
      let power : (strip_twos f (n / 2) (suc l)).0 * 2 ^ suc j ≡ n =
        rw pow-suc
          (omega (arith, mul_assoc (strip_twos f (n / 2) (suc l)).0 (2 ^ j) 2, rest, halves)) in
      rw even (suc j, omega (arith, levels), sym power)
  | inr odd ↦ rw odd (0, omega arith, omega arith)
]

eight_times : (j : ℕ) → 2 ^ suc (suc (suc j)) ≡ 8 * 2 ^ j
eight_times j = rw pow-suc (rw pow-suc (rw pow-suc (omega arith)))

power_divides : (j : ℕ) → 3 ≤ j → 2 ^ j % 8 ≡ 0
power_divides (suc (suc (suc j))) h = omega (arith, eight_times j)
power_divides zero h = absurd (omega arith)
power_divides (suc zero) h = absurd (omega arith)
power_divides (suc (suc zero)) h = absurd (omega arith)

depth_of-divides :
    (bits : ℕ) (r : ZoneRange) (len d : ℕ) (p : ℕ × ℕ)
    → depth_of bits r len p ≡ some d
    → d < bits
    → (p.0 ≡ 1) × (3 ≤ p.1)
depth_of-divides bits r len d (n, levels) e h = (ground arith, ground arith)

length-divides :
    (bits : ℕ) (r : ZoneRange) (d : ℕ)
    → zone_range_depth bits r ≡ some d
    → d < bits
    → range_length r % 8 ≡ 0
unfolding zone_range_depth
length-divides bits r d e h = elim (Bool-cases (range_length r == 0)) [
  | inl none_left ↦ omega (arith, (==_iff (range_length r) 0).0 none_left)
  | inr some_left ↦
      let (one, three) =
        depth_of-divides bits r (range_length r) d (strip_twos 64 (range_length r) 0)
          (rw some_left at e) h in
      let (j, levels, whole) = strip_twos_lem 64 (range_length r) 0 in
      let power : range_length r ≡ 2 ^ j = rw one at whole ∙ omega arith in
      rw power (power_divides j (omega (arith, three, levels)))
]

pub children_at-some :
    (bits : ℕ) (r : ZoneRange) (cs : List ZoneRange) (o : Option ℕ)
    → children_at bits r o ≡ some cs
    → (d : ℕ) × (o ≡ some d) × (d < bits) × (eight_children r ≡ cs)
children_at-some bits r cs none e = absurd (clash e)
  where
    clash : ◌≡◌ {A = Option (List ZoneRange)} none (some cs) → ⊥
    clash q = cc
children_at-some bits r cs (some d) e = elim (Bool-cases (leb bits d)) [
  | inl deep ↦ absurd (clash (rw deep at e))
  | inr shallow ↦ (d, refl, ground (arith, shallow), some_eq (rw shallow at e))
]
  where
    clash : ◌≡◌ {A = Option (List ZoneRange)} none (some cs) → ⊥
    clash q = cc

    some_eq :
        ◌≡◌ {A = Option (List ZoneRange)} (some (eight_children r)) (some cs)
        → eight_children r ≡ cs
    some_eq q = cc

-- One child, without the wrap-around.
child-cell :
    (r : ZoneRange) (i idx : ℕ)
    → r.start ≤ r.stop
    → r.stop < 2 ^ 64
    → i < 8
    → (if range_contains (child r i) idx then 1 else 0)
      ≡ cell idx (r.start + i * (range_length r / 8)) (r.start + (i + 1) * (range_length r / 8))
unfolding range_contains cell range_length
child-cell r i idx a b h =
    let len : (r.stop + 2 ^ 64 - r.start) % 2 ^ 64 ≡ r.stop - r.start = omega arith in
    let more : (i + 1) * ((r.stop - r.start) / 8) ≤ r.stop - r.start = grind arith in
    let less : i * ((r.stop - r.start) / 8) ≤ (i + 1) * ((r.stop - r.start) / 8) = grind arith in
    let lo : (r.start + i * ((r.stop - r.start) / 8)) % 2 ^ 64
        ≡ r.start + i * ((r.stop - r.start) / 8) =
      omega arith in
    let hi : (r.start + (i + 1) * ((r.stop - r.start) / 8)) % 2 ^ 64
        ≡ r.start + (i + 1) * ((r.stop - r.start) / 8) =
      omega arith in
    rw (len, lo, hi) refl

-- The eight cells join.
eight-cells :
    (idx start q : ℕ)
    → cell idx (start + 0 * q) (start + 1 * q)
        + (cell idx (start + 1 * q) (start + 2 * q)
            + (cell idx (start + 2 * q) (start + 3 * q)
                + (cell idx (start + 3 * q) (start + 4 * q)
                    + (cell idx (start + 4 * q) (start + 5 * q)
                        + (cell idx (start + 5 * q) (start + 6 * q)
                            + (cell idx (start + 6 * q) (start + 7 * q)
                                + (cell idx (start + 7 * q) (start + 8 * q) + 0)))))))
      ≡ cell idx (start + 0 * q) (start + 8 * q)
eight-cells idx start q = omega (
  arith,
  cell-join idx (start + 0 * q) (start + 1 * q) (start + 8 * q) (omega arith) (omega arith),
  cell-join idx (start + 1 * q) (start + 2 * q) (start + 8 * q) (omega arith) (omega arith),
  cell-join idx (start + 2 * q) (start + 3 * q) (start + 8 * q) (omega arith) (omega arith),
  cell-join idx (start + 3 * q) (start + 4 * q) (start + 8 * q) (omega arith) (omega arith),
  cell-join idx (start + 4 * q) (start + 5 * q) (start + 8 * q) (omega arith) (omega arith),
  cell-join idx (start + 5 * q) (start + 6 * q) (start + 8 * q) (omega arith) (omega arith),
  cell-join idx (start + 6 * q) (start + 7 * q) (start + 8 * q) (omega arith) (omega arith),
)

whole :
    (r : ZoneRange) (idx : ℕ)
    → r.start ≤ r.stop
    → r.stop < 2 ^ 64
    → range_length r % 8 ≡ 0
    → cell idx (r.start + 0 * (range_length r / 8)) (r.start + 8 * (range_length r / 8))
      ≡ (if range_contains r idx then 1 else 0)
unfolding cell range_contains range_length
whole r idx a b h =
    let lo : r.start + 0 * ((r.stop + 2 ^ 64 - r.start) % 2 ^ 64 / 8) ≡ r.start = omega arith in
    let hi : r.start + 8 * ((r.stop + 2 ^ 64 - r.start) % 2 ^ 64 / 8) ≡ r.stop = omega (arith, h) in
    rw (lo, hi) refl

-- The eight children of a cell tile it: an index is in exactly one of them if it is in the range
-- of the cell, and in none if it is not. The range has to be proper and to end below 2^64.
pub octree_children-tile :
    (bits : ℕ) (r : ZoneRange) (cs : List ZoneRange) (idx : ℕ)
    → r.start ≤ r.stop
    → r.stop < 2 ^ 64
    → octree_children bits r ≡ some cs
    → hits idx cs ≡ (if range_contains r idx then 1 else 0)
unfolding octree_children hits
octree_children-tile bits r cs idx a b e =
    let (d, at_d, shallow, eight) = children_at-some bits r cs (zone_range_depth bits r) e in
    let eighths = length-divides bits r d at_d shallow in
    rw (← eight) (
      rw
        (
          child-cell r 0 idx a b (omega arith),
          child-cell r 1 idx a b (omega arith),
          child-cell r 2 idx a b (omega arith),
          child-cell r 3 idx a b (omega arith),
          child-cell r 4 idx a b (omega arith),
          child-cell r 5 idx a b (omega arith),
          child-cell r 6 idx a b (omega arith),
          child-cell r 7 idx a b (omega arith),
          eight-cells idx r.start (range_length r / 8),
        )
        (whole r idx a b eighths))
