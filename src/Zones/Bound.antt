-- ===== src/Zones/Bound.antt =====
-- An index of the curve has three bits for each of the levels.
use Prim.Native.Nat.{bit_and, bit_or, bit_and-bitwise, bit_or-bitwise, digits, max}
use native.Mathlib.Nat.{pow-suc}
use weft_warp_loop.Base.{ℕ, zero, suc, ◌+◌, ◌*◌, ◌/◌, ◌%◌, ◌^◌, ◌≤◌, ◌<◌, ◌≡◌, refl, min, arith}
use weft_warp_loop.Zones.Curve.{
  Pos3, Grid, push_bit, shift_right, interleave, hilbert_index_of_grid, hilbert_3d,
}

abbrev or_digits : ℕ → ℕ → ℕ → ℕ
or_digits n a b = digits (λ b. b) max n a b

abbrev and_digits : ℕ → ℕ → ℕ → ℕ
and_digits n a b = digits (λ b. zero) min n a b

or_digits-zero : (n a : ℕ) → a ≤ n → or_digits n a 0 ≡ a
or_digits-zero zero zero h = refl
or_digits-zero zero (suc a) h = absurd (omega arith)
or_digits-zero (suc n) zero h = refl
or_digits-zero (suc n) (suc a) h = omega (arith, or_digits-zero n (suc a / 2) (omega arith))

-- A bit goes below an even number.
or_digits-bit : (n a b : ℕ) → a ≤ n → a % 2 ≡ 0 → b ≤ 1 → or_digits n a b ≡ a + b
or_digits-bit zero zero b h e k = omega arith
or_digits-bit zero (suc a) b h e k = absurd (omega arith)
or_digits-bit (suc n) zero b h e k = omega arith
or_digits-bit (suc n) (suc a) b h e k =
    let half : b / 2 ≡ 0 = omega arith in
    rw half (omega (arith, or_digits-zero n (suc a / 2) (omega arith)))

pub bit_or-bit : (a b : ℕ) → a % 2 ≡ 0 → b ≤ 1 → bit_or a b ≡ a + b
bit_or-bit a b e k = omega (arith, bit_or-bitwise a b, or_digits-bit a a b (omega arith) e k)

and_digits-zero : (n a : ℕ) → and_digits n a 0 ≡ 0
and_digits-zero zero a = refl
and_digits-zero (suc n) zero = refl
and_digits-zero (suc n) (suc a) = omega (arith, and_digits-zero n (suc a / 2))

and_digits-one : (n a : ℕ) → and_digits n a 1 ≤ 1
and_digits-one zero a = omega arith
and_digits-one (suc n) zero = omega arith
and_digits-one (suc n) (suc a) = omega (arith, and_digits-zero n (suc a / 2))

pub bit_and-one-le : (a : ℕ) → bit_and a 1 ≤ 1
bit_and-one-le a = omega (arith, bit_and-bitwise a 1, and_digits-one a a)

push_bit-lt : (k v d b : ℕ) → d < b → b * 2 ≤ 2 ^ 64 → push_bit k v d < b * 2
push_bit-lt k v d b h w =
    let bit = bit_and-one-le (shift_right v (k % 2 ^ 64)) in
    let small : d * 2 % 2 ^ 64 ≡ d * 2 = omega arith in
    rw (small, bit_or-bit (d * 2) (bit_and (shift_right v (k % 2 ^ 64)) 1) (omega arith) bit)
      (omega (arith, bit))

eight-pos : (k : ℕ) → 1 ≤ 8 ^ k
eight-pos zero = omega arith
eight-pos (suc k) = rw pow-suc (omega (arith, eight-pos k))

le-mul : (a b : ℕ) → 1 ≤ b → a ≤ a * b
le-mul a (suc b) h = grind arith
le-mul a zero h = absurd (omega arith)

power-le : (k n : ℕ) → k ≤ n → 8 ^ k ≤ 8 ^ n
power-le zero n h = eight-pos n
power-le (suc k) zero h = absurd (omega arith)
power-le (suc k) (suc n) h = omega (arith, pow-suc 8 k, pow-suc 8 n, power-le k n (omega arith))

-- Three bits for each level that is left.
interleave-lt :
    (k : ℕ) (g : Grid) (d b : ℕ) → d < b → b * 8 ^ k ≤ 2 ^ 64 → interleave k g d < b * 8 ^ k
unfolding interleave
interleave-lt zero g d b h w = omega arith
interleave-lt (suc k) g d b h w =
    let e : b * 2 * 2 * 2 * 8 ^ k ≡ b * 8 ^ suc k = rw pow-suc (grind arith) in
    let room : b * 2 * 2 * 2 ≤ 2 ^ 64 =
      omega (arith, e, w, le-mul (b * 2 * 2 * 2) (8 ^ k) (eight-pos k)) in
    let x = push_bit-lt k g.x d b h (omega arith) in
    let y = push_bit-lt k g.y (push_bit k g.x d) (b * 2) x (omega arith) in
    let z = push_bit-lt k g.z (push_bit k g.y (push_bit k g.x d)) (b * 2 * 2) y room in
    rw (← e) (
      interleave-lt k g (push_bit k g.z (push_bit k g.y (push_bit k g.x d))) (b * 2 * 2 * 2) z
        (omega (arith, e, w)))

-- With at most 21 levels the index stays below the end of the curve.
pub hilbert_3d-lt : (bits : ℕ) (p : Pos3) → bits ≤ 21 → hilbert_3d bits p < 8 ^ bits
unfolding hilbert_3d hilbert_index_of_grid
hilbert_3d-lt bits p h =
    omega (arith, interleave-lt bits _ 0 1 (omega arith) (omega (arith, power-le bits 21 h)))
