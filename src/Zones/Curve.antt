-- ===== src/Zones/Curve.antt =====
-- Positions and their index on the Hilbert curve (Zone.lean). A UInt64 is a number below 2^64.
use Prim.Native.Nat.{bit_and, bit_or, bit_xor}
use weft_warp_loop.Base.{ℕ, zero, suc, ◌-◌, ◌*◌, ◌/◌, ◌%◌, ◌^◌, Bool, ◌==◌, ltb, if◌then◌else◌}
use weft_warp_loop.Wire.Decimal.{ℤ, pos, negsuc}

-- `Pos3`, in micrometres.
pub record Pos3 : Type 0 where
  pub x : ℤ
  pub y : ℤ
  pub z : ℤ

-- `Int64.toUInt64`: the same 64 bits.
unfoldable pub to_u64 : ℤ → ℕ
to_u64 (pos n) = n % 2 ^ 64
to_u64 (negsuc n) = 2 ^ 64 - 1 - n % 2 ^ 64

-- `v >>> k` on UInt64: the shift is taken modulo 64.
abbrev pub shift_right : ℕ → ℕ → ℕ
shift_right v k = v / 2 ^ (k % 64)

-- `quantizeAxis`.
unfoldable pub quantize_axis : ℕ → ℤ → ℕ
quantize_axis bits v = shift_right (to_u64 v) ((64 - bits) % 2 ^ 64)

pub record Grid : Type 0 where
  pub x : ℕ
  pub y : ℕ
  pub z : ℕ

abbrev pub has_bit : ℕ → ℕ → Bool
has_bit v q = if bit_and v q == 0 then Bool.false else Bool.true

-- One level of the inverse-undo pass, one axis after the other.
abbrev pub undo_x : ℕ → Grid → Grid
undo_x q g = if has_bit g.x q then record g { x = bit_xor g.x (q - 1) } else g

abbrev pub undo_y : ℕ → Grid → Grid
undo_y q g =
    if has_bit g.y q
    then record g { x = bit_xor g.x (q - 1) }
    else let t = bit_and (bit_xor g.x g.y) (q - 1) in
      record g { x = bit_xor g.x t; y = bit_xor g.y t }

abbrev pub undo_z : ℕ → Grid → Grid
undo_z q g =
    if has_bit g.z q
    then record g { x = bit_xor g.x (q - 1) }
    else let t = bit_and (bit_xor g.x g.z) (q - 1) in
      record g { x = bit_xor g.x t; z = bit_xor g.z t }

-- `while q > 1 do …; q := q >>> 1`, on fuel: 64 rounds are more than a UInt64 has bits.
unfoldable pub halvings {ℓ} : {S : Type ℓ} → (ℕ → S → S) → ℕ → ℕ → S → S
halvings step zero q s = s
halvings step (suc f) q s =
    let rest = halvings step f (shift_right q 1) (step q s) in if ltb 1 q then rest else s

abbrev pub undo_pass : ℕ → Grid → Grid
undo_pass m g = halvings (λ q s. undo_z q (undo_y q (undo_x q s))) 64 m g

abbrev pub gray_encode : Grid → Grid
gray_encode g = let y = bit_xor g.y g.x in record { x = g.x; y = y; z = bit_xor g.z y }

-- The pass that undoes the excess of the encoding.
abbrev pub excess : ℕ → ℕ → ℕ
excess m z = halvings (λ q t. if has_bit z q then bit_xor t (q - 1) else t) 64 m 0

abbrev pub undo_excess : ℕ → Grid → Grid
undo_excess m g =
    let t = excess m g.z in record { x = bit_xor g.x t; y = bit_xor g.y t; z = bit_xor g.z t }

-- `d := (d <<< 1) ||| ((v >>> k) &&& 1)`.
abbrev pub push_bit : ℕ → ℕ → ℕ → ℕ
push_bit k v d = bit_or (d * 2 % 2 ^ 64) (bit_and (shift_right v (k % 2 ^ 64)) 1)

-- The interleaving, from the highest of the bits on.
unfoldable pub interleave : ℕ → Grid → ℕ → ℕ
interleave zero g d = d
interleave (suc k) g d = interleave k g (push_bit k g.z (push_bit k g.y (push_bit k g.x d)))

-- `hilbertIndexOfGrid`.
unfoldable pub hilbert_index_of_grid : ℕ → ℕ → ℕ → ℕ → ℕ
hilbert_index_of_grid bits px py pz =
    let m = 2 ^ (bits - 1) % 2 ^ 64 in
    interleave bits (undo_excess m (gray_encode (undo_pass m (record { x = px; y = py; z = pz }))))
      0

-- `hilbert3D`.
unfoldable pub hilbert_3d : ℕ → Pos3 → ℕ
hilbert_3d bits p =
    hilbert_index_of_grid bits (quantize_axis bits p.x) (quantize_axis bits p.y)
      (quantize_axis bits p.z)
