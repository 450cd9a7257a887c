-- ===== src/Zones/Ghost.antt =====
-- Predictive interest (Zone.lean): how far an entity can come in its lookahead window.
use Prim.Native.Nat.{max}
use weft_warp_loop.Base.{
  ℕ, ◌+◌, ◌-◌, ◌*◌, ◌/◌, ◌%◌, ◌^◌, Bool, true, false, ◌&&◌, leb, if◌then◌else◌,
}
use weft_warp_loop.Wire.Decimal.{ℤ, pos, negsuc}
use weft_warp_loop.Zones.Curve.{Pos3, to_u64}

-- `ghostExpansion`, which wraps.
unfoldable pub ghost_expansion : ℕ → ℕ → ℕ → ℕ
ghost_expansion v a_half k = (v * k + a_half * k * k) % 2 ^ 64

-- `defaultLookaheadTicks`.
abbrev pub default_lookahead_ticks : ℕ
default_lookahead_ticks = 6

-- `hysteresisTicksFor`.
unfoldable pub hysteresis_ticks_for : ℕ → ℕ
hysteresis_ticks_for lookahead = max 1 (lookahead / 2)

abbrev pub at_least : ℤ → ℤ → Bool
at_least (pos a) (pos b) = leb b a
at_least (pos a) (negsuc b) = true
at_least (negsuc a) (pos b) = false
at_least (negsuc a) (negsuc b) = leb a b

-- `(a - b).toUInt64`: the difference of Int64 wraps, and so do the bits.
abbrev pub minus_u64 : ℤ → ℤ → ℕ
minus_u64 a b = (to_u64 a + 2 ^ 64 - to_u64 b) % 2 ^ 64

-- `axisDist`.
unfoldable pub axis_dist : ℤ → ℤ → ℕ
axis_dist a b = if at_least a b then minus_u64 a b else minus_u64 b a

-- A moving point: its position, its speed along each axis, and its lookahead window.
pub record Mover : Type 0 where
  pub pos : Pos3
  pub vx : ℕ
  pub vy : ℕ
  pub vz : ℕ
  pub lookahead : ℕ

-- `axisDist a b <= exA + exB` for one axis; the sum wraps.
abbrev pub axis_within : ℤ → ℕ → ℕ → ℤ → ℕ → ℕ → Bool
axis_within a va ka b vb kb =
    leb (axis_dist a b) ((ghost_expansion va 0 ka + ghost_expansion vb 0 kb) % 2 ^ 64)

-- `withinGhostRange`.
unfoldable pub within_ghost_range : Mover → Mover → Bool
within_ghost_range p t =
    axis_within p.pos.x p.vx p.lookahead t.pos.x t.vx t.lookahead
    && (axis_within p.pos.y p.vy p.lookahead t.pos.y t.vy t.lookahead
        && axis_within p.pos.z p.vz p.lookahead t.pos.z t.vz t.lookahead)
