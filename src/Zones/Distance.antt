-- ===== src/Zones/Distance.antt =====
-- Ghost range in exact numbers: distances of Int64 positions do not wrap.
use weft_warp_loop.Base.{
  ℕ, ◌+◌, ◌-◌, ◌*◌, ◌%◌, ◌^◌, ◌≤◌, ◌<◌, ◌≡◌, refl, true, leb, Bool-cases, inl, inr, arith,
}
use weft_warp_loop.Wire.Decimal.{ℤ, pos, negsuc, InRange}
use weft_warp_loop.Zones.Curve.{to_u64}
use weft_warp_loop.Zones.Ghost.{ghost_expansion, axis_dist, Mover, axis_within, within_ghost_range}

-- The distance of two integers.
unfoldable pub apart : ℤ → ℤ → ℕ
apart (pos a) (pos b) = (a - b) + (b - a)
apart (pos a) (negsuc b) = a + b + 1
apart (negsuc a) (pos b) = a + b + 1
apart (negsuc a) (negsuc b) = (a - b) + (b - a)

pub axis_dist-apart : (a b : ℤ) → InRange a → InRange b → axis_dist a b ≡ apart a b
unfolding axis_dist apart to_u64
axis_dist-apart (pos a) (pos b) h k = elim (Bool-cases (leb b a)) [
  | inl above ↦ rw above (ground (arith, above))
  | inr below ↦ rw below (ground (arith, below))
]
axis_dist-apart (pos a) (negsuc b) h k = omega (arith, h, k)
axis_dist-apart (negsuc a) (pos b) h k = omega (arith, h, k)
axis_dist-apart (negsuc a) (negsuc b) h k = elim (Bool-cases (leb a b)) [
  | inl above ↦ rw above (ground (arith, above))
  | inr below ↦ rw below (ground (arith, below))
]

-- A mover at an Int64 position.
pub record IsPlaced (m : Mover) : Type 0 where
  pub x : InRange m.pos.x
  pub y : InRange m.pos.y
  pub z : InRange m.pos.z

-- Two movers whose reaches, added along each axis, fit a UInt64.
pub record Reaches (p t : Mover) : Type 0 where
  pub x : p.vx * p.lookahead + t.vx * t.lookahead < 2 ^ 64
  pub y : p.vy * p.lookahead + t.vy * t.lookahead < 2 ^ 64
  pub z : p.vz * p.lookahead + t.vz * t.lookahead < 2 ^ 64

-- The two can come together along each axis.
abbrev pub CanMeet : Mover → Mover → Type 0
CanMeet p t =
    (apart p.pos.x t.pos.x ≤ p.vx * p.lookahead + t.vx * t.lookahead)
    × (apart p.pos.y t.pos.y ≤ p.vy * p.lookahead + t.vy * t.lookahead)
    × (apart p.pos.z t.pos.z ≤ p.vz * p.lookahead + t.vz * t.lookahead)

reach :
    (v k w l : ℕ)
    → v * k + w * l < 2 ^ 64
    → (ghost_expansion v 0 k + ghost_expansion w 0 l) % 2 ^ 64 ≡ v * k + w * l
unfolding ghost_expansion
reach v k w l h = omega (arith, h)

axis_within-exact :
    (a : ℤ) (v k : ℕ) (b : ℤ) (w l : ℕ)
    → InRange a
    → InRange b
    → v * k + w * l < 2 ^ 64
    → axis_within a v k b w l ≡ leb (apart a b) (v * k + w * l)
axis_within-exact a v k b w l ha hb h = rw (reach v k w l h, axis_dist-apart a b ha hb) refl

-- For Int64 positions, and speeds and lookahead windows whose reaches, added along each axis, fit
-- a UInt64, two entities are in ghost range exactly if along each axis their distance is at most
-- the sum of their reaches. The comment in Zone.lean speaks of the reach of either one alone.
pub within_ghost_range-CanMeet :
    (p t : Mover)
    → IsPlaced p
    → IsPlaced t
    → Reaches p t
    → (within_ghost_range p t ≡ true → CanMeet p t) × (CanMeet p t → within_ghost_range p t ≡ true)
unfolding within_ghost_range
within_ghost_range-CanMeet p t hp ht r =
    let x = axis_within-exact p.pos.x p.vx p.lookahead t.pos.x t.vx t.lookahead hp.x ht.x r.x in
    let y = axis_within-exact p.pos.y p.vy p.lookahead t.pos.y t.vy t.lookahead hp.y ht.y r.y in
    let z = axis_within-exact p.pos.z p.vz p.lookahead t.pos.z t.vz t.lookahead hp.z ht.z r.z in
    rw (x, y, z) ((λ h. ground (arith, h)), λ h. ground (arith, h))
