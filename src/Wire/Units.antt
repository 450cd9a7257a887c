-- ===== src/Wire/Units.antt =====
-- Units and prefixes: velocity magnitudes, round-trip times in ticks, frame lengths.
use weft_warp_loop.Base.{
  ℕ, suc, ◌+◌, ◌-◌, ◌*◌, ◌/◌, ◌%◌, ◌^◌, ◌≤◌, ◌<◌, ◌≡◌, [], ◌∷◌, ◌++◌, arith, Bytes, length, refl,
}
use weft_warp_loop.Wire.Decimal.{ℤ, pos, negsuc, InRange}

-- `absMagnitude`. The negation of the least int64_t overflows; the wrapped value is taken here.
unfoldable pub abs_magnitude : ℤ → ℕ
abs_magnitude (pos n) = n % 2 ^ 64
abs_magnitude (negsuc n) = suc n % 2 ^ 64

-- A direction is dropped and nothing else: both signs of a number have its distance from 0.
pub abs_magnitude_le : (v : ℤ) → InRange v → abs_magnitude v ≤ 2 ^ 63
unfolding abs_magnitude
abs_magnitude_le (pos n) r = omega arith
abs_magnitude_le (negsuc n) r = omega arith

abbrev pub sim_tick_micros : ℕ
sim_tick_micros = 50000

-- `rttToTicks`, on the value of `picoquic_get_rtt`, in uint64_t.
unfoldable pub rtt_to_ticks : ℕ → ℕ
rtt_to_ticks rtt = ((rtt + sim_tick_micros - 1) % 2 ^ 64) / sim_tick_micros

-- For a round-trip time whose sum with a tick is below 2^64, the ticks cover the time, and they
-- are less than one tick longer than it.
pub rtt_to_ticks_bounds :
    (rtt : ℕ)
    → rtt + sim_tick_micros < 2 ^ 64
    → (rtt ≤ rtt_to_ticks rtt * sim_tick_micros)
      × (rtt_to_ticks rtt * sim_tick_micros < rtt + sim_tick_micros)
unfolding rtt_to_ticks
rtt_to_ticks_bounds rtt h = omega arith

-- The four bytes of a frame's length, least significant first: `static_cast<uint8_t>(n >> 8 * i)`.
unfoldable pub len_prefix : ℕ → Bytes
len_prefix n = n % 256 ∷ (n / 2 ^ 8) % 256 ∷ (n / 2 ^ 16) % 256 ∷ (n / 2 ^ 24) % 256 ∷ []

-- The bytes `b[0]` to `b[3]` shifted and joined by `|`; their bits do not overlap.
unfoldable pub frame_len : Bytes → ℕ
frame_len (a ∷ b ∷ c ∷ d ∷ rest) = a + b * 2 ^ 8 + c * 2 ^ 16 + d * 2 ^ 24
frame_len _ = 0

-- A frame length below 2^32 that the host writes as four bytes is what its own parser reads from
-- them, whatever stands behind.
pub frame_len-len_prefix :
    (n : ℕ) (rest : Bytes) → n < 2 ^ 32 → frame_len (len_prefix n ++ rest) ≡ n
unfolding frame_len len_prefix
frame_len-len_prefix n rest h = omega arith

-- Only the first four bytes count.
pub frame_len-append : (bs more : Bytes) → 4 ≤ length bs → frame_len (bs ++ more) ≡ frame_len bs
unfolding frame_len
frame_len-append [] more h = absurd (omega arith)
frame_len-append (a ∷ []) more h = absurd (omega arith)
frame_len-append (a ∷ b ∷ []) more h = absurd (omega arith)
frame_len-append (a ∷ b ∷ c ∷ []) more h = absurd (omega arith)
frame_len-append (a ∷ b ∷ c ∷ d ∷ rest) more h = refl
