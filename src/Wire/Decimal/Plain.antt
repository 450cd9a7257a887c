-- ===== src/Wire/Decimal/Plain.antt =====
-- A number that std::to_string wrote holds nothing but digits and a minus sign.
use weft_warp_loop.Base.{
  ℕ, suc, ◌+◌, ◌/◌, ◌%◌, ◌<◌, ◌≡◌, refl, [], ◌∷◌, ◌++◌, arith, Without, Without-append,
}
use mathlib.Core.Logic.{dite}
use mathlib.Core.WellFounded.{Acc}
use native.Mathlib.Decide.{dec_lt}
use weft_warp_loop.Wire.Decimal.{
  codes, ℤ, pos, negsuc, decimal, to_string, decimal_acc, lt_wf, tenth_lt,
}

decimal_acc-Without : (b n : ℕ) (w : Acc ◌<◌ n) → b < 45 → Without b (decimal_acc n w)
unfolding decimal_acc
decimal_acc-Without b n (Acc.intro _ smaller) h =
    elim (dec_lt 9 n)
      as (λ d. Without b (
        dite d (λ h. decimal_acc (n / 10) (smaller (n / 10) (tenth_lt h)) ++ (b'0' + n % 10) ∷ [])
          (λ _. (b'0' + n) ∷ []))) [
            | yes g ↦
                Without-append b (decimal_acc (n / 10) (smaller (n / 10) (tenth_lt g)))
                  ((b'0' + n % 10) ∷ [])
                  (decimal_acc-Without b (n / 10) (smaller (n / 10) (tenth_lt g)) h)
                  (ground arith, tt)
            | no g ↦ (ground arith, tt)
          ]

-- So a byte below the minus sign, as a space or the end of a line, is not in it.
pub to_string-Without : (b : ℕ) (v : ℤ) → b < 45 → Without b (to_string v)
unfolding to_string decimal
to_string-Without b (pos n) h = decimal_acc-Without b n (lt_wf.apply n) h
to_string-Without b (negsuc n) h =
    (ground arith, decimal_acc-Without b (suc n) (lt_wf.apply (suc n)) h)

pub to_string_zero : to_string (pos 0) ≡ codes "0"
unfolding to_string
to_string_zero = refl
