-- ===== src/Wire/Decimal.antt =====
-- `std::from_chars` and `std::to_string` at int64_t, base ten.
pub mod Plain
use Prim.Native.Char.{code}
use Prim.Native.String.{String}
use mathlib.Core.WellFounded.{Acc, WellFounded}
use mathlib.Core.Logic.{dite}
use native.Mathlib.Decide.{dec_lt}
use weft_warp_loop.Base.{
  ℕ, zero, suc, ◌+◌, ◌-◌, ◌*◌, ◌/◌, ◌%◌, ◌^◌, ◌<◌, ◌≡◌, refl, ap, ◌∙◌, inl, inr, Bool-cases, Bool,
  true, false, ◌&&◌, Option, none, some, [], ◌∷◌, ◌++◌, append_assoc, arith, leb, ◌==◌,
  if◌then◌else◌, Bytes,
}

-- `negsuc n` is -(n + 1).
pub data ℤ : Type 0 where
  pos : ℕ → ℤ
  negsuc : ℕ → ℤ

-- The ASCII bytes of a literal.
abbrev pub codes : String → Bytes
codes String.[] = []
codes (String.◌∷◌ c s) = code c ∷ codes s

abbrev pub is_digit : ℕ → Bool
is_digit c = leb b'0' c && leb c b'9'

-- The longest run of digits, added to what was read before, and what follows the run.
unfoldable pub scan : ℕ → Bytes → ℕ × Bytes
scan n [] = (n, [])
scan n (c ∷ cs) =
    let more = scan (n * 10 + (c - b'0')) cs in if is_digit c then more else (n, c ∷ cs)

-- No digit at all is `std::errc::invalid_argument`.
unfoldable pub unsigned : Bytes → Option (ℕ × Bytes)
unsigned [] = none
unsigned (c ∷ cs) = if is_digit c then some (scan (c - b'0') cs) else none

abbrev pub negate : ℕ → ℤ
negate zero = pos 0
negate (suc n) = negsuc n

-- A value that int64_t cannot hold is `std::errc::result_out_of_range`.
unfoldable pub to_i64 : Bool → ℕ → Option ℤ
to_i64 true m = if leb m (2 ^ 63) then some (negate m) else none
to_i64 false m = if leb m (2 ^ 63 - 1) then some (pos m) else none

abbrev pub signed : Bool → Option (ℕ × Bytes) → Option (ℤ × Bytes)
signed minus none = none
signed minus (some (m, rest)) = elim (to_i64 minus m) [ none ↦ none | some v ↦ some (v, rest) ]

-- `std::from_chars(p, end, value)`: the value and the bytes from `ptr` on, or `none` where `ec` is
-- set and the value is left as it was.
unfoldable pub from_chars : Bytes → Option (ℤ × Bytes)
unfolding scan unsigned to_i64
from_chars [] = none
from_chars (c ∷ cs) =
    if c == b'-' then signed true (unsigned cs) else signed false (unsigned (c ∷ cs))

Acc-below : (k n : ℕ) → n < k → Acc ◌<◌ n
Acc-below zero n h = elim h [ ]
Acc-below (suc k) n h = Acc.intro n (λ m hm. Acc-below k m (omega arith))

lt_wf : WellFounded ◌<◌
unfolding Acc-below
lt_wf = record { apply = λ n. Acc-below (suc n) n (omega arith) }

tenth_lt : {n : ℕ} → 9 < n → n / 10 < n
tenth_lt h = omega arith

decimal_acc : (n : ℕ) → Acc ◌<◌ n → Bytes
decimal_acc n (Acc.intro _ smaller) =
    dite (dec_lt 9 n)
      (λ h. decimal_acc (n / 10) (smaller (n / 10) (tenth_lt h)) ++ (b'0' + n % 10) ∷ [])
      (λ _. (b'0' + n) ∷ [])

unfoldable pub decimal : ℕ → Bytes
unfolding decimal_acc lt_wf dec_lt Acc-below tenth_lt
decimal n = decimal_acc n (lt_wf.apply n)

unfoldable pub to_string : ℤ → Bytes
unfolding decimal
to_string (pos n) = decimal n
to_string (negsuc n) = b'-' ∷ decimal (suc n)

to_string_runs : to_string (negsuc 1040) ≡ codes "-1041"
unfolding to_string
to_string_runs = refl

from_chars_runs : from_chars (codes "-1041 7") ≡ some (negsuc 1040, codes " 7")
unfolding from_chars
from_chars_runs = refl

-- One more digit.
scan_digit : (n d : ℕ) (rest : Bytes) → d < 10 → scan n ((b'0' + d) ∷ rest) ≡ scan (n * 10 + d) rest
unfolding scan
scan_digit n d rest h = let e : b'0' + d - b'0' ≡ d = omega arith in rw e (ground arith)

unsigned_digit : (d : ℕ) (rest : Bytes) → d < 10 → unsigned ((b'0' + d) ∷ rest) ≡ some (scan d rest)
unfolding unsigned
unsigned_digit d rest h = let e : b'0' + d - b'0' ≡ d = omega arith in rw e (ground arith)

-- What `decimal` writes is read back, and reading goes on in what follows.
unsigned-decimal_acc :
    (n : ℕ) (w : Acc ◌<◌ n) (rest : Bytes) → unsigned (decimal_acc n w ++ rest) ≡ some (scan n rest)
unfolding decimal_acc
unsigned-decimal_acc n (Acc.intro _ smaller) rest =
    elim (dec_lt 9 n)
      as (λ d.
        unsigned (
          dite d (λ h. decimal_acc (n / 10) (smaller (n / 10) (tenth_lt h)) ++ (b'0' + n % 10) ∷ [])
            (λ _. (b'0' + n) ∷ [])
          ++ rest)
        ≡ some (scan n rest)) [
          | yes h ↦
              rw
                (append_assoc (decimal_acc (n / 10) (smaller (n / 10) (tenth_lt h)))
                  ((b'0' + n % 10) ∷ []) rest)
                (unsigned-decimal_acc (n / 10) (smaller (n / 10) (tenth_lt h))
                    ((b'0' + n % 10) ∷ rest)
                  ∙ rw (scan_digit (n / 10) (n % 10) rest (omega arith))
                      (let e : n / 10 * 10 + n % 10 ≡ n = omega arith in rw e))
          | no h ↦ unsigned_digit n rest (omega arith)
        ]

-- The next byte is no digit, so a number ends before it.
abbrev pub Ends : Bytes → Type 0
Ends [] = Unit
Ends (c ∷ cs) = is_digit c ≡ false

scan-Ends : (n : ℕ) (rest : Bytes) → Ends rest → scan n rest ≡ (n, rest)
unfolding scan
scan-Ends n [] h = refl
scan-Ends n (c ∷ cs) h = rw h

unsigned-decimal :
    (n : ℕ) (rest : Bytes) → Ends rest → unsigned (decimal n ++ rest) ≡ some (n, rest)
unfolding decimal
unsigned-decimal n rest h =
    unsigned-decimal_acc n (lt_wf.apply n) rest ∙ ap some (scan-Ends n rest h)

-- An int64_t.
abbrev pub InRange : ℤ → Type 0
InRange (pos n) = n < 2 ^ 63
InRange (negsuc n) = n < 2 ^ 63

-- A number is never written with a minus sign in front of its digits.
from_chars-unsigned :
    (bs : Bytes) (n : ℕ) (rest : Bytes)
    → unsigned bs ≡ some (n, rest)
    → n < 2 ^ 63
    → from_chars bs ≡ some (pos n, rest)
unfolding from_chars
from_chars-unsigned [] n rest e h = cc
from_chars-unsigned (c ∷ cs) n rest e h = ground arith

-- `from_chars` reads back what `to_string` wrote, whatever non-digit follows.
pub from_chars-to_string :
    (v : ℤ) (rest : Bytes)
    → InRange v
    → Ends rest
    → from_chars (to_string v ++ rest) ≡ some (v, rest)
unfolding to_string from_chars
from_chars-to_string (pos n) rest r h =
    from_chars-unsigned (decimal n ++ rest) n rest (unsigned-decimal n rest h) r
from_chars-to_string (negsuc n) rest r h = ground (arith, unsigned-decimal (suc n) rest h)

-- A number that was read is in range.
abbrev pub Fits : Option (ℤ × Bytes) → Type 0
Fits none = Unit
Fits (some (v, rest)) = InRange v

signed-Fits : (minus : Bool) (m : Option (ℕ × Bytes)) → Fits (signed minus m)
unfolding to_i64
signed-Fits true none = tt
signed-Fits false none = tt
signed-Fits true (some (zero, rest)) = omega arith
signed-Fits true (some (suc m, rest)) = elim (Bool-cases (leb (suc m) (2 ^ 63))) [
  | inl fits ↦ rw (fits, signed) (ground arith)
  | inr big ↦ rw (big, signed) tt
]
signed-Fits false (some (m, rest)) = elim (Bool-cases (leb m (2 ^ 63 - 1))) [
  | inl fits ↦ rw (fits, signed) (ground arith)
  | inr big ↦ rw (big, signed) tt
]

pub from_chars-Fits : (bs : Bytes) → Fits (from_chars bs)
unfolding from_chars
from_chars-Fits [] = tt
from_chars-Fits (c ∷ cs) = elim (Bool-cases (c == b'-')) [
  | inl minus ↦ rw (minus, from_chars) (signed-Fits true (unsigned cs))
  | inr plain ↦ rw (plain, from_chars) (signed-Fits false (unsigned (c ∷ cs)))
]
