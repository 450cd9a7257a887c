-- ===== src/Base/Split.antt =====
-- `std::string::find` of one byte with the two `substr` around it.
use mathlib.Core.Path.{◌≡◌, refl}
use mathlib.Core.Logic.{inl, inr}
use mathlib.Core.Bool.{false}
use mathlib.Core.Option.{Option, none, some}
use mathlib.Core.List.{[], ◌∷◌, ◌++◌}
use Prim.Native.Nat.{ℕ, ◌<◌}
use native.Mathlib.Omega.{arith}
use weft_warp_loop.Base.Tests.{Option-cases, ◌==◌, ==-refl, if◌then◌else◌, Bytes}
use weft_warp_loop.Base.Lists.{length}

abbrev pub before : ℕ → Option (Bytes × Bytes) → Option (Bytes × Bytes)
before c none = none
before c (some (left, right)) = some (c ∷ left, right)

-- What stands before the first `b` and what stands behind it; `none` is `npos`.
unfoldable pub split_first : ℕ → Bytes → Option (Bytes × Bytes)
split_first b [] = none
split_first b (c ∷ cs) = if c == b then some ([], cs) else before c (split_first b cs)

-- No byte of the text is `b`.
abbrev pub Without : ℕ → Bytes → Type 0
Without b [] = Unit
Without b (c ∷ cs) = ((c == b) ≡ false) × Without b cs

pub split_first-join :
    (b : ℕ) (left right : Bytes)
    → Without b left
    → split_first b (left ++ (b ∷ right)) ≡ some (left, right)
unfolding split_first
split_first-join b [] right h = ground (arith, ==-refl b)
split_first-join b (c ∷ left) right h = ground (arith, split_first-join b left right h.1)

pub split_first-append :
    (b : ℕ) (bs more : Bytes) {left right : Bytes}
    → split_first b bs ≡ some (left, right)
    → split_first b (bs ++ more) ≡ some (left, right ++ more)
unfolding split_first
split_first-append b [] more e = cc
split_first-append b (c ∷ cs) more e = elim (Option-cases (split_first b cs)) [
  | inl n ↦ ground arith
  | inr ((l, r), found) ↦ ground (arith, split_first-append b cs more found)
]

pub split_first-length :
    (b : ℕ) (bs : Bytes) {left right : Bytes}
    → split_first b bs ≡ some (left, right)
    → length right < length bs
unfolding split_first
split_first-length b [] e = cc
split_first-length b (c ∷ cs) e = elim (Option-cases (split_first b cs)) [
  | inl n ↦ ground arith
  | inr ((l, r), found) ↦ ground (arith, split_first-length b cs found)
]

pub Without-append : (b : ℕ) (xs ys : Bytes) → Without b xs → Without b ys → Without b (xs ++ ys)
Without-append b [] ys h k = k
Without-append b (x ∷ xs) ys (here, h) k = (here, Without-append b xs ys h k)

pub split_first-Without : (b : ℕ) (xs : Bytes) → Without b xs → split_first b xs ≡ none
unfolding split_first
split_first-Without b [] h = refl
split_first-Without b (x ∷ xs) (here, h) = ground (arith, here, split_first-Without b xs h)
