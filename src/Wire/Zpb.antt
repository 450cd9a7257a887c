-- ===== src/Wire/Zpb.antt =====
-- `parseZpbFields`: the six numbers of a ZPB header.
use weft_warp_loop.Base.{
  ◌≡◌, refl, sym, ap, ◌∙◌, inl, inr, Bool-cases, Bool, true, false, Option, none, some, List, [],
  ◌∷◌, ◌++◌, append-nil, arith, ◌==◌, Bytes, length, All,
}
use weft_warp_loop.Wire.Decimal.{
  ℤ, from_chars, to_string, InRange, from_chars-to_string, from_chars-Fits, Fits,
}

-- The position and the signed velocity of a stream's last ZPB header.
pub record Zpb : Type 0 where
  pub x : ℤ
  pub y : ℤ
  pub z : ℤ
  pub vx : ℤ
  pub vy : ℤ
  pub vz : ℤ

abbrev pub fields : Zpb → List ℤ
fields h = h.x ∷ h.y ∷ h.z ∷ h.vx ∷ h.vy ∷ h.vz ∷ []

abbrev consed : ℤ → Bool × List ℤ → Bool × List ℤ
consed v (ok, vs) = (ok, v ∷ vs)

-- What follows a number that is not the last: a space, and then the later numbers.
abbrev after_field : Option (ℤ × Bytes) → ℤ → List ℤ → (Bytes → Bool × List ℤ) → Bool × List ℤ
after_field none old later next = (false, old ∷ later)
after_field (some (v, [])) old later next = (false, v ∷ later)
after_field (some (v, c ∷ rest)) old later next = elim (c == b' ') [
  | true ↦ consed v (next rest)
  | false ↦ (false, v ∷ later)
]

-- The last number ends the header.
abbrev last_field : Option (ℤ × Bytes) → ℤ → Bool × List ℤ
last_field none old = (false, old ∷ [])
last_field (some (v, [])) old = (true, v ∷ [])
last_field (some (v, c ∷ rest)) old = (false, v ∷ [])

-- The loop over `fields[i]`. A number that cannot be read leaves its field and the later ones as
-- they were; the earlier ones have been written.
unfoldable pub parse_loop : Bytes → List ℤ → Bool × List ℤ
parse_loop p [] = (true, [])
parse_loop p (old ∷ []) = last_field (from_chars p) old
parse_loop p (old ∷ w ∷ ws) =
    after_field (from_chars p) old (w ∷ ws) (λ rest. parse_loop rest (w ∷ ws))

abbrev of_fields : Zpb → List ℤ → Zpb
of_fields old (a ∷ b ∷ c ∷ d ∷ e ∷ f ∷ []) = record { x = a; y = b; z = c; vx = d; vy = e; vz = f }
of_fields old _ = old

unfoldable pub parse_zpb_fields : Bytes → Zpb → Bool × Zpb
unfolding parse_loop from_chars
parse_zpb_fields rest old = let (ok, vs) = parse_loop rest (fields old) in (ok, of_fields old vs)

-- The six numbers with a space between each two.
unfoldable pub join : List ℤ → Bytes
join [] = []
join (v ∷ []) = to_string v
join (v ∷ w ∷ ws) = to_string v ++ (b' ' ∷ join (w ∷ ws))

unfoldable pub print_zpb : Zpb → Bytes
unfolding join to_string
print_zpb h = join (fields h)

from_chars-to_string_end : (v : ℤ) → InRange v → from_chars (to_string v) ≡ some (v, [])
from_chars-to_string_end v r =
    ap from_chars (sym (append-nil (to_string v))) ∙ from_chars-to_string v [] r tt

parse_loop-join :
    (vs olds : List ℤ)
    → length vs ≡ length olds
    → All InRange vs
    → parse_loop (join vs) olds ≡ (true, vs)
unfolding parse_loop join
parse_loop-join [] [] e r = refl
parse_loop-join [] (o ∷ olds) e r = absurd (omega arith)
parse_loop-join (v ∷ vs) [] e r = absurd (omega arith)
parse_loop-join (v ∷ []) (o ∷ []) e r = ground (arith, from_chars-to_string_end v r.0)
parse_loop-join (v ∷ []) (o ∷ p ∷ os) e r = absurd (omega arith)
parse_loop-join (v ∷ w ∷ ws) (o ∷ []) e r = absurd (omega arith)
parse_loop-join (v ∷ w ∷ ws) (o ∷ p ∷ os) e r = ground (
  arith,
  from_chars-to_string v (b' ' ∷ join (w ∷ ws)) r.0 refl,
  parse_loop-join (w ∷ ws) (p ∷ os) (omega arith) r.1,
)

-- Six numbers within int64_t, written in decimal with a space between each two, are read back
-- whole by parseZpbFields, whatever the fields held before.
pub parse_zpb_fields-print_zpb :
    (h old : Zpb) → All InRange (fields h) → parse_zpb_fields (print_zpb h) old ≡ (true, h)
unfolding parse_zpb_fields print_zpb
parse_zpb_fields-print_zpb h old r =
    ap (λ t. (t.0, of_fields old t.1)) (parse_loop-join (fields h) (fields old) refl r)

last_field-InRange :
    (r : Option (ℤ × Bytes)) (old : ℤ) → Fits r → InRange old → All InRange (last_field r old).1
last_field-InRange none old f h = (h, tt)
last_field-InRange (some (v, [])) old f h = (f, tt)
last_field-InRange (some (v, c ∷ rest)) old f h = (f, tt)

after_field-InRange :
    (r : Option (ℤ × Bytes)) (old : ℤ) (later : List ℤ) (next : Bytes → Bool × List ℤ)
    → Fits r
    → InRange old
    → All InRange later
    → ((rest : Bytes) → All InRange (next rest).1)
    → All InRange (after_field r old later next).1
after_field-InRange none old later next f h l n = (h, l)
after_field-InRange (some (v, [])) old later next f h l n = (f, l)
after_field-InRange (some (v, c ∷ rest)) old later next f h l n = elim (Bool-cases (c == b' ')) [
  | inl space ↦ rw (space, after_field) (f, n rest)
  | inr other ↦ rw (other, after_field) (f, l)
]

parse_loop-InRange :
    (p : Bytes) (olds : List ℤ) → All InRange olds → All InRange (parse_loop p olds).1
unfolding parse_loop
parse_loop-InRange p [] r = tt
parse_loop-InRange p (o ∷ []) r = last_field-InRange (from_chars p) o (from_chars-Fits p) r.0
parse_loop-InRange p (o ∷ w ∷ ws) r =
    after_field-InRange (from_chars p) o (w ∷ ws) _ (from_chars-Fits p) r.0 r.1
      (λ rest. parse_loop-InRange rest (w ∷ ws) r.1)

of_fields-InRange :
    (old : Zpb) (vs : List ℤ)
    → All InRange (fields old)
    → All InRange vs
    → All InRange (fields (of_fields old vs))
of_fields-InRange old (a ∷ b ∷ c ∷ d ∷ e ∷ f ∷ []) r h = h
of_fields-InRange old _ r h = r

-- Whatever text a ZPB header has, and also when it is refused half way, the six fields stay within
-- int64_t if they were before.
pub parse_zpb_fields-InRange :
    (rest : Bytes) (old : Zpb)
    → All InRange (fields old)
    → All InRange (fields (parse_zpb_fields rest old).1)
unfolding parse_zpb_fields
parse_zpb_fields-InRange rest old r =
    of_fields-InRange old (parse_loop rest (fields old)).1 r
      (parse_loop-InRange rest (fields old) r)
