-- ===== src/Boot/Guest.antt =====
-- The guest (flow-toolchain/riscv-guests/s7_guest_main.c): it hands an expression to the s7
-- interpreter, which is a parameter.
use weft_warp_loop.Base.{
  ℕ, suc, ◌≡◌, refl, [], ◌∷◌, ◌++◌, ◌==◌, if◌then◌else◌, Bytes, length, arith,
}
use weft_warp_loop.Wire.Decimal.{ℤ, codes}

-- s7: a new interpreter, the evaluation of a text, and a value as text and as a number.
pub record Interpreter : Type 1 where
  pub Scheme : Type 0
  pub Value : Type 0
  pub init : Scheme
  pub eval_c_string : Bytes → Scheme → Value × Scheme
  pub to_c_string : Value → Scheme → Bytes
  pub integer : Value → ℤ

-- `while (text[len] != '\0') len++`, and the text that printf's %s writes.
unfoldable pub c_length : Bytes → ℕ
c_length [] = 0
c_length (c ∷ cs) = let rest = c_length cs in if c == 0 then 0 else suc rest

unfoldable pub c_text : Bytes → Bytes
c_text [] = []
c_text (c ∷ cs) = let rest = c_text cs in if c == 0 then [] else c ∷ rest

module _ (s7 : Interpreter) where
  -- `main` and `guest_init`: the interpreter stays alive when main exits.
  unfoldable pub guest_main : s7.Scheme
  guest_main = s7.init

  -- `guest_eval`: what it prints, what it returns, and the interpreter after it.
  unfoldable pub guest_eval : Bytes → s7.Scheme → Bytes × ℕ × s7.Scheme
  guest_eval expr sc =
      let (result, sc') = s7.eval_c_string expr sc in
      let text = s7.to_c_string result sc' in (c_text text ++ codes "\n", c_length text, sc')

  -- `guest_eval_int`.
  unfoldable pub guest_eval_int : Bytes → s7.Scheme → ℤ × s7.Scheme
  guest_eval_int expr sc = let (result, sc') = s7.eval_c_string expr sc in (s7.integer result, sc')

pub length-c_text : (text : Bytes) → length (c_text text) ≡ c_length text
unfolding c_text c_length
length-c_text [] = refl
length-c_text (c ∷ cs) = ground (arith, length-c_text cs)
