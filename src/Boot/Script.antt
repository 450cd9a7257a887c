-- ===== src/Boot/Script.antt =====
-- The script host: s7_riscv_core.h, s7_riscv_core.cpp and s7_riscv_actor.actor.cpp. The machine of
-- libriscv is a parameter.
use weft_warp_loop.Base.{
  ℕ, ◌∙◌, ◌+◌, ◌%◌, ◌^◌, ◌≤◌, ◌<◌, ◌≡◌, refl, Bool, Option, none, some, List, [], ◌∷◌, arith, Bytes,
}
use weft_warp_loop.Wire.Decimal.{ℤ}

-- A call of the guest: it returns with its result, the instructions that it took and the machine, or
-- it throws and leaves the machine.
pub data Vmcall (M : Type 0) : Type 0 where
  returned : ℤ → ℕ → M → Vmcall M
  thrown : M → Vmcall M

-- `riscv::Machine`: a new one on a binary, the run of the guest's main, and a call of `guest_eval`
-- or `guest_eval_int` (told apart by the flag) within a number of instructions.
pub record Machine : Type 1 where
  pub State : Type 0
  pub fresh : Bytes → State
  pub simulate : ℕ → State → Option State
  pub vmcall : ℕ → Bool → Bytes → State → Vmcall State

-- A call that returns took no more instructions than it was given.
pub record Metered (machine : Machine) : Type 0 where
  pub within :
      (budget : ℕ) (int_wanted : Bool) (expression : Bytes) (m m' : machine.State) (v : ℤ) (n : ℕ)
      → machine.vmcall budget int_wanted expression m ≡ returned v n m'
      → n ≤ budget

-- `g_s7RiscvMachine` and `g_s7RiscvTotalInstructions`.
pub record ScriptHost (M : Type 0) : Type 0 where
  pub guest : Option M
  pub total : ℕ

-- How a call of the host ends: `abort`, an exception, or a value.
pub data Ending : Type 0 where
  aborts throws : Ending
  gives : ℤ → Ending

module _ (machine : Machine) where
  abbrev pub initialized : Option machine.State → Option (ScriptHost machine.State)
  initialized none = none
  initialized (some m) = some (record { guest = some m; total = 0 })

  -- `s7RiscvInitialize`, on the bytes of the guest's file; none is `abort`.
  unfoldable pub s7_riscv_initialize : Bytes → Option (ScriptHost machine.State)
  s7_riscv_initialize [] = none
  s7_riscv_initialize (b ∷ bs) = initialized (machine.simulate 50000000 (machine.fresh (b ∷ bs)))

  abbrev pub settled_call :
      ScriptHost machine.State → Vmcall machine.State → Ending × ScriptHost machine.State
  settled_call h (returned v n m) =
      (gives v, record { guest = some m; total = (h.total + n) % 2 ^ 64 })
  settled_call h (thrown m) = (throws, record h { guest = some m })

  abbrev pub eval_on :
      ScriptHost machine.State
      → Option machine.State
      → ℕ
      → Bool
      → Bytes
      → Ending × ScriptHost machine.State
  eval_on h none budget int_wanted expression = (aborts, h)
  eval_on h (some m) budget int_wanted expression =
      settled_call h (machine.vmcall budget int_wanted expression m)

  -- `s7RiscvEval` and `s7RiscvEvalInt`.
  unfoldable pub s7_riscv_eval :
      ScriptHost machine.State → ℕ → Bool → Bytes → Ending × ScriptHost machine.State
  s7_riscv_eval h budget int_wanted expression = eval_on h h.guest budget int_wanted expression

  -- A sequence of calls, each with its budget, its kind and its expression.
  unfoldable pub eval_all :
      ScriptHost machine.State → List (ℕ × Bool × Bytes) → ScriptHost machine.State
  eval_all h [] = h
  eval_all h ((budget, int_wanted, expression) ∷ rest) =
      eval_all (s7_riscv_eval h budget int_wanted expression).1 rest

  abbrev pub budgets : List (ℕ × Bool × Bytes) → ℕ
  budgets [] = 0
  budgets ((budget, int_wanted, expression) ∷ rest) = budget + budgets rest

module _ (machine : Machine) where
  -- The instructions of a sequence of calls by the machine alone: of a call that throws none are
  -- told, and without a guest no call is made.
  abbrev after_call : (machine.State → ℕ) → Vmcall machine.State → ℕ
  after_call later (returned v n m) = n + later m
  after_call later (thrown m) = later m

  unfoldable pub used : List (ℕ × Bool × Bytes) → machine.State → ℕ
  used [] m = 0
  used ((budget, int_wanted, expression) ∷ rest) m =
      after_call (used rest) (machine.vmcall budget int_wanted expression m)

  abbrev pub used_by : Option machine.State → List (ℕ × Bool × Bytes) → ℕ
  used_by none calls = 0
  used_by (some m) calls = used calls m

module _ (machine : Machine) (metered : Metered machine) where
  after_call-le :
      (budget : ℕ) (int_wanted : Bool) (expression : Bytes) (m : machine.State)
      (r : Vmcall machine.State) (later : machine.State → ℕ) (more : ℕ)
      → machine.vmcall budget int_wanted expression m ≡ r
      → ((m' : machine.State) → later m' ≤ more)
      → after_call machine later r ≤ budget + more
  after_call-le budget int_wanted expression m (returned v n m') later more e h =
      omega (arith, metered.within budget int_wanted expression m m' v n e, h m')
  after_call-le budget int_wanted expression m (thrown m') later more e h = omega (arith, h m')

  used-le :
      (calls : List (ℕ × Bool × Bytes)) (m : machine.State)
      → used machine calls m ≤ budgets machine calls
  unfolding used
  used-le [] m = omega arith
  used-le ((budget, int_wanted, expression) ∷ rest) m =
      after_call-le budget int_wanted expression m (machine.vmcall budget int_wanted expression m)
        (used machine rest) (budgets machine rest) refl (λ m'. used-le rest m')

  used_by-le :
      (g : Option machine.State) (calls : List (ℕ × Bool × Bytes))
      → used_by machine g calls ≤ budgets machine calls
  used_by-le none calls = omega arith
  used_by-le (some m) calls = used-le calls m

module _ (machine : Machine) where
  -- The total, which the host keeps modulo 2^64.
  Totals : ScriptHost machine.State → List (ℕ × Bool × Bytes) → Type 0
  Totals h calls =
      (eval_all machine h calls).total ≡ (h.total + used_by machine h.guest calls) % 2 ^ 64

  settled_call-Totals :
      (h : ScriptHost machine.State) (rest : List (ℕ × Bool × Bytes)) (r : Vmcall machine.State)
      → h.total < 2 ^ 64
      → ((h' : ScriptHost machine.State) → h'.total < 2 ^ 64 → Totals h' rest)
      → (eval_all machine (settled_call machine h r).1 rest).total
        ≡ (h.total + after_call machine (used machine rest) r) % 2 ^ 64
  unfolding Totals
  settled_call-Totals h rest (thrown m) b ih = ih (record h { guest = some m }) b
  settled_call-Totals h rest (returned v n m) b ih =
      ih (record { guest = some m; total = (h.total + n) % 2 ^ 64 }) (omega arith) ∙ omega arith

  used_by_nil : (g : Option machine.State) → used_by machine g [] ≡ 0
  unfolding used
  used_by_nil none = refl
  used_by_nil (some m) = refl

  eval_on-Totals :
      (h : ScriptHost machine.State) (g : Option machine.State) (budget : ℕ) (int_wanted : Bool)
      (expression : Bytes) (rest : List (ℕ × Bool × Bytes))
      → h.guest ≡ g
      → h.total < 2 ^ 64
      → ((h' : ScriptHost machine.State) → h'.total < 2 ^ 64 → Totals h' rest)
      → (eval_all machine (eval_on machine h g budget int_wanted expression).1 rest).total
        ≡ (h.total + used_by machine g ((budget, int_wanted, expression) ∷ rest)) % 2 ^ 64
  unfolding Totals used
  eval_on-Totals h none budget int_wanted expression rest e b ih = ih h b ∙ rw e refl
  eval_on-Totals h (some m) budget int_wanted expression rest e b ih =
      settled_call-Totals h rest (machine.vmcall budget int_wanted expression m) b ih

  eval_all-Totals :
      (calls : List (ℕ × Bool × Bytes)) (h : ScriptHost machine.State)
      → h.total < 2 ^ 64
      → Totals h calls
  unfolding Totals eval_all s7_riscv_eval
  eval_all-Totals [] h b = omega (arith, used_by_nil h.guest)
  eval_all-Totals ((budget, int_wanted, expression) ∷ rest) h b =
      eval_on-Totals h h.guest budget int_wanted expression rest refl b
        (λ h' c. eval_all-Totals rest h' c)

  -- Over any sequence of script calls, whether they return or throw, the total of instructions
  -- grows by exactly the instructions of the calls that returned, each made on the machine that
  -- the call before it left, and by no more than the budgets of the calls together. It is assumed
  -- that the total and the budgets stay below 2^64 and that a call of the machine that returns
  -- kept to its budget.
  pub eval_all-used :
      (h : ScriptHost machine.State) (calls : List (ℕ × Bool × Bytes))
      → Metered machine
      → h.total + budgets machine calls < 2 ^ 64
      → ((eval_all machine h calls).total ≡ h.total + used_by machine h.guest calls)
        × (used_by machine h.guest calls ≤ budgets machine calls)
  unfolding Totals
  eval_all-used h calls metered b =
      let few = used_by-le machine metered h.guest calls in
      (eval_all-Totals calls h (omega arith) ∙ omega (arith, few), few)
