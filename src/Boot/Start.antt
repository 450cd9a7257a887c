-- ===== src/Boot/Start.antt =====
-- `fanoutCoreInitialize` of flow-toolchain/examples/fanout_core_ffi.cpp.
use weft_warp_loop.Base.{
  ℕ, ◌^◌, ◌≡◌, ◌⊎◌, inl, inr, refl, Bool, true, false, ◌&&◌, List, [], ◌∷◌, ◌++◌, if◌then◌else◌,
}

-- The calls that are made, in the order of the source. A zone is the range of the curve it has.
pub data BootCall : Type 0 where
  initialize_runtime load_fanoutcore shim_init load_sketchcore init_task_manager
        mark_end_initialization :
      BootCall
  fanout_init : ℕ → BootCall
  zone_alloc : ℕ → ℕ → BootCall

-- Whether the four calls that have an IO result succeed.
pub record BootAnswers : Type 0 where
  pub fanoutcore_ok : Bool
  pub sketchcore_ok : Bool
  pub init_ok : Bool
  pub zone_ok : Bool

pub data Boot : Type 0 where
  started aborted : Boot

abbrev pub after_calls : List BootCall → Boot × List BootCall → Boot × List BootCall
after_calls done (b, calls) = (b, done ++ calls)

abbrev pub allocate_zone : BootAnswers → Boot × List BootCall
allocate_zone a = (if a.zone_ok then started else aborted, zone_alloc 0 (2 ^ 63) ∷ [])

abbrev pub initialize_state : BootAnswers → ℕ → Boot × List BootCall
initialize_state a capacity =
    after_calls (init_task_manager ∷ mark_end_initialization ∷ fanout_init capacity ∷ [])
      (if a.init_ok then allocate_zone a else (aborted, []))

abbrev pub load_modules : BootAnswers → ℕ → Boot × List BootCall
load_modules a capacity =
    after_calls (shim_init ∷ load_sketchcore ∷ [])
      (if a.sketchcore_ok then initialize_state a capacity else (aborted, []))

-- `fanoutCoreInitialize`.
unfoldable pub fanout_core_initialize : BootAnswers → ℕ → Boot × List BootCall
fanout_core_initialize a capacity =
    after_calls (initialize_runtime ∷ load_fanoutcore ∷ [])
      (if a.fanoutcore_ok then load_modules a capacity else (aborted, []))

-- All the calls of a start that succeeds.
abbrev pub whole_boot : ℕ → List BootCall
whole_boot capacity =
    initialize_runtime
    ∷ load_fanoutcore
    ∷ shim_init
    ∷ load_sketchcore
    ∷ init_task_manager
    ∷ mark_end_initialization
    ∷ fanout_init capacity
    ∷ zone_alloc 0 (2 ^ 63)
    ∷ []

-- The start ended well with all its calls made, or a call failed and nothing was called after it.
abbrev pub BootResult : BootAnswers → ℕ → Boot → List BootCall → Type 0
BootResult a capacity b calls =
    ((b ≡ started)
      × (calls ≡ whole_boot capacity)
      × ((a.fanoutcore_ok && (a.sketchcore_ok && (a.init_ok && a.zone_ok))) ≡ true))
    ⊎ ((b ≡ aborted)
        × ((rest : List BootCall) × (whole_boot capacity ≡ calls ++ rest))
        × ((a.fanoutcore_ok && (a.sketchcore_ok && (a.init_ok && a.zone_ok))) ≡ false))

abbrev answers_of : Bool → Bool → Bool → Bool → BootAnswers
answers_of f k i z = record { fanoutcore_ok = f; sketchcore_ok = k; init_ok = i; zone_ok = z }

boot_cases :
    (f k i z : Bool) (capacity : ℕ)
    → BootResult
        (answers_of f k i z)
        capacity
        (fanout_core_initialize (answers_of f k i z) capacity).0
        (fanout_core_initialize (answers_of f k i z) capacity).1
unfolding fanout_core_initialize
boot_cases true true true true capacity = inl (refl, refl, refl)
boot_cases true true true false capacity = inr (refl, ([], refl), refl)
boot_cases true true false z capacity = inr (refl, (zone_alloc 0 (2 ^ 63) ∷ [], refl), refl)
boot_cases true false i z capacity = inr (
  refl,
  (
    init_task_manager ∷ mark_end_initialization ∷ fanout_init capacity ∷ zone_alloc 0 (2 ^ 63) ∷ [],
    refl,
  ),
  refl,
)
boot_cases false k i z capacity = inr (
  refl,
  (
    shim_init
        ∷ load_sketchcore
        ∷ init_task_manager
        ∷ mark_end_initialization
        ∷ fanout_init capacity
        ∷ zone_alloc 0 (2 ^ 63)
        ∷ [],
    refl,
  ),
  refl,
)

-- fanoutCoreInitialize either starts, when its four fallible calls all succeed, with every call
-- made in the order of the source and the default zone over the whole range of the curve; or it
-- aborts, when one of them fails, with the calls up to the one that failed and none after it.
pub fanout_core_initialize-BootResult :
    (a : BootAnswers) (capacity : ℕ)
    → BootResult a capacity
        (fanout_core_initialize a capacity).0
        (fanout_core_initialize a capacity).1
fanout_core_initialize-BootResult a capacity =
    boot_cases a.fanoutcore_ok a.sketchcore_ok a.init_ok a.zone_ok capacity
