-- ===== src/Ffi.antt =====
-- The calls that cross from the C++ host into the two Lean kernels
-- (flow-toolchain/examples/fanout_core_ffi.h and sketch_core_ffi.h), as an interface: `State` is
-- the kernels' global state. A result of `none` is an IO result for which `lean_io_result_is_ok`
-- is false. Results that the host drops with `lean_dec_ref` are not given.
use weft_warp_loop.Base.{ℕ, ◌-◌, ◌^◌, ◌≡◌, ◌≢◌, Option, some, List, Bytes, All}
use weft_warp_loop.Wire.Decimal.{ℤ}

pub record Ffi : Type 1 where
  pub State : Type 0
  pub alloc_room : State → Option ℕ × State
  pub sub_room : ℕ → ℕ → State → State
  pub unsub_room : ℕ → ℕ → State → State
  pub room_targets : ℕ → ℕ → State → Option (List ℕ)
  pub entity_move_v : ℕ → ℤ → ℤ → ℤ → ℕ → ℕ → ℕ → ℕ → State → State
  pub entity_remove : ℕ → State → State
  pub zone_targets : ℕ → ℤ → ℤ → ℤ → State → Option (List ℕ)
  pub sketch_apply_packet : ℕ → Bytes → State → Option ℕ × State
  pub sketch_history_count : ℕ → State → Option ℕ
  pub sketch_history_packet : ℕ → ℕ → State → Option Bytes

-- `FANOUT_CORE_SENTINEL`: no room.
abbrev pub sentinel : ℕ
sentinel = 2 ^ 64 - 1

-- What the host relies on: a publisher is not among its own targets.
pub record Laws (ffi : Ffi) : Type 0 where
  pub room_targets_others :
      (room conn : ℕ) (s : ffi.State) (ts : List ℕ)
      → ffi.room_targets room conn s ≡ some ts
      → All (λ t. t ≢ conn) ts
  pub zone_targets_others :
      (conn : ℕ) (x y z : ℤ) (s : ffi.State) (ts : List ℕ)
      → ffi.zone_targets conn x y z s ≡ some ts
      → All (λ t. t ≢ conn) ts
