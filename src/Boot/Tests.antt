-- ===== src/Boot/Tests.antt =====
-- The start and the script host on concrete answers.
use weft_warp_loop.Load.Launch.{shard_args, dir_name}
use weft_warp_loop.Boot.Main.{server_config, server_config-shard_args}
use weft_warp_loop.Base.{
  ◌+◌, ℕ, zero, suc, ◌≤◌, ◌≡◌, Bool, true, false, some, List, [], ◌∷◌, ◌++◌, arith, Bytes,
}
use weft_warp_loop.Wire.Decimal.{ℤ, pos, codes}
use weft_warp_loop.Boot.Start.{BootAnswers}
use weft_warp_loop.Boot.Script.{
  Machine, Metered, ScriptHost, Vmcall, returned, thrown, eval_all, budgets, used_by, eval_all-used,
}

abbrev no_sketches : BootAnswers
no_sketches = record { fanoutcore_ok = true; sketchcore_ok = false; init_ok = true; zone_ok = true }

-- A guest that answers with the budget it got, and takes all of it, unless it got none.
abbrev spend : ℕ → Vmcall ℕ
spend zero = thrown 0
spend (suc n) = returned (pos (suc n)) (suc n) 1

abbrev spender : Machine
spender = record {
  State = ℕ;
  fresh = λ bs. 0;
  simulate = λ budget m. some m;
  vmcall = λ budget int_wanted expression m. spend budget;
}

spend-within : (budget m' : ℕ) (v : ℤ) (n : ℕ) → spend budget ≡ returned v n m' → n ≤ budget
spend-within zero m' v n e = absurd (ground arith)
spend-within (suc b) m' v n e = ground (arith, e)

spender-Metered : Metered spender
spender-Metered = record {
  within = λ budget int_wanted expression m m' v n e. spend-within budget m' v n e;
}

abbrev woken : ScriptHost ℕ
woken = record { guest = some 0; total = 0 }

abbrev calls : List (ℕ × Bool × Bytes)
calls = (2000000, true, codes "(+ 1 2)") ∷ (0, false, codes "(loop)") ∷ []

eval_all-used_example :
    ((eval_all spender woken calls).total ≡ woken.total + used_by spender woken.guest calls)
    × (used_by spender woken.guest calls ≤ budgets spender calls)
eval_all-used_example = eval_all-used spender woken calls spender-Metered (omega arith)

server_config-shard_args_example : server_config (shard_args (codes "/opt/load") 4434) ≡ record {
  port = 4434;
  cert_path =
      dir_name (codes "/opt/load") ++ codes "/../thirdparty/picoquic/certs/secp256r1/cert.pem";
  key_path =
      dir_name (codes "/opt/load") ++ codes "/../thirdparty/picoquic/certs/secp256r1/key.pem";
}
server_config-shard_args_example = server_config-shard_args (codes "/opt/load") 4434 (omega arith)
