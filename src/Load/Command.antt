-- ===== src/Load/Command.antt =====
-- `main` of fanout_load_client_main.actor.cpp: the roles and their arguments.
use weft_warp_loop.Base.{
  ℕ, ◌-◌, ◌%◌, ◌^◌, ◌<◌, ◌≡◌, refl, sym, ap, ◌∙◌, Bool, false, ◌&&◌, ◌||◌, Option, none, some, List,
  [], ◌∷◌, ◌==◌, if◌then◌else◌, arith, Bytes, equal, leb, append-nil, get_elem?, Without,
}
use weft_warp_loop.Wire.Decimal.{
  ℤ, pos, negsuc, codes, to_string, from_chars, unsigned, InRange, from_chars-to_string,
}
use weft_warp_loop.Wire.Decimal.Plain.{to_string-Without}
use weft_warp_loop.Load.Launch.{worker_args}

abbrev pub is_space : ℕ → Bool
is_space c = c == b' ' || (leb 9 c && leb c 13)

abbrev pub number : Option (ℤ × Bytes) → ℤ
number none = pos 0
number (some (v, rest)) = v

abbrev pub plain_number : Option (ℕ × Bytes) → ℤ
plain_number none = pos 0
plain_number (some (n, rest)) = pos n

-- `atoi`, on numbers that an int holds: white space, a sign, digits; 0 for what is no number.
unfoldable pub atoi : Bytes → ℤ
atoi [] = pos 0
atoi (c ∷ cs) =
    let rest = atoi cs in
    if is_space c
    then rest
    else if c == b'+'
    then plain_number (unsigned cs)
    else number (from_chars (c ∷ cs))

-- A cast to uint16_t.
abbrev pub port_of : ℤ → ℕ
port_of (pos n) = n % 2 ^ 16
port_of (negsuc n) = 2 ^ 16 - 1 - n % 2 ^ 16

-- The roles. A deadline is the text that atof gets, or none for the default.
pub data Command : Type 0 where
  run_worker : ℕ → ℤ → ℤ → Option Bytes → Command
  run_multi : ℕ → ℤ → ℤ → Option Bytes → Command
  run_coordinator : ℕ → ℤ → ℤ → ℤ → Option Bytes → ℤ → Command

abbrev pub arg_or : Option Bytes → ℤ → ℤ
arg_or none default = default
arg_or (some text) default = atoi text

abbrev pub is_role : Option Bytes → Bytes → Bool
is_role none role = false
is_role (some text) role = equal text role

-- `main`, on all of argv. The first two roles do not come back.
unfoldable pub command_of : List Bytes → Command
command_of argv =
    if is_role (get_elem? argv 1) (codes "--worker")
    then run_worker (port_of (arg_or (get_elem? argv 2) (pos 4433)))
        (arg_or (get_elem? argv 3) (pos 0)) (arg_or (get_elem? argv 4) (pos 5)) (get_elem? argv 5)
    else if is_role (get_elem? argv 1) (codes "--multi")
    then run_multi (port_of (arg_or (get_elem? argv 2) (pos 4433)))
        (arg_or (get_elem? argv 3) (pos 100)) (arg_or (get_elem? argv 4) (pos 5)) (get_elem? argv 5)
    else run_coordinator (port_of (arg_or (get_elem? argv 1) (pos 4433)))
        (arg_or (get_elem? argv 2) (pos 20)) (arg_or (get_elem? argv 3) (pos 5000))
        (arg_or (get_elem? argv 4) (pos 5)) (get_elem? argv 5) (arg_or (get_elem? argv 6) (pos 1))

-- No byte is white space or a plus sign.
abbrev Unpadded : Bytes → Type 0
Unpadded [] = Unit
Unpadded (c ∷ cs) = (is_space c ≡ false) × ((c == b'+') ≡ false)

from_chars_nil : from_chars [] ≡ none
unfolding from_chars
from_chars_nil = refl

atoi-from_chars : (bs : Bytes) (v : ℤ) → Unpadded bs → from_chars bs ≡ some (v, []) → atoi bs ≡ v
unfolding atoi
atoi-from_chars [] v u e = absurd (clash (sym from_chars_nil ∙ e))
  where
    clash : ◌≡◌ {A = Option (ℤ × Bytes)} none (some (v, [])) → ⊥
    clash q = ground arith
atoi-from_chars (c ∷ cs) v (s, p) e = rw (s, p, e) refl

Without-Unpadded : (bs : Bytes) → ((b : ℕ) → b < 45 → Without b bs) → Unpadded bs
Without-Unpadded [] w = tt
Without-Unpadded (c ∷ cs) w =
    let space = (w b' ' (omega arith)).0 in
    let tab = (w 9 (omega arith)).0 in
    let line = (w 10 (omega arith)).0 in
    let vertical = (w 11 (omega arith)).0 in
    let feed = (w 12 (omega arith)).0 in
    let ret = (w 13 (omega arith)).0 in
    (ground (arith, space, tab, line, vertical, feed, ret), (w b'+' (omega arith)).0)

-- A number that std::to_string wrote is what atoi reads.
pub atoi-to_string : (v : ℤ) → InRange v → atoi (to_string v) ≡ v
atoi-to_string v r =
    atoi-from_chars (to_string v) v
      (Without-Unpadded (to_string v) (λ b h. to_string-Without b v h))
      (ap from_chars (sym (append-nil (to_string v))) ∙ from_chars-to_string v [] r tt)

-- An int.
abbrev pub IsInt : ℤ → Type 0
IsInt (pos n) = n < 2 ^ 31
IsInt (negsuc n) = n < 2 ^ 31

IsInt-InRange : (v : ℤ) → IsInt v → InRange v
IsInt-InRange (pos n) h = omega (arith, h)
IsInt-InRange (negsuc n) h = omega (arith, h)

-- The arguments that the coordinator gives a worker process are read by main as the role of a
-- worker with the same port, player, ticks and deadline text, if the port is a uint16_t and the
-- two numbers are ints.
pub command_of-worker_args :
    (exec : Bytes) (port : ℕ) (player_id ticks : ℤ) (deadline : Bytes)
    → port < 2 ^ 16
    → IsInt player_id
    → IsInt ticks
    → command_of (worker_args exec port player_id ticks deadline)
      ≡ run_worker port player_id ticks (some deadline)
unfolding command_of get_elem? equal
command_of-worker_args exec port player_id ticks deadline p i t =
    let small : port % 2 ^ 16 ≡ port = omega arith in
    rw
      (
        atoi-to_string (pos port) (omega arith),
        atoi-to_string player_id (IsInt-InRange player_id i),
        atoi-to_string ticks (IsInt-InRange ticks t),
        small,
      )
      refl
