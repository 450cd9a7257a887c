-- ===== src/Load/Round.antt =====
-- `runRound` of fanout_load_client_main.actor.cpp: one process for each player, polled until the
-- deadline. The operating system's answers are parameters.
use weft_warp_loop.Base.{
  ℕ, zero, suc, ◌+◌, ◌%◌, ◌≡◌, refl, ◌<◌, is_some, Bool, true, false, not, ◌&&◌, ◌||◌, Option, none,
  some, List, [], ◌∷◌, if◌then◌else◌, length, get_elem?, arith,
}

-- `ChildHandle` with the round's `reaped` and `succeeded` for it, and whether it was killed.
pub record Child : Type 0 where
  pub port : ℕ
  pub alive : Bool
  pub reaped : Bool
  pub succeeded : Bool
  pub killed : Bool

abbrev pub spawned : ℕ → Bool → Child
spawned port alive = record {
  port = port;
  alive = alive;
  reaped = false;
  succeeded = false;
  killed = false;
}

abbrev pub count_failures : List Child → ℕ
count_failures [] = 0
count_failures (c ∷ cs) = if c.alive then count_failures cs else suc (count_failures cs)

abbrev pub next_child : Option ℕ → Bool → Option (List Child) → Option (List Child)
next_child none alive rest = none
next_child (some port) alive none = none
next_child (some port) alive (some rest) = some (spawned port alive ∷ rest)

-- The spawn loop from player `i` on, one answer of spawnWorker for each. None is the division by zero
-- of `i % shardPorts.size()`.
unfoldable pub spawn_all : List ℕ → ℕ → List Bool → Option (List Child)
spawn_all ports i [] = some []
spawn_all [] i (alive ∷ answers) = none
spawn_all (p ∷ ports) i (alive ∷ answers) =
    next_child (get_elem? (p ∷ ports) (i % length (p ∷ ports))) alive
      (spawn_all (p ∷ ports) (suc i) answers)

-- An answer of pollChild: still running, or exited, with or without code 0.
abbrev pub polled : Child → Option Bool → Child × Bool
polled c none = (c, false)
polled c (some zero_exit) = (record c { reaped = true; succeeded = zero_exit }, true)

-- The body of the loop over the children: a child that was reaped or never lived is skipped.
abbrev pub poll : Child → Option Bool → Child × Bool
poll c answer = if c.reaped || not c.alive then (c, true) else polled c answer

-- One sweep, with the `allReaped` it leaves.
unfoldable pub sweep : List Child → List (Option Bool) → List Child × Bool
sweep [] answers = ([], true)
sweep (c ∷ cs) [] =
    let (c', ok) = poll c none in let (cs', all_ok) = sweep cs [] in (c' ∷ cs', ok && all_ok)
sweep (c ∷ cs) (a ∷ answers) =
    let (c', ok) = poll c a in let (cs', all_ok) = sweep cs answers in (c' ∷ cs', ok && all_ok)

-- The sweeps until all are reaped or the deadline has come.
unfoldable pub sweeps : List Child → List (List (Option Bool)) → List Child
sweeps cs [] = cs
sweeps cs (a ∷ answers) =
    let swept = sweep cs a in let rest = sweeps swept.0 answers in if swept.1 then swept.0 else rest

-- Stragglers are killed; the others count if they exited with code 0.
abbrev pub finish : Child → Child × ℕ
finish c =
    if not c.reaped && c.alive
    then (record c { killed = true }, 0)
    else if c.succeeded
    then (c, 1)
    else (c, 0)

unfoldable pub finish_all : List Child → List Child × ℕ
finish_all [] = ([], 0)
finish_all (c ∷ cs) = let (c', n) = finish c in let (cs', m) = finish_all cs in (c' ∷ cs', n + m)

abbrev pub counted : Option (List Child) → List (List (Option Bool)) → Option (List Child × ℕ)
counted none answers = none
counted (some cs) answers = some (finish_all (sweeps cs answers))

-- `runRound`, with the children as it leaves them.
unfoldable pub run_round : List ℕ → List Bool → List (List (Option Bool)) → Option (List Child × ℕ)
run_round ports alive answers = counted (spawn_all ports 0 alive) answers

next_child-some :
    (p : Option ℕ) (alive : Bool) (rest : Option (List Child))
    → is_some p ≡ true
    → is_some rest ≡ true
    → is_some (next_child p alive rest) ≡ true
next_child-some (some p) alive (some r) h k = refl
next_child-some none alive rest h k = absurd (ground arith)
next_child-some (some p) alive none h k = absurd (ground arith)

get_elem?-some : (xs : List ℕ) (i : ℕ) → i < length xs → is_some (get_elem? xs i) ≡ true
unfolding get_elem?
get_elem?-some [] i h = absurd (omega arith)
get_elem?-some (x ∷ xs) zero h = refl
get_elem?-some (x ∷ xs) (suc i) h = get_elem?-some xs i (omega arith)

-- With a port to send the players to, the round goes through.
pub spawn_all-some :
    (p : ℕ) (ports : List ℕ) (i : ℕ) (alive : List Bool)
    → is_some (spawn_all (p ∷ ports) i alive) ≡ true
unfolding spawn_all
spawn_all-some p ports i [] = refl
spawn_all-some p ports i (a ∷ alive) =
    next_child-some (get_elem? (p ∷ ports) (i % length (p ∷ ports))) a _
      (get_elem?-some (p ∷ ports) (i % length (p ∷ ports)) (omega arith))
      (spawn_all-some p ports (suc i) alive)
