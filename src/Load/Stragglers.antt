-- ===== src/Load/Stragglers.antt =====
-- A round by its children: each is followed by its own column of the polls.
use weft_warp_loop.Base.{
  ℕ, suc, ◌+◌, ◌%◌, ◌≡◌, refl, ap₂, sym, is_some, Bool, true, false, not, ◌&&◌, ◌||◌, Option, none,
  some, List, [], ◌∷◌, map, if◌then◌else◌, Bool-cases, inl, inr, length, get_elem?, arith,
}
use weft_warp_loop.Load.Round.{
  Child, spawned, next_child, spawn_all, poll, sweep, sweeps, finish, finish_all, counted,
  run_round, spawn_all-some,
}

-- The answers of one sweep for the first child and for the others; none is still running.
abbrev pub for_first : List (Option Bool) → Option Bool
for_first [] = none
for_first (a ∷ answers) = a

abbrev pub for_others : List (Option Bool) → List (Option Bool)
for_others [] = []
for_others (a ∷ answers) = answers

-- The first exit that the polls of one child tell, with or without code 0.
unfoldable pub first_exit : List (Option Bool) → Option Bool
first_exit [] = none
first_exit (none ∷ answers) = first_exit answers
first_exit (some zero_exit ∷ answers) = some zero_exit

abbrev pub exits_well : Option Bool → Bool
exits_well none = false
exits_well (some zero_exit) = zero_exit

-- The players whose process started and was the first time seen to exit with code 0.
unfoldable pub successes : List Bool → List (List (Option Bool)) → ℕ
successes [] polls = 0
successes (alive ∷ more) polls =
    (if alive && exits_well (first_exit (map for_first polls)) then 1 else 0)
    + successes more (map for_others polls)

-- Those whose process started and was never seen to exit.
unfoldable pub stragglers : List Bool → List (List (Option Bool)) → List Bool
stragglers [] polls = []
stragglers (alive ∷ more) polls =
    (alive && not (is_some (first_exit (map for_first polls))))
    ∷ stragglers more (map for_others polls)

-- The polls of one child.
unfoldable watch : Child → List (Option Bool) → Child
watch c [] = c
watch c (a ∷ answers) = watch (poll c a).0 answers

-- The sweeps without their early end.
unfoldable all_sweeps : List Child → List (List (Option Bool)) → List Child
all_sweeps cs [] = cs
all_sweeps cs (a ∷ answers) = all_sweeps (sweep cs a).0 answers

unfoldable Settled : List Child → Type 0
Settled [] = Unit
Settled (c ∷ cs) = ((c.reaped || not c.alive) ≡ true) × Settled cs

sweep-Settled :
    (cs : List Child) (answers : List (Option Bool)) → Settled cs → (sweep cs answers).0 ≡ cs
unfolding sweep Settled
sweep-Settled [] answers h = refl
sweep-Settled (c ∷ cs) [] (here, h) = rw (here, sweep-Settled cs [] h) refl
sweep-Settled (c ∷ cs) (a ∷ answers) (here, h) = rw (here, sweep-Settled cs answers h) refl

all_sweeps-Settled :
    (cs : List Child) (polls : List (List (Option Bool))) → Settled cs → all_sweeps cs polls ≡ cs
unfolding all_sweeps
all_sweeps-Settled cs [] h = refl
all_sweeps-Settled cs (a ∷ polls) h = rw (sweep-Settled cs a h) (all_sweeps-Settled cs polls h)

poll-Settled :
    (c : Child) (a : Option Bool)
    → (poll c a).1 ≡ true
    → ((poll c a).0.reaped || not (poll c a).0.alive) ≡ true
poll-Settled c none h = ground (arith, h)
poll-Settled c (some z) h = elim (Bool-cases (c.reaped || not c.alive)) [
  | inl done ↦ rw (done, done) refl
  | inr busy ↦ rw busy refl
]

sweep_end :
    (cs : List Child) (answers : List (Option Bool))
    → (sweep cs answers).1 ≡ true
    → Settled (sweep cs answers).0
unfolding sweep Settled
sweep_end [] answers h = tt
sweep_end (c ∷ cs) [] h =
    (poll-Settled c none (ground (arith, h)), sweep_end cs [] (ground (arith, h)))
sweep_end (c ∷ cs) (a ∷ answers) h =
    (poll-Settled c a (ground (arith, h)), sweep_end cs answers (ground (arith, h)))

-- The early end loses nothing.
sweeps-all_sweeps :
    (cs : List Child) (polls : List (List (Option Bool))) → sweeps cs polls ≡ all_sweeps cs polls
unfolding sweeps all_sweeps
sweeps-all_sweeps cs [] = refl
sweeps-all_sweeps cs (a ∷ polls) = elim (Bool-cases (sweep cs a).1) [
  | inl done ↦ rw done (sym (all_sweeps-Settled (sweep cs a).0 polls (sweep_end cs a done)))
  | inr busy ↦ rw busy (sweeps-all_sweeps (sweep cs a).0 polls)
]

sweep_cons :
    (c : Child) (cs : List Child) (answers : List (Option Bool))
    → (sweep (c ∷ cs) answers).0
      ≡ (poll c (for_first answers)).0 ∷ (sweep cs (for_others answers)).0
unfolding sweep
sweep_cons c cs [] = refl
sweep_cons c cs (a ∷ answers) = refl

all_sweeps_cons :
    (c : Child) (cs : List Child) (polls : List (List (Option Bool)))
    → all_sweeps (c ∷ cs) polls
      ≡ watch c (map for_first polls) ∷ all_sweeps cs (map for_others polls)
unfolding all_sweeps watch
all_sweeps_cons c cs [] = refl
all_sweeps_cons c cs (a ∷ polls) =
    rw (sweep_cons c cs a)
      (all_sweeps_cons (poll c (for_first a)).0 (sweep cs (for_others a)).0 polls)

all_sweeps_nil : (polls : List (List (Option Bool))) → all_sweeps [] polls ≡ []
unfolding all_sweeps sweep
all_sweeps_nil [] = refl
all_sweeps_nil (a ∷ polls) = all_sweeps_nil polls

watch-Settled :
    (c : Child) (answers : List (Option Bool))
    → (c.reaped || not c.alive) ≡ true
    → watch c answers ≡ c
unfolding watch
watch-Settled c [] h = refl
watch-Settled c (a ∷ answers) h = rw h (watch-Settled c answers h)

abbrev seen : ℕ → Bool → Option Bool → Child
seen port alive none = spawned port alive
seen port alive (some z) = record (spawned port alive) { reaped = alive; succeeded = alive && z }

watch-first_exit :
    (port : ℕ) (alive : Bool) (answers : List (Option Bool))
    → watch (spawned port alive) answers ≡ seen port alive (first_exit answers)
unfolding watch first_exit
watch-first_exit port alive [] = refl
watch-first_exit port true (none ∷ answers) = watch-first_exit port true answers
watch-first_exit port false (none ∷ answers) = watch-first_exit port false answers
watch-first_exit port true (some z ∷ answers) = watch-Settled _ answers refl
watch-first_exit port false (some z ∷ answers) = watch-Settled _ answers refl

-- How one child ends.
finish-seen :
    (port : ℕ) (alive : Bool) (e : Option Bool)
    → ((finish (seen port alive e)).1 ≡ (if alive && exits_well e then 1 else 0))
      × ((finish (seen port alive e)).0.killed ≡ (alive && not (is_some e)))
finish-seen port true none = (refl, refl)
finish-seen port false none = (refl, refl)
finish-seen port true (some true) = (refl, refl)
finish-seen port true (some false) = (refl, refl)
finish-seen port false (some true) = (refl, refl)
finish-seen port false (some false) = (refl, refl)

abbrev is_killed : Child → Bool
is_killed c = c.killed

-- Children as they were spawned, with these answers.
abbrev Crew : List Bool → List Child → Type 0
Crew [] [] = Unit
Crew [] (c ∷ cs) = ⊥
Crew (a ∷ alive) [] = ⊥
Crew (a ∷ alive) (c ∷ cs) = ((port : ℕ) × (c ≡ spawned port a)) × Crew alive cs

-- What a round leaves: as many successes, and as killed ones just those, as the columns say.
abbrev pub RoundResult : List Bool → List (List (Option Bool)) → List Child → ℕ → Type 0
RoundResult alive polls cs n =
    (n ≡ successes alive polls) × (map (λ (c : Child). c.killed) cs ≡ stragglers alive polls)

finish_all-RoundResult :
    (alive : List Bool) (cs : List Child) (polls : List (List (Option Bool)))
    → Crew alive cs
    → RoundResult alive polls
        (finish_all (all_sweeps cs polls)).0
        (finish_all (all_sweeps cs polls)).1
unfolding finish_all successes stragglers
finish_all-RoundResult [] [] polls h = rw (all_sweeps_nil polls) (refl, refl)
finish_all-RoundResult [] (c ∷ cs) polls h = elim h [ ]
finish_all-RoundResult (a ∷ alive) [] polls h = elim h [ ]
finish_all-RoundResult (a ∷ alive) (c ∷ cs) polls ((port, e), h) =
    let (n, k) = finish_all-RoundResult alive cs (map for_others polls) h in
    let (one, gone) = finish-seen port a (first_exit (map for_first polls)) in
    rw (all_sweeps_cons c cs polls, e, watch-first_exit port a (map for_first polls))
      (rw (one, n) refl, ap₂ (λ (b : Bool) (bs : List Bool). b ∷ bs) gone k)

abbrev CrewOf : List Bool → Option (List Child) → Type 0
CrewOf alive none = Unit
CrewOf alive (some cs) = Crew alive cs

next_child-Crew :
    (a : Bool) (alive : List Bool) (p : Option ℕ) (rest : Option (List Child))
    → CrewOf alive rest
    → CrewOf (a ∷ alive) (next_child p a rest)
next_child-Crew a alive none rest h = tt
next_child-Crew a alive (some port) none h = tt
next_child-Crew a alive (some port) (some cs) h = ((port, refl), h)

spawn_all-Crew :
    (ports : List ℕ) (i : ℕ) (alive : List Bool) → CrewOf alive (spawn_all ports i alive)
unfolding spawn_all
spawn_all-Crew ports i [] = tt
spawn_all-Crew [] i (a ∷ alive) = tt
spawn_all-Crew (p ∷ ports) i (a ∷ alive) =
    next_child-Crew a alive (get_elem? (p ∷ ports) (i % length (p ∷ ports))) _
      (spawn_all-Crew (p ∷ ports) (suc i) alive)

counted-RoundResult :
    (alive : List Bool) (r : Option (List Child)) (polls : List (List (Option Bool)))
    → is_some r ≡ true
    → CrewOf alive r
    → (cs : List Child) × (n : ℕ) × (counted r polls ≡ some (cs, n)) × RoundResult alive polls cs n
counted-RoundResult alive none polls i h = absurd (ground arith)
counted-RoundResult alive (some cs) polls i h =
    let done = finish_all (sweeps cs polls) in
    (
      done.0,
      done.1,
      refl,
      rw (sweeps-all_sweeps cs polls) (finish_all-RoundResult alive cs polls h),
    )

-- A round of the coordinator with at least one port comes to its count, whatever the operating
-- system answers. The count is the number of players whose process started and of whose polls the
-- first that told an exit told code 0, and the children that are killed at the end are exactly
-- those that started and of which no poll told an exit. The end of the sweeps once all are reaped
-- changes nothing of this.
pub run_round-RoundResult :
    (p : ℕ) (ports : List ℕ) (alive : List Bool) (polls : List (List (Option Bool)))
    → (cs : List Child) × (n : ℕ) × (run_round (p ∷ ports) alive polls ≡ some (cs, n))
      × RoundResult alive polls cs n
unfolding run_round
run_round-RoundResult p ports alive polls =
    counted-RoundResult alive (spawn_all (p ∷ ports) 0 alive) polls (spawn_all-some p ports 0 alive)
      (spawn_all-Crew (p ∷ ports) 0 alive)
