-- ===== src/Load/Ramp.antt =====
-- `runCoordinator` of fanout_load_client_main.actor.cpp: the shards and the ramp of rounds.
use weft_warp_loop.Base.{
  ℕ, zero, suc, ◌+◌, ◌-◌, ◌*◌, ◌%◌, ◌^◌, ◌≤◌, ◌<◌, ◌≡◌, ◌⊎◌, inl, inr, refl, Bool, false, Option,
  none, some, List, [], ◌∷◌, if◌then◌else◌, if_both, if_split, ltb, leb, arith, All,
}
use weft_warp_loop.Load.Round.{run_round, spawn_all}

-- The ports of the shard servers from shard `s` on, for each whether its server could be started.
unfoldable pub shard_ports : ℕ → ℕ → List Bool → List ℕ
shard_ports port s [] = []
shard_ports port s (alive ∷ answers) =
    let rest = shard_ports port (suc s) answers in
    if alive then (port + s) % 2 ^ 16 ∷ rest else rest

-- `shardPorts`: the given port itself for a single shard.
unfoldable pub ports_of : ℕ → List Bool → List ℕ
ports_of port [] = port ∷ []
ports_of port (a ∷ []) = port ∷ []
ports_of port (a ∷ b ∷ answers) = shard_ports port 0 (a ∷ b ∷ answers)

-- `failureRate > 0.1` with exact fractions: more than a tenth failed. With no players the rate is
-- NaN, which is not above.
abbrev pub fails : ℕ → ℕ → Bool
fails players succeeded = ltb players (10 * (players - succeeded))

-- How the ramp ends: with the last number of players that was sustained, or at an overflow of
-- `playerCount *= 2` on an int, which is undefined.
pub data RampEnd : Type 0 where
  sustained : ℕ → RampEnd
  overflows : RampEnd

module _ (outcome : ℕ → ℕ → ℕ) where
  -- The loop over rounds, on fuel; `outcome` is what runRound answers in a round with so many
  -- players.
  unfoldable pub ramp : ℕ → ℕ → ℕ → ℕ → ℕ → Option RampEnd
  ramp zero round players max_players last_good = none
  ramp (suc fuel) round players max_players last_good =
      let rest = ramp fuel (suc round) (players * 2) max_players players in
      if leb players max_players
      then (if fails players (outcome (suc round) players)
          then some (sustained last_good)
          else if leb (2 ^ 31) (players * 2)
          then some overflows
          else rest)
      else some (sustained last_good)

  -- A number of players that a round sustained: within the limit, with at most a tenth failing.
  abbrev pub IsSustained : ℕ → ℕ → Type 0
  IsSustained max_players n = (n ≤ max_players) × ((round : ℕ) × (10 * (n - outcome round n) ≤ n))

  abbrev pub RampResult : ℕ → ℕ → Option RampEnd → Type 0
  RampResult max_players last none = Unit
  RampResult max_players last (some overflows) = Unit
  RampResult max_players last (some (sustained n)) = (n ≡ last) ⊎ IsSustained max_players n

  weaken :
      (max_players last players : ℕ) (r : Option RampEnd)
      → IsSustained max_players players
      → RampResult max_players players r
      → RampResult max_players last r
  weaken max_players last players none h k = tt
  weaken max_players last players (some overflows) h k = tt
  weaken max_players last players (some (sustained n)) h (inl e) = inr (rw e h)
  weaken max_players last players (some (sustained n)) h (inr s) = inr s

  ramp-RampResult :
      (fuel round players max_players last : ℕ)
      → RampResult max_players last (ramp fuel round players max_players last)
  unfolding ramp
  ramp-RampResult zero round players max_players last = tt
  ramp-RampResult (suc fuel) round players max_players last =
      if_split (RampResult max_players last) (leb players max_players) _ _
        (λ within.
          if_split (RampResult max_players last) (fails players (outcome (suc round) players)) _ _
            (λ _. inl refl)
            (λ held. if_both (RampResult max_players last) (leb (2 ^ 31) (players * 2)) _ _ tt (
              weaken max_players last players
                (ramp fuel (suc round) (players * 2) max_players players)
                (ground (arith, within), (suc round, ground (arith, held)))
                (ramp-RampResult fuel (suc round) (players * 2) max_players players))))
        (λ _. inl refl)

  abbrev Returns : Option RampEnd → Type 0
  Returns r = (n : ℕ) × (r ≡ some (sustained n))

  ramp-Returns :
      (fuel round players max_players last : ℕ)
      → 1 ≤ players
      → max_players < fuel + players
      → max_players < 2 ^ 30
      → Returns (ramp (suc fuel) round players max_players last)
  unfolding ramp
  ramp-Returns zero round players max_players last p h b =
      if_split Returns (leb players max_players) _ _ (λ within. absurd (ground (arith, within)))
        (λ _. (last, refl))
  ramp-Returns (suc fuel) round players max_players last p h b =
      if_split Returns (leb players max_players) _ _
        (λ within.
          if_both Returns (fails players (outcome (suc round) players)) _ _ (last, refl)
            (if_split Returns (leb (2 ^ 31) (players * 2)) _ _
              (λ big. absurd (ground (arith, within, big, b)))
              (λ _.
                ramp-Returns fuel (suc round) (players * 2) max_players players (omega arith)
                  (omega arith) b)))
        (λ _. (last, refl))

  -- From at least one player, with a limit below 2^30, and whatever the rounds answer, the ramp of
  -- the coordinator ends within one round more than the limit has players, without an overflow of
  -- its count, and the number it reports is 0 or a number of players within the limit of which a
  -- round failed at most a tenth.
  pub ramp_lem :
      (start max_players : ℕ)
      → 1 ≤ start
      → max_players < 2 ^ 30
      → (n : ℕ) × (ramp (suc max_players) 0 start max_players 0 ≡ some (sustained n))
        × ((n ≡ 0) ⊎ IsSustained max_players n)
  ramp_lem start max_players p b =
      let (n, e) = ramp-Returns max_players 0 start max_players 0 p (omega arith) b in
      (n, e, rw e at (ramp-RampResult (suc max_players) 0 start max_players 0))

  -- With no players to start from the ramp of the coordinator never ends: it has no result for any
  -- number of rounds.
  pub ramp_zero : (fuel round max_players last : ℕ) → ramp fuel round 0 max_players last ≡ none
  unfolding ramp
  ramp_zero zero round max_players last = refl
  ramp_zero (suc fuel) round max_players last =
      ground (arith, ramp_zero fuel (suc round) max_players 0)

shard_ports-nil :
    (port s : ℕ) (answers : List Bool)
    → All (λ a. a ≡ false) answers
    → shard_ports port s answers ≡ []
unfolding shard_ports
shard_ports-nil port s [] h = refl
shard_ports-nil port s (a ∷ answers) (e, h) = rw (e, shard_ports-nil port (suc s) answers h) refl

-- If two shards or more are wanted and no shard server could be started, then no port is left, and
-- a round with at least one player stops at the remainder by zero.
pub run_round-ports_of :
    (port : ℕ) (a b : Bool) (answers : List Bool) (first : Bool) (alive : List Bool)
    (polls : List (List (Option Bool)))
    → All (λ c. c ≡ false) (a ∷ b ∷ answers)
    → run_round (ports_of port (a ∷ b ∷ answers)) (first ∷ alive) polls ≡ none
unfolding run_round spawn_all ports_of
run_round-ports_of port a b answers first alive polls h =
    rw (shard_ports-nil port 0 (a ∷ b ∷ answers) h, spawn_all) refl
