-- ===== src/Bot/Pauses.antt =====
-- Bounds of the pauses of `run_bot`.
use twitch_bot.Prelude.{
  ℕ, zero, suc, ◌+◌, ◌*◌, ◌^◌, ◌≤◌, ◌<◌, min, max, ◌≡◌, refl, subst, List, [], ◌∷◌, ltb, arith,
  if◌then◌else◌, length,
}
use twitch_bot.Bot.{
  next_backoff, Round, connect_error, connection_lost, Supervisor, on_connected, run_round,
  run_rounds,
}

-- The generator gives a number in its range.
abbrev pub IsDraw : (ℕ → ℕ) → Type 0
IsDraw draw = (m : ℕ) → draw m ≤ m

-- A pause is at least 150 ms, and at most the cap and what the attempts have grown it to, or 150 ms.
next_backoff-bounds :
    (draw : ℕ → ℕ) (attempts base cap : ℕ)
    → IsDraw draw
    → (150 ≤ (next_backoff draw attempts base cap).sleep)
      × (((next_backoff draw attempts base cap).sleep ≤ max 150 cap)
          × ((next_backoff draw attempts base cap).sleep ≤ max 150 (base * 2 ^ min attempts 16)))
unfolding next_backoff
next_backoff-bounds draw attempts base cap d = go (base * 2 ^ min attempts 16)
  where
    go :
        (grown : ℕ)
        → (150 ≤ (
            if ltb (draw (if ltb cap grown then cap else grown)) 150
            then 150
            else draw (if ltb cap grown then cap else grown)))
          × (((if ltb (draw (if ltb cap grown then cap else grown)) 150
                  then 150
                  else draw (if ltb cap grown then cap else grown))
                ≤ max 150 cap)
              × ((if ltb (draw (if ltb cap grown then cap else grown)) 150
                    then 150
                    else draw (if ltb cap grown then cap else grown))
                  ≤ max 150 grown))
    go grown = let b = d (if ltb cap grown then cap else grown) in ground (arith, b)

-- The pauses that fit the rounds, where `errors` attempts to connect have failed in a row.
abbrev pub Fit : ℕ → List (Round × (ℕ → ℕ)) → List ℕ → Type 0
Fit errors [] pauses = pauses ≡ []
Fit errors ((r, draw) ∷ rounds) [] = ⊥
Fit errors ((connect_error, draw) ∷ rounds) (p ∷ pauses) =
    ((150 ≤ p) × ((p ≤ 30000) × (p ≤ 3000 * 2 ^ min errors 16))) × Fit (suc errors) rounds pauses
Fit errors ((connection_lost, draw) ∷ rounds) (p ∷ pauses) =
    ((150 ≤ p) × (p ≤ 2000)) × Fit 0 rounds pauses

abbrev pub AreDraws : List (Round × (ℕ → ℕ)) → Type 0
AreDraws [] = Unit {0}
AreDraws ((r, draw) ∷ rounds) = IsDraw draw × AreDraws rounds

power_pos : (n : ℕ) → 1 ≤ 2 ^ n
power_pos zero = omega arith
power_pos (suc n) = let h = power_pos n in omega (arith, h)

next_attempts :
    (draw : ℕ → ℕ) (attempts base cap : ℕ)
    → attempts + 1 < 4294967296
    → (next_backoff draw attempts base cap).attempts ≡ suc attempts
unfolding next_backoff
next_attempts draw attempts base cap h = omega (arith, h)

-- Whatever the rounds and the draws, a pause is at least 150 ms. After n failures to connect in a row
-- the next one's is at most 30 s and at most 3 s doubled n times, sixteen at most, and the pause after
-- a connection that was up is at most 2 s, however often connections are lost. No run has 2^32 rounds.
pub run_rounds-Fit :
    (rounds : List (Round × (ℕ → ℕ))) (s : Supervisor)
    → AreDraws rounds
    → s.connect_attempts + length rounds < 4294967296
    → Fit s.connect_attempts rounds (run_rounds rounds s)
unfolding run_rounds run_round on_connected
run_rounds-Fit [] s d h = refl
run_rounds-Fit ((connect_error, draw) ∷ rounds) s d h =
    let b = next_backoff-bounds draw s.connect_attempts 3000 30000 d.0 in
    let pos = power_pos (min s.connect_attempts 16) in
    let a = next_attempts draw s.connect_attempts 3000 30000 (omega (arith, h)) in
    let rest =
      run_rounds-Fit rounds
        (record s { connect_attempts = (next_backoff draw s.connect_attempts 3000 30000).attempts })
        d.1 (omega (arith, a, h)) in
    (
      (b.0, (omega (arith, b), omega (arith, b, pos))),
      subst {A = ℕ}
          (λ n. Fit n rounds (
            run_rounds rounds (record s {
              connect_attempts = (next_backoff draw s.connect_attempts 3000 30000).attempts;
            })))
          a rest,
    )
run_rounds-Fit ((connection_lost, draw) ∷ rounds) s d h =
    let b = next_backoff-bounds draw 0 2000 30000 d.0 in
    let rest =
      run_rounds-Fit rounds
        (record {
          connect_attempts = 0;
          reconnect_attempts = (next_backoff draw 0 2000 30000).attempts;
        })
        d.1 (omega (arith, h)) in
    ((b.0, omega (arith, b)), rest)
