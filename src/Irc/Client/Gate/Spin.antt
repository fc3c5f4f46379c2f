-- ===== src/Irc/Client/Gate/Spin.antt =====
-- While one task writes, two others that want to write test the gate over and over.
use twitch_bot.Prelude.{ℕ, zero, suc, true, ◌≡◌, ◌≢◌, refl, ◌⊎◌, inl, inr, sym, ◌∙◌, arith}
use twitch_bot.Prelude.Bytes.{Bytes}
use twitch_bot.Irc.Client.Gate.{ready, waiting, Gate, test_gate}

-- `n` steps, each the test of the gate by a task.
pub data Spins : ℕ → Gate → Gate → Type 0 where
  done : (s : Gate) → Spins 0 s s
  spin :
      {n : ℕ} {t : Gate} (s : Gate) (i : ℕ) (frame : Bytes)
      → s.pc i ≡ ready frame
      → Spins n (test_gate i frame s) t
      → Spins (suc n) s t

-- The test of a task wakes the one that waits.
swap :
    (s : Gate) (i j : ℕ) (f g : Bytes)
    → i ≢ j
    → s.inflight ≡ true
    → s.pc i ≡ waiting f
    → s.pc j ≡ ready g
    → ((test_gate j g s).inflight ≡ true)
      × ((test_gate j g s).wire ≡ s.wire)
      × ((test_gate j g s).pc j ≡ waiting g)
      × ((test_gate j g s).pc i ≡ ready f)
unfolding test_gate
swap s i j f g differ busy wi rj =
    (ground (arith, busy), ground (arith, busy), ground (arith, busy), ground (arith, busy, wi))

-- Of two tasks that want to write while another writes one waits and one is awake: for each number
-- they can go on for that many tests, with no frame sent and one of the two awake at the end.
pub spin_forever :
    (n : ℕ) (s : Gate) (i j : ℕ) (f g : Bytes)
    → i ≢ j
    → s.inflight ≡ true
    → s.pc i ≡ waiting f
    → s.pc j ≡ ready g
    → (t : Gate) × Spins n s t
      × (t.inflight ≡ true)
      × (t.wire ≡ s.wire)
      × ((t.pc i ≡ ready f) ⊎ (t.pc j ≡ ready g))
spin_forever zero s i j f g differ busy wi rj = (s, done s, busy, refl, inr rj)
spin_forever (suc n) s i j f g differ busy wi rj =
    let (busy', same, wj, ri) = swap s i j f g differ busy wi rj in
    let (t, run, busy'', same', awake) =
      spin_forever n (test_gate j g s) j i g f (λ e. differ (sym e)) busy' wj ri in
    (t, spin s j g rj run, busy'', same' ∙ same, elim awake [ inl a ↦ inr a | inr a ↦ inl a ])
