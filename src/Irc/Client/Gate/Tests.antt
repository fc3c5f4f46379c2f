-- ===== src/Irc/Client/Gate/Tests.antt =====
-- Three commands and a ping on one connection.
use twitch_bot.Prelude.{ℕ, ◌≡◌, ◌⊎◌, refl, true, false, [], arith}
use twitch_bot.Prelude.Bytes.{Bytes, codes}
use twitch_bot.Irc.Client.{join, part, privmsg}
use twitch_bot.Irc.Client.Gate.{
  ready, Gate, update, test_gate, finish, close, connected, ping_line, calls, tests, Reach, start,
  next,
}
use twitch_bot.Irc.Client.Gate.Serial.{IsSerial, Reach-IsSerial}
use twitch_bot.Irc.Client.Gate.Spin.{Spins, spin_forever}

abbrev frame_a : Bytes
frame_a = join (codes "alpha")

abbrev frame_b : Bytes
frame_b = part (codes "beta")

abbrev frame_c : Bytes
frame_c = privmsg (codes "alpha") (codes "hi")

abbrev asks : ℕ → Bytes → Gate → Gate
asks i frame s = record s { pc = update s.pc i (ready frame) }

-- Task 1 writes, task 2 waits for it, task 3 is about to test the gate.
abbrev contended : Gate
unfolding test_gate
contended =
    asks 3 frame_c
      (test_gate 2 frame_b (asks 2 frame_b (test_gate 1 frame_a (asks 1 frame_a connected))))

contended-Reach : Reach contended
unfolding test_gate
contended-Reach =
    next
      (next
        (next (next (next start (calls 1 frame_a (omega arith) refl)) (tests 1 frame_a refl))
          (calls 2 frame_b (omega arith) refl))
        (tests 2 frame_b refl))
      (calls 3 frame_c (omega arith) refl)

Reach-IsSerial_example : IsSerial contended
Reach-IsSerial_example = Reach-IsSerial contended-Reach

spin_forever_example :
    (t : Gate) × Spins 1000 contended t
    × (t.inflight ≡ true)
    × (t.wire ≡ [])
    × ((t.pc 2 ≡ ready frame_b) ⊎ (t.pc 3 ≡ ready frame_c))
unfolding test_gate
spin_forever_example = spin_forever 1000 contended 2 3 frame_b frame_c (omega arith) refl refl refl

-- A ping whose write fails closes the client, and its loop goes on.
failed_ping :
    (finish false 0 ping_line (test_gate 0 ping_line (asks 0 ping_line connected))).pinging ≡ true
unfolding finish close test_gate
failed_ping = refl

-- Any other write that fails ends the loop.
failed_join :
    (finish false 1 frame_a (test_gate 1 frame_a (asks 1 frame_a connected))).pinging ≡ false
unfolding finish close test_gate
failed_join = refl
