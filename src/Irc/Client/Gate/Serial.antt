-- ===== src/Irc/Client/Gate/Serial.antt =====
-- The writes of `send_buffers` come one behind the other.
use twitch_bot.Prelude.{
  ℕ, Bool, true, false, ◌≡◌, ◌≢◌, refl, subst, ◌==◌, arith, if◌then◌else◌, inl, inr, Bool-cases,
}
use twitch_bot.Prelude.Bytes.{Bytes}
use twitch_bot.Irc.Client.Gate.{
  Pc, idle, ready, waiting, writing, Gate, update, wake_all, woken, test_gate, close, finish,
  connected, Step, calls, ticks, tests, ends, closes, Reach, start, next,
}

abbrev pub is_writing : Pc → Bool
is_writing idle = false
is_writing (ready _) = false
is_writing (waiting _) = false
is_writing (writing _) = true

abbrev pub is_waiting : Pc → Bool
is_waiting idle = false
is_waiting (ready _) = false
is_waiting (waiting _) = true
is_waiting (writing _) = false

-- No two writes overlap, the flag says whether there is one, a task that waits has one that writes to
-- wait for, and no two tasks wait.
pub record IsSerial (s : Gate) : Type 0 where
  pub exclusive : (i j : ℕ) → is_writing (s.pc i) ≡ true → is_writing (s.pc j) ≡ true → i ≡ j
  pub flagged : (i : ℕ) → is_writing (s.pc i) ≡ true → s.inflight ≡ true
  pub writer : s.inflight ≡ true → (i : ℕ) × (is_writing (s.pc i) ≡ true)
  pub blocked : (i : ℕ) → is_waiting (s.pc i) ≡ true → s.inflight ≡ true
  pub alone : (i j : ℕ) → is_waiting (s.pc i) ≡ true → is_waiting (s.pc j) ≡ true → i ≡ j

is_writing-woken : (p : Pc) → is_writing (woken p) ≡ is_writing p
is_writing-woken idle = refl
is_writing-woken (ready _) = refl
is_writing-woken (waiting _) = refl
is_writing-woken (writing _) = refl

is_waiting-woken : (p : Pc) → is_waiting (woken p) ≡ false
is_waiting-woken idle = refl
is_waiting-woken (ready _) = refl
is_waiting-woken (waiting _) = refl
is_waiting-woken (writing _) = refl

is_writing-update :
    (pc : ℕ → Pc) (i : ℕ) (p : Pc) (j : ℕ)
    → is_writing (update pc i p j) ≡ (if j == i then is_writing p else is_writing (pc j))
is_writing-update pc i p j = ground arith

is_waiting-update :
    (pc : ℕ → Pc) (i : ℕ) (p : Pc) (j : ℕ)
    → is_waiting (update pc i p j) ≡ (if j == i then is_waiting p else is_waiting (pc j))
is_waiting-update pc i p j = ground arith

-- A task at rest goes to the test of the gate.
enter-IsSerial :
    (s : Gate) (i : ℕ) (frame : Bytes)
    → s.pc i ≡ idle
    → IsSerial s
    → IsSerial (record s { pc = update s.pc i (ready frame) })
enter-IsSerial s i frame e v = record {
  exclusive = λ j k a b. ground (arith, v.exclusive j k, e);
  flagged = λ j a. ground (arith, v.flagged j, e);
  writer = λ h. (let w = v.writer h in (w.0, ground (arith, w.1, e)));
  blocked = λ j a. ground (arith, v.blocked j, e);
  alone = λ j k a b. ground (arith, v.alone j k, e);
}

test_gate-IsSerial :
    (s : Gate) (i : ℕ) (frame : Bytes)
    → s.pc i ≡ ready frame
    → IsSerial s
    → IsSerial (test_gate i frame s)
unfolding test_gate
test_gate-IsSerial s i frame e v = elim (Bool-cases s.inflight) [
  | inl busy ↦
      rw (busy, if◌then◌else◌)
        (record {
          exclusive = λ j k a b. ground (arith, v.exclusive j k, e, w j, w k);
          flagged = λ j a. refl;
          writer = λ h. (let x = v.writer busy in (x.0, ground (arith, x.1, e, w x.0)));
          blocked = λ j a. refl;
          alone = λ j k a b. ground (arith, z j, z k);
        })
  | inr free ↦
      rw (free, if◌then◌else◌)
        (record {
          exclusive = λ j k a b. ground (arith, v.flagged j, v.flagged k);
          flagged = λ j a. refl;
          writer = λ h. (i, ground arith);
          blocked = λ j a. refl;
          alone = λ j k a b. ground (arith, v.blocked j, v.blocked k);
        })
]
  where
    w : (j : ℕ) → is_writing (woken (s.pc j)) ≡ is_writing (s.pc j)
    w j = is_writing-woken (s.pc j)

    z : (j : ℕ) → is_waiting (woken (s.pc j)) ≡ false
    z j = is_waiting-woken (s.pc j)

close-IsSerial : (s : Gate) → IsSerial s → IsSerial (close s)
unfolding close
close-IsSerial s v = record {
  exclusive = v.exclusive;
  flagged = v.flagged;
  writer = v.writer;
  blocked = v.blocked;
  alone = v.alone;
}

-- The states behind a write: no other task writes, and none waits.
released-IsSerial :
    (s t : Gate) (i : ℕ) (frame : Bytes)
    → s.pc i ≡ writing frame
    → IsSerial s
    → t.inflight ≡ false
    → t.pc ≡ update (wake_all s.pc) i idle
    → IsSerial t
released-IsSerial s t i frame e v down pcs = record {
  exclusive = λ j k a b. absurd (none_writes j a);
  flagged = λ j a. absurd (none_writes j a);
  writer = λ h. absurd (cc (h, down));
  blocked = λ j a. absurd (none_waits j a);
  alone = λ j k a b. absurd (none_waits j a);
}
  where
    none_writes : (j : ℕ) → is_writing (t.pc j) ≢ true
    none_writes j a =
        let b : is_writing (update (wake_all s.pc) i idle j) ≡ true =
          subst (λ (pc : ℕ → Pc). is_writing (pc j) ≡ true) pcs a in
        ground (arith, b, is_writing-woken (s.pc j), v.exclusive i j, e)

    none_waits : (j : ℕ) → is_waiting (t.pc j) ≢ true
    none_waits j a =
        let b : is_waiting (update (wake_all s.pc) i idle j) ≡ true =
          subst (λ (pc : ℕ → Pc). is_waiting (pc j) ≡ true) pcs a in
        ground (arith, b, is_waiting-woken (s.pc j))

finish-IsSerial :
    (s : Gate) (success : Bool) (i : ℕ) (frame : Bytes)
    → s.pc i ≡ writing frame
    → IsSerial s
    → IsSerial (finish success i frame s)
unfolding finish close
finish-IsSerial s true i frame e v = released-IsSerial s _ i frame e v refl refl
finish-IsSerial s false i frame e v = released-IsSerial s _ i frame e v refl refl

Step-IsSerial : {s t : Gate} → Step s t → IsSerial s → IsSerial t
Step-IsSerial {s} (calls i frame other e) v = enter-IsSerial s i frame e v
Step-IsSerial {s} (ticks p e) v = enter-IsSerial s 0 _ e v
Step-IsSerial {s} (tests i frame e) v = test_gate-IsSerial s i frame e v
Step-IsSerial {s} (ends success i frame e) v = finish-IsSerial s success i frame e v
Step-IsSerial {s} closes v = close-IsSerial s v

connected-IsSerial : IsSerial connected
connected-IsSerial = record {
  exclusive = λ i j a b. cc;
  flagged = λ i a. cc;
  writer = λ h. absurd (cc);
  blocked = λ i a. cc;
  alone = λ i j a b. cc;
}

-- In every state of the client in which it is connected no two writes overlap, `write_inflight_` is
-- set if and only if there is a write, a task waits only while another writes, and at most one waits.
pub Reach-IsSerial : {s : Gate} → Reach s → IsSerial s
Reach-IsSerial start = connected-IsSerial
Reach-IsSerial (next r step) = Step-IsSerial step (Reach-IsSerial r)
