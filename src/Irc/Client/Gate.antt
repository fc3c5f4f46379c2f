-- ===== src/Irc/Client/Gate.antt =====
-- The write gate of `send_buffers`, with `ping_loop` and `close`, of
-- lib/twitch_core/src/irc_client.cpp. Tasks are numbered; task 0 is the ping loop. All run on one
-- strand, so a step is what a task does between two suspensions. The timer is Boost's: `expires_at`
-- and `cancel` end every wait that is pending, and a wait with no expiry ends in no other way.
pub mod Serial
pub mod Spin
mod Tests
use twitch_bot.Prelude.{ℕ, Bool, true, false, ◌≡◌, ◌≢◌, List, [], ◌∷◌, ◌++◌, ◌==◌, if◌then◌else◌}
use twitch_bot.Prelude.Bytes.{Bytes, codes}
use twitch_bot.Irc.Client.{send_line}

-- Where a task stands: outside of `send_buffers`, at the test of its loop, in the wait for the gate,
-- or in the write of its frame.
pub data Pc : Type 0 where
  idle : Pc
  ready waiting writing : Bytes → Pc

-- `write_inflight_`, whether `ping_loop` runs, whether `close` was called, the frames that have gone
-- out, and the tasks.
pub record Gate : Type 0 where
  pub inflight : Bool
  pub pinging : Bool
  pub closed : Bool
  pub wire : List Bytes
  pub pc : ℕ → Pc

abbrev pub update : (ℕ → Pc) → ℕ → Pc → ℕ → Pc
update pc i p j = if j == i then p else pc j

-- A wait that is cancelled goes on with the test of the loop.
abbrev pub woken : Pc → Pc
woken (waiting frame) = ready frame
woken idle = idle
woken (ready frame) = ready frame
woken (writing frame) = writing frame

-- What a cancelled timer does to its waiters.
abbrev pub wake_all : (ℕ → Pc) → ℕ → Pc
wake_all pc j = woken (pc j)

-- `while (write_inflight_) { write_gate_.expires_at(max); co_await write_gate_.async_wait(...); }`, one
-- test of it, and the start of the write behind it.
unfoldable pub test_gate : ℕ → Bytes → Gate → Gate
test_gate i frame s =
    if s.inflight
    then record s { pc = update (wake_all s.pc) i (waiting frame) }
    else record s { inflight = true; pc = update s.pc i (writing frame) }

abbrev pub is_idle : Pc → Bool
is_idle idle = true
is_idle (ready _) = false
is_idle (waiting _) = false
is_idle (writing _) = false

-- `close`: the wait of `ping_loop` is cancelled if there is one, and the loop returns.
unfoldable pub close : Gate → Gate
close s = record s { closed = true; pinging = if is_idle (s.pc 0) then false else s.pinging }

-- What follows a write that succeeds, and the handler of one that throws, up to the return.
unfoldable pub finish : Bool → ℕ → Bytes → Gate → Gate
finish true i frame s = record s {
  inflight = false;
  wire = s.wire ++ frame ∷ [];
  pc = update (wake_all s.pc) i idle;
}
finish false i frame s =
    let t = close (record s { inflight = false; pc = wake_all s.pc }) in
    record t { pc = update t.pc i idle }

abbrev pub ping_line : Bytes
ping_line = send_line (codes "PING :tmi.twitch.tv")

-- A task other than the ping loop calls `send_buffers`; the timer of `ping_loop` expires; a task tests
-- the gate; a write ends; the client is closed.
pub data Step (s : Gate) : Gate → Type 0 where
  calls :
      (i : ℕ) (frame : Bytes)
      → i ≢ 0
      → s.pc i ≡ idle
      → Step s (record s { pc = update s.pc i (ready frame) })
  ticks :
      s.pinging ≡ true → s.pc 0 ≡ idle → Step s (record s { pc = update s.pc 0 (ready ping_line) })
  tests : (i : ℕ) (frame : Bytes) → s.pc i ≡ ready frame → Step s (test_gate i frame s)
  ends :
      (success : Bool) (i : ℕ) (frame : Bytes)
      → s.pc i ≡ writing frame
      → Step s (finish success i frame s)
  closes : Step s (close s)

-- The client behind its handshakes, with the ping loop started.
abbrev pub connected : Gate
connected = record { inflight = false; pinging = true; closed = false; wire = []; pc = λ _. idle }

pub data Reach : Gate → Type 0 where
  start : Reach connected
  next : {s t : Gate} → Reach s → Step s t → Reach t
