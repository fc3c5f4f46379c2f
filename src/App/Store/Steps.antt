-- ===== src/App/Store/Steps.antt =====
-- The runs of a store: its operations, called by any thread, between the steps of the timer's handler.
use twitch_bot.Prelude.{◌≡◌, Bool, true, false, Option, List, []}
use twitch_bot.Prelude.Bytes.{Bytes}
use twitch_bot.App.Store.{
  Toml, ChannelStore, idle, fired, saving, writing, load, add_channel, remove_channel, set_alias,
  mark_dirty, schedule_timer, wake, exchange_dirty, build_table, write_file,
}

-- The timer wakes the handler if it is scheduled, and a second time only when the first is done, as
-- both run on the strand. Every write succeeds.
pub data Step {T : Toml} : ChannelStore T → ChannelStore T → Type 0 where
  adds : (s : ChannelStore T) (channel : Bytes) → Step s (add_channel channel s)
  removes : (s : ChannelStore T) (channel : Bytes) → Step s (remove_channel channel s)
  aliases :
      (s : ChannelStore T) (channel : Bytes) (alias : Option Bytes)
      → Step s (set_alias channel alias s)
  marks : (s : ChannelStore T) → Step s (mark_dirty s)
  schedules : (s : ChannelStore T) → Step s (schedule_timer s)
  wakes :
      (s : ChannelStore T) (err : Bool)
      → s.timer_scheduled ≡ true
      → s.handler ≡ idle
      → Step s (wake err s)
  exchanges : (s : ChannelStore T) → s.handler ≡ fired → Step s (exchange_dirty s)
  builds : (s : ChannelStore T) → s.handler ≡ saving → Step s (build_table s)
  writes :
      (s : ChannelStore T) (table : List (Bytes × Option Bytes))
      → s.handler ≡ writing table
      → Step s (write_file true table s)

-- The store as it is constructed on a disk.
abbrev pub fresh : {T : Toml} → Option T.File → ChannelStore T
fresh disk = record {
  channel_data = [];
  dirty = false;
  timer_scheduled = false;
  handler = idle;
  disk = disk;
}

-- The states behind the load at start.
pub data Reach {T : Toml} (disk : Option T.File) : ChannelStore T → Type 0 where
  start : Reach disk (load (fresh {T = T} disk))
  next : {s t : ChannelStore T} → Reach disk s → Step s t → Reach disk t
