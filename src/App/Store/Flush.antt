-- ===== src/App/Store/Flush.antt =====
-- A `save`, with the handler that runs and the timer that fires behind it.
use twitch_bot.Prelude.{◌≡◌, refl, Bool, true, false, Option, some, if◌then◌else◌}
use twitch_bot.Prelude.Bytes.{Bytes}
use twitch_bot.App.Store.{
  Channels, Toml, ChannelStore, Handler, idle, fired, saving, writing, load, contains_channel,
  get_alias, mark_dirty, schedule_timer, save, wake, exchange_dirty, build_table, write_file,
}
use twitch_bot.App.Store.Load.{IsFaithful}
use twitch_bot.App.Store.Steps.{
  schedules, marks, wakes, exchanges, builds, writes, fresh, Reach, next,
}
use twitch_bot.App.Store.Restart.{load-quiet}

module _ {T : Toml} where
  -- The handler from where it stands to its end, with no other thread between its steps.
  unfoldable pub write_out : ChannelStore T → ChannelStore T
  write_out s = elim s.handler [
    | idle ↦ s
    | fired ↦ s
    | saving ↦ s
    | writing table ↦ write_file true table s
  ]

  unfoldable pub build_out : ChannelStore T → ChannelStore T
  build_out s = elim s.handler [
    | idle ↦ s
    | fired ↦ s
    | saving ↦ write_out (build_table s)
    | writing table ↦ write_out s
  ]

  unfoldable pub run_handler : ChannelStore T → ChannelStore T
  run_handler s = elim s.handler [
    | idle ↦ s
    | fired ↦ build_out (exchange_dirty s)
    | saving ↦ build_out s
    | writing table ↦ build_out s
  ]

  -- The timer fires if it is scheduled.
  unfoldable pub fire_timer : ChannelStore T → ChannelStore T
  fire_timer s = if s.timer_scheduled then run_handler (wake false s) else s

  -- Behind a `save` the handler that runs ends, and the timer fires.
  unfoldable pub flush : ChannelStore T → ChannelStore T
  flush s = fire_timer (run_handler (save s))

  abbrev store : Channels → Bool → Bool → Handler → Option T.File → ChannelStore T
  store m d b h disk = record {
    channel_data = m;
    dirty = d;
    timer_scheduled = b;
    handler = h;
    disk = disk;
  }

flush_quiet :
    (T : Toml) (m : Channels) (d b : Bool) (h : Handler) (k : Option T.File)
    → ((flush (store {T = T} m d b h k)).dirty ≡ false)
      × (((flush (store {T = T} m d b h k)).handler ≡ idle)
          × ((flush (store {T = T} m d b h k)).channel_data ≡ m))
unfolding flush fire_timer run_handler build_out write_out save mark_dirty schedule_timer wake
    exchange_dirty build_table write_file
flush_quiet T m d b idle k = (refl, (refl, refl))
flush_quiet T m d b fired k = (refl, (refl, refl))
flush_quiet T m d b saving k = (refl, (refl, refl))
flush_quiet T m d b (writing table) k = (refl, (refl, refl))

module _ {T : Toml} where
  -- The timer's handler as a whole, on a store with a change.
  fires-Reach :
      (disk : Option T.File) (m : Channels) (k : Option T.File)
      → Reach {T = T} disk (store {T = T} m true true idle k)
      → Reach {T = T} disk (store {T = T} m false false idle (some (T.print m)))
  unfolding wake exchange_dirty build_table write_file
  fires-Reach disk m k r =
      next
        (next
          (next (next r (wakes (store {T = T} m true true idle k) false refl refl))
            (exchanges (store {T = T} m true false fired k) refl))
          (builds (store {T = T} m false false saving k) refl))
        (writes (store {T = T} m false false (writing m) k) m refl)

  flush-Reach :
      (disk : Option T.File) (m : Channels) (d b : Bool) (h : Handler) (k : Option T.File)
      → Reach {T = T} disk (store {T = T} m true true h k)
      → Reach {T = T} disk (flush (store {T = T} m d b h k))
  unfolding flush fire_timer run_handler build_out write_out save mark_dirty schedule_timer wake
      exchange_dirty build_table write_file
  flush-Reach disk m d b idle k r = fires-Reach disk m k r
  flush-Reach disk m d b fired k r =
      next
        (next
          (next
            (next (next r (exchanges (store {T = T} m true true fired k) refl))
              (builds (store {T = T} m false true saving k) refl))
            (writes (store {T = T} m false true (writing m) k) m refl))
          (wakes (store {T = T} m false true idle (some (T.print m))) false refl refl))
        (exchanges (store {T = T} m false false fired (some (T.print m))) refl)
  flush-Reach disk m d b saving k r = fires-Reach disk m (some (T.print m)) (
      next (next r (builds (store {T = T} m true true saving k) refl))
        (writes (store {T = T} m true true (writing m) k) m refl))
  flush-Reach disk m d b (writing table) k r =
      fires-Reach disk m (some (T.print table))
        (next r (writes (store {T = T} m true true (writing table) k) table refl))

  saved-Reach :
      (disk : Option T.File) (s : ChannelStore T)
      → Reach {T = T} disk s
      → Reach {T = T} disk (store {T = T} s.channel_data true true s.handler s.disk)
  unfolding mark_dirty schedule_timer
  saved-Reach disk s r = next (next r (marks s)) (schedules (mark_dirty s))

  -- In a state that is reached from the load at start, writes succeeding, after a `save`, with the end of
  -- the handler that runs and the firing of the timer behind it, a store that is started on the file
  -- gives the same answers to `contains` and `get_alias` as the store in front of the `save`. The
  -- handler tests `dirty_` and the timer fires if it is scheduled, as the code does.
  pub load-flush :
      (faithful : IsFaithful T) (disk : Option T.File) (s : ChannelStore T) (c : Bytes)
      → Reach {T = T} disk s
      → (contains_channel c (load (fresh {T = T} (flush s).disk)) ≡ contains_channel c s)
        × (get_alias c (load (fresh {T = T} (flush s).disk)) ≡ get_alias c s)
  unfolding contains_channel get_alias
  load-flush faithful disk s c r =
      let quiet = flush_quiet T s.channel_data s.dirty s.timer_scheduled s.handler s.disk in
      let reached =
        flush-Reach disk s.channel_data s.dirty s.timer_scheduled s.handler s.disk
          (saved-Reach disk s r) in
      let same = load-quiet faithful disk (flush s) c reached quiet.0 quiet.1.0 in
      let answers = rw (quiet.1.1) at same in answers
