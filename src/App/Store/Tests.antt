-- ===== src/App/Store/Tests.antt =====
-- A file format that keeps the table, and the properties of the store on it.
use mathlib.Core.Option
use twitch_bot.Prelude.{
  ◌≡◌, refl, ap, ◌∙◌, true, false, inl, inr, Option, some, List, [], ◌∷◌, if◌then◌else◌, Bool-cases,
}
use twitch_bot.Prelude.Bytes.{Bytes, codes, equal, to_lower, lower_byte}
use twitch_bot.Prelude.Assoc.{lookup, emplace, IsMap}
use twitch_bot.App.Store.{
  Channels, Node, channel_table, Toml, ChannelStore, load, load_entries, read_disk, add_channel,
  contains_channel, get_alias, schedule_timer, wake, exchange_dirty, build_table, write_file,
}
use twitch_bot.App.Store.Load.{IsFaithful}
use twitch_bot.App.Store.Steps.{
  adds, schedules, wakes, exchanges, builds, writes, fresh, Reach, start, next,
}
use twitch_bot.App.Store.Restart.{load-quiet}
use twitch_bot.App.Store.Flush.{flush, load-flush}

unfoldable pub nodes : Channels → List (Bytes × Node)
nodes [] = []
nodes (c ∷ m) = (c.0, channel_table c.1) ∷ nodes m

abbrev pub kept : Toml
kept = record { File = Channels; parse_file = λ m. some (nodes m); print = λ m. m }

lookup-nodes :
    (key : Bytes) (m : Channels) → lookup key (nodes m) ≡ Option.map channel_table (lookup key m)
unfolding lookup nodes
lookup-nodes key [] = refl
lookup-nodes key (c ∷ m) = elim (Bool-cases (equal c.0 key)) [
  | inl same ↦ rw (same, if◌then◌else◌) refl
  | inr differs ↦ rw (differs, if◌then◌else◌) (lookup-nodes key m)
]

nodes-IsMap : (m : Channels) → IsMap m → IsMap (nodes m)
unfolding nodes
nodes-IsMap [] w = tt
nodes-IsMap (c ∷ m) w = (lookup-nodes c.0 m ∙ ap (Option.map channel_table) w.0, nodes-IsMap m w.1)

abbrev kept-IsFaithful : IsFaithful kept
kept-IsFaithful = record {
  entries = nodes;
  parsed = λ m w. refl;
  entries_map = nodes-IsMap;
  same = λ m key w. lookup-nodes key m;
}

abbrev pub one_file : Option Channels
one_file = some ((codes "Alpha", some (codes "a")) ∷ [])

abbrev s0 : ChannelStore kept
s0 = load (fresh {T = kept} one_file)

abbrev s1 : ChannelStore kept
s1 = add_channel (codes "Beta") s0

abbrev s2 : ChannelStore kept
s2 = schedule_timer s1

abbrev s3 : ChannelStore kept
s3 = wake false s2

abbrev s4 : ChannelStore kept
s4 = exchange_dirty s3

abbrev s5 : ChannelStore kept
s5 = build_table s4

abbrev s6 : ChannelStore kept
s6 = write_file true s5.channel_data s5

saved-Reach : Reach one_file s6
unfolding add_channel schedule_timer wake exchange_dirty build_table write_file load read_disk
    load_entries nodes lookup emplace equal to_lower lower_byte
saved-Reach =
    next
      (next
        (next
          (next (next (next start (adds s0 (codes "Beta"))) (schedules s1))
            (wakes s2 false refl refl))
          (exchanges s3 refl))
        (builds s4 refl))
      (writes s5 s5.channel_data refl)

load-quiet_example :
    (contains_channel (codes "bETA") (load (fresh {T = kept} s6.disk))
      ≡ contains_channel (codes "bETA") s6)
    × (get_alias (codes "bETA") (load (fresh {T = kept} s6.disk)) ≡ get_alias (codes "bETA") s6)
unfolding add_channel schedule_timer wake exchange_dirty build_table write_file load read_disk
    load_entries nodes lookup emplace equal to_lower lower_byte
load-quiet_example = load-quiet kept-IsFaithful one_file s6 (codes "bETA") saved-Reach refl refl

load-flush_example :
    (contains_channel (codes "beta") (load (fresh {T = kept} (flush s1).disk))
      ≡ contains_channel (codes "beta") s1)
    × (get_alias (codes "beta") (load (fresh {T = kept} (flush s1).disk))
        ≡ get_alias (codes "beta") s1)
load-flush_example =
    load-flush kept-IsFaithful one_file s1 (codes "beta") (next start (adds s0 (codes "Beta")))

answers_of_the_store : Unit {0}
unfolding add_channel schedule_timer wake exchange_dirty build_table write_file load read_disk
    load_entries nodes lookup emplace equal to_lower lower_byte contains_channel get_alias
answers_of_the_store =
    let added : contains_channel (codes "BETA") s6 ≡ true = refl in
    let alias : get_alias (codes "alpha") (load (fresh {T = kept} s6.disk)) ≡ some (codes "a") =
      refl in
    let new : contains_channel (codes "beta") (load (fresh {T = kept} s6.disk)) ≡ true = refl in tt
