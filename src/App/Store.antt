-- ===== src/App/Store.antt =====
-- `ChannelStore` of app/src/channel_store.cpp and app/include/app/channel_store.hpp. The map is an
-- association list. Every operation holds `data_mutex_`, so it is one step; `save` and the timer's
-- handler are the steps between which other threads may act.
pub mod Steps
pub mod Load
pub mod Synced
pub mod Restart
pub mod Flush
pub mod Tests
use twitch_bot.Prelude.{Bool, true, false, Option, none, some, List, [], ◌∷◌, map, if◌then◌else◌}
use twitch_bot.Prelude.Bytes.{Bytes, equal, to_lower}
use twitch_bot.Prelude.Assoc.{lookup, erase, replace, emplace}

-- `ChannelInfo` is the optional alias.
abbrev pub ChannelInfo : Type 0
ChannelInfo = Option Bytes

abbrev pub Channels : Type 0
Channels = List (Bytes × ChannelInfo)

-- A value of the TOML file: a table, with its `alias` if that is a string, or anything else.
pub data Node : Type 0 where
  channel_table : Option Bytes → Node
  other_value : Node

-- toml++ and the file: `parse_file` is `none` where it throws, and what is written is read back with
-- the same keys and aliases.
pub record Toml : Type 1 where
  pub File : Type 0
  pub parse_file : File → Option (List (Bytes × Node))
  pub print : Channels → File

-- Where the timer's handler stands: not running, behind `timer_scheduled_.store(false)`, behind the
-- exchange of `dirty_`, behind `build_table` with its table.
pub data Handler : Type 0 where
  idle fired saving : Handler
  writing : Channels → Handler

pub record ChannelStore (T : Toml) : Type 0 where
  pub channel_data : Channels
  pub dirty : Bool
  pub timer_scheduled : Bool
  pub handler : Handler
  pub disk : Option T.File

-- The loop of `load` over the entries of the file.
unfoldable pub load_entries : List (Bytes × Node) → Channels → Channels
load_entries [] channels = channels
load_entries ((key, channel_table info) ∷ rest) channels =
    load_entries rest (emplace (to_lower key) info channels)
load_entries ((key, other_value) ∷ rest) channels = load_entries rest channels

-- What the file holds, as `load` reads it.
unfoldable pub read_disk : (T : Toml) → Option T.File → Option Channels
read_disk T none = none
read_disk T (some file) = elim (T.parse_file file) [
  | none ↦ none
  | some entries ↦ some (load_entries entries [])
]

-- `it->second.alias != alias`, negated.
unfoldable pub same_alias : Option Bytes → Option Bytes → Bool
same_alias none none = true
same_alias (some a) (some b) = equal a b
same_alias _ _ = false

module _ {T : Toml} where
  unfoldable pub load : ChannelStore T → ChannelStore T
  load s = elim (read_disk T s.disk) [
    | none ↦ s
    | some channels ↦ record s { channel_data = channels }
  ]

  unfoldable pub add_channel : Bytes → ChannelStore T → ChannelStore T
  add_channel channel s =
      let lc : Bytes = to_lower channel in
      elim (lookup lc s.channel_data) [
        | none ↦ record s { channel_data = emplace lc none s.channel_data; dirty = true }
        | some _ ↦ s
      ]

  unfoldable pub remove_channel : Bytes → ChannelStore T → ChannelStore T
  remove_channel channel s =
      let lc : Bytes = to_lower channel in
      elim (lookup lc s.channel_data) [
        | none ↦ s
        | some _ ↦ record s { channel_data = erase lc s.channel_data; dirty = true }
      ]

  unfoldable pub contains_channel : Bytes → ChannelStore T → Bool
  contains_channel channel s = elim (lookup (to_lower channel) s.channel_data) [
    | none ↦ false
    | some _ ↦ true
  ]

  unfoldable pub get_alias : Bytes → ChannelStore T → Option Bytes
  get_alias channel s = elim (lookup (to_lower channel) s.channel_data) [
    | none ↦ none
    | some info ↦ info
  ]

  unfoldable pub set_alias : Bytes → Option Bytes → ChannelStore T → ChannelStore T
  set_alias channel alias s =
      let lc : Bytes = to_lower channel in
      elim (lookup lc s.channel_data) [
        | none ↦ s
        | some info ↦
            if same_alias info alias
            then s
            else record s { channel_data = replace lc alias s.channel_data; dirty = true }
      ]

  unfoldable pub channel_names : ChannelStore T → List Bytes
  channel_names s = map (λ c. c.0) s.channel_data

  -- `save`: the flag, and then the compare-exchange with the timer started if it succeeds.
  unfoldable pub mark_dirty : ChannelStore T → ChannelStore T
  mark_dirty s = record s { dirty = true }

  unfoldable pub schedule_timer : ChannelStore T → ChannelStore T
  schedule_timer s = record s { timer_scheduled = true }

  unfoldable pub save : ChannelStore T → ChannelStore T
  unfolding mark_dirty schedule_timer
  save s = schedule_timer (mark_dirty s)

  -- The handler of the timer in its four steps; `err` is the timer's error code.
  unfoldable pub wake : Bool → ChannelStore T → ChannelStore T
  wake err s = record s { timer_scheduled = false; handler = if err then idle else fired }

  unfoldable pub exchange_dirty : ChannelStore T → ChannelStore T
  exchange_dirty s =
      if s.dirty then record s { dirty = false; handler = saving } else record s { handler = idle }

  -- `build_table`
  unfoldable pub build_table : ChannelStore T → ChannelStore T
  build_table s = record s { handler = writing s.channel_data }

  -- The rest of `perform_save`: unless opening, writing or renaming fails, the file is replaced.
  unfoldable pub write_file : Bool → Channels → ChannelStore T → ChannelStore T
  write_file ok table s =
      if ok
      then record s { disk = some (T.print table); handler = idle }
      else record s { handler = idle }
