-- ===== src/App/AppStore.antt =====
-- `AppChannelStore` of app/src/app_channel_store.cpp and app/include/app/app_channel_store.hpp. Its
-- contains, get, set and erase have no code.
pub mod Written
pub mod Saved
mod Tests
use twitch_bot.Prelude.{Bool, true, false, Option, none, some, List, [], ◌∷◌}
use twitch_bot.Prelude.Bytes.{Bytes, codes, to_lower}
use twitch_bot.Prelude.Assoc.{emplace}
use twitch_bot.Toml.{Toml}

-- `per_channel_`
abbrev pub PerChannel : Type 0
PerChannel = List (Bytes × Bytes)

-- What `save` comes to: the file is replaced, or opening, writing or renaming fails.
pub data Saving : Type 0 where
  replaced failed : Saving

module _ (T : Toml) where
  -- The loop over the channels of the file.
  unfoldable pub load_channels : List (Bytes × T.Node) → PerChannel → PerChannel
  load_channels [] per_channel = per_channel
  load_channels ((key, node) ∷ rest) per_channel = load_channels rest (elim (T.value_string node) [
    | none ↦ per_channel
    | some value ↦ emplace (to_lower key) value per_channel
  ])

  unfoldable pub channels_of : T.Table → PerChannel
  channels_of root = elim (T.get (codes "channels") root) [
    | none ↦ []
    | some node ↦ elim (T.as_table node) [ none ↦ [] | some chs ↦ load_channels (T.entries chs) [] ]
  ]

  -- `load`: the map is cleared, whatever the file is.
  unfoldable pub load : Option T.File → PerChannel
  load none = []
  load (some file) = elim (T.parse_file file) [ none ↦ [] | some root ↦ channels_of root ]

  -- The tables that `save` builds.
  unfoldable pub channel_table : PerChannel → T.Table → T.Table
  channel_table [] chs = chs
  channel_table ((channel, value) ∷ rest) chs =
      channel_table rest (T.insert_or_assign channel (T.string_node value) chs)

  unfoldable pub root_table : PerChannel → T.Table
  root_table per_channel =
      T.insert_or_assign (codes "channels") (T.table_node (channel_table per_channel T.empty_table))
        T.empty_table

  -- `save`, on the file that there is.
  unfoldable pub save : Saving → PerChannel → Option T.File → Option T.File
  save replaced per_channel file = some (T.print (root_table per_channel))
  save failed per_channel file = file
