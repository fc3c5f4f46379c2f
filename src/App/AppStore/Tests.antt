-- ===== src/App/AppStore/Tests.antt =====
-- A file with two names of one channel.
use twitch_bot.Prelude.{◌≡◌, refl, none, some, Option, [], ◌∷◌}
use twitch_bot.Prelude.Bytes.{codes, equal, to_lower}
use twitch_bot.Prelude.Assoc.{lookup, emplace, erase}
use twitch_bot.Toml.Tree.{
  Table, text, number, sub_table, empty, entry, trees, trees-IsToml, get, entries, as_table,
  value_string,
}
use twitch_bot.App.AppStore.{replaced, failed, load_channels, channels_of, load, save}
use twitch_bot.App.AppStore.Saved.{load-save}

abbrev channels_file : Option (Option Table)
channels_file = some (
    some (
      entry (codes "channels")
        (sub_table (
          entry (codes "Chat") (text (codes "v"))
            (entry (codes "chat") (text (codes "w")) (entry (codes "n") number empty))))
        empty))

loads_first : load trees channels_file ≡ (codes "chat", codes "v") ∷ []
unfolding equal to_lower lookup emplace erase get entries as_table value_string load_channels
    channels_of load
loads_first = refl

load-save_example :
    (lookup (codes "chat") (load trees (save trees replaced (load trees channels_file) none))
      ≡ lookup (codes "chat") (load trees channels_file))
    × (save trees failed (load trees channels_file) none ≡ none)
load-save_example = load-save trees-IsToml channels_file none (codes "chat")
