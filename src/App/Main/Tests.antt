-- ===== src/App/Main/Tests.antt =====
-- A start from two files, and one without a configuration.
use twitch_bot.Prelude.{ℕ, ◌≡◌, refl, Bool, true, false, Option, none, some, if◌then◌else◌}
use twitch_bot.Prelude.Bytes.{Bytes, codes, equal}
use twitch_bot.Prelude.Assoc.{lookup, emplace, erase}
use twitch_bot.Toml.Tree.{
  Table, text, sub_table, empty, entry, trees, get, entries, as_table, value_string,
}
use twitch_bot.Config
use twitch_bot.App.Integrations
use twitch_bot.App.Store.Tests.{kept, one_file}
use twitch_bot.Bot.Rounds.Tests.{fetches, rounds}
use twitch_bot.App.Main.{Exit, exit_failure, runs, config_path, app_config_path, start_up, main}
use twitch_bot.App.Main.Joined.{AllJoinStored, InRounds, main-JoinsStored}

abbrev pair : Bytes → Bytes → Table → Table
pair key value rest = entry key (text value) rest

abbrev config_table : Table
config_table =
    entry (codes "twitch")
      (sub_table (
        entry (codes "app")
          (sub_table (
            pair (codes "client_id") (codes "id") (pair (codes "client_secret") (codes "s") empty)))
          (entry (codes "bot") (sub_table (pair (codes "login") (codes "home") empty)) (
            entry (codes "auth")
              (sub_table (
                pair (codes "access_token") (codes "old")
                  (pair (codes "refresh_token") (codes "r") empty)))
              empty))))
      empty

abbrev disk : Bytes → Option (Option Table)
disk path =
    if equal path config_path
    then some (some config_table)
    else if equal path app_config_path
    then some (some empty)
    else none

abbrev is_running : {A : Type 0} → Exit A → Bool
is_running exit_failure = false
is_running (runs a) = true

main-JoinsStored_example :
    InRounds AllJoinStored (main trees kept {W = fetches} {L = ℕ} disk one_file tt rounds)
main-JoinsStored_example = main-JoinsStored trees kept fetches ℕ disk one_file tt rounds

starts : is_running (main trees kept {W = fetches} {L = ℕ} disk one_file tt rounds) ≡ true
unfolding equal lookup emplace erase get entries as_table value_string main start_up
    Config.non_empty Config.or_login Config.config_from Config.walk Config.string_of
    Config.fetch_string Config.walk_optional Config.fetch_optional_string Config.config_of
    Config.read_table Config.parse_config Config.load Integrations.services_of
    Integrations.parse_file Integrations.load
starts = refl

no_config :
    is_running (main trees kept {W = fetches} {L = ℕ} (λ path. none) one_file tt rounds) ≡ false
unfolding main start_up Config.load
no_config = refl
