-- ===== src/App/Main.antt =====
-- `main` of app/src/main.cpp: from the files of the working directory to the rounds of the bot. The
-- store reads toml++ by the interface of App.Store, so its file, channels.toml, is a parameter of its own.
pub mod Joined
mod Tests
use twitch_bot.Prelude.{Option, List, [], ◌∷◌}
use twitch_bot.Prelude.Bytes.{Bytes, codes}
use twitch_bot.Toml
use twitch_bot.App.Store
use twitch_bot.Config
use twitch_bot.Config.{Config}
use twitch_bot.Helix.{World}
use twitch_bot.Dispatcher.{Dispatcher, Call, run, notify}
use twitch_bot.Bot.{TwitchBot, Sent}
use twitch_bot.Bot.Rounds.{Running, Meets, Done, start_bot, run_bot}
use twitch_bot.App.Store.{ChannelStore}
use twitch_bot.App.Commands.{App, Command, control_commands, run_command, start_app}
use twitch_bot.App.Integrations

-- What `main` ends with: `EXIT_FAILURE`, or the rounds of `bot.run()`.
pub data Exit (A : Type 0) : Type 0 where
  exit_failure : Exit A
  runs : A → Exit A

-- The files that are read in front of the start.
abbrev pub config_path : Bytes
config_path = codes "config.toml"

abbrev pub app_config_path : Bytes
app_config_path = codes "app_config.toml"

-- No listener is registered by `main`.
unfoldable pub commands_of_main : {L : Type 0} → Dispatcher Command L
commands_of_main = control_commands (record { commands = []; chat_listeners = [] })

module _ {T : Store.Toml} where
  -- The handlers, with the store that they hold.
  unfoldable pub handle_call :
      {L : Type 0} → Call Command L → ChannelStore T × TwitchBot → ChannelStore T × TwitchBot
  handle_call (run c msg) s =
      let done : Sent (App T) = run_command c msg (record { store = s.0; bot = s.1 }) in
      (done.state.store, done.state.bot)
  handle_call (notify l channel user text) s = s

  -- The bot in front of `bot.run()`.
  unfoldable pub start_main :
      {W : World} → Config → Option T.File → W.E → Running W (ChannelStore T)
  start_main {W} cfg stored e =
      let a : App T = start_app stored cfg.bot.control_channel in
      start_bot {W = W} cfg a.bot.initial_channels a.store e

  -- What follows from the two files that may throw an `EnvError`, in the order in which they are read.
  unfoldable pub start_up :
      {W : World} {L : Type 0}
      → Config.Result Config
      → Integrations.Result Integrations.Integrations
      → Option T.File
      → W.E
      → List Meets
      → Exit (List (Done W (ChannelStore T) Command L))
  start_up (Config.err _) integrations stored e rounds = exit_failure
  start_up (Config.ok cfg) (Integrations.err _) stored e rounds = exit_failure
  start_up {W} (Config.ok cfg) (Integrations.ok _) stored e rounds =
      runs (run_bot commands_of_main handle_call rounds (start_main {W = W} cfg stored e))

-- The files of the working directory are `disk`, and `stored` for the store.
unfoldable pub main :
    (F : Toml.Toml) (T : Store.Toml) {W : World} {L : Type 0}
    → (Bytes → Option F.File)
    → Option T.File
    → W.E
    → List Meets
    → Exit (List (Done W (ChannelStore T) Command L))
main F T disk stored e rounds =
    start_up (Config.load F config_path disk) (Integrations.load F app_config_path disk) stored e
      rounds
