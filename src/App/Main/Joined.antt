-- ===== src/App/Main/Joined.antt =====
-- Which channels each connection joins.
use twitch_bot.Prelude.{◌≡◌, ap, ◌∙◌, ◌||◌, ◌++◌, Option, List, [], ◌∷◌}
use twitch_bot.Prelude.Bytes.{Bytes, equal}
use twitch_bot.Prelude.Assoc.{lookup}
use twitch_bot.Toml
use twitch_bot.App.Store
use twitch_bot.Config
use twitch_bot.Config.{Config}
use twitch_bot.Helix.{World}
use twitch_bot.Dispatcher.{Call, run, notify}
use twitch_bot.Bot.{TwitchBot, has_channel, channel_list, set_initial_channels}
use twitch_bot.Bot.Channels.{has_channel-channel_list}
use twitch_bot.Bot.Rounds.{Meets, Done, start_bot}
use twitch_bot.Bot.Rounds.Served.{AreServed, run_bot-AreServed}
use twitch_bot.Irc.Client.{connect_join}
use twitch_bot.Irc.Client.Connect.{greeting}
use twitch_bot.Irc.Client.Connect.Secure.{Ends}
use twitch_bot.Bot.Rounds.Kept.{AreKept, run_bot-AreKept}
use twitch_bot.App.Store.{ChannelStore}
use twitch_bot.App.Store.Restart.{has}
use twitch_bot.App.Commands.{Command, start_app}
use twitch_bot.App.Commands.Agreement.{Agree, command-Agree, start-Agree}
use twitch_bot.App.Integrations
use twitch_bot.App.Main.{
  Exit, exit_failure, runs, config_path, app_config_path, commands_of_main, handle_call, start_main,
  start_up, main,
}

module _ {T : Store.Toml} where
  -- What a round connects with: `connect` throws and has sent nothing, or has sent the greeting and the
  -- JOIN lines of the channels that are in the store, the control channel added, and of no other.
  pub record JoinsStored {W : World} {L : Type 0} (e : Done W (ChannelStore T) Command L)
      : Type 0 where
    pub channels : List Bytes
    pub connected :
        Ends
          (greeting e.prepared.access_token e.prepared.bot.control_channel ++ connect_join channels)
          e.attempt
    pub stored :
        (k : Bytes)
        → has_channel k channels
          ≡ has (lookup k e.prepared.app.channel_data) || equal e.prepared.bot.control_channel k

  abbrev pub AllJoinStored :
      {W : World} {L : Type 0} → List (Done W (ChannelStore T) Command L) → Type 0
  AllJoinStored [] = Unit {0}
  AllJoinStored (e ∷ es) = JoinsStored e × AllJoinStored es

  abbrev Agreeing : ChannelStore T × TwitchBot → Type 0
  Agreeing s = Agree (record { store = s.0; bot = s.1 })

  handle_call-Agreeing :
      {L : Type 0}
      → (c : Call Command L) (s : ChannelStore T × TwitchBot) → Agreeing s
      → Agreeing (handle_call c s)
  unfolding handle_call
  handle_call-Agreeing (run c msg) s h = command-Agree c msg (record { store = s.0; bot = s.1 }) h
  handle_call-Agreeing (notify l channel user text) s h = h

  served-JoinsStored :
      {W : World} {L : Type 0}
      → (es : List (Done W (ChannelStore T) Command L)) → AreServed es
      → AreKept Agreeing es
      → AllJoinStored es
  served-JoinsStored [] served h = tt
  served-JoinsStored (e ∷ es) served h = (
    record {
      channels = channel_list e.prepared.bot;
      connected = served.0.connected;
      stored = λ k.
          has_channel-channel_list k e.prepared.bot
          ∙ ap (λ b. b || equal e.prepared.bot.control_channel k) (h.0.0 k);
    },
    served-JoinsStored es served.1 h.1,
  )

-- The rounds, if there are any.
abbrev pub InRounds : {A : Type 0} → (A → Type 0) → Exit A → Type 0
InRounds P exit_failure = Unit {0}
InRounds P (runs a) = P a

module _ (T : Store.Toml) (W : World) (L : Type 0) where
  start_main-Agreeing :
      (cfg : Config) (stored : Option T.File) (e : W.E)
      → Agreeing (
        (start_main {T = T} {W = W} cfg stored e).app,
        (start_main {T = T} {W = W} cfg stored e).bot,
      )
  unfolding start_main start_bot set_initial_channels start_app
  start_main-Agreeing cfg stored e = start-Agree T stored cfg.bot.control_channel

  start_up-JoinsStored :
      (c : Config.Result Config) (i : Integrations.Result Integrations.Integrations)
      (stored : Option T.File) (e : W.E) (rounds : List Meets)
      → InRounds AllJoinStored (start_up {T = T} {W = W} {L = L} c i stored e rounds)
  unfolding start_up
  start_up-JoinsStored (Config.err _) i stored e rounds = tt
  start_up-JoinsStored (Config.ok cfg) (Integrations.err _) stored e rounds = tt
  start_up-JoinsStored (Config.ok cfg) (Integrations.ok _) stored e rounds =
      served-JoinsStored _
        (run_bot-AreServed commands_of_main handle_call rounds (start_main cfg stored e))
        (run_bot-AreKept commands_of_main handle_call Agreeing (λ c s h. handle_call-Agreeing c s h)
          rounds (start_main cfg stored e) (start_main-Agreeing cfg stored e))

-- Whatever the files hold, where `main` does not end in front of it, in each round of the run `connect`
-- throws and has sent nothing, or has sent the greeting and the JOIN lines of a list of channels:
-- those that are in the store when it is called, and the control channel, and no other.
pub main-JoinsStored :
    (F : Toml.Toml) (T : Store.Toml) (W : World) (L : Type 0) (disk : Bytes → Option F.File)
    (stored : Option T.File) (e : W.E) (rounds : List Meets)
    → InRounds AllJoinStored (main F T {W = W} {L = L} disk stored e rounds)
unfolding main
main-JoinsStored F T W L disk stored e rounds =
    start_up-JoinsStored T W L (Config.load F config_path disk)
      (Integrations.load F app_config_path disk) stored e rounds
