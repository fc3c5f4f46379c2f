-- ===== src/Bot/Rounds.antt =====
-- `run_bot` of lib/twitch_core/src/twitch_bot.cpp, with the clients that its rounds use, and the start of
-- the bot in app/src/main.cpp. What a registered handler does to the bot and to what it keeps itself is
-- a parameter; what a line spawns has ended before the next round begins.
pub mod Served
pub mod Waits
pub mod Tail
pub mod Kept
pub mod Tests
use twitch_bot.Prelude.{ℕ, List, [], ◌∷◌, map, flatten}
use twitch_bot.Prelude.Bytes.{Bytes}
use twitch_bot.Config.{Config}
use twitch_bot.Helix.{World, HelixClient, ensure_valid_token}
use twitch_bot.Irc.Client.{Reading, read_loop}
use twitch_bot.Irc.Client.Connect.{Answers, Attempt, up, thrown, connect}
use twitch_bot.Dispatcher.{Dispatcher, Call}
use twitch_bot.Bot.{
  TwitchBot, Effect, send, reason, refresh_token, close_link, wake_supervisor, call, on_line,
  channel_list, oauth_token, Round, connect_error, connection_lost, Supervisor, run_round,
  set_initial_channels,
}

-- The members of the bot that last from round to round, with the counters of `run_bot`:
-- `access_token` and `line_tail` are those of its IrcClient, and `app` is what the handlers keep.
pub record Running (W : World) (S : Type 0) : Type 0 where
  pub app : S
  pub bot : TwitchBot
  pub helix : HelixClient W
  pub access_token : Bytes
  pub line_tail : Bytes
  pub backoffs : Supervisor

-- What a round meets: the draw of its pause, the answers to `connect`, and the frames that come in
-- before a read throws.
pub record Meets : Type 0 where
  pub draw : ℕ → ℕ
  pub answers : Answers
  pub frames : List Bytes

-- What a round has done: the token's client in front of it and the state that it connects with, what
-- `connect` ended with, what the lines led to, and its pause.
pub record Done (W : World) (S H L : Type 0) : Type 0 where
  pub before : HelixClient W
  pub prepared : Running W S
  pub attempt : Attempt
  pub round : Round
  pub effects : List (Effect H L)
  pub pause : ℕ

module _ {W : World} {S : Type 0} where
  -- "Ensure fresh OAuth, then update IRC client token."
  unfoldable pub prepare : Running W S → Running W S
  prepare r =
      let helix : HelixClient W = ensure_valid_token r.helix in
      record r { helix = helix; access_token = oauth_token helix.token }

  -- `irc_client_.connect(channels)`
  unfoldable pub dial : Answers → Running W S → Attempt
  dial answers r = connect answers r.access_token r.bot.control_channel (channel_list r.bot)

  -- The constructor, from the configuration, and `set_initial_channels` of main.
  unfoldable pub start_bot : Config → List Bytes → S → W.E → Running W S
  start_bot cfg stored app e =
      let clock = W.now e in
      record {
        app = app;
        bot =
            set_initial_channels stored
              (record { control_channel = cfg.bot.control_channel; initial_channels = [] });
        helix = record {
          client_id = cfg.app.client_id;
          client_secret = cfg.app.client_secret;
          refresh_token_value = cfg.auth.refresh_token;
          token = [];
          token_expiry = clock.0;
          world = clock.1;
          sent = [];
          persisted = [];
        };
        access_token = cfg.auth.access_token;
        line_tail = [];
        backoffs = record { connect_attempts = 0; reconnect_attempts = 0 };
      }

module _ {W : World} {S H L : Type 0} (d : Dispatcher H L)
    (handler : Call H L → S × TwitchBot → S × TwitchBot) where
  -- What an effect leaves behind.
  unfoldable pub run_effect : Effect H L → Running W S → Running W S
  run_effect (send frame) r = r
  run_effect (reason text) r = r
  run_effect refresh_token r = record r { helix = ensure_valid_token r.helix }
  run_effect close_link r = r
  run_effect wake_supervisor r = r
  run_effect (call c) r =
      let done : S × TwitchBot = handler c (r.app, r.bot) in record r { app = done.0; bot = done.1 }

  unfoldable pub run_effects : List (Effect H L) → Running W S → Running W S
  run_effects [] r = r
  run_effects (e ∷ effects) r = run_effects effects (run_effect e r)

  -- What the lines of a connection lead to.
  unfoldable pub effects_of : List Bytes → Running W S → List (Effect H L)
  effects_of frames r = flatten (map (on_line d) (read_loop r.line_tail frames).lines)

  -- The connection until a read throws.
  unfoldable pub serve : List Bytes → Running W S → Running W S
  serve frames r =
      run_effects (effects_of frames r)
        (record r { line_tail = (read_loop r.line_tail frames).tail })

  -- A round behind `connect`.
  unfoldable pub end_round :
      Meets → HelixClient W → Running W S → Attempt → Done W S H L × Running W S
  end_round m before r (thrown s) =
      let after = run_round m.draw connect_error r.backoffs in
      (
        record {
          before = before;
          prepared = r;
          attempt = thrown s;
          round = connect_error;
          effects = [];
          pause = after.1;
        },
        record r { backoffs = after.0 },
      )
  end_round m before r (up s) =
      let after = run_round m.draw connection_lost r.backoffs in
      (
        record {
          before = before;
          prepared = r;
          attempt = up s;
          round = connection_lost;
          effects = effects_of m.frames r;
          pause = after.1;
        },
        record (serve m.frames r) { backoffs = after.0 },
      )

  unfoldable pub supervise : Meets → Running W S → Done W S H L × Running W S
  supervise m r =
      let ready : Running W S = prepare r in end_round m r.helix ready (dial m.answers ready)

  -- The rounds of a run.
  unfoldable pub run_bot : List Meets → Running W S → List (Done W S H L)
  run_bot [] r = []
  run_bot (m ∷ rounds) r =
      let done : Done W S H L × Running W S = supervise m r in done.0 ∷ run_bot rounds done.1
