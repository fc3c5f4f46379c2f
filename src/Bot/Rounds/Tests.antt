-- ===== src/Bot/Rounds/Tests.antt =====
-- A run of three rounds: no connection, one that is lost within a line, and the next.
use twitch_bot.Prelude.{
  ℕ, ◌+◌, ◌≡◌, refl, true, false, some, List, [], ◌∷◌, ◌++◌, map, flatten, ltb, arith,
}
use twitch_bot.Prelude.Bytes.{Bytes, codes, cr, lf}
use twitch_bot.Config.{Config}
use twitch_bot.Helix.{World, document, no_array}
use twitch_bot.Irc.Client.Connect.{Answers, session, open_tcp, open_tls, open_ws, send_all, connect}
use twitch_bot.Irc.Client.Frames.{wire}
use twitch_bot.Dispatcher.{Dispatcher, Call}
use twitch_bot.Bot.{TwitchBot, on_line}
use twitch_bot.Bot.Pauses.{Fit}
use twitch_bot.Bot.Rounds.{Running, Meets, prepare, dial, start_bot, supervise, run_bot}
use twitch_bot.Bot.Rounds.Served.{AreServed, run_bot-AreServed}
use twitch_bot.Bot.Rounds.Waits.{had, pauses, run_bot-Fit, start_bot-access_token}
use twitch_bot.Bot.Rounds.Tail.{lost-line_tail}

abbrev pub fetches : World
fetches = record {
  E = Unit {0};
  J = Bytes;
  Time = ℕ;
  Lifetime = ℕ;
  exchange = λ r e. (document (codes "fetched"), e);
  now = λ e. (5, e);
  earlier = ltb;
  after = λ t l. t + l;
  expires_in = λ j. some 3600;
  access_token = λ j. some j;
  stream_data = λ j. no_array;
}

abbrev sample_config : Config
sample_config = record {
  path = codes "config.toml";
  app = record { client_id = codes "id"; client_secret = codes "s" };
  bot = record { login = codes "bot"; control_channel = codes "home" };
  auth = record { access_token = codes "old"; refresh_token = codes "r" };
}

abbrev no_handlers : Dispatcher ℕ ℕ
no_handlers = record { commands = []; chat_listeners = [] }

abbrev no_change : Call ℕ ℕ → ℕ × TwitchBot → ℕ × TwitchBot
no_change c s = s

abbrev at_start : Running fetches ℕ
unfolding start_bot
at_start = start_bot sample_config (codes "alpha" ∷ []) 0 tt

abbrev answered : Answers
answered = record {
  resolved = true;
  tcp_connected = true;
  has_handle = true;
  has_context = true;
  ca_loaded = true;
  sni_accepted = true;
  tls_accepted = true;
  ws_accepted = true;
}

abbrev lost : Meets
lost = record {
  draw = λ m. m;
  answers = answered;
  frames = (codes "PING :a" ++ cr ∷ lf ∷ codes "PI") ∷ codes "N" ∷ [];
}

abbrev again : Meets
again = record {
  draw = λ m. 0;
  answers = answered;
  frames = (codes "PING :b" ++ cr ∷ lf ∷ []) ∷ [];
}

abbrev pub rounds : List Meets
rounds = record lost { answers = record answered { tls_accepted = false } } ∷ lost ∷ again ∷ []

run_bot-AreServed_example : AreServed (run_bot no_handlers no_change rounds at_start)
run_bot-AreServed_example = run_bot-AreServed no_handlers no_change rounds at_start

run_bot-Fit_example :
    Fit 0
      (had rounds (run_bot no_handlers no_change rounds at_start))
      (pauses (run_bot no_handlers no_change rounds at_start))
unfolding at_start
run_bot-Fit_example =
    run_bot-Fit no_handlers no_change rounds at_start
      (λ m. omega arith, (λ m. omega arith, (λ m. omega arith, tt))) (omega arith)

start_bot-access_token_example :
    run_bot no_handlers no_change rounds (start_bot {W = fetches} sample_config [] 0 tt)
    ≡ run_bot no_handlers no_change rounds (
        start_bot {W = fetches}
          (record sample_config {
            auth = record { access_token = codes "new"; refresh_token = codes "r" };
          })
          []
          0
          tt)
start_bot-access_token_example =
    start_bot-access_token no_handlers no_change sample_config (codes "new") [] 0 tt rounds

abbrev second : Running fetches ℕ
second = (supervise no_handlers no_change lost at_start).1

lost-line_tail_example :
    (supervise no_handlers no_change again second).0.effects
    ≡ flatten (map (on_line no_handlers) ((codes "PIN" ++ codes "PING :b") ∷ []))
unfolding dial connect open_tcp open_tls open_ws send_all wire at_start
lost-line_tail_example =
    lost-line_tail no_handlers no_change lost again at_start
      (session (dial answered (prepare at_start))) (session (dial answered (prepare second)))
      (codes "PING :a" ∷ []) (codes "PIN") (codes "PING :b") [] refl refl refl refl
      (ground (arith, tt)) (ground arith) refl (ground arith)
