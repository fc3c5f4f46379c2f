-- ===== src/Bot/Tests.antt =====
-- Lines and rounds of the bot.
use twitch_bot.Prelude.{ℕ, ◌≡◌, refl, false, List, [], ◌∷◌, ◌++◌, map, arith}
use twitch_bot.Prelude.Bytes.{Bytes, codes, has_prefix}
use twitch_bot.Irc.Message.{IrcMessage}
use twitch_bot.Irc.Parse.Print.{print_irc_line}
use twitch_bot.Irc.Client.Frames.{wire}
use twitch_bot.Dispatcher.{Dispatcher}
use twitch_bot.Bot.{
  send, on_frames, oauth_token, next_backoff, Round, connect_error, connection_lost, Supervisor,
  on_connected, run_round, run_rounds,
}
use twitch_bot.Bot.Routes.{pong_line, on_frames-ping}

abbrev no_handlers : Dispatcher ℕ ℕ
no_handlers = record { commands = []; chat_listeners = [] }

abbrev two_pings : List Bytes
two_pings = codes "tmi.twitch.tv" ∷ codes "x" ∷ []

abbrev cut_frames : List Bytes
cut_frames =
    codes "PIN"
    ∷ (codes "G :tmi.twitch.tv" ++ 13 ∷ [])
    ∷ (10 ∷ codes "PING :x" ++ 13 ∷ 10 ∷ [])
    ∷ []

on_frames-ping_example : on_frames no_handlers cut_frames ≡ map (λ p. send (pong_line p)) two_pings
unfolding wire print_irc_line
on_frames-ping_example =
    on_frames-ping no_handlers two_pings cut_frames refl (ground arith, (ground arith, tt))

abbrev auth_notice : IrcMessage
auth_notice = record {
  command = codes "NOTICE";
  params = codes "*" ∷ [];
  is_moderator = false;
  is_broadcaster = false;
  raw_tags = [];
  prefix = [];
  trailing = codes "Login authentication failed";
}

abbrev three_rounds : List (Round × (ℕ → ℕ))
three_rounds = (connect_error, λ m. m) ∷ (connect_error, λ m. m) ∷ (connection_lost, λ m. 0) ∷ []

abbrev at_start : Supervisor
at_start = record { connect_attempts = 0; reconnect_attempts = 0 }

pauses_and_tokens : Unit {0}
unfolding run_rounds run_round next_backoff on_connected oauth_token has_prefix
pauses_and_tokens =
    let pauses : run_rounds three_rounds at_start ≡ 3000 ∷ 6000 ∷ 150 ∷ [] = refl in
    let token : oauth_token (codes "ab") ≡ codes "oauth:ab" = refl in tt
