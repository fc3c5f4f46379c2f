-- ===== src/Bot.antt =====
-- `TwitchBot` of lib/twitch_core/src/twitch_bot.cpp and lib/twitch_core/include/tb/twitch/twitch_bot.hpp:
-- its channels, what it sends, what it does with a line, and the pauses of `run_bot`.
pub mod Routes
pub mod Pauses
pub mod Channels
pub mod Rounds
mod Tests
use twitch_bot.Prelude.{
  ℕ, ◌+◌, ◌*◌, ◌%◌, ◌^◌, min, Bool, true, false, ◌||◌, ◌&&◌, Option, none, some, List, [], ◌∷◌,
  ◌++◌, map, ltb, leb, if◌then◌else◌, flatten,
}
use twitch_bot.Prelude.Bytes.{Bytes, codes, equal, is_empty, has_prefix}
use twitch_bot.Irc.Message.{IrcMessage, get_tag, param, param_count}
use twitch_bot.Irc.Parse.{parse_irc_line}
use twitch_bot.Irc.Client.{join, part, reply_frame, reply, privmsg_wrap, send_line, crlf, read_loop}
use twitch_bot.Dispatcher.{Dispatcher, Call, dispatch}

-- `control_channel_` and `initial_channels_`
pub record TwitchBot : Type 0 where
  pub control_channel : Bytes
  pub initial_channels : List Bytes

-- What an operation leaves: the state, and the frames it has sent, in order.
pub record Sent (S : Type 0) : Type 0 where
  pub state : S
  pub frames : List Bytes

-- `std::find(channels.begin(), channels.end(), c) != channels.end()`
unfoldable pub has_channel : Bytes → List Bytes → Bool
has_channel c [] = false
has_channel c (x ∷ channels) = equal x c || has_channel c channels

-- `initial_channels_.erase(it)`, the first that is equal.
unfoldable pub erase_channel : Bytes → List Bytes → List Bytes
erase_channel c [] = []
erase_channel c (x ∷ channels) =
    let rest = erase_channel c channels in if equal x c then channels else x ∷ rest

unfoldable pub set_initial_channels : List Bytes → TwitchBot → TwitchBot
set_initial_channels channels bot = record bot { initial_channels = channels }

unfoldable pub add_initial : Bytes → List Bytes → List Bytes
add_initial c channels = if has_channel c channels then channels else channels ++ c ∷ []

unfoldable pub join_channel : Bytes → TwitchBot → Sent TwitchBot
join_channel channel bot = record {
  state = record bot { initial_channels = add_initial channel bot.initial_channels };
  frames = join channel ∷ [];
}

unfoldable pub part_channel : Bytes → TwitchBot → Sent TwitchBot
part_channel channel bot = record {
  state = record bot { initial_channels = erase_channel channel bot.initial_channels };
  frames = part channel ∷ [];
}

unfoldable pub say : Bytes → Bytes → List Bytes
say channel text = privmsg_wrap channel text

-- `TwitchBot::reply`
unfoldable pub bot_reply : Bytes → Bytes → Bytes → List Bytes
bot_reply channel parent text =
    if is_empty parent then privmsg_wrap channel text else reply channel parent text ∷ []

unfoldable pub is_privileged : IrcMessage → Bool
is_privileged msg =
    if msg.is_broadcaster then true else if msg.is_moderator then true else is_empty msg.prefix

-- What the handler of `read_loop` does: it sends, sets `reconnect_reason`, refreshes the token, closes
-- the connection, wakes the supervisor, or makes the calls of the dispatcher. What it spawns is in the
-- order in which it is spawned.
pub data Effect (H L : Type 0) : Type 0 where
  send : Bytes → Effect H L
  reason : Bytes → Effect H L
  refresh_token close_link wake_supervisor : Effect H L
  call : Call H L → Effect H L

unfoldable pub pong : Bytes → Bytes
pong payload = codes "PONG " ++ codes ":" ++ payload ++ crlf

-- The test for a NOTICE of failed authentication.
unfoldable pub auth_failed : IrcMessage → Bool
auth_failed msg =
    equal (get_tag msg (codes "msg-id")) (codes "msg_auth_failed")
    || equal msg.trailing (codes "Login authentication failed")
    || equal msg.trailing (codes "Improperly formatted auth")

module _ {H L : Type 0} where
  unfoldable pub on_message : Dispatcher H L → IrcMessage → List (Effect H L)
  on_message d msg =
      if equal msg.command (codes "PING")
      then send (pong msg.trailing) ∷ []
      else if equal msg.command (codes "RECONNECT")
      then reason (codes "server-reconnect") ∷ close_link ∷ wake_supervisor ∷ []
      else if equal msg.command (codes "NOTICE") && auth_failed msg
      then reason (codes "auth-fail") ∷ refresh_token ∷ close_link ∷ wake_supervisor ∷ []
      else if equal msg.command (codes "CAP") && leb 2 (param_count msg)
      then []
      else map call (dispatch d msg)

  unfoldable pub on_line : Dispatcher H L → Bytes → List (Effect H L)
  on_line d raw = on_message d (parse_irc_line raw)

  -- What the bot does with the frames of a connection.
  unfoldable pub on_frames : Dispatcher H L → List Bytes → List (Effect H L)
  on_frames d frames = flatten (map (on_line d) (read_loop [] frames).lines)

-- The channels that `run_bot` connects with.
unfoldable pub channel_list : TwitchBot → List Bytes
channel_list bot =
    if has_channel bot.control_channel bot.initial_channels
    then bot.initial_channels
    else bot.initial_channels ++ bot.control_channel ∷ []

-- `if (access_token.rfind("oauth:", 0) != 0) access_token = "oauth:" + access_token;`
unfoldable pub oauth_token : Bytes → Bytes
oauth_token token = if has_prefix (codes "oauth:") token then token else codes "oauth:" ++ token

-- `next_backoff`, in milliseconds; `draw m` is what the generator gives for 0 to m.
pub record Backoff : Type 0 where
  pub attempts : ℕ
  pub sleep : ℕ

unfoldable pub next_backoff : (ℕ → ℕ) → ℕ → ℕ → ℕ → Backoff
next_backoff draw attempts base cap =
    let grown : ℕ = base * 2 ^ min attempts 16 in
    let max_d : ℕ = if ltb cap grown then cap else grown in
    let d : ℕ = draw max_d in
    record { attempts = (attempts + 1) % 2 ^ 32; sleep = if ltb d 150 then 150 else d }

-- A round of `run_bot`, by how it ends: `connect` throws, or the connection is up and is lost.
pub data Round : Type 0 where
  connect_error connection_lost : Round

pub record Supervisor : Type 0 where
  pub connect_attempts : ℕ
  pub reconnect_attempts : ℕ

-- "Connected: reset counters."
unfoldable pub on_connected : Supervisor → Supervisor
on_connected s = record s { connect_attempts = 0; reconnect_attempts = 0 }

-- What a round leaves, with its pause.
unfoldable pub run_round : (ℕ → ℕ) → Round → Supervisor → Supervisor × ℕ
run_round draw connect_error s =
    let b : Backoff = next_backoff draw s.connect_attempts 3000 30000 in
    (record s { connect_attempts = b.attempts }, b.sleep)
run_round draw connection_lost s =
    let up : Supervisor = on_connected s in
    let b : Backoff = next_backoff draw up.reconnect_attempts 2000 30000 in
    (record up { reconnect_attempts = b.attempts }, b.sleep)

-- The pauses of the rounds of a run, each with its draw.
unfoldable pub run_rounds : List (Round × (ℕ → ℕ)) → Supervisor → List ℕ
run_rounds [] s = []
run_rounds ((round, draw) ∷ rounds) s =
    let after = run_round draw round s in after.1 ∷ run_rounds rounds after.0
