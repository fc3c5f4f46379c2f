-- ===== src/App/Commands.antt =====
-- `control_commands` of app/src/control_commands.cpp: the handlers of !join, !leave and !channels, and
-- the start of app/src/main.cpp that gives the stored channels to the bot. A handler runs as a whole,
-- and what it sends is sent.
pub mod Authority
pub mod Agreement
mod Tests
use twitch_bot.Prelude.{
  Bool, true, false, not, ◌&&◌, Option, List, [], ◌∷◌, ◌++◌, if◌then◌else◌, drop,
}
use twitch_bot.Prelude.Bytes.{Bytes, codes, equal, is_empty, starts_with_byte, to_lower}
use twitch_bot.Irc.Message.{IrcMessage, get_tag, param}
use twitch_bot.Dispatcher.{Dispatcher, register_command}
use twitch_bot.App.Store.{
  Toml, ChannelStore, load, add_channel, remove_channel, contains_channel, channel_names, save,
}
use twitch_bot.App.Store.Steps.{fresh}
use twitch_bot.Bot.{
  TwitchBot, Sent, set_initial_channels, join_channel, part_channel, say, bot_reply, is_privileged,
}

unfoldable pub canonical : Bytes → Bytes
canonical s = to_lower (if starts_with_byte b'#' s then drop 1 s else s)

-- What the handlers hold by reference.
pub record App (T : Toml) : Type 0 where
  pub store : ChannelStore T
  pub bot : TwitchBot

unfoldable pub join_warning : Bytes → Bytes
join_warning user =
    codes "@"
    ++ user
    ++ codes " You must be a mod to invite the bot to a different channel. "
    ++ codes "Use !join from your own channel instead."

unfoldable pub leave_warning : Bytes → Bytes
leave_warning user =
    codes "@"
    ++ user
    ++ codes " You must be a mod to remove the bot from another channel. "
    ++ codes "Use !leave from your own channel instead."

-- `canonical(args.empty() ? user : args)`
unfoldable pub target_of : IrcMessage → Bytes
target_of msg = canonical (if is_empty msg.trailing then msg.prefix else msg.trailing)

-- The names with ", " between them.
unfoldable pub name_list : List Bytes → Bytes
name_list [] = []
name_list (name ∷ []) = name
name_list (name ∷ next ∷ names) = let rest = name_list (next ∷ names) in name ++ codes ", " ++ rest

module _ {T : Toml} where
  -- A `reply` in the control channel, behind other frames.
  unfoldable pub answer : IrcMessage → Bytes → Sent (App T) → Sent (App T)
  answer msg text done = record done {
    frames = done.frames ++ bot_reply (param msg 0) (get_tag msg (codes "id")) text;
  }

  unfoldable pub silent : App T → Sent (App T)
  silent a = record { state = a; frames = [] }

  unfoldable pub join_target : Bytes → App T → Sent (App T)
  join_target target a =
      let joined : Sent TwitchBot = join_channel target a.bot in
      record {
        state = record { store = save (add_channel target a.store); bot = joined.state };
        frames = joined.frames;
      }

  unfoldable pub leave_target : Bytes → App T → Sent (App T)
  leave_target target a =
      let left : Sent TwitchBot = part_channel target a.bot in
      record {
        state = record { store = save (remove_channel target a.store); bot = left.state };
        frames = left.frames;
      }

  unfoldable pub join_command : IrcMessage → App T → Sent (App T)
  join_command msg a =
      let target : Bytes = target_of msg in
      if not (equal (param msg 0) a.bot.control_channel)
      then silent a
      else if not (is_empty msg.trailing) && not (is_privileged msg)
      then answer msg (join_warning msg.prefix) (silent a)
      else if contains_channel target a.store
      then answer msg (codes "Already in channel " ++ target) (silent a)
      else answer msg (codes "Joined " ++ target) (join_target target a)

  unfoldable pub leave_command : IrcMessage → App T → Sent (App T)
  leave_command msg a =
      let target : Bytes = target_of msg in
      if not (equal (param msg 0) a.bot.control_channel)
      then silent a
      else if not (is_empty msg.trailing) && not (is_privileged msg)
      then answer msg (leave_warning msg.prefix) (silent a)
      else if not (contains_channel target a.store)
      then answer msg (codes "Not in channel " ++ target) (silent a)
      else answer msg (codes "Left " ++ target) (leave_target target a)

  unfoldable pub channels_command : IrcMessage → App T → Sent (App T)
  channels_command msg a =
      let names : Bytes = name_list (channel_names a.store) in
      if not (equal (param msg 0) a.bot.control_channel) then silent a else record {
        state = a;
        frames =
            say (param msg 0) (
              codes "Currently in channels: "
              ++ (if is_empty names then codes "(none)" else names));
      }

-- The three handlers.
pub data Command : Type 0 where
  join_it leave_it list_them : Command

-- The registrations.
unfoldable pub control_commands : {L : Type 0} → Dispatcher Command L → Dispatcher Command L
control_commands d =
    register_command
      (register_command (register_command d (codes "join") join_it) (codes "leave") leave_it)
      (codes "channels") list_them

module _ {T : Toml} where
  unfoldable pub run_command : Command → IrcMessage → App T → Sent (App T)
  run_command join_it msg a = join_command msg a
  run_command leave_it msg a = leave_command msg a
  run_command list_them msg a = channels_command msg a

  -- Commands one behind the other.
  unfoldable pub run_commands : List (Command × IrcMessage) → App T → Sent (App T)
  run_commands [] a = silent a
  run_commands ((c, msg) ∷ rest) a =
      let done : Sent (App T) = run_command c msg a in
      let more : Sent (App T) = run_commands rest done.state in
      record { state = more.state; frames = done.frames ++ more.frames }

  -- The start: the store is loaded and its names are given to the bot.
  unfoldable pub start_app : Option T.File → Bytes → App T
  start_app disk control =
      let store : ChannelStore T = load (fresh {T = T} disk) in
      record {
        store = store;
        bot =
            set_initial_channels (channel_names store)
              (record { control_channel = control; initial_channels = [] });
      }
