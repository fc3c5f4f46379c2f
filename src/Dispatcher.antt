-- ===== src/Dispatcher.antt =====
-- `CommandDispatcher` of lib/twitch_core/src/command_dispatcher.cpp and
-- lib/twitch_core/include/tb/twitch/command_dispatcher.hpp. Handlers and listeners are callbacks of
-- the bot: their types are parameters, and routing gives the calls that are made, in order.
pub mod Routing
mod Tests
use twitch_bot.Prelude.{
  ℕ, ◌+◌, ◌-◌, Bool, true, false, ◌&&◌, ◌||◌, not, Option, none, some, List, [], ◌∷◌, ◌++◌, map,
  ltb, if◌then◌else◌, length, take, drop,
}
use twitch_bot.Prelude.Bytes.{Bytes, codes, equal, sp, starts_with_byte}
use twitch_bot.Prelude.Search.{find}
use twitch_bot.Prelude.Assoc.{lookup}
use twitch_bot.Irc.Message.{IrcMessage, blank, param, param_count}

-- `commands_` has one entry for a name; `chat_listeners_` are in the order of their registration.
pub record Dispatcher (H L : Type 0) : Type 0 where
  pub commands : List (Bytes × H)
  pub chat_listeners : List L

-- A call that routing makes.
pub data Call (H L : Type 0) : Type 0 where
  run : H → IrcMessage → Call H L
  notify : L → Bytes → Bytes → Bytes → Call H L

pub record CommandSplit : Type 0 where
  pub cmd : Bytes
  pub args : Bytes

-- `if (!raw.empty() && raw.front() == '#')`
unfoldable pub normalise_channel : Bytes → Bytes
normalise_channel raw = if starts_with_byte b'#' raw then drop 1 raw else raw

unfoldable pub extract_user : Bytes → Bytes
extract_user prefix = elim (find b'!' prefix) [ none ↦ prefix | some pos ↦ take pos prefix ]

unfoldable pub split_command : Bytes → CommandSplit
split_command text =
    if ltb 1 (length text) && starts_with_byte b'!' text
    then elim (find sp text) [
      | none ↦ record { cmd = drop 1 text; args = [] }
      | some pos ↦ record { cmd = take (pos - 1) (drop 1 text); args = drop (pos + 1) text }
    ]
    else record { cmd = []; args = [] }

module _ {H L : Type 0} where
  -- `commands_.try_emplace(command, handler)`
  unfoldable pub register_command : Dispatcher H L → Bytes → H → Dispatcher H L
  register_command d command handler = elim (lookup command d.commands) [
    | some _ ↦ d
    | none ↦ record d { commands = (command, handler) ∷ d.commands }
  ]

  unfoldable pub register_chat_listener : Dispatcher H L → L → Dispatcher H L
  register_chat_listener d listener = record d {
    chat_listeners = d.chat_listeners ++ listener ∷ [];
  }

  -- `for (auto& listener : chat_listeners_) listener(channel, user, text);`
  unfoldable pub notify_all : List L → Bytes → Bytes → Bytes → List (Call H L)
  notify_all listeners channel user text = map (λ l. notify l channel user text) listeners

  unfoldable pub route_text :
      Dispatcher H L → Bytes → Bytes → Bytes → Bytes → Bool → Bool → List (Call H L)
  route_text d channel user text raw_tags is_moderator is_broadcaster =
      let s : CommandSplit = split_command text in
      if starts_with_byte b'!' text
      then elim (lookup s.cmd d.commands) [
        | some handler ↦
            run handler record {
              command = s.cmd;
              params = channel ∷ [];
              is_moderator = is_moderator;
              is_broadcaster = is_broadcaster;
              raw_tags = raw_tags;
              prefix = user;
              trailing = s.args;
            }
            ∷ []
        | none ↦ notify_all d.chat_listeners channel user text
      ]
      else notify_all d.chat_listeners channel user text

  unfoldable pub dispatch_text : Dispatcher H L → Bytes → Bytes → Bytes → List (Call H L)
  dispatch_text d channel user text = route_text d channel user text [] false false

  unfoldable pub dispatch : Dispatcher H L → IrcMessage → List (Call H L)
  dispatch d msg =
      if not (equal msg.command (codes "PRIVMSG")) || ltb (param_count msg) 1
      then []
      else route_text d (normalise_channel (param msg 0)) (extract_user msg.prefix) msg.trailing
          msg.raw_tags msg.is_moderator msg.is_broadcaster
