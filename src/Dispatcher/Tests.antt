-- ===== src/Dispatcher/Tests.antt =====
-- A dispatcher whose handlers and listeners are numbers.
use twitch_bot.Prelude.{ℕ, ◌≡◌, refl, false, [], ◌∷◌}
use twitch_bot.Prelude.Bytes.{Bytes, codes, equal, sp}
use twitch_bot.Prelude.Search.{find, Lacks-of_find}
use twitch_bot.Irc.Parse.{parse_irc_line}
use twitch_bot.Irc.Parse.Print.{print_irc_line}
use twitch_bot.Prelude.Assoc.{lookup}
use twitch_bot.Dispatcher.{
  Dispatcher, register_command, register_chat_listener, normalise_channel, extract_user,
  split_command, notify_all, route_text, dispatch_text, dispatch, run, notify,
}
use twitch_bot.Dispatcher.Routing.{
  command_text, chat_message, run_or_notify, dispatch-parse_irc_line,
}

dispatcher : Unit {0}
unfolding find equal lookup register_command register_chat_listener normalise_channel extract_user
    split_command notify_all route_text dispatch_text dispatch
dispatcher = tt

abbrev two_commands : Dispatcher ℕ ℕ
two_commands = record {
  commands = (codes "join", 1) ∷ (codes "ping", 2) ∷ [];
  chat_listeners = 7 ∷ 8 ∷ [];
}

run_ping :
    dispatch_text two_commands (codes "c") (codes "amy") (codes "!ping now")
    ≡ run 2 record {
      command = codes "ping";
      params = codes "c" ∷ [];
      is_moderator = false;
      is_broadcaster = false;
      raw_tags = [];
      prefix = codes "amy";
      trailing = codes "now";
    }
      ∷ []
unfolding dispatcher
run_ping = refl

notify_both :
    dispatch_text two_commands (codes "c") (codes "amy") (codes "ping")
    ≡ notify 7 (codes "c") (codes "amy") (codes "ping")
      ∷ notify 8 (codes "c") (codes "amy") (codes "ping")
      ∷ []
unfolding dispatcher
notify_both = refl

abbrev ping_line : Bytes
ping_line = print_irc_line (
    chat_message (codes "id=7") (codes "c") (codes "amy") (codes "amy.tmi")
      (command_text (codes "ping") (codes "a b")))

dispatch-parse_irc_line_example :
    dispatch two_commands (parse_irc_line ping_line)
    ≡ run_or_notify two_commands
        (codes "ping")
        (record {
          command = codes "ping";
          params = codes "c" ∷ [];
          is_moderator = (parse_irc_line ping_line).is_moderator;
          is_broadcaster = (parse_irc_line ping_line).is_broadcaster;
          raw_tags = codes "id=7";
          prefix = codes "amy";
          trailing = codes "a b";
        })
        (codes "c")
        (codes "amy")
        (command_text (codes "ping") (codes "a b"))
unfolding find
dispatch-parse_irc_line_example =
    dispatch-parse_irc_line two_commands (codes "id=7") (codes "c") (codes "amy") (codes "amy.tmi")
      (codes "ping") (codes "a b") (Lacks-of_find sp (codes "id=7") refl)
      (Lacks-of_find sp (codes "c") refl) (Lacks-of_find sp (codes "amy") refl)
      (Lacks-of_find b'!' (codes "amy") refl) (Lacks-of_find sp (codes "amy.tmi") refl)
      (Lacks-of_find sp (codes "ping") refl)
