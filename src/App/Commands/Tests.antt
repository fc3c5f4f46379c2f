-- ===== src/App/Commands/Tests.antt =====
-- Commands on a store with one channel.
use twitch_bot.Prelude.{◌≡◌, ◌⊎◌, refl, Bool, true, false, List, [], ◌∷◌, ◌++◌}
use twitch_bot.Prelude.Bytes.{Bytes, codes, equal, to_lower, lower_byte, has_prefix}
use twitch_bot.Prelude.Search.{find}
use twitch_bot.Prelude.Assoc.{lookup, emplace, erase}
use twitch_bot.Irc.Message.{IrcMessage, get_tag, get_tag_from}
use twitch_bot.Irc.Client.{
  join, part, privmsg, reply, reply_frame, privmsg_wrap, fits, has_crlf, crlf,
}
use twitch_bot.App.Store.{
  load, load_entries, read_disk, add_channel, remove_channel, contains_channel, save, mark_dirty,
  schedule_timer, channel_names,
}
use twitch_bot.App.Store.Tests.{kept, one_file, nodes}
use twitch_bot.Bot.{
  has_channel, erase_channel, add_initial, set_initial_channels, join_channel, part_channel,
  bot_reply, say, is_privileged,
}
use twitch_bot.App.Commands.{
  App, Command, join_it, leave_it, list_them, canonical, target_of, join_warning, answer, silent,
  join_target, leave_target, join_command, leave_command, name_list, channels_command, run_command,
  run_commands, start_app,
}
use twitch_bot.App.Commands.Authority.{run_command-lookup, may_change}

-- A message in the channel `boss`.
abbrev by : Bytes → Bool → Bytes → Bytes → IrcMessage
by user is_mod tags text = record {
  command = codes "x";
  params = codes "boss" ∷ [];
  is_moderator = is_mod;
  is_broadcaster = false;
  raw_tags = tags;
  prefix = user;
  trailing = text;
}

abbrev a0 : App kept
a0 = start_app one_file (codes "boss")

abbrev session : List (Command × IrcMessage)
session =
    (join_it, by (codes "Zoe") false (codes "id=7") [])
    ∷ (join_it, by (codes "zoe") false [] (codes "other"))
    ∷ (leave_it, by (codes "mod") true [] (codes "#ALPHA"))
    ∷ (list_them, by (codes "zoe") false [] [])
    ∷ []

run_command-lookup_example :
    (lookup
        (to_lower (codes "ZOE"))
        (run_command join_it (by (codes "Zoe") false [] []) a0).state.store.channel_data
      ≡ lookup (to_lower (codes "ZOE")) a0.store.channel_data)
    ⊎ (may_change (by (codes "Zoe") false [] []) a0 (codes "ZOE") ≡ true)
run_command-lookup_example =
    run_command-lookup (by (codes "Zoe") false [] []) a0 join_it (codes "ZOE")

run_of_the_session : Unit {0}
unfolding run_commands run_command join_command leave_command channels_command answer silent
    join_target leave_target target_of canonical start_app join_warning name_list channel_names
    set_initial_channels join_channel part_channel add_initial erase_channel has_channel bot_reply
    say is_privileged add_channel remove_channel contains_channel save mark_dirty schedule_timer
    load read_disk load_entries nodes lookup emplace erase equal to_lower lower_byte has_prefix
    get_tag get_tag_from join part privmsg reply reply_frame privmsg_wrap fits has_crlf find
run_of_the_session =
    let done = run_commands session a0 in
    let stays : done.state.bot.initial_channels ≡ codes "zoe" ∷ [] = refl in
    let stored : contains_channel (codes "zoe") done.state.store ≡ true = refl in
    let sent : done.frames
        ≡ (codes "JOIN #zoe" ++ crlf)
          ∷ (codes "@reply-parent-msg-id=7 PRIVMSG #boss :Joined zoe" ++ crlf)
          ∷ (codes
                "PRIVMSG #boss :@zoe You must be a mod to invite the bot to a different channel. Use !join from your own channel instead."
              ++ crlf)
          ∷ (codes "PART #alpha" ++ crlf)
          ∷ (codes "PRIVMSG #boss :Left alpha" ++ crlf)
          ∷ (codes "PRIVMSG #boss :Currently in channels: zoe" ++ crlf)
          ∷ [] =
      refl in
    tt
