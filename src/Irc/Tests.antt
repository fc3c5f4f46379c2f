-- ===== src/Irc/Tests.antt =====
-- Runs of the parser on concrete lines.
use twitch_bot.Prelude.{true, false, List, [], ◌∷◌, ◌++◌, ◌≡◌, refl, arith}
use twitch_bot.Prelude.Bytes.{Bytes, codes, has_prefix, sp}
use twitch_bot.Prelude.Search.{find, find_or_end, Lacks-of_find}
use twitch_bot.Irc.Message.{IrcMessage, blank, get_tag_from, get_tag}
use twitch_bot.Irc.Scan.{
  mask, scan64, ctz_from, ctz64, pop_lowest, contains, contains_broadcaster_1, badges_from,
  is_mod_tag, is_user_type_mod, is_broadcaster_badge, harvest, harvest_mod, harvest_bc,
  scan_tags_from, find_space_in_tags_and_flags,
}
use twitch_bot.Irc.Parse.{
  find_space_windows, find_first_space_fast, last_token, split_scalar, split_window, split_windows,
  parse_params_and_trailing_fast, parse_command, parse_prefix, parse_irc_line,
}
use twitch_bot.Irc.Message.Tags.{Tag, print_tags, value_of, AllTags, get_tag-value_of}
use twitch_bot.Irc.Parse.Params.{parse_params-split_scalar}
use twitch_bot.Irc.Parse.Roles.{parse_irc_line-spoofed_moderator}
use twitch_bot.Irc.Parse.Print.{print_irc_line, IsPrintable}
use twitch_bot.Irc.Parse.RoundTrip.{parse-print_irc_line}

parser : Unit {0}
unfolding find find_or_end print_tags has_prefix get_tag_from get_tag mask scan64 ctz_from ctz64
    pop_lowest contains contains_broadcaster_1 badges_from is_mod_tag is_user_type_mod
    is_broadcaster_badge harvest harvest_mod harvest_bc scan_tags_from find_space_in_tags_and_flags
    find_space_windows find_first_space_fast last_token split_scalar split_window split_windows
    parse_params_and_trailing_fast parse_command parse_prefix parse_irc_line
parser = tt

abbrev chat_line : Bytes
chat_line =
    codes
      "@badges=broadcaster/1;id=7;mod=0 :amy!amy@amy.tmi PRIVMSG #chan :hello there, this is a long line of chat"

parse-chat_line : parse_irc_line chat_line ≡ record {
  command = codes "PRIVMSG";
  params = codes "#chan" ∷ [];
  is_moderator = false;
  is_broadcaster = true;
  raw_tags = codes "badges=broadcaster/1;id=7;mod=0";
  prefix = codes "amy!amy@amy.tmi";
  trailing = codes "hello there, this is a long line of chat";
}
unfolding parser
parse-chat_line = refl

get_tag-chat_line : get_tag (parse_irc_line chat_line) (codes "id") ≡ codes "7"
unfolding parser
get_tag-chat_line = refl

parse_params-split_scalar_example :
    parse_params_and_trailing_fast (codes "#chan :hello there, all of you") blank
    ≡ split_scalar
        (codes "#chan :hello there, all of you")
        0
        (codes "#chan :hello there, all of you")
        blank
parse_params-split_scalar_example =
    parse_params-split_scalar (codes "#chan :hello there, all of you") blank

abbrev ban : IrcMessage
ban = record blank {
  command = codes "CLEARCHAT";
  params = codes "#chan" ∷ codes "@reason" ∷ [];
  raw_tags = codes "ban-duration=600;room-id=7";
  prefix = codes "tmi.twitch.tv";
  trailing = codes "amy b";
}

ban-IsPrintable : IsPrintable ban
unfolding parser
ban-IsPrintable = record {
  tags_lack = Lacks-of_find sp ban.raw_tags refl;
  prefix_lacks = Lacks-of_find sp ban.prefix refl;
  command_word = (Lacks-of_find sp ban.command refl, refl, refl);
  command_no_at = refl;
  param_words = (
    (Lacks-of_find sp (codes "#chan") refl, refl, refl),
    ((Lacks-of_find sp (codes "@reason") refl, refl, refl), tt),
  );
  room = omega arith;
}

parse-print_irc_line_example :
    record (parse_irc_line (print_irc_line ban)) { is_moderator = false; is_broadcaster = false }
    ≡ ban
parse-print_irc_line_example = parse-print_irc_line ban ban-IsPrintable

abbrev sent_tags : List Tag
sent_tags =
    record { key = codes "id"; value = codes "7" }
    ∷ record { key = codes "mod"; value = codes "a=b" }
    ∷ []

sent_tags-AllTags : AllTags sent_tags
unfolding parser
sent_tags-AllTags = (
  record {
    key_semi = Lacks-of_find b';' (codes "id") refl;
    key_eq = Lacks-of_find b'=' (codes "id") refl;
    value_semi = Lacks-of_find b';' (codes "7") refl;
  },
  (
    record {
      key_semi = Lacks-of_find b';' (codes "mod") refl;
      key_eq = Lacks-of_find b'=' (codes "mod") refl;
      value_semi = Lacks-of_find b';' (codes "a=b") refl;
    },
    tt,
  ),
)

get_tag-value_of_example :
    get_tag (record blank { raw_tags = print_tags sent_tags }) (codes "mod")
    ≡ value_of (codes "mod") sent_tags
unfolding parser
get_tag-value_of_example =
    get_tag-value_of (record blank { raw_tags = print_tags sent_tags }) (codes "mod") sent_tags refl
      (omega arith) (Lacks-of_find b'=' (codes "mod") refl) sent_tags-AllTags

spoofed_moderator_example :
    (parse_irc_line
      (b'@' ∷ (codes "mod=0 :a!a@a PRIVMSG #c :" ++ (codes "mod=1" ++ [])))).is_moderator
    ≡ true
spoofed_moderator_example =
    parse_irc_line-spoofed_moderator (codes "mod=0 :a!a@a PRIVMSG #c :") [] (omega arith)

-- The text of a message sets the moderator flag, though the tags say `mod=0`.
spoof : (parse_irc_line (codes "@mod=0 :a!a@a PRIVMSG #c :mod=1")).is_moderator ≡ true
unfolding parser
spoof = refl
