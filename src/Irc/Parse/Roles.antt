-- ===== src/Irc/Parse/Roles.antt =====
-- What every line satisfies: the number of parameters, and where the role flags come from.
use twitch_bot.Prelude.{
  ℕ, ◌+◌, ◌≤◌, ◌<◌, ◌≡◌, ◌∙◌, true, false, [], ◌∷◌, ◌++◌, arith, if◌then◌else◌, length,
  length-append, take, drop,
}
use twitch_bot.Prelude.Bytes.{Bytes, codes, starts_with_byte}
use twitch_bot.Irc.Message.{IrcMessage, blank, param_count, push_param, max_params}
use twitch_bot.Irc.Scan.{find_space_in_tags_and_flags}
use twitch_bot.Irc.Scan.Flags.{mod_in_first_window}
use twitch_bot.Irc.Parse.{
  split_scalar, last_token, parse_command, parse_prefix, parse_irc_line, find_first_space_fast,
}
use twitch_bot.Irc.Parse.Params.{parse_params-split_scalar}

-- What the parsing of the parameters keeps.
record Kept (msg r : IrcMessage) : Type 0 where
  pub mod_kept : r.is_moderator ≡ msg.is_moderator
  pub bc_kept : r.is_broadcaster ≡ msg.is_broadcaster
  pub bounded : param_count r ≤ max_params

split_scalar-Kept :
    (tok : Bytes) (n : ℕ) (p : Bytes) (msg : IrcMessage)
    → param_count msg ≤ max_params
    → Kept msg (split_scalar tok n p msg)
unfolding split_scalar last_token
split_scalar-Kept tok n [] msg h = ground (arith, length-append msg.params (tok ∷ []))
split_scalar-Kept tok n (x ∷ p) msg h = ground (
  arith,
  length-append msg.params (take n tok ∷ []),
  split_scalar-Kept p 0 p (push_param msg (take n tok)),
  split_scalar-Kept tok (n + 1) p msg h,
)

parse_command-Kept :
    (s : Bytes) (msg : IrcMessage) → param_count msg ≤ max_params → Kept msg (parse_command s msg)
unfolding parse_command
parse_command-Kept s msg h =
    let c = find_first_space_fast s in
    let msg' = record msg { command = take c s } in
    let rest : Bytes = drop (c + 1) s in
    ground (arith, parse_params-split_scalar rest msg', split_scalar-Kept rest 0 rest msg' h)

parse_prefix-Kept :
    (s : Bytes) (msg : IrcMessage) → param_count msg ≤ max_params → Kept msg (parse_prefix s msg)
unfolding parse_prefix
parse_prefix-Kept s msg h =
    let rest : Bytes = drop 1 s in
    let c = find_first_space_fast rest in
    let msg' = record msg { prefix = take c rest } in
    ground (arith, parse_command-Kept s msg h, parse_command-Kept (drop (c + 1) rest) msg' h)

-- On every line `parse_irc_line` gives 16 parameters at most.
pub parse_irc_line-param_count : (raw : Bytes) → param_count (parse_irc_line raw) ≤ max_params
unfolding parse_irc_line
parse_irc_line-param_count raw =
    let ptr : Bytes = drop 1 raw in
    let tags = find_space_in_tags_and_flags ptr in
    let msg = record blank {
      raw_tags = take tags.offset ptr;
      is_moderator = tags.is_mod;
      is_broadcaster = tags.is_bc;
    } in
    ground (
      arith,
      parse_prefix-Kept raw blank (omega arith),
      parse_prefix-Kept (drop (tags.offset + 1) ptr) msg (omega arith),
    )

-- The flags are those of the scan, and unset where the line has no tags.
pub parse_irc_line-is_moderator :
    (raw : Bytes)
    → (parse_irc_line raw).is_moderator ≡ (
        if starts_with_byte b'@' raw
        then (find_space_in_tags_and_flags (drop 1 raw)).is_mod
        else false)
unfolding parse_irc_line
parse_irc_line-is_moderator raw =
    let ptr : Bytes = drop 1 raw in
    let tags = find_space_in_tags_and_flags ptr in
    let msg = record blank {
      raw_tags = take tags.offset ptr;
      is_moderator = tags.is_mod;
      is_broadcaster = tags.is_bc;
    } in
    ground (
      arith,
      parse_prefix-Kept raw blank (omega arith),
      parse_prefix-Kept (drop (tags.offset + 1) ptr) msg (omega arith),
    )

-- The text of a message can set the moderator flag: `mod=1` within the first 64 bytes behind '@'
-- does, whatever the tags say.
pub parse_irc_line-spoofed_moderator :
    (p w : Bytes)
    → length p < 64
    → (parse_irc_line (b'@' ∷ (p ++ (codes "mod=1" ++ w)))).is_moderator ≡ true
parse_irc_line-spoofed_moderator p w h =
    parse_irc_line-is_moderator (b'@' ∷ (p ++ (codes "mod=1" ++ w))) ∙ mod_in_first_window p w h
