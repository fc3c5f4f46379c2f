-- ===== src/Irc/Parse.antt =====
-- `parse_irc_line` of lib/twitch_core/include/tb/parser/irc_message_parser.hpp, and the two ways
-- it splits the middle parameters: byte by byte below 16 bytes, by windows of 64 bytes above.
pub mod Spaces
mod Scalar
mod Tokens
pub mod Params
pub mod Roles
pub mod Print
pub mod RoundTrip
use twitch_bot.Prelude.{
  ℕ, zero, suc, ◌+◌, ◌-◌, Bool, true, false, not, ◌&&◌, ◌||◌, Option, none, some, List, [], ◌∷◌,
  ltb, ◌==◌, if◌then◌else◌, length, take, drop,
}
use twitch_bot.Prelude.Bytes.{Bytes, sp, starts_with_byte, is_empty}
use twitch_bot.Prelude.Search.{find_or_end}
use twitch_bot.Irc.Scan.{window, scan64, ctz64, pop_lowest, find_space_in_tags_and_flags}
use twitch_bot.Irc.Message.{IrcMessage, blank, max_params, param_count, push_param}

-- The offset of the first space by windows, `at` bytes behind; `endp` if there is none.
unfoldable pub find_space_windows : ℕ → ℕ → Bytes → ℕ
find_space_windows zero at scan = at
find_space_windows (suc f) at [] = at
find_space_windows (suc f) at (x ∷ xs) =
    let scan : Bytes = x ∷ xs in
    let c = window scan in
    let spaces = (scan64 scan c).spaces in
    let rest = find_space_windows f (at + c) (drop c scan) in
    if spaces == 0 then rest else at + ctz64 spaces

unfoldable pub find_first_space_fast : Bytes → ℕ
find_first_space_fast ptr =
    if ltb (length ptr) 16 then find_or_end sp ptr else find_space_windows (length ptr) 0 ptr

abbrev pub set_trailing : IrcMessage → Bytes → IrcMessage
set_trailing msg t = record msg { trailing = t }

-- The token that the line's end closes.
unfoldable pub last_token : Bytes → IrcMessage → IrcMessage
last_token token_start msg =
    if not (is_empty token_start) && ltb (param_count msg) max_params
    then (if starts_with_byte b':' token_start
        then set_trailing msg (drop 1 token_start)
        else push_param msg token_start)
    else msg

-- The loop for small inputs: `n` bytes lie between `token_start` and `p`.
unfoldable pub split_scalar : Bytes → ℕ → Bytes → IrcMessage → IrcMessage
split_scalar token_start n [] msg = last_token token_start msg
split_scalar token_start n (ch ∷ p) msg =
    let next = split_scalar p 0 p (push_param msg (take n token_start)) in
    let longer = split_scalar token_start (n + 1) p msg in
    if ch == sp && ltb (param_count msg) max_params
    then (if starts_with_byte b':' token_start then set_trailing msg (drop 1 token_start) else next)
    else longer

-- Where one window leaves the loop: the new `token_start`, and whether the trailing was met.
pub record Window : Type 0 where
  pub start : ℕ
  pub msg : IrcMessage
  pub returned : Bool

-- `while (sp && msg.param_count < max_params)`; `token_start` and `scan` are offsets into `line`.
-- The branch on an empty token and the last branch push a view and go on in the same way.
unfoldable pub split_window : ℕ → Bytes → ℕ → ℕ → ℕ → IrcMessage → Window
split_window zero line start scan spaces msg = record { start = start; msg = msg; returned = false }
split_window (suc f) line start scan spaces msg =
    let (off, left) = pop_lowest spaces in
    let token_end = scan + off in
    let token : Bytes =
      if start == token_end then [] else take (token_end - start) (drop start line) in
    let next = split_window f line (token_end + 1) scan left (push_param msg token) in
    if spaces == 0 || not (ltb (param_count msg) max_params)
    then record { start = start; msg = msg; returned = false }
    else if not (start == token_end) && starts_with_byte b':' (drop start line)
    then record { start = start; msg = set_trailing msg (drop (start + 1) line); returned = true }
    else next

-- `while (scan < endp)`
unfoldable pub split_windows : ℕ → Bytes → ℕ → ℕ → IrcMessage → IrcMessage
split_windows zero line start scan msg = last_token (drop start line) msg
split_windows (suc f) line start scan msg =
    let c = window (drop scan line) in
    let w = split_window 64 line start scan (scan64 (drop scan line) c).spaces msg in
    let rest = split_windows f line w.start (scan + c) w.msg in
    if ltb scan (length line)
    then (if w.returned then w.msg else rest)
    else last_token (drop start line) msg

unfoldable pub parse_params_and_trailing_fast : Bytes → IrcMessage → IrcMessage
parse_params_and_trailing_fast ptr msg =
    if ltb (length ptr) 16
    then split_scalar ptr 0 ptr msg
    else split_windows (length ptr) ptr 0 0 msg

-- [3] command, and [4] params and trailing
unfoldable pub parse_command : Bytes → IrcMessage → IrcMessage
parse_command ptr msg =
    let space_pos = find_first_space_fast ptr in
    let msg' = record msg { command = take space_pos ptr } in
    if space_pos == length ptr
    then msg'
    else parse_params_and_trailing_fast (drop (space_pos + 1) ptr) msg'

-- [2] optional prefix
unfoldable pub parse_prefix : Bytes → IrcMessage → IrcMessage
parse_prefix ptr msg =
    if starts_with_byte b':' ptr
    then (let rest = drop 1 ptr in
        let space_pos = find_first_space_fast rest in
        let msg' = record msg { prefix = take space_pos rest } in
        if space_pos == length rest then msg' else parse_command (drop (space_pos + 1) rest) msg')
    else parse_command ptr msg

-- [1] tags block, with the flags found in it
unfoldable pub parse_irc_line : Bytes → IrcMessage
parse_irc_line raw =
    if starts_with_byte b'@' raw
    then (let ptr = drop 1 raw in
        let tags = find_space_in_tags_and_flags ptr in
        let msg = record blank {
          raw_tags = take tags.offset ptr;
          is_moderator = tags.is_mod;
          is_broadcaster = tags.is_bc;
        } in
        if tags.offset == length ptr then msg else parse_prefix (drop (tags.offset + 1) ptr) msg)
    else parse_prefix raw blank
