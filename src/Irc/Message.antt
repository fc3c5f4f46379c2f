-- ===== src/Irc/Message.antt =====
-- `IrcMessage` of lib/twitch_core/include/tb/parser/irc_message_parser.hpp. `params` holds the
-- first `param_count` views of the array; the ones behind them are empty.
pub mod Tags
use twitch_bot.Prelude.{
  ℕ, zero, suc, ◌+◌, Bool, true, false, ◌&&◌, Option, none, some, List, [], ◌∷◌, ◌++◌, ltb,
  if◌then◌else◌, length, take, drop, get_or,
}
use twitch_bot.Prelude.Bytes.{Bytes, has_prefix, starts_with_byte}
use twitch_bot.Prelude.Search.{find}

pub record IrcMessage : Type 0 where
  pub command : Bytes
  pub params : List Bytes
  pub is_moderator : Bool
  pub is_broadcaster : Bool
  pub raw_tags : Bytes
  pub prefix : Bytes
  pub trailing : Bytes

abbrev pub max_params : ℕ
max_params = 16

-- `IrcMessage msg{}`
abbrev pub blank : IrcMessage
blank = record {
  command = [];
  params = [];
  is_moderator = false;
  is_broadcaster = false;
  raw_tags = [];
  prefix = [];
  trailing = [];
}

abbrev pub param_count : IrcMessage → ℕ
param_count msg = length msg.params

-- `msg.params[i]`
abbrev pub param : IrcMessage → ℕ → Bytes
param msg i = get_or msg.params i []

-- `msg.params[msg.param_count++] = p`
abbrev pub push_param : IrcMessage → Bytes → IrcMessage
push_param msg p = record msg { params = msg.params ++ p ∷ [] }

-- The view up to the next ';', or to `endp`.
abbrev pub tag_value : Bytes → Bytes
tag_value value_start = elim (find b';' value_start) [
  | none ↦ value_start
  | some n ↦ take n value_start
]

-- The bytes behind the next ';', or none.
abbrev pub next_tag : Bytes → Bytes
next_tag cursor = elim (find b';' cursor) [ none ↦ [] | some n ↦ drop (n + 1) cursor ]

-- `get_tag` from `cursor`. Each round drops a byte at least.
unfoldable pub get_tag_from : ℕ → Bytes → Bytes → Bytes
get_tag_from zero key cursor = []
get_tag_from (suc f) key [] = []
get_tag_from (suc f) key (x ∷ xs) =
    let cursor : Bytes = x ∷ xs in
    let rest = get_tag_from f key (next_tag cursor) in
    if has_prefix key cursor && starts_with_byte b'=' (drop (length key) cursor)
    then tag_value (drop (length key + 1) cursor)
    else rest

unfoldable pub get_tag : IrcMessage → Bytes → Bytes
get_tag msg key = get_tag_from (length msg.raw_tags) key msg.raw_tags
