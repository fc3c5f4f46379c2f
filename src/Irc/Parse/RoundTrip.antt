-- ===== src/Irc/Parse/RoundTrip.antt =====
-- Printing a message and parsing the line.
use twitch_bot.Prelude.{
  ℕ, ◌+◌, ◌<◌, ◌≡◌, refl, ap, ◌∙◌, Bool, true, false, List, [], ◌∷◌, ◌++◌, arith, lt→ltb, ◌==◌,
  length, length-append, drop-append_cons, take-append_left, take_all, append-nil,
}
use twitch_bot.Prelude.Bytes.{Bytes, sp, starts_with_byte, is_empty}
use twitch_bot.Prelude.Search.{Lacks, find_or_end-append, find_or_end-Lacks}
use twitch_bot.Irc.Message.{IrcMessage, blank, max_params}
use twitch_bot.Irc.Scan.Windows.{tags_offset}
use twitch_bot.Irc.Scan.{find_space_in_tags_and_flags}
use twitch_bot.Irc.Parse.{
  split_scalar, parse_command, parse_prefix, parse_irc_line, find_first_space_fast,
}
use twitch_bot.Irc.Parse.Spaces.{find_first_space_fast-find_or_end}
use twitch_bot.Irc.Parse.Params.{parse_params-split_scalar}
use twitch_bot.Irc.Parse.Print.{
  print_params, print_block, print_irc_line, IsWord, AllWords, IsPrintable, read_params,
  true-ne-false, trailing-read, params-read,
}

-- A field without spaces, and the space behind it.
field_space : (u v : Bytes) → Lacks sp u → find_first_space_fast (u ++ sp ∷ v) ≡ length u
field_space u v h = find_first_space_fast-find_or_end (u ++ sp ∷ v) ∙ find_or_end-append sp u v h

field_inside : (u v : Bytes) → (length u == length (u ++ sp ∷ v)) ≡ false
field_inside u v = ground (arith, length-append u (sp ∷ v))

parse_command-space :
    (u v : Bytes) (msg : IrcMessage)
    → Lacks sp u
    → parse_command (u ++ sp ∷ v) msg ≡ split_scalar v 0 v (record msg { command = u })
unfolding parse_command
parse_command-space u v msg h =
    rw (field_space u v h, field_inside u v, take-append_left u (sp ∷ v), drop-append_cons u sp v)
      (parse_params-split_scalar v (record msg { command = u }))

parse_command_alone :
    (u : Bytes) (msg : IrcMessage) → Lacks sp u → parse_command u msg ≡ record msg { command = u }
unfolding parse_command
parse_command_alone u msg h =
    let at : find_first_space_fast u ≡ length u =
      find_first_space_fast-find_or_end u ∙ find_or_end-Lacks sp u h in
    let same : (length u == length u) ≡ true = ground arith in
    rw (at, same, take_all (length u) u (omega arith))

parse_prefix-space :
    (u v : Bytes) (msg : IrcMessage)
    → Lacks sp u
    → parse_prefix (b':' ∷ (u ++ sp ∷ v)) msg ≡ parse_command v (record msg { prefix = u })
unfolding parse_prefix
parse_prefix-space u v msg h =
    rw (field_space u v h, field_inside u v, take-append_left u (sp ∷ v), drop-append_cons u sp v)

parse_prefix_none :
    (s : Bytes) (msg : IrcMessage)
    → starts_with_byte b':' s ≡ false
    → parse_prefix s msg ≡ parse_command s msg
unfolding parse_prefix
parse_prefix_none s msg h = rw h

-- The command and what follows it.
parse_command-print :
    (command : Bytes) (ps : List Bytes) (t : Bytes) (msg : IrcMessage)
    → IsWord command
    → AllWords ps
    → length msg.params + length ps < max_params
    → parse_command (command ++ print_params ps t) msg
      ≡ read_params (record msg { command = command }) ps t
parse_command-print command [] [] msg w ws room =
    rw append-nil (parse_command_alone command msg w.0 ∙ rw append-nil)
parse_command-print command [] (t ∷ ts) msg w ws room =
    parse_command-space command (b':' ∷ t ∷ ts) msg w.0
    ∙ trailing-read (record msg { command = command }) (t ∷ ts) (lt→ltb _ _ (omega arith))
    ∙ rw append-nil
parse_command-print command (p ∷ ps) t msg w ws room =
    parse_command-space command (p ++ print_params ps t) msg w.0
    ∙ params-read p ps t (record msg { command = command }) ws (omega arith)

starts-append :
    (c : ℕ) (u v : Bytes)
    → is_empty u ≡ false
    → starts_with_byte c u ≡ false
    → starts_with_byte c (u ++ v) ≡ false
starts-append c [] v ne h = absurd (true-ne-false ne)
starts-append c (x ∷ u) v ne h = h

parse_prefix-print :
    (prefix command : Bytes) (ps : List Bytes) (t : Bytes) (msg : IrcMessage)
    → Lacks sp prefix
    → IsWord command
    → AllWords ps
    → length msg.params + length ps < max_params
    → msg.prefix ≡ []
    → parse_prefix (print_block b':' prefix (command ++ print_params ps t)) msg
      ≡ read_params (record msg { prefix = prefix; command = command }) ps t
parse_prefix-print [] command ps t msg h w ws room fresh =
    parse_prefix_none (command ++ print_params ps t) msg (starts-append b':' command _ w.1 w.2)
    ∙ parse_command-print command ps t msg w ws room
    ∙ ap (λ p. read_params (record msg { prefix = p; command = command }) ps t) fresh
parse_prefix-print (x ∷ prefix) command ps t msg h w ws room fresh =
    parse_prefix-space (x ∷ prefix) (command ++ print_params ps t) msg h
    ∙ parse_command-print command ps t (record msg { prefix = x ∷ prefix }) w ws room

-- The message with these fields.
abbrev made : Bytes → Bytes → Bytes → List Bytes → Bytes → Bool → Bool → IrcMessage
made tags prefix command ps t is_mod is_bc = record {
  command = command;
  params = ps;
  is_moderator = is_mod;
  is_broadcaster = is_bc;
  raw_tags = tags;
  prefix = prefix;
  trailing = t;
}

read_params-made :
    (tags prefix command : Bytes) (ps : List Bytes) (t : Bytes) (is_mod is_bc : Bool)
    → read_params (made tags prefix command [] [] is_mod is_bc) ps t
      ≡ made tags prefix command ps t is_mod is_bc
read_params-made tags prefix command ps [] is_mod is_bc = refl
read_params-made tags prefix command ps (x ∷ t) is_mod is_bc = refl

parse_tags-space :
    (u v : Bytes)
    → Lacks sp u
    → let scan = find_space_in_tags_and_flags (u ++ sp ∷ v) in
      parse_irc_line (b'@' ∷ (u ++ sp ∷ v))
      ≡ parse_prefix v (made u [] [] [] [] scan.is_mod scan.is_bc)
unfolding parse_irc_line
parse_tags-space u v h =
    let at : (find_space_in_tags_and_flags (u ++ sp ∷ v)).offset ≡ length u =
      tags_offset (u ++ sp ∷ v) ∙ find_or_end-append sp u v h in
    rw (at, field_inside u v, take-append_left u (sp ∷ v), drop-append_cons u sp v)

parse_tags_none :
    (s : Bytes) → starts_with_byte b'@' s ≡ false → parse_irc_line s ≡ parse_prefix s blank
unfolding parse_irc_line
parse_tags_none s h = rw h

no_at :
    (prefix command rest : Bytes)
    → is_empty command ≡ false
    → starts_with_byte b'@' command ≡ false
    → starts_with_byte b'@' (print_block b':' prefix (command ++ rest)) ≡ false
no_at [] command rest ne h = starts-append b'@' command rest ne h
no_at (x ∷ prefix) command rest ne h = refl

parse-blocks :
    (tags prefix command : Bytes) (ps : List Bytes) (t : Bytes)
    → IsPrintable (made tags prefix command ps t false false)
    → (is_mod : Bool) × (is_bc : Bool) × (parse_irc_line
          (print_block b'@' tags (print_block b':' prefix (command ++ print_params ps t)))
        ≡ made tags prefix command ps t is_mod is_bc)
parse-blocks [] prefix command ps t h = (
  false,
  false,
  parse_tags_none _ (no_at prefix command _ h.command_word.1 h.command_no_at)
      ∙ parse_prefix-print prefix command ps t blank h.prefix_lacks h.command_word h.param_words
          (omega (arith, h.room)) refl
      ∙ read_params-made [] prefix command ps t false false,
)
parse-blocks (x ∷ tags) prefix command ps t h =
    let u : Bytes = x ∷ tags in
    let v = print_block b':' prefix (command ++ print_params ps t) in
    let scan = find_space_in_tags_and_flags (u ++ sp ∷ v) in
    (
      scan.is_mod,
      scan.is_bc,
      parse_tags-space u v h.tags_lack
          ∙ parse_prefix-print prefix command ps t (made u [] [] [] [] scan.is_mod scan.is_bc)
              h.prefix_lacks h.command_word h.param_words (omega (arith, h.room)) refl
          ∙ read_params-made u prefix command ps t scan.is_mod scan.is_bc,
    )

-- A printed message is read back in every field but the two role flags, which the parser sets by its
-- scan, if tags and prefix have no space, command and parameters are not empty, have no space and do
-- not begin with ':', the command does not begin with '@', and there are at most 15 parameters.
pub parse-print_irc_line :
    (msg : IrcMessage)
    → IsPrintable msg
    → record (parse_irc_line (print_irc_line msg)) { is_moderator = false; is_broadcaster = false }
      ≡ record msg { is_moderator = false; is_broadcaster = false }
unfolding print_irc_line
parse-print_irc_line msg h =
    let clean : IsPrintable (record msg { is_moderator = false; is_broadcaster = false }) = record {
      tags_lack = h.tags_lack;
      prefix_lacks = h.prefix_lacks;
      command_word = h.command_word;
      command_no_at = h.command_no_at;
      param_words = h.param_words;
      room = h.room;
    } in
    let (_, _, e) =
      parse-blocks msg.raw_tags msg.prefix msg.command msg.params msg.trailing clean in
    ap (λ (r : IrcMessage). record r { is_moderator = false; is_broadcaster = false }) e
