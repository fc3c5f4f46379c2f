-- ===== src/Irc/Parse/Print.antt =====
-- The printed form of a message, and how its parameters are read back.
use native.Mathlib.Nat.{zero-add}
use twitch_bot.Prelude.{
  ℕ, ◌+◌, ◌<◌, ◌≡◌, ◌∙◌, true, false, inl, inr, List, [], ◌∷◌, ◌++◌, arith, ltb, lt→ltb,
  Option-cases, length, length-append, drop-suc-append_cons, take-append_left, append_assoc,
  append-nil,
}
use twitch_bot.Prelude.Bytes.{Bytes, sp, starts_with_byte, is_empty}
use twitch_bot.Prelude.Search.{find, find-Lacks, find-append, Lacks}
use twitch_bot.Irc.Message.{IrcMessage, param_count, push_param, max_params}
use twitch_bot.Irc.Parse.{split_scalar, last_token, set_trailing}
use twitch_bot.Irc.Parse.Scalar.{split_scalar-space, split_scalar-all}

-- The middle parameters and the trailing text, each behind a space.
abbrev pub print_params : List Bytes → Bytes → Bytes
print_params [] [] = []
print_params [] (t ∷ ts) = sp ∷ b':' ∷ t ∷ ts
print_params (p ∷ ps) trailing = sp ∷ (p ++ print_params ps trailing)

-- A block in front of the command, with its mark; an empty one is left out.
abbrev pub print_block : ℕ → Bytes → Bytes → Bytes
print_block mark [] rest = rest
print_block mark (x ∷ xs) rest = mark ∷ ((x ∷ xs) ++ sp ∷ rest)

unfoldable pub print_irc_line : IrcMessage → Bytes
print_irc_line msg =
    print_block b'@' msg.raw_tags
      (print_block b':' msg.prefix (msg.command ++ print_params msg.params msg.trailing))

-- A word: no space, not empty, and no mark in front.
abbrev pub IsWord : Bytes → Type 0
IsWord w = Lacks sp w × (is_empty w ≡ false) × (starts_with_byte b':' w ≡ false)

abbrev pub AllWords : List Bytes → Type 0
AllWords [] = Unit {0}
AllWords (p ∷ ps) = IsWord p × AllWords ps

pub record IsPrintable (msg : IrcMessage) : Type 0 where
  pub tags_lack : Lacks sp msg.raw_tags
  pub prefix_lacks : Lacks sp msg.prefix
  pub command_word : IsWord msg.command
  pub command_no_at : starts_with_byte b'@' msg.command ≡ false
  pub param_words : AllWords msg.params
  pub room : param_count msg < max_params

-- What the loop makes of the printed parameters.
abbrev pub read_params : IrcMessage → List Bytes → Bytes → IrcMessage
read_params msg ps [] = record msg { params = msg.params ++ ps }
read_params msg ps (t ∷ ts) = record msg { params = msg.params ++ ps; trailing = t ∷ ts }

read_params-push :
    (msg : IrcMessage) (p : Bytes) (ps : List Bytes) (t : Bytes)
    → read_params (push_param msg p) ps t ≡ read_params msg (p ∷ ps) t
read_params-push msg p ps [] = rw append_assoc
read_params-push msg p ps (t ∷ ts) = rw append_assoc

pub true-ne-false : true ≡ false → ⊥
true-ne-false h = ground arith

pub trailing-read :
    (msg : IrcMessage) (t : Bytes)
    → ltb (param_count msg) max_params ≡ true
    → split_scalar (b':' ∷ t) 0 (b':' ∷ t) msg ≡ set_trailing msg t
trailing-read msg t room = elim (Option-cases (find sp (b':' ∷ t))) [
  | inl e ↦ split_scalar-all (b':' ∷ t) msg e ∙ unfold last_token in rw room
  | inr (j, e) ↦ split_scalar-space (b':' ∷ t) 0 j (b':' ∷ t) msg room e
]

last_word :
    (p : Bytes) (msg : IrcMessage)
    → ltb (param_count msg) max_params ≡ true
    → IsWord p
    → split_scalar p 0 p msg ≡ push_param msg p
last_word p msg room (lacks, ne, plain) =
    split_scalar-all p msg (find-Lacks sp p lacks) ∙ unfold last_token in rw (ne, room, plain)

next_word :
    (p rest : Bytes) (msg : IrcMessage)
    → ltb (param_count msg) max_params ≡ true
    → IsWord p
    → split_scalar (p ++ sp ∷ rest) 0 (p ++ sp ∷ rest) msg
      ≡ split_scalar rest 0 rest (push_param msg p)
next_word [] rest msg room (_, ne, _) = absurd (true-ne-false ne)
next_word (x ∷ p) rest msg room (lacks, ne, plain) =
    let w : Bytes = x ∷ p in
    split_scalar-space (w ++ sp ∷ rest) 0 (length w) (w ++ sp ∷ rest) msg room
      (find-append sp w rest lacks)
    ∙ rw
        (plain, drop-suc-append_cons w sp rest, zero-add (length w), take-append_left w (sp ∷ rest))

-- There is room behind one more parameter.
room-push :
    (msg : IrcMessage) (p : Bytes)
    → length msg.params + 1 < max_params
    → ltb (param_count (push_param msg p)) max_params ≡ true
room-push msg p h = lt→ltb _ _ (omega (arith, length-append msg.params (p ∷ [])))

pub params-read :
    (p : Bytes) (ps : List Bytes) (t : Bytes) (msg : IrcMessage)
    → AllWords (p ∷ ps)
    → length msg.params + length ps + 1 < max_params
    → split_scalar (p ++ print_params ps t) 0 (p ++ print_params ps t) msg
      ≡ read_params msg (p ∷ ps) t
params-read p [] [] msg w room = rw append-nil (last_word p msg (lt→ltb _ _ (omega arith)) w.0)
params-read p [] (t ∷ ts) msg w room =
    next_word p (b':' ∷ t ∷ ts) msg (lt→ltb _ _ (omega arith)) w.0
    ∙ trailing-read (push_param msg p) (t ∷ ts) (room-push msg p (omega arith))
params-read p (p' ∷ ps) t msg w room =
    next_word p (p' ++ print_params ps t) msg (lt→ltb _ _ (omega arith)) w.0
    ∙ params-read p' ps t (push_param msg p) w.1 (omega (arith, length-append msg.params (p ∷ [])))
    ∙ read_params-push msg p (p' ∷ ps) t
