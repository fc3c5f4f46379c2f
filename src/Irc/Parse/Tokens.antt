-- ===== src/Irc/Parse/Tokens.antt =====
-- One token popped by `parse_params_and_trailing_fast`, and what the byte loop does with it.
use twitch_bot.Prelude.{
  ℕ, zero, suc, ◌+◌, ◌-◌, ◌≤◌, ◌≡◌, ◌≢◌, ◌⊎◌, refl, sym, ap, ◌∙◌, true, false, not, ◌&&◌, none,
  some, inl, inr, [], ◌∷◌, arith, ltb, ◌==◌, if◌then◌else◌, Bool-cases, length, take, drop,
  drop-drop,
}
use mathlib.Core.Path.{ap₂}
use twitch_bot.Prelude.Bytes.{Bytes, sp, starts_with_byte}
use twitch_bot.Prelude.Search.{find, find-cons}
use twitch_bot.Irc.Message.{IrcMessage, param_count, push_param, max_params}
use twitch_bot.Irc.Scan.{pop_lowest}
use twitch_bot.Irc.Parse.{split_scalar, split_window, set_trailing, Window}
use twitch_bot.Irc.Parse.Scalar.{split_scalar-skip, split_scalar_full}

-- What is left after the window that ends at `e`.
abbrev Resume : Bytes → ℕ → Window → IrcMessage
Resume line e w =
    if w.returned then w.msg else split_scalar (drop w.start line) (e - w.start) (drop e line) w.msg

-- The token that ends at `token_end`, as the window's loop takes it.
abbrev pub token_at : Bytes → ℕ → ℕ → Bytes
token_at line start token_end =
    if start == token_end then [] else take (token_end - start) (drop start line)

-- One round of the loop that ends in a token, at position `te`.
pub Popped : ℕ → Bytes → ℕ → ℕ → ℕ → ℕ → IrcMessage → Window
Popped g line start scan te left msg =
    if not (start == te) && starts_with_byte b':' (drop start line)
    then record { start = start; msg = set_trailing msg (drop (start + 1) line); returned = true }
    else split_window g line (te + 1) scan left (push_param msg (token_at line start te))

pub split_window_pop :
    (g : ℕ) (line : Bytes) (start scan spaces off te left : ℕ) (msg : IrcMessage)
    → pop_lowest spaces ≡ (off, left)
    → scan + off ≡ te
    → spaces ≢ 0
    → ltb (param_count msg) max_params ≡ true
    → split_window (suc g) line start scan spaces msg ≡ Popped g line start scan te left msg
unfolding split_window Popped
split_window_pop g line start scan spaces off te left msg pop at ne room =
    rw (pop, room, at) (ground arith)

-- One round of the loop that leaves it.
pub split_window_stop :
    (g : ℕ) (line : Bytes) (start scan spaces : ℕ) (msg : IrcMessage)
    → (spaces ≡ 0) ⊎ (ltb (param_count msg) max_params ≡ false)
    → split_window (suc g) line start scan spaces msg
      ≡ record { start = start; msg = msg; returned = false }
unfolding split_window
split_window_stop g line start scan spaces msg h = ground arith

-- Leaving the window early changes nothing for the loop byte by byte.
pub stop-Resume :
    (line : Bytes) (start q m e : ℕ) (msg : IrcMessage)
    → q + m ≡ e
    → start ≤ q
    → m ≤ length (drop q line)
    → (find sp (take m (drop q line)) ≡ none) ⊎ (ltb (param_count msg) max_params ≡ false)
    → split_scalar (drop start line) (q - start) (drop q line) msg
      ≡ split_scalar (drop start line) (e - start) (drop e line) msg
stop-Resume line start q m e msg end le inside (inl none_in) =
    split_scalar-skip (drop start line) (q - start) m (drop q line) msg inside none_in
    ∙ ap₂ (λ n p. split_scalar (drop start line) n p msg) {x = q - start + m} {y = e - start}
        (omega arith) (drop-drop m q line ∙ ap (λ n. drop n line) end)
stop-Resume line start q m e msg end le inside (inr full) =
    split_scalar_full (drop start line) (q - start) (drop q line) msg full
    ∙ sym (split_scalar_full (drop start line) (e - start) (drop e line) msg full)

drop-find : (xs : Bytes) (j : ℕ) → find sp xs ≡ some j → starts_with_byte b':' (drop j xs) ≡ false
drop-find [] j e = refl_nil j
  where
    refl_nil : (j : ℕ) → starts_with_byte b':' (drop j []) ≡ false
    refl_nil zero = refl
    refl_nil (suc j) = refl
drop-find (x ∷ xs) j e = elim (find-cons sp x xs j e) [
  | inl (hit, z) ↦ rw (z, hit)
  | inr (q, _, e', z) ↦ rw z (drop-find xs q e')
]

-- The same token and the same test as in the loop byte by byte.
pub token_at-take :
    (line : Bytes) (start q j : ℕ)
    → start ≤ q
    → token_at line start (q + j) ≡ take (q - start + j) (drop start line)
token_at-take line start q j le =
    let same : q + j - start ≡ q - start + j = omega arith in
    elim (Bool-cases (start == q + j)) [
      | inl hit ↦ let z : q - start + j ≡ 0 = ground arith in rw (hit, z)
      | inr miss ↦ rw (miss, same)
    ]

pub colon_at :
    (line : Bytes) (start q j : ℕ)
    → start ≤ q
    → find sp (drop q line) ≡ some j
    → (not (start == q + j) && starts_with_byte b':' (drop start line))
      ≡ starts_with_byte b':' (drop start line)
colon_at line start q j le e = elim (Bool-cases (start == q + j)) [
  | inl hit ↦
      let at : start ≡ q + j = ground arith in
      let sep : starts_with_byte b':' (drop start line) ≡ false =
        rw (at, ← drop-drop j q line) (drop-find (drop q line) j e) in
      rw (hit, sep)
  | inr miss ↦ rw miss
]

-- The loop byte by byte at position q, against a window that was left at position e.
abbrev pub Agrees : Bytes → ℕ → ℕ → ℕ → IrcMessage → Window → Type 0
Agrees line start q e msg w =
    (split_scalar (drop start line) (q - start) (drop q line) msg ≡ Resume line e w) × (w.start ≤ e)

pub Popped_trailing :
    (g : ℕ) (line : Bytes) (start scan te left : ℕ) (msg : IrcMessage)
    → (not (start == te) && starts_with_byte b':' (drop start line)) ≡ true
    → Popped g line start scan te left msg
      ≡ record { start = start; msg = set_trailing msg (drop (start + 1) line); returned = true }
unfolding Popped
Popped_trailing g line start scan te left msg h = rw h

pub Popped_next :
    (g : ℕ) (line : Bytes) (start scan te left : ℕ) (msg : IrcMessage)
    → (not (start == te) && starts_with_byte b':' (drop start line)) ≡ false
    → Popped g line start scan te left msg
      ≡ split_window g line (te + 1) scan left (push_param msg (token_at line start te))
unfolding Popped
Popped_next g line start scan te left msg h = rw h
