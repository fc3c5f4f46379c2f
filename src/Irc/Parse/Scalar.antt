-- ===== src/Irc/Parse/Scalar.antt =====
-- The loop byte by byte, a token at a time.
use twitch_bot.Prelude.{
  ℕ, zero, suc, ◌+◌, ◌≤◌, ◌≡◌, ap, ◌∙◌, true, false, none, some, inl, inr, [], ◌∷◌, arith, ltb,
  if◌then◌else◌, length, take, drop, take_all, drop_all,
}
use twitch_bot.Prelude.Bytes.{Bytes, sp, starts_with_byte}
use twitch_bot.Prelude.Search.{find, find-cons}
use twitch_bot.Irc.Message.{IrcMessage, param_count, push_param, max_params}
use twitch_bot.Irc.Parse.{split_scalar, last_token, set_trailing}

-- Bytes with no space only make the token longer.
pub split_scalar-skip :
    (tok : Bytes) (n m : ℕ) (p : Bytes) (msg : IrcMessage)
    → m ≤ length p
    → find sp (take m p) ≡ none
    → split_scalar tok n p msg ≡ split_scalar tok (n + m) (drop m p) msg
unfolding split_scalar find
split_scalar-skip tok n zero p msg h e =
    ap (λ k. split_scalar tok k p msg) {x = n} {y = n + 0} (omega arith)
split_scalar-skip tok n (suc m) [] msg h e = absurd (omega arith)
split_scalar-skip tok n (suc m) (x ∷ p) msg h e =
    let one : n + 1 + m ≡ n + suc m = omega arith in
    ground (arith, one, split_scalar-skip tok (n + 1) m p msg)

-- Once the array is full nothing changes any more.
pub split_scalar_full :
    (tok : Bytes) (n : ℕ) (p : Bytes) (msg : IrcMessage)
    → ltb (param_count msg) max_params ≡ false
    → split_scalar tok n p msg ≡ msg
unfolding split_scalar last_token
split_scalar_full tok n [] msg h = ground (arith, h)
split_scalar_full tok n (x ∷ p) msg h = ground (arith, h, split_scalar_full tok (n + 1) p msg h)

-- A space ends the token: it is the trailing text or a parameter.
pub split_scalar-space :
    (tok : Bytes) (n j : ℕ) (p : Bytes) (msg : IrcMessage)
    → ltb (param_count msg) max_params ≡ true
    → find sp p ≡ some j
    → split_scalar tok n p msg ≡ (
        if starts_with_byte b':' tok
        then set_trailing msg (drop 1 tok)
        else split_scalar (drop (suc j) p) 0 (drop (suc j) p) (push_param msg (take (n + j) tok)))
unfolding split_scalar find
split_scalar-space tok n j [] msg room h = absurd (cc)
split_scalar-space tok n j (x ∷ p) msg room h = elim (find-cons sp x p j h) [
  | inl (hit, z) ↦ let same : n + 0 ≡ n = omega arith in rw z (ground (arith, room, hit, same))
  | inr (q, miss, e, z) ↦
      let one : n + 1 + q ≡ n + suc q = omega arith in
      rw z (ground (arith, room, miss, one, split_scalar-space tok (n + 1) q p msg room e))
]

-- A line with no space is one token.
pub split_scalar-all :
    (tok : Bytes) (msg : IrcMessage)
    → find sp tok ≡ none
    → split_scalar tok 0 tok msg ≡ last_token tok msg
unfolding split_scalar
split_scalar-all tok msg e =
    let whole : find sp (take (length tok) tok) ≡ none =
      rw (take_all (length tok) tok (omega arith)) e in
    split_scalar-skip tok 0 (length tok) tok msg (omega arith) whole
    ∙ rw (drop_all (length tok) tok (omega arith))
