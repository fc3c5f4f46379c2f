-- ===== src/Irc/Parse/Params.antt =====
-- The two ways of splitting the parameters agree.
use twitch_bot.Prelude.{
  ℕ, zero, suc, ◌+◌, ◌-◌, ◌≤◌, ◌<◌, ◌≡◌, ◌≢◌, ◌⊎◌, refl, sym, ap, ◌∙◌, true, false, none, some, inl,
  inr, arith, ltb, if◌then◌else◌, Bool-cases, Option-cases, length, take, drop, length-take,
  length-drop, drop_all, ltb→lt, drop-drop, drop-take,
}
use twitch_bot.Prelude.Bytes.{Bytes, sp, starts_with_byte}
use twitch_bot.Prelude.Search.{find, find-nil, find_or_end-take-some}
use twitch_bot.Irc.Message.{IrcMessage, param_count, push_param, max_params}
use twitch_bot.Irc.Scan.{mask, window, scan64, pop_lowest}
use twitch_bot.Irc.Scan.Bits.{shift, shift-zero, mask_Lacks, live_mask-mask}
use twitch_bot.Irc.Scan.Windows.{find-lt, pop_lowest-mask}
use twitch_bot.Irc.Parse.{
  split_scalar, split_window, split_windows, last_token, parse_params_and_trailing_fast,
}
use twitch_bot.Irc.Parse.Scalar.{split_scalar-space}
use twitch_bot.Irc.Parse.Tokens.{
  token_at, Popped, split_window_pop, split_window_stop, stop-Resume, token_at-take, colon_at,
  Agrees, Popped_trailing, Popped_next,
}

-- The round that ends a token, given the rest of the window.
token-Agrees :
    (g : ℕ) (line : Bytes) (start scan q j e left : ℕ) (msg : IrcMessage)
    → start ≤ q
    → q ≤ e
    → find sp (drop q line) ≡ some j
    → ltb (param_count msg) max_params ≡ true
    → Agrees line
        (q + j + 1)
        (q + j + 1)
        e
        (push_param msg (token_at line start (q + j)))
        (split_window g line (q + j + 1) scan left (push_param msg (token_at line start (q + j))))
    → Agrees line start q e msg (Popped g line start scan (q + j) left msg)
token-Agrees g line start scan q j e left msg le below found room (ih, ih_le) =
    let none_read : q + j + 1 - (q + j + 1) ≡ 0 = omega arith in
    let behind : q + suc j ≡ q + j + 1 = omega arith in
    let suffix : drop (suc j) (drop q line) ≡ drop (q + j + 1) line =
      drop-drop (suc j) q line ∙ ap (λ n. drop n line) behind in
    let first : drop 1 (drop start line) ≡ drop (start + 1) line = drop-drop 1 start line in
    let slow = split_scalar-space (drop start line) (q - start) j (drop q line) msg room found in
    let token = token_at-take line start q j le in
    let colon = colon_at line start q j le found in
    elim (Bool-cases (starts_with_byte b':' (drop start line))) [
      | inl trail ↦
          let popped = Popped_trailing g line start scan (q + j) left msg (colon ∙ trail) in
          (slow ∙ rw (popped, trail, first), rw popped (omega arith))
      | inr plain ↦
          let popped = Popped_next g line start scan (q + j) left msg (colon ∙ plain) in
          let same : push_param msg (token_at line start (q + j))
              ≡ push_param msg (take (q - start + j) (drop start line)) =
            ap (push_param msg) token in
          (slow ∙ rw (popped, plain, suffix, ← none_read, ← same) ih, rw popped ih_le)
    ]

split_window_zero :
    (line : Bytes) (start scan spaces : ℕ) (msg : IrcMessage)
    → split_window 0 line start scan spaces msg
      ≡ record { start = start; msg = msg; returned = false }
unfolding split_window
split_window_zero line start scan spaces msg = refl

-- The bits that are left after a pop are those of the bytes behind the space.
behind-mask :
    (line : Bytes) (q j m k : ℕ)
    → shift k (mask sp (drop (suc j) (take m (drop q line))))
      ≡ shift k (mask sp (take (m - suc j) (drop (q + j + 1) line)))
behind-mask line q j m k =
    let suffix : drop (suc j) (drop q line) ≡ drop (q + j + 1) line =
      drop-drop (suc j) q line
      ∙ ap (λ n. drop n line) {x = q + suc j} {y = q + j + 1} (omega arith) in
    ap (λ t. shift k (mask sp t)) (drop-take (suc j) m (drop q line) ∙ ap (take (m - suc j)) suffix)

-- One window, from position q = scan + k with m of its bytes left, up to its end e.
split_window-Agrees :
    (g : ℕ) (line : Bytes) (start scan k m q e spaces : ℕ) (msg : IrcMessage)
    → scan + k ≡ q
    → q + m ≡ e
    → spaces ≡ shift k (mask sp (take m (drop q line)))
    → start ≤ q
    → m ≤ length (drop q line)
    → k + m ≤ 64
    → m ≤ g
    → Agrees line start q e msg (split_window g line start scan spaces msg)
split_window-Agrees zero line start scan k m q e spaces msg at end bits le inside word fuel =
    let none_left : m ≡ 0 = omega arith in
    let empty : find sp (take m (drop q line)) ≡ none = rw none_left (find-nil sp) in
    rw (split_window_zero line start scan spaces msg)
      (stop-Resume line start q m e msg end le inside (inl empty), omega arith)
split_window-Agrees (suc g) line start scan k m q e spaces msg at end bits le inside word fuel =
    elim (Option-cases (find sp (take m (drop q line)))) [
      | inl missing ↦
          let clear : spaces ≡ 0 = bits ∙ ap (shift k) (mask_Lacks sp _ missing) ∙ shift-zero k in
          stopped (inl clear) (inl missing)
      | inr (j, found) ↦ elim (Bool-cases (ltb (param_count msg) max_params)) [
        | inl room ↦
            let t : Bytes = take m (drop q line) in
            let inner : j < m = omega (arith, find-lt sp t j found, length-take m (drop q line)) in
            let left : ℕ = shift (suc (k + j)) (mask sp (drop (suc j) t)) in
            let popped = pop_lowest-mask sp k j t (omega arith) found in
            let pop : pop_lowest spaces ≡ (k + j, left) = rw bits popped.0 in
            let ne : spaces ≢ 0 = rw bits popped.1 in
            let msg' = push_param msg (token_at line start (q + j)) in
            let later =
              split_window-Agrees g line (q + j + 1) scan (suc (k + j)) (m - suc j) (q + j + 1) e
                left msg' (omega arith) (omega arith) (behind-mask line q j m (suc (k + j)))
                (omega arith) (omega (arith, length-drop q line, length-drop (q + j + 1) line))
                (omega arith) (omega arith) in
            rw
              (split_window_pop g line start scan spaces (k + j) (q + j) left msg pop (omega arith)
                ne room)
              (token-Agrees g line start scan q j e left msg le (omega arith)
                (find_or_end-take-some sp m (drop q line) j found) room later)
        | inr full ↦ stopped (inr full) (inr full)
      ]
    ]
  where
    stopped :
        (spaces ≡ 0) ⊎ (ltb (param_count msg) max_params ≡ false)
        → (find sp (take m (drop q line)) ≡ none) ⊎ (ltb (param_count msg) max_params ≡ false)
        → Agrees line start q e msg (split_window (suc g) line start scan spaces msg)
    stopped why none_before =
        rw (split_window_stop g line start scan spaces msg why)
          (stop-Resume line start q m e msg end le inside none_before, omega arith)

spaces-mask : (s : Bytes) → (scan64 s (window s)).spaces ≡ shift 0 (mask sp (take (window s) s))
unfolding scan64 shift
spaces-mask s = live_mask-mask sp s (window s) (omega arith)

-- Behind the end, the token that the line's end closes.
split_scalar-end :
    (line : Bytes) (start scan n : ℕ) (msg : IrcMessage)
    → length line ≤ scan
    → split_scalar (drop start line) n (drop scan line) msg ≡ last_token (drop start line) msg
unfolding split_scalar
split_scalar-end line start scan n msg h = rw (drop_all scan line h)

-- All windows from `scan` on.
split_windows-split_scalar :
    (f : ℕ) (line : Bytes) (start scan : ℕ) (msg : IrcMessage)
    → start ≤ scan
    → length line - scan ≤ f
    → split_windows f line start scan msg
      ≡ split_scalar (drop start line) (scan - start) (drop scan line) msg
unfolding split_windows
split_windows-split_scalar zero line start scan msg le fuel =
    sym (split_scalar-end line start scan (scan - start) msg (omega arith))
split_windows-split_scalar (suc f) line start scan msg le fuel =
    elim (Bool-cases (ltb scan (length line))) [
      | inr over ↦
          rw over (sym (split_scalar-end line start scan (scan - start) msg (ground arith)))
      | inl more ↦
          let rest : Bytes = drop scan line in
          let c = window rest in
          let below : scan < length line = ltb→lt scan (length line) more in
          let size = length-drop scan line in
          let spaces = (scan64 rest c).spaces in
          let w = split_window 64 line start scan spaces msg in
          let (agrees, w_le) =
            split_window-Agrees 64 line start scan 0 c scan (scan + c) spaces msg (omega arith) refl
              (spaces-mask rest) le (omega arith) (omega arith) (omega arith) in
          elim (Bool-cases w.returned) [
            | inl done ↦ rw (more, done) (sym (rw (done, if◌then◌else◌) at agrees))
            | inr open_end ↦
                rw (more, open_end)
                  (split_windows-split_scalar f line w.start (scan + c) w.msg w_le (omega arith)
                    ∙ sym (rw (open_end, if◌then◌else◌) at agrees))
          ]
    ]

-- On every line and message the parameters and the trailing text split off by windows of 64 bytes are
-- those of the loop byte by byte.
pub parse_params-split_scalar :
    (line : Bytes) (msg : IrcMessage)
    → parse_params_and_trailing_fast line msg ≡ split_scalar line 0 line msg
unfolding parse_params_and_trailing_fast
parse_params-split_scalar line msg =
    ground (arith, split_windows-split_scalar (length line) line 0 0 msg)
