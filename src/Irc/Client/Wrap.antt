-- ===== src/Irc/Client/Wrap.antt =====
-- `privmsg_wrap` and `reply_wrap`: what the chunks of a long text are.
use twitch_bot.Prelude.{
  ℕ, zero, suc, ◌+◌, ◌-◌, ◌≤◌, ◌<◌, ◌≡◌, refl, sym, ap, ◌∙◌, true, inl, inr, List, [], ◌∷◌, ◌++◌,
  map, append-nil, arith, leb, if◌then◌else◌, Bool-cases, length, take, drop, drop_all,
  take-append-drop, drop-drop,
}
use twitch_bot.Prelude.Bytes.{Bytes}
use twitch_bot.Irc.Client.{
  max_chat_bytes, utf8_chunk_by_words, leading_breaks, wrap_from, fits, privmsg, privmsg_wrap,
  reply_frame, reply, reply_wrap,
}
use twitch_bot.Irc.Client.Chunks.{
  words, all_words, ShortRuns, ArePayloads, chunk_pos, words-append, words-clean,
  words-leading_breaks, wrap_from_round, wrap_from-zero, wrap_from_done, wrap_from-ArePayloads,
}

-- What the rounds skip is breaks.
words_round :
    (text : Bytes) (pos n : ℕ)
    → words (take n (drop pos text))
        ++ words (drop (pos + n + leading_breaks (drop (pos + n) text)) text)
      ≡ words (drop pos text)
words_round text pos n =
    ap (λ t. words (take n (drop pos text)) ++ words t)
      (sym (drop-drop (leading_breaks (drop (pos + n) text)) (pos + n) text))
    ∙ ap (words (take n (drop pos text)) ++◌) (words-leading_breaks (drop (pos + n) text))
    ∙ ap (λ t. words (take n (drop pos text)) ++ words t) (sym (drop-drop n pos text))
    ∙ sym (words-append (take n (drop pos text)) (drop n (drop pos text)))
    ∙ ap words (take-append-drop n (drop pos text))

wrap_from-words :
    (f : ℕ) (text : Bytes) (pos : ℕ)
    → ShortRuns text
    → length text - pos ≤ f
    → all_words (wrap_from f text pos) ≡ words (drop pos text)
unfolding all_words words
wrap_from-words zero text pos runs enough =
    ground (arith, wrap_from-zero text pos, drop_all pos text (omega (arith, enough)))
wrap_from-words (suc f) text pos runs enough = elim (Bool-cases (leb (length text) pos)) [
  | inl done ↦
      ground
        (arith, wrap_from_done (suc f) text pos (ground arith), drop_all pos text (ground arith))
  | inr inside ↦
      let n : ℕ = utf8_chunk_by_words text pos max_chat_bytes in
      let moves : 0 < n = chunk_pos text pos (ground arith) runs in
      let after : ℕ = pos + n + leading_breaks (drop (pos + n) text) in
      ap all_words (wrap_from_round f text pos (ground arith) moves)
      ∙ ap (λ w. w ++ all_words (wrap_from f text after)) (words-clean (take n (drop pos text)))
      ∙ ap (λ w. words (take n (drop pos text)) ++ w)
          (wrap_from-words f text after runs (ground (arith, moves, enough)))
      ∙ words_round text pos n
]

-- What `privmsg_wrap` sends: messages to the channel, each payload of at most 500 bytes on one
-- line, that have all the bytes of the text but spaces and line breaks, in order.
pub record Wrapping (frame : Bytes → Bytes) (text : Bytes) (sent : List Bytes) : Type 0 where
  pub payloads : List Bytes
  pub frames : sent ≡ map frame payloads
  pub are_payloads : ArePayloads payloads
  pub content : all_words payloads ≡ words text

wrap-Wrapping :
    (frame : Bytes → Bytes) (text : Bytes)
    → ShortRuns text
    → Wrapping frame text (map frame (wrap_from (length text) text 0))
wrap-Wrapping frame text runs = record {
  payloads = wrap_from (length text) text 0;
  frames = refl;
  are_payloads = wrap_from-ArePayloads (length text) text 0;
  content = wrap_from-words (length text) text 0 runs (omega arith);
}

fits-Wrapping :
    (frame : Bytes → Bytes) (text : Bytes)
    → fits text ≡ true
    → Wrapping frame text (frame text ∷ [])
unfolding fits all_words
fits-Wrapping frame text h = record {
  payloads = text ∷ [];
  frames = refl;
  are_payloads = (record { short = ground arith; one_line = ground arith }, tt);
  content = append-nil (words text);
}

pub privmsg_wrap-Wrapping :
    (channel text : Bytes)
    → ShortRuns text
    → Wrapping (privmsg channel) text (privmsg_wrap channel text)
unfolding privmsg_wrap
privmsg_wrap-Wrapping channel text runs = elim (Bool-cases (fits text)) [
  | inl whole ↦ rw (whole, if◌then◌else◌) (fits-Wrapping (privmsg channel) text whole)
  | inr long ↦ rw (long, if◌then◌else◌) (wrap-Wrapping (privmsg channel) text runs)
]

-- If of any four bytes of the text in a row one starts a code point, `reply_wrap` sends messages of
-- `reply` to the one parent whose payloads have at most 500 bytes, no CR and no LF, and have together
-- all the bytes of the text but spaces and line breaks, in order.
pub reply_wrap-Wrapping :
    (channel parent text : Bytes)
    → ShortRuns text
    → Wrapping (reply channel parent) text (reply_wrap channel parent text)
unfolding reply_wrap reply
reply_wrap-Wrapping channel [] text runs = privmsg_wrap-Wrapping channel text runs
reply_wrap-Wrapping channel (x ∷ xs) text runs = elim (Bool-cases (fits text)) [
  | inl whole ↦ rw (whole, if◌then◌else◌) (fits-Wrapping (reply_frame channel (x ∷ xs)) text whole)
  | inr long ↦ rw (long, if◌then◌else◌) (wrap-Wrapping (reply_frame channel (x ∷ xs)) text runs)
]
