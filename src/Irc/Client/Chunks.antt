-- ===== src/Irc/Client/Chunks.antt =====
-- The chunks of the wrapping loop of `privmsg_wrap` and `reply_wrap`.
use twitch_bot.Prelude.{
  ℕ, zero, suc, ◌+◌, ◌-◌, ◌≤◌, ◌<◌, min, ◌≡◌, refl, ap, ◌∙◌, false, ◌&&◌, inl, inr, some, List, [],
  ◌∷◌, ◌++◌, map, arith, leb, ◌==◌, if◌then◌else◌, Bool-cases, Option-cases, length, length-take,
  length-drop, take, drop, get_or,
}
use twitch_bot.Prelude.Bytes.{Bytes}
use twitch_bot.Irc.Client.{
  max_chat_bytes, is_continuation, clip_back, utf8_clip_len, is_break, last_break,
  utf8_chunk_by_words, clean_byte, leading_breaks, wrap_from, has_crlf,
}

-- The bytes that are not breaks.
unfoldable pub words : Bytes → Bytes
words [] = []
words (x ∷ xs) = if is_break x then words xs else x ∷ words xs

unfoldable pub all_words : List Bytes → Bytes
all_words [] = []
all_words (c ∷ cs) = words c ++ all_words cs

-- Of any four bytes in a row one is not a continuation byte.
abbrev pub ShortRuns : Bytes → Type 0
ShortRuns s =
    (i : ℕ)
    → i + 4 ≤ length s
    → (is_continuation (get_or s i 0)
        && is_continuation (get_or s (i + 1) 0)
        && is_continuation (get_or s (i + 2) 0)
        && is_continuation (get_or s (i + 3) 0))
      ≡ false

-- At most 500 bytes, and not one of them CR or LF.
pub record IsPayload (c : Bytes) : Type 0 where
  pub short : length c ≤ max_chat_bytes
  pub one_line : has_crlf c ≡ false

abbrev pub ArePayloads : List Bytes → Type 0
ArePayloads [] = Unit {0}
ArePayloads (c ∷ cs) = IsPayload c × ArePayloads cs

clip_back_le : (s : Bytes) (n : ℕ) → clip_back s n ≤ n
unfolding clip_back
clip_back_le s zero = omega arith
clip_back_le s (suc n) = ground (arith, clip_back_le s n)

utf8_clip_len_le : (s : Bytes) (n : ℕ) → utf8_clip_len s n ≤ n
unfolding utf8_clip_len
utf8_clip_len_le s n = ground (arith, clip_back_le s n)

last_break_lt :
    (s : Bytes) (start n i : ℕ) → last_break s start n ≡ some i → start ≤ i × i < start + n
unfolding last_break
last_break_lt s start zero i h = ground arith
last_break_lt s start (suc n) i h = ground (arith, last_break_lt s start n i)

chunk_le : (s : Bytes) (start n : ℕ) → utf8_chunk_by_words s start n ≤ n
unfolding utf8_chunk_by_words
chunk_le s start n =
    let hard : ℕ = utf8_clip_len (drop start s) (min n (length s - start)) in
    let small : hard ≤ n =
      omega (arith, utf8_clip_len_le (drop start s) (min n (length s - start))) in
    elim (Option-cases (last_break s start hard)) [
      | inl whole ↦ ground (arith, small, whole)
      | inr (i, hit) ↦ ground (arith, small, hit, last_break_lt s start hard i hit)
    ]

get_or-drop : (s : Bytes) (n i : ℕ) → get_or (drop n s) i 0 ≡ get_or s (n + i) 0
get_or-drop s zero i = ap (λ k. get_or s k 0) {x = i} {y = 0 + i} (omega arith)
get_or-drop [] (suc n) i = refl
get_or-drop (x ∷ s) (suc n) i =
    get_or-drop s n i ∙ ap (λ k. get_or (x ∷ s) k 0) {x = suc (n + i)} {y = suc n + i} (omega arith)

ShortRuns-drop : (s : Bytes) (n : ℕ) → ShortRuns s → ShortRuns (drop n s)
ShortRuns-drop s n h i behind = ground (
  arith,
  h (n + i) (omega (arith, length-drop n s, behind)),
  get_or-drop s n i,
  get_or-drop s n (i + 1),
  get_or-drop s n (i + 2),
  get_or-drop s n (i + 3),
)

clip_back_pos :
    (s : Bytes) (n : ℕ) → n + 4 ≤ length s → ShortRuns s → 0 < clip_back s (suc (suc (suc (suc n))))
unfolding clip_back
clip_back_pos s n h runs = ground (arith, runs n h)

clip_pos :
    (s : Bytes) → 0 < length s → ShortRuns s → 0 < utf8_clip_len s (min max_chat_bytes (length s))
unfolding utf8_clip_len
clip_pos s h runs = elim (Bool-cases (leb (length s) max_chat_bytes)) [
  | inl fits_in ↦ ground arith
  | inr longer ↦ ground (arith, clip_back_pos s 496 (ground arith) runs)
]

-- The loop moves forward.
pub chunk_pos :
    (s : Bytes) (start : ℕ)
    → start < length s
    → ShortRuns s
    → 0 < utf8_chunk_by_words s start max_chat_bytes
unfolding utf8_chunk_by_words
chunk_pos s start h runs =
    let hard : ℕ = utf8_clip_len (drop start s) (min max_chat_bytes (length s - start)) in
    let some_bytes : 0 < hard = rw (← length-drop start s) (
      clip_pos (drop start s) (omega (arith, length-drop start s, h))
        (ShortRuns-drop s start runs)) in
    elim (Option-cases (last_break s start hard)) [
      | inl whole ↦ ground (arith, some_bytes, whole)
      | inr (i, hit) ↦ ground (arith, some_bytes, hit, last_break_lt s start hard i hit)
    ]

pub words-append : (xs ys : Bytes) → words (xs ++ ys) ≡ words xs ++ words ys
unfolding words
words-append [] ys = refl
words-append (x ∷ xs) ys = ground (arith, words-append xs ys)

pub words-clean : (xs : Bytes) → words (map clean_byte xs) ≡ words xs
unfolding words clean_byte is_break
words-clean [] = refl
words-clean (x ∷ xs) = ground (arith, words-clean xs)

pub words-leading_breaks : (xs : Bytes) → words (drop (leading_breaks xs) xs) ≡ words xs
unfolding words leading_breaks
words-leading_breaks [] = refl
words-leading_breaks (x ∷ xs) = ground (arith, words-leading_breaks xs)

length-clean : (xs : Bytes) → length (map clean_byte xs) ≡ length xs
length-clean [] = refl
length-clean (x ∷ xs) = ap suc (length-clean xs)

has_crlf-clean : (xs : Bytes) → has_crlf (map clean_byte xs) ≡ false
unfolding has_crlf clean_byte
has_crlf-clean [] = refl
has_crlf-clean (x ∷ xs) = ground (arith, has_crlf-clean xs)

-- A round of the loop.
pub wrap_from_round :
    (f : ℕ) (text : Bytes) (pos : ℕ)
    → pos < length text
    → 0 < utf8_chunk_by_words text pos max_chat_bytes
    → wrap_from (suc f) text pos
      ≡ map clean_byte (take (utf8_chunk_by_words text pos max_chat_bytes) (drop pos text))
        ∷ wrap_from f text (
            pos
            + utf8_chunk_by_words text pos max_chat_bytes
            + leading_breaks (drop (pos + utf8_chunk_by_words text pos max_chat_bytes) text))
unfolding wrap_from
wrap_from_round f text pos inside moves = ground arith

pub wrap_from-zero : (text : Bytes) (pos : ℕ) → wrap_from zero text pos ≡ []
unfolding wrap_from
wrap_from-zero text pos = refl

pub wrap_from_done :
    (f : ℕ) (text : Bytes) (pos : ℕ) → length text ≤ pos → wrap_from f text pos ≡ []
unfolding wrap_from
wrap_from_done zero text pos h = refl
wrap_from_done (suc f) text pos h = ground arith

wrap_from_stuck :
    (f : ℕ) (text : Bytes) (pos : ℕ)
    → utf8_chunk_by_words text pos max_chat_bytes ≡ 0
    → wrap_from f text pos ≡ []
unfolding wrap_from
wrap_from_stuck zero text pos h = refl
wrap_from_stuck (suc f) text pos h = ground arith

clean-IsPayload :
    (text : Bytes) (pos : ℕ)
    → IsPayload
        (map clean_byte (take (utf8_chunk_by_words text pos max_chat_bytes) (drop pos text)))
clean-IsPayload text pos =
    let n : ℕ = utf8_chunk_by_words text pos max_chat_bytes in
    record {
      short = omega (
        arith,
        length-clean (take n (drop pos text)),
        length-take n (drop pos text),
        chunk_le text pos max_chat_bytes,
      );
      one_line = has_crlf-clean (take n (drop pos text));
    }

pub wrap_from-ArePayloads : (f : ℕ) (text : Bytes) (pos : ℕ) → ArePayloads (wrap_from f text pos)
wrap_from-ArePayloads zero text pos = rw (wrap_from-zero text pos) tt
wrap_from-ArePayloads (suc f) text pos =
    let n : ℕ = utf8_chunk_by_words text pos max_chat_bytes in
    elim (Bool-cases (leb (length text) pos)) [
      | inl done ↦ rw (wrap_from_done (suc f) text pos (ground arith)) tt
      | inr inside ↦ elim (Bool-cases (n == 0)) [
        | inl stuck ↦ rw (wrap_from_stuck (suc f) text pos (ground arith)) tt
        | inr moves ↦ rw (wrap_from_round f text pos (ground arith) (ground arith)) (
          clean-IsPayload text pos,
          wrap_from-ArePayloads f text (pos + n + leading_breaks (drop (pos + n) text)),
        )
      ]
    ]
