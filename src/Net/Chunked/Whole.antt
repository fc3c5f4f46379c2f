-- ===== src/Net/Chunked/Whole.antt =====
-- A chunk that is in the buffer as a whole.
use twitch_bot.Prelude.{
  ℕ, suc, ◌+◌, ◌-◌, ◌*◌, ◌^◌, ◌≤◌, ◌<◌, min, ◌≡◌, ◌≢◌, refl, ap, ◌∙◌, Bool, true, false, ◌&&◌, inl,
  inr, Option, none, some, [], ◌∷◌, ◌++◌, arith, ◌==◌, if◌then◌else◌, Bool-cases, Option-cases,
  length, length-append, take, drop, take-append_left,
}
use twitch_bot.Prelude.Bytes.{Bytes, cr, lf, has_prefix}
use twitch_bot.Net.Chunked.{
  hex_val, or_flag, chunk_size, has_chunk_size, is_chunked, hex_run, skip_extensions,
  consume_hex_number, next_chunk_from, get_next_chunk, state_is_chunked, state_has_size,
  state_is_error, state_size_mask,
}

-- The value of each hexadecimal digit.
unfoldable pub hex_digit : ℕ → Option ℕ
hex_digit x =
    if x == b'0'
    then some 0
    else if x == b'1'
    then some 1
    else if x == b'2'
    then some 2
    else if x == b'3'
    then some 3
    else if x == b'4'
    then some 4
    else if x == b'5'
    then some 5
    else if x == b'6'
    then some 6
    else if x == b'7'
    then some 7
    else if x == b'8'
    then some 8
    else if x == b'9'
    then some 9
    else if x == b'a'
    then some 10
    else if x == b'A'
    then some 10
    else if x == b'b'
    then some 11
    else if x == b'B'
    then some 11
    else if x == b'c'
    then some 12
    else if x == b'C'
    then some 12
    else if x == b'd'
    then some 13
    else if x == b'D'
    then some 13
    else if x == b'e'
    then some 14
    else if x == b'E'
    then some 14
    else if x == b'f'
    then some 15
    else if x == b'F'
    then some 15
    else none

hex_val-hex_digit : (x : ℕ) → hex_val x ≡ hex_digit x
unfolding hex_val hex_digit
hex_val-hex_digit x = ground arith

-- The number that hexadecimal digits stand for, behind a number already read.
unfoldable pub digits_value : Bytes → ℕ → Option ℕ
digits_value [] acc = some acc
digits_value (x ∷ xs) acc = elim (hex_digit x) [
  | none ↦ none
  | some v ↦ digits_value xs (acc * 16 + v)
]

digits_value_le : (ds : Bytes) (acc n : ℕ) → digits_value ds acc ≡ some n → acc ≤ n
unfolding digits_value
digits_value_le [] acc n h = ground (arith, h)
digits_value_le (x ∷ xs) acc n h = elim (Option-cases (hex_val x)) [
  | inl bad ↦ ground (arith, h, bad, hex_val-hex_digit x)
  | inr (v, digit) ↦
      ground (arith, h, digit, hex_val-hex_digit x, digits_value_le xs (acc * 16 + v) n)
]

hex_val-cr : hex_val cr ≡ none
unfolding hex_val
hex_val-cr = refl

hex_run-digits :
    (ds t : Bytes) (acc n : ℕ)
    → digits_value ds acc ≡ some n
    → n ≤ state_size_mask
    → hex_run (ds ++ cr ∷ t) acc true
      ≡ record { rest = cr ∷ t; size_accum = n; saw_digit = true; too_large = false }
unfolding hex_run digits_value
hex_run-digits [] t acc n h small = ground (arith, h, hex_val-cr)
hex_run-digits (x ∷ xs) t acc n h small = elim (Option-cases (hex_val x)) [
  | inl bad ↦ ground (arith, h, bad, hex_val-hex_digit x)
  | inr (v, digit) ↦ ground (
    arith,
    h,
    digit,
    hex_val-hex_digit x,
    digits_value_le xs (acc * 16 + v) n,
    hex_run-digits xs t (acc * 16 + v) n,
  )
]

hex_run_first :
    (d : ℕ) (ds t : Bytes) (n : ℕ)
    → digits_value (d ∷ ds) 0 ≡ some n
    → n ≤ state_size_mask
    → hex_run ((d ∷ ds) ++ cr ∷ t) 0 false
      ≡ record { rest = cr ∷ t; size_accum = n; saw_digit = true; too_large = false }
unfolding hex_run digits_value
hex_run_first d ds t n h small = elim (Option-cases (hex_val d)) [
  | inl bad ↦ ground (arith, h, bad, hex_val-hex_digit d)
  | inr (v, digit) ↦ ground (
    arith,
    h,
    digit,
    hex_val-hex_digit d,
    digits_value_le ds (0 * 16 + v) n,
    hex_run-digits ds t (0 * 16 + v) n,
  )
]

skip-crlf : (body : Bytes) → skip_extensions (cr ∷ lf ∷ body) ≡ cr ∷ lf ∷ body
unfolding skip_extensions
skip-crlf body = refl

has_crlf-crlf : (body : Bytes) → has_prefix (cr ∷ lf ∷ []) (cr ∷ lf ∷ body) ≡ true
unfolding has_prefix
has_crlf-crlf body = refl

-- The state behind the header of a chunk of n bytes.
abbrev sized_state : ℕ → ℕ → ℕ
sized_state state n =
    let sized : ℕ = or_flag state_has_size (n + 2) in
    if is_chunked state then or_flag state_is_chunked sized else sized

consume-header :
    (d : ℕ) (ds body : Bytes) (n state : ℕ)
    → digits_value (d ∷ ds) 0 ≡ some n
    → n ≤ state_size_mask
    → consume_hex_number ((d ∷ ds) ++ cr ∷ lf ∷ body) state
      ≡ record { left = body; state = sized_state state n }
unfolding consume_hex_number
consume-header d ds body n state h small =
    ground (arith, hex_run_first d ds (lf ∷ body) n h small, skip-crlf body, has_crlf-crlf body)

-- The state word of a chunk of n bytes is read back.
sized-chunked :
    (n : ℕ) → n + 3 < 2 ^ 62 → (sized_state state_is_chunked n ≡ n + 2 + 2 ^ 63 + 2 ^ 62)
unfolding or_flag is_chunked
sized-chunked n small = ground arith

sized-fresh : (n : ℕ) → n + 3 < 2 ^ 62 → sized_state 0 n ≡ n + 2 + 2 ^ 63
unfolding or_flag is_chunked
sized-fresh n small = ground arith

-- What the state word of a chunk says.
abbrev Says : ℕ → ℕ → Bool → Type 0
Says state n chunked =
    (chunk_size state ≡ n + 2)
    × ((has_chunk_size state ≡ true) × ((is_chunked state ≡ chunked) × (state ≢ state_is_error)))

chunked-Says : (n : ℕ) → n + 3 < 2 ^ 62 → Says (n + 2 + 2 ^ 63 + 2 ^ 62) n true
unfolding chunk_size has_chunk_size is_chunked
chunked-Says n small = (ground arith, (ground arith, (ground arith, ground arith)))

fresh-Says : (n : ℕ) → n + 3 < 2 ^ 62 → Says (n + 2 + 2 ^ 63) n false
unfolding chunk_size has_chunk_size is_chunked
fresh-Says n small = (ground arith, (ground arith, (ground arith, ground arith)))

length-payload :
    (body rest : Bytes) → length (body ++ cr ∷ lf ∷ rest) ≡ length body + 2 + length rest
length-payload body rest = omega (arith, length-append body (cr ∷ lf ∷ rest))

drop-payload : (body rest : Bytes) → drop (length body + 2) (body ++ cr ∷ lf ∷ rest) ≡ rest
drop-payload body rest =
    ap (λ n. drop n (body ++ cr ∷ lf ∷ rest)) {x = length body + 2} {y = suc (suc (length body))}
      (omega arith)
    ∙ go body
  where
    go : (l : Bytes) → drop (suc (suc (length l))) (l ++ cr ∷ lf ∷ rest) ≡ rest
    go [] = refl
    go (x ∷ l) = go l

take-payload : (body rest : Bytes) → take (length body + 2 - 2) (body ++ cr ∷ lf ∷ rest) ≡ body
take-payload body rest =
    ap (λ n. take n (body ++ cr ∷ lf ∷ rest)) {x = length body + 2 - 2} {y = length body}
      (omega arith)
    ∙ take-append_left body (cr ∷ lf ∷ rest)

-- A payload that is in the buffer as a whole, with its size in the state: given where chunks follow,
-- skipped as a trailer where not.
next_chunk-chunked :
    (f state : ℕ) (body rest : Bytes) (trailer : Bool)
    → 0 < length body
    → Says state (length body) true
    → next_chunk_from (suc f) (body ++ cr ∷ lf ∷ rest) state trailer
      ≡ record { chunk = some body; left = rest; state = state_is_chunked }
unfolding next_chunk_from
next_chunk-chunked f state [] rest trailer some_bytes says = absurd (omega (arith, some_bytes))
next_chunk-chunked f state (x ∷ body) rest trailer some_bytes says = ground (
  arith,
  says.0,
  says.1.0,
  says.1.1.0,
  length-payload (x ∷ body) rest,
  take-payload (x ∷ body) rest,
  drop-payload (x ∷ body) rest,
)

next_chunk-fresh :
    (f state : ℕ) (body rest : Bytes) (trailer : Bool)
    → 0 < length body
    → Says state (length body) false
    → next_chunk_from (suc f) (body ++ cr ∷ lf ∷ rest) state trailer
      ≡ record { chunk = none; left = rest; state = 0 }
unfolding next_chunk_from
next_chunk-fresh f state [] rest trailer some_bytes says = absurd (omega (arith, some_bytes))
next_chunk-fresh f state (x ∷ body) rest trailer some_bytes says =
    let s : Bytes = (x ∷ body) ++ cr ∷ lf ∷ rest in
    let skipped : drop (min (length s) (chunk_size state)) s ≡ rest =
      ap (λ k. drop k s) {x = min (length s) (chunk_size state)} {y = length (x ∷ body) + 2}
        (omega (arith, says.0, length-payload (x ∷ body) rest))
      ∙ drop-payload (x ∷ body) rest in
    ground (arith, says.0, says.1.0, says.1.1.0, length-payload (x ∷ body) rest, skipped)

-- The first round, on a header.
header_round :
    (f x : ℕ) (xs more : Bytes) (state st : ℕ) (trailer : Bool)
    → consume_hex_number (x ∷ xs) state ≡ record { left = more; state = st }
    → has_chunk_size state ≡ false
    → st == state_is_error ≡ false
    → (has_chunk_size st && (chunk_size st == 2)) ≡ false
    → next_chunk_from (suc f) (x ∷ xs) state trailer ≡ next_chunk_from f more st trailer
unfolding next_chunk_from
header_round f x xs more state st trailer header fresh sound some_bytes =
    elim (Bool-cases (is_chunked state)) [
      | inl chunked ↦ rw (chunked, fresh, header, sound, some_bytes) refl
      | inr first ↦ rw (first, fresh, header, sound, some_bytes) refl
    ]

chunked_has_no_size : has_chunk_size state_is_chunked ≡ false
unfolding has_chunk_size
chunked_has_no_size = refl

zero_has_no_size : has_chunk_size 0 ≡ false
unfolding has_chunk_size
zero_has_no_size = refl

module _ (d : ℕ) (ds body rest : Bytes) (trailer : Bool)
    (sized : digits_value (d ∷ ds) 0 ≡ some (length body)) (some_bytes : 0 < length body)
    (small : length body + 3 < 2 ^ 62) where
  after_header :
      (state st : ℕ) (chunked : Bool)
      → sized_state state (length body) ≡ st
      → has_chunk_size state ≡ false
      → Says st (length body) chunked
      → get_next_chunk ((d ∷ ds) ++ cr ∷ lf ∷ (body ++ cr ∷ lf ∷ rest)) state trailer
        ≡ next_chunk_from
            (suc (length (ds ++ cr ∷ lf ∷ (body ++ cr ∷ lf ∷ rest))))
            (body ++ cr ∷ lf ∷ rest)
            st
            trailer
  unfolding get_next_chunk
  after_header state st chunked word fresh says =
      header_round (suc (length (ds ++ cr ∷ lf ∷ (body ++ cr ∷ lf ∷ rest)))) d
        (ds ++ cr ∷ lf ∷ (body ++ cr ∷ lf ∷ rest)) (body ++ cr ∷ lf ∷ rest) state st trailer
        (consume-header d ds (body ++ cr ∷ lf ∷ rest) (length body) state sized
            (omega (arith, small))
          ∙ ap (λ w. record { left = body ++ cr ∷ lf ∷ rest; state = w }) word)
        fresh (ground (arith, says.1.1.1)) (ground (arith, says.0, some_bytes))

  -- Where chunks follow, the payload is given.
  given :
      get_next_chunk ((d ∷ ds) ++ cr ∷ lf ∷ (body ++ cr ∷ lf ∷ rest)) state_is_chunked trailer
      ≡ record { chunk = some body; left = rest; state = state_is_chunked }
  given =
      let says = chunked-Says (length body) small in
      after_header state_is_chunked (length body + 2 + 2 ^ 63 + 2 ^ 62) true
        (sized-chunked (length body) (omega (arith, small))) chunked_has_no_size says
      ∙ next_chunk-chunked (length (ds ++ cr ∷ lf ∷ (body ++ cr ∷ lf ∷ rest)))
          (length body + 2 + 2 ^ 63 + 2 ^ 62) body rest trailer some_bytes says

  -- In the state 0 it is skipped.
  pub get_next_chunk-fresh :
      get_next_chunk ((d ∷ ds) ++ cr ∷ lf ∷ (body ++ cr ∷ lf ∷ rest)) 0 trailer
      ≡ record { chunk = none; left = rest; state = 0 }
  get_next_chunk-fresh =
      let says = fresh-Says (length body) small in
      after_header 0 (length body + 2 + 2 ^ 63) false
        (sized-fresh (length body) (omega (arith, small))) zero_has_no_size says
      ∙ next_chunk-fresh (length (ds ++ cr ∷ lf ∷ (body ++ cr ∷ lf ∷ rest)))
          (length body + 2 + 2 ^ 63) body rest trailer some_bytes says

  -- A chunk that is in the buffer as a whole, one or more hexadecimal digits, CRLF, as many bytes as they
  -- say, at least one and fewer than 2^62 - 3, and CRLF: from the state 0, in which the program starts,
  -- the decoder skips it, gives nothing and is in the state 0 again; from STATE_IS_CHUNKED, which the
  -- program does not start in, it gives the payload and is in that state again. In both it stands
  -- behind the CRLF.
  pub get_next_chunk-chunked :
      (get_next_chunk ((d ∷ ds) ++ cr ∷ lf ∷ (body ++ cr ∷ lf ∷ rest)) 0 trailer
        ≡ record { chunk = none; left = rest; state = 0 })
      × (get_next_chunk ((d ∷ ds) ++ cr ∷ lf ∷ (body ++ cr ∷ lf ∷ rest)) state_is_chunked trailer
          ≡ record { chunk = some body; left = rest; state = state_is_chunked })
  get_next_chunk-chunked = (get_next_chunk-fresh, given)
