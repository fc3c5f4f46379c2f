-- ===== src/Net/Chunked/Progress.antt =====
-- Each payload that the decoder gives takes a byte at least.
use twitch_bot.Prelude.{
  ℕ, zero, suc, ◌+◌, ◌-◌, ◌*◌, ◌≤◌, ◌<◌, min, ◌≡◌, Bool, true, false, inl, inr, some, [], ◌∷◌,
  arith, Option-cases, length, drop, length-drop,
}
use twitch_bot.Prelude.Bytes.{Bytes}
use twitch_bot.Net.Chunked.{
  hex_val, hex_run, skip_extensions, consume_hex_number, chunk_size, next_chunk_from,
  get_next_chunk, state_is_chunked,
}

length-skip_extensions : (s : Bytes) → length (skip_extensions s) ≤ length s
unfolding skip_extensions
length-skip_extensions [] = omega arith
length-skip_extensions (x ∷ xs) = ground (arith, length-skip_extensions xs)

length-hex_run : (s : Bytes) (acc : ℕ) (saw : Bool) → length (hex_run s acc saw).rest ≤ length s
unfolding hex_run
length-hex_run [] acc saw = omega arith
length-hex_run (x ∷ xs) acc saw = elim (Option-cases (hex_val x)) [
  | inl other ↦ rw (hex_run, other) (omega arith)
  | inr (v, digit) ↦ ground (arith, digit, length-hex_run xs (acc * 16 + v) true)
]

length-consume_hex_number :
    (s : Bytes) (state : ℕ) → length (consume_hex_number s state).left ≤ length s
unfolding consume_hex_number
length-consume_hex_number s state =
    let r = hex_run s 0 false in
    ground (
      arith,
      length-hex_run s 0 false,
      length-skip_extensions r.rest,
      length-drop 2 (skip_extensions r.rest),
    )

next_chunk-shorter :
    (f : ℕ) (s : Bytes) (state : ℕ) (sv : Bytes)
    → (next_chunk_from f s state false).chunk ≡ some sv
    → length (next_chunk_from f s state false).left < length s
unfolding next_chunk_from
next_chunk-shorter zero s state sv h = ground (arith, h)
next_chunk-shorter (suc f) [] state sv h = ground (arith, h)
next_chunk-shorter (suc f) (x ∷ xs) state sv h =
    let header = consume_hex_number (x ∷ xs) state in
    let sz = chunk_size state in
    let given = min (length (x ∷ xs)) (sz - 2) in
    ground (
      arith,
      h,
      length-consume_hex_number (x ∷ xs) state,
      length-drop sz (x ∷ xs),
      length-drop given (x ∷ xs),
      next_chunk-shorter f header.left header.state sv,
      next_chunk-shorter f (drop sz (x ∷ xs)) state_is_chunked sv,
    )

pub get_next_chunk-shorter :
    (s : Bytes) (state : ℕ) (sv : Bytes)
    → (get_next_chunk s state false).chunk ≡ some sv
    → length (get_next_chunk s state false).left < length s
unfolding get_next_chunk
get_next_chunk-shorter s state sv h = next_chunk-shorter (suc (length s)) s state sv h
