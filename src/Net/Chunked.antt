-- ===== src/Net/Chunked.antt =====
-- lib/net/include/tb/net/http/chunked_encoding.hpp. `ptr` and `len` are the bytes that are left, and
-- the state is its 64-bit word: bit 63 says that a size is there, bit 62 that chunks follow, and the
-- bits below are the size.
pub mod Whole
pub mod Progress
mod Tests
use twitch_bot.Prelude.{
  ℕ, zero, suc, ◌+◌, ◌-◌, ◌*◌, ◌/◌, ◌%◌, ◌^◌, min, Bool, true, false, not, ◌&&◌, ◌||◌, Option, none,
  some, List, [], ◌∷◌, ltb, leb, ◌==◌, if◌then◌else◌, length, take, drop,
}
use twitch_bot.Prelude.Bytes.{Bytes, cr, lf, has_prefix, is_empty}

abbrev pub state_has_size : ℕ
state_has_size = 2 ^ 63

abbrev pub state_is_chunked : ℕ
state_is_chunked = 2 ^ 62

abbrev pub state_is_error : ℕ
state_is_error = 2 ^ 64 - 1

abbrev pub state_size_mask : ℕ
state_size_mask = 2 ^ 62 - 1

-- `HEX_VAL`, with `none` for 0xFF.
unfoldable pub hex_val : ℕ → Option ℕ
hex_val c =
    if leb b'0' c && leb c b'9'
    then some (c - b'0')
    else if leb b'A' c && leb c b'F'
    then some (10 + (c - b'A'))
    else if leb b'a' c && leb c b'f'
    then some (10 + (c - b'a'))
    else none

-- `state | flag`, for a flag of one bit.
unfoldable pub or_flag : ℕ → ℕ → ℕ
or_flag flag state = if (state / flag) % 2 == 1 then state else state + flag

unfoldable pub chunk_size : ℕ → ℕ
chunk_size state = state % 2 ^ 62

-- The subtraction is never below 0 where it is called.
unfoldable pub dec_chunk_size : ℕ → ℕ → ℕ
dec_chunk_size state by = (state - chunk_size state) + (chunk_size state - by)

unfoldable pub has_chunk_size : ℕ → Bool
has_chunk_size state = (state / 2 ^ 63) % 2 == 1

unfoldable pub is_chunked : ℕ → Bool
is_chunked state = (state / 2 ^ 62) % 2 == 1

-- What the loop over the digits leaves.
pub record HexRun : Type 0 where
  pub rest : Bytes
  pub size_accum : ℕ
  pub saw_digit : Bool
  pub too_large : Bool

-- `(size_accum << 4) | v` is a sum, as v is below 16.
unfoldable pub hex_run : Bytes → ℕ → Bool → HexRun
hex_run [] size_accum saw_digit = record {
  rest = [];
  size_accum = size_accum;
  saw_digit = saw_digit;
  too_large = false;
}
hex_run (x ∷ xs) size_accum saw_digit = elim (hex_val x) [
  | none ↦ record {
    rest = x ∷ xs;
    size_accum = size_accum;
    saw_digit = saw_digit;
    too_large = false;
  }
  | some v ↦
      let more = hex_run xs (size_accum * 16 + v) true in
      if ltb (state_size_mask / 16) size_accum || ltb state_size_mask (size_accum * 16 + v)
      then record {
        rest = x ∷ xs;
        size_accum = size_accum;
        saw_digit = saw_digit;
        too_large = true;
      }
      else more
]

-- `while (len > 0 && *ptr != '\r')`
unfoldable pub skip_extensions : Bytes → Bytes
skip_extensions [] = []
skip_extensions (x ∷ xs) = if x == cr then x ∷ xs else skip_extensions xs

pub record Header : Type 0 where
  pub left : Bytes
  pub state : ℕ

unfoldable pub consume_hex_number : Bytes → ℕ → Header
consume_hex_number s state =
    let r : HexRun = hex_run s 0 false in
    let t : Bytes = skip_extensions r.rest in
    if r.too_large || not r.saw_digit
    then record { left = r.rest; state = state_is_error }
    else if has_prefix (cr ∷ lf ∷ []) t
    then record {
      left = drop 2 t;
      state =
          (let sized : ℕ = or_flag state_has_size (r.size_accum + 2) in
            if is_chunked state then or_flag state_is_chunked sized else sized);
    }
    else record { left = t; state = state }

pub record Next : Type 0 where
  pub chunk : Option Bytes
  pub left : Bytes
  pub state : ℕ

-- `get_next_chunk`. Each round but the last takes a byte at least.
unfoldable pub next_chunk_from : ℕ → Bytes → ℕ → Bool → Next
next_chunk_from zero s state trailer = record { chunk = none; left = s; state = state }
next_chunk_from (suc f) [] state trailer = record { chunk = none; left = []; state = state }
next_chunk_from (suc f) (x ∷ xs) state trailer =
    let s : Bytes = x ∷ xs in
    let sz : ℕ = chunk_size state in
    let len : ℕ = length s in
    let h : Header = consume_hex_number s state in
    let after_header = next_chunk_from f h.left h.state trailer in
    let after_chunk = next_chunk_from f (drop sz s) state_is_chunked trailer in
    let n : ℕ = min len (sz - 2) in
    if not (is_chunked state) && has_chunk_size state && ltb 0 sz
    then record {
      chunk = none;
      left = drop (min len sz) s;
      state = if leb sz len then 0 else dec_chunk_size state len;
    }
    else if not (has_chunk_size state)
    then (if h.state == state_is_error
        then record { chunk = none; left = h.left; state = h.state }
        else if has_chunk_size h.state && (chunk_size h.state == 2)
        then record {
          chunk = none;
          left = h.left;
          state = or_flag state_has_size (if trailer then 4 else 2);
        }
        else after_header)
    else if leb sz len
    then (if ltb 2 sz
        then record { chunk = some (take (sz - 2) s); left = drop sz s; state = state_is_chunked }
        else after_chunk)
    else if ltb 0 n
    then record {
      chunk = some (take n s);
      left = drop n s;
      state = or_flag state_is_chunked (dec_chunk_size state n);
    }
    else record { chunk = none; left = s; state = state }

unfoldable pub get_next_chunk : Bytes → ℕ → Bool → Next
get_next_chunk s state trailer = next_chunk_from (suc (length s)) s state trailer
