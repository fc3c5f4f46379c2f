-- ===== src/Net/Decoders.antt =====
-- gzip_decode of lib/net/src/tb/net/http/gzip_decoder.cpp and br_decode of
-- lib/net/src/tb/net/http/br_decoder.cpp: the loops that drive zlib and brotli, which are parameters.
-- Both loops run on fuel, and none is a loop that has not ended.
mod Tests
use twitch_bot.Prelude.{
  ℕ, zero, suc, ◌%◌, ◌^◌, length, take, Bool, true, false, Option, none, some, List, [], ◌∷◌, ◌++◌,
}
use twitch_bot.Prelude.Bytes.{Bytes}

-- What `inflate` answers: `Z_OK`, `Z_STREAM_END`, or any other code.
pub data Inflated : Type 0 where
  z_ok z_stream_end z_failed : Inflated

-- What a call leaves: its answer, the output, the input that is left, and the stream.
pub record Call (A St : Type 0) : Type 0 where
  pub answer : A
  pub produced : Bytes
  pub left : Bytes
  pub state : St

-- `inflateInit2` and `inflate` with an output buffer of 16 KiB.
pub record Zlib : Type 1 where
  pub St : Type 0
  pub inflate_init : Option St
  pub inflate : Bytes → St → Call Inflated St

-- What `BrotliDecoderDecompressStream` answers.
pub data Decompressed : Type 0 where
  success error needs_more_input needs_more_output : Decompressed

pub record Brotli : Type 1 where
  pub St : Type 0
  pub create_instance : Option St
  pub decompress_stream : Bytes → St → Call Decompressed St

-- The return value with `out`; the bytes of a failure are not read.
pub data Decoded : Type 0 where
  decoded : Bytes → Decoded
  decompression_failure : Decoded

-- `do { ... } while (ret != Z_STREAM_END)`
unfoldable pub gzip_loop : (Z : Zlib) → ℕ → Bytes → Z.St → Bytes → Option Decoded
gzip_loop Z zero s st out = none
gzip_loop Z (suc fuel) s st out =
    let c = Z.inflate s st in
    elim c.answer [
      | z_failed ↦ some decompression_failure
      | z_stream_end ↦ some (decoded (out ++ c.produced))
      | z_ok ↦ gzip_loop Z fuel c.left c.state (out ++ c.produced)
    ]

-- `avail_in` has 32 bits: of a longer input the bytes behind the remainder of its length are not read.
unfoldable pub gzip_decode : (Z : Zlib) → ℕ → Bytes → Option Decoded
gzip_decode Z fuel s = elim Z.inflate_init [
  | none ↦ some decompression_failure
  | some st ↦ gzip_loop Z fuel (take (length s % 2 ^ 32) s) st []
]

-- `for (;;)`
unfoldable pub br_loop : (B : Brotli) → ℕ → Bytes → B.St → Bytes → Option Decoded
br_loop B zero s st out = none
br_loop B (suc fuel) s st out =
    let c = B.decompress_stream s st in
    elim c.answer [
      | success ↦ some (decoded (out ++ c.produced))
      | error ↦ some decompression_failure
      | needs_more_input ↦ br_loop B fuel c.left c.state (out ++ c.produced)
      | needs_more_output ↦ br_loop B fuel c.left c.state (out ++ c.produced)
    ]

unfoldable pub br_decode : (B : Brotli) → ℕ → Bytes → Option Decoded
br_decode B fuel s = elim B.create_instance [
  | none ↦ some decompression_failure
  | some st ↦ br_loop B fuel s st []
]
