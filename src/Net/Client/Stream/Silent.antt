-- ===== src/Net/Client/Stream/Silent.antt =====
-- The chunks of a response that never reach the handler.
use twitch_bot.Prelude.{
  ℕ, suc, ◌+◌, ◌^◌, ◌<◌, ◌≡◌, refl, false, some, none, List, [], ◌∷◌, ◌++◌, map, arith, length,
}
use twitch_bot.Prelude.Bytes.{Bytes, cr, lf}
use twitch_bot.Net.Chunked.{get_next_chunk}
use twitch_bot.Net.Chunked.Whole.{digits_value, get_next_chunk-fresh}
use twitch_bot.Net.Client.Stream.{
  process_from, process_buffer, system_error, stream_reads, stream_chunked,
}

-- A chunk: its size in digits, the first one apart, and its payload.
pub record Chunk : Type 0 where
  pub digit : ℕ
  pub digits : Bytes
  pub payload : Bytes

-- The digits are hexadecimal and give the length of the payload, at least 1 and below 2^62 - 3.
pub record IsChunk (c : Chunk) : Type 0 where
  pub sized : digits_value (c.digit ∷ c.digits) 0 ≡ some (length c.payload)
  pub some_bytes : 0 < length c.payload
  pub small : length c.payload + 3 < 2 ^ 62

-- The bytes of a chunk on the wire.
abbrev pub print_chunk : Chunk → Bytes
print_chunk c = (c.digit ∷ c.digits) ++ cr ∷ lf ∷ (c.payload ++ cr ∷ lf ∷ [])

abbrev pub AreChunks : List Chunk → Type 0
AreChunks [] = Unit {0}
AreChunks (c ∷ cs) = IsChunk c × AreChunks cs

-- A round in which the decoder gives nothing is the last one.
silent_round :
    (f x : ℕ) (p : Bytes) (state : ℕ) (left : Bytes) (st : ℕ)
    → get_next_chunk (x ∷ p) state false ≡ record { chunk = none; left = left; state = st }
    → process_from (suc f) (x ∷ p) state
      ≡ record { calls = []; rest = left; state = st; finished = false }
unfolding process_from
silent_round f x p state left st h = ground (arith, h)

process-chunk :
    (c : Chunk)
    → IsChunk c
    → process_buffer (print_chunk c) 0
      ≡ record { calls = []; rest = []; state = 0; finished = false }
unfolding process_buffer
process-chunk c v =
    silent_round _ c.digit (c.digits ++ cr ∷ lf ∷ (c.payload ++ cr ∷ lf ∷ [])) 0 [] 0
      (get_next_chunk-fresh c.digit c.digits c.payload [] false v.sized v.some_bytes v.small)

stream_reads-silent :
    (cs : List Chunk)
    → AreChunks cs
    → stream_reads (map print_chunk cs) [] 0 ≡ record { calls = []; ending = system_error }
unfolding stream_reads
stream_reads-silent [] v = refl
stream_reads-silent (c ∷ cs) v = rw (process-chunk c v.0) (stream_reads-silent cs v.1)

-- Of a body whose chunks are read one by one, each as a whole, the first one with the head, none is
-- given to the handler, and the call ends by a read that throws.
pub stream_chunked-silent :
    (c : Chunk) (cs : List Chunk)
    → AreChunks (c ∷ cs)
    → stream_chunked (print_chunk c) (map print_chunk cs)
      ≡ record { calls = []; ending = system_error }
unfolding stream_chunked
stream_chunked-silent c cs v = rw (process-chunk c v.0) (stream_reads-silent cs v.1)
