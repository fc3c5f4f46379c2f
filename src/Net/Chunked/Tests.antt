-- ===== src/Net/Chunked/Tests.antt =====
-- Runs on concrete bodies.
use twitch_bot.Prelude.{◌≡◌, refl, none, some, [], ◌∷◌, arith, ◌++◌, false}
use twitch_bot.Prelude.Bytes.{codes, cr, lf, has_prefix}
use twitch_bot.Net.Chunked.{
  hex_val, or_flag, chunk_size, dec_chunk_size, has_chunk_size, is_chunked, hex_run,
  skip_extensions, consume_hex_number, next_chunk_from, get_next_chunk, state_is_chunked,
}
use twitch_bot.Net.Chunked.Whole.{hex_digit, digits_value, get_next_chunk-chunked}

chunks : Unit {0}
unfolding has_prefix hex_digit digits_value hex_val or_flag chunk_size dec_chunk_size has_chunk_size
    is_chunked hex_run skip_extensions consume_hex_number next_chunk_from get_next_chunk
chunks = tt

-- A chunk of 3 bytes.
next-chunked :
    get_next_chunk
      (codes "3;x" ++ cr ∷ lf ∷ (codes "abc" ++ cr ∷ lf ∷ codes "0"))
      state_is_chunked
      false
    ≡ record { chunk = some (codes "abc"); left = codes "0"; state = state_is_chunked }
unfolding chunks
next-chunked = refl

-- From state 0 the same chunk is skipped.
next-fresh :
    get_next_chunk (codes "3" ++ cr ∷ lf ∷ (codes "abc" ++ cr ∷ lf ∷ codes "0")) 0 false
    ≡ record { chunk = none; left = codes "0"; state = 0 }
unfolding chunks
next-fresh = refl

get_next_chunk-chunked_example :
    (get_next_chunk (codes "A" ++ cr ∷ lf ∷ (codes "0123456789" ++ cr ∷ lf ∷ codes "0")) 0 false
      ≡ record { chunk = none; left = codes "0"; state = 0 })
    × (get_next_chunk
          (codes "A" ++ cr ∷ lf ∷ (codes "0123456789" ++ cr ∷ lf ∷ codes "0"))
          state_is_chunked
          false
        ≡ record { chunk = some (codes "0123456789"); left = codes "0"; state = state_is_chunked })
unfolding chunks
get_next_chunk-chunked_example =
    get_next_chunk-chunked b'A' [] (codes "0123456789") (codes "0") false refl (omega arith)
      (omega arith)
