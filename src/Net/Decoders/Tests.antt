-- ===== src/Net/Decoders/Tests.antt =====
-- Decoders of a code of one letter for each byte, which ends with a full stop.
use twitch_bot.Prelude.{◌≡◌, refl, none, some, [], ◌∷◌, ◌==◌, if◌then◌else◌}
use twitch_bot.Prelude.Bytes.{Bytes, codes}
use twitch_bot.Net.Decoders.{
  Inflated, z_ok, z_stream_end, z_failed, Call, Zlib, Decompressed, success, needs_more_input,
  Brotli, decoded, decompression_failure, gzip_loop, gzip_decode, br_loop, br_decode,
}

unfoldable inflate_one : Bytes → Unit {0} → Call Inflated (Unit {0})
inflate_one [] st = record { answer = z_failed; produced = []; left = []; state = tt }
inflate_one (x ∷ xs) st =
    if x == b'.'
    then record { answer = z_stream_end; produced = []; left = xs; state = tt }
    else record { answer = z_ok; produced = x ∷ []; left = xs; state = tt }

abbrev zlib : Zlib
zlib = record { St = Unit {0}; inflate_init = some tt; inflate = inflate_one }

unfoldable decompress_one : Bytes → Unit {0} → Call Decompressed (Unit {0})
decompress_one [] st = record { answer = needs_more_input; produced = []; left = []; state = tt }
decompress_one (x ∷ xs) st =
    if x == b'.'
    then record { answer = success; produced = []; left = xs; state = tt }
    else record { answer = needs_more_input; produced = x ∷ []; left = xs; state = tt }

abbrev brotli : Brotli
brotli = record { St = Unit {0}; create_instance = some tt; decompress_stream = decompress_one }

whole : br_decode brotli 4 (codes "ab.") ≡ some (decoded (codes "ab"))
unfolding br_decode br_loop decompress_one
whole = refl

cut : gzip_decode zlib 4 (codes "ab") ≡ some decompression_failure
unfolding gzip_decode gzip_loop inflate_one
cut = refl

-- On an input that is cut short the loop over brotli does not end: with any of these fuels it goes on.
starved : (br_decode brotli 9 (codes "ab") ≡ none) × (br_decode brotli 99 (codes "ab") ≡ none)
unfolding br_decode br_loop decompress_one
starved = (refl, refl)
