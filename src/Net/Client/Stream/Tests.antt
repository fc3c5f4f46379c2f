-- ===== src/Net/Client/Stream/Tests.antt =====
-- Streams of two chunks, and of a body as a whole.
use twitch_bot.Prelude.{◌≡◌, refl, false, Option, none, some, List, [], ◌∷◌, map, arith}
use twitch_bot.Prelude.Bytes.{Bytes, codes, has_prefix}
use twitch_bot.Net.Redirect.{safe_only}
use twitch_bot.Net.Chunked.{
  hex_val, or_flag, chunk_size, dec_chunk_size, has_chunk_size, is_chunked, hex_run,
  skip_extensions, consume_hex_number, next_chunk_from, get_next_chunk,
}
use twitch_bot.Net.Chunked.Whole.{hex_digit, digits_value}
use twitch_bot.Net.Client.{Request, Web, Client}
use twitch_bot.Net.Client.Stream.{
  Incoming, process_from, process_buffer, is_parsing_chunked_encoding, system_error, stream_reads,
  stream_chunked, stream_request, stream_full, stream_body, stream_answer, stream_get,
}
use twitch_bot.Net.Client.Stream.Ends.{IsWhole, stream_get-returned}
use twitch_bot.Net.Client.Stream.Silent.{Chunk, print_chunk, stream_chunked-silent}

abbrev abc : Chunk
abc = record { digit = b'3'; digits = []; payload = codes "abc" }

abbrev hex_a : Chunk
hex_a = record { digit = b'0'; digits = codes "A"; payload = codes "0123456789" }

stream_chunked-silent_example :
    stream_chunked (print_chunk abc) (map print_chunk (hex_a ∷ []))
    ≡ record { calls = []; ending = system_error }
unfolding hex_digit digits_value hex_val
stream_chunked-silent_example = stream_chunked-silent abc (hex_a ∷ []) (
  record { sized = refl; some_bytes = omega arith; small = omega arith },
  (record { sized = refl; some_bytes = omega arith; small = omega arith }, tt),
)

-- Behind a size line that is no number the bytes of the next read are given as they come.
garbage :
    stream_chunked (codes "x") (codes "<html>" ∷ [])
    ≡ record { calls = (codes "x<html>", false) ∷ []; ending = system_error }
unfolding stream_chunked stream_reads process_buffer process_from is_parsing_chunked_encoding
    has_prefix hex_val or_flag chunk_size dec_chunk_size has_chunk_size is_chunked hex_run
    skip_extensions consume_hex_number next_chunk_from get_next_chunk
garbage = refl

unfoldable respond : Request → List Incoming → Option Incoming × List Incoming
respond r [] = (none, [])
respond r (res ∷ more) = (some res, more)

abbrev streams : Web
streams = record {
  E = List Incoming;
  J = Bytes;
  exchange = λ r e. (none, e);
  now = λ e. 0;
  http_date = λ s. none;
  sort = λ l. l;
  gzip_decode = λ s. none;
  br_decode = λ s. none;
  read_json = λ s. none;
}

abbrev whole : Incoming
whole = record {
  status = 200;
  set_cookies = [];
  content_encoding = none;
  chunked = false;
  buffer = [];
  reads = [];
  full = some ([], codes "body");
}

abbrev client : Client streams
client = record {
  redirect_policy = record { max_hops = 5; mode = safe_only };
  cookies_enabled = false;
  cookies = [];
  world = whole ∷ [];
  sent = [];
}

stream_get-returned_example :
    (res : Incoming) × ((respond
        (stream_request streams 0 respond (codes "h") (codes "443") (codes "/s") client)
        (whole ∷ [])).0
      ≡ some res)
    × IsWhole res
        (stream_get streams 0 respond (codes "h") (codes "443") (codes "/s") client).0.calls
unfolding respond stream_get stream_answer stream_body stream_full
stream_get-returned_example =
    stream_get-returned streams 0 respond (codes "h") (codes "443") (codes "/s") client refl
