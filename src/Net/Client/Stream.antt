-- ===== src/Net/Client/Stream.antt =====
-- `stream_get` of lib/net/include/tb/net/http/http_client.hpp. What the sockets do is a value: the
-- head of the response, what was read with it, and what each further read brings, up to one that
-- throws. The buffer holds any number of bytes here.
pub mod Ends
pub mod Fuel
pub mod Silent
mod Tests
use twitch_bot.Prelude.{
  ℕ, zero, suc, ◌/◌, ◌%◌, ◌^◌, Bool, true, false, ◌||◌, not, Option, none, some, List, [], ◌∷◌,
  ◌++◌, ltb, leb, ◌==◌, if◌then◌else◌, length,
}
use twitch_bot.Prelude.Bytes.{Bytes, codes, is_empty}
use twitch_bot.Net.Redirect.{get}
use twitch_bot.Net.Chunked.{Next, get_next_chunk, is_chunked, has_chunk_size}
use twitch_bot.Net.Cookie.Jar.{CookieJar, cookie_header_for, purge_expired}
use twitch_bot.Net.Client.{
  Request, Web, Client, path_from_target, host_header_value, make_error_msg, store_all,
}

-- `(state & ~STATE_SIZE_MASK) != 0`
unfoldable pub is_parsing_chunked_encoding : ℕ → Bool
is_parsing_chunked_encoding state = has_chunk_size state || is_chunked state

-- What `process_buffer` leaves: the calls of the handler, the bytes that it does not consume, the
-- state word, and whether it returns true.
pub record Processed : Type 0 where
  pub calls : List (Bytes × Bool)
  pub rest : Bytes
  pub state : ℕ
  pub finished : Bool

-- The loop of `process_buffer` from `p`. Each round but the last takes a byte at least.
unfoldable pub process_from : ℕ → Bytes → ℕ → Processed
process_from zero p state = record { calls = []; rest = p; state = state; finished = false }
process_from (suc f) p state =
    let n : Next = get_next_chunk p state false in
    let more = process_from f n.left n.state in
    if is_empty p
    then record { calls = []; rest = p; state = state; finished = false }
    else elim n.chunk [
      | none ↦ record { calls = []; rest = n.left; state = n.state; finished = false }
      | some sv ↦
          if is_parsing_chunked_encoding n.state
          then record more { calls = (sv, false) ∷ more.calls }
          else record { calls = (sv, true) ∷ []; rest = n.left; state = n.state; finished = true }
    ]

unfoldable pub process_buffer : Bytes → ℕ → Processed
process_buffer p state = process_from (length p) p state

-- How `stream_get` ends: it returns, a read or write throws, or it throws a `runtime_error`.
pub data Ending : Type 0 where
  returned system_error : Ending
  runtime_error : Bytes → Ending

-- The calls of the handler and the end.
pub record Streamed : Type 0 where
  pub calls : List (Bytes × Bool)
  pub ending : Ending

-- The loop over the reads: each is appended to the buffer, and the one behind the last throws.
unfoldable pub stream_reads : List Bytes → Bytes → ℕ → Streamed
stream_reads [] buffer state = record { calls = []; ending = system_error }
stream_reads (r ∷ reads) buffer state =
    let p : Processed = process_buffer (buffer ++ r) state in
    let more : Streamed = stream_reads reads p.rest p.state in
    if p.finished
    then record { calls = p.calls; ending = returned }
    else record { calls = p.calls ++ more.calls; ending = more.ending }

-- The chunked branch, from the bytes that were read with the head.
unfoldable pub stream_chunked : Bytes → List Bytes → Streamed
stream_chunked buffer reads =
    let p : Processed = process_buffer buffer 0 in
    let more : Streamed = stream_reads reads p.rest p.state in
    if p.finished
    then record { calls = p.calls; ending = returned }
    else record { calls = p.calls ++ more.calls; ending = more.ending }

-- What the reads bring: the head, what of the body was read with it, the reads behind it, and what the
-- second parser reads where the body is not chunked, unless it throws.
pub record Incoming : Type 0 where
  pub status : ℕ
  pub set_cookies : List Bytes
  pub content_encoding : Option Bytes
  pub chunked : Bool
  pub buffer : Bytes
  pub reads : List Bytes
  pub full : Option (List Bytes × Bytes)

module _ (W : Web) (fuel : ℕ) (exchange : Request → W.E → Option Incoming × W.E) where
  unfoldable pub stream_request : Bytes → Bytes → Bytes → Client W → Request
  stream_request host port t c = record {
    method = get;
    host = host;
    port = port;
    target = t;
    host_header = host_header_value host port (codes "https");
    cookie =
        if c.cookies_enabled
        then cookie_header_for W.sort c.cookies host (path_from_target t) true (W.now c.world)
        else [];
    body = [];
  }

  -- `if (cookies_enabled_) { ... cookies_.evict_expired(); }`
  unfoldable pub keep_cookies : List Bytes → Bytes → Bytes → Client W → Client W
  keep_cookies lines host t c =
      let clock : ℕ = W.now c.world in
      if c.cookies_enabled
      then record c {
        cookies =
            purge_expired clock (store_all W fuel lines host (path_from_target t) clock c.cookies);
      }
      else c

  -- The branch of a body that is not chunked.
  unfoldable pub stream_full :
      Option (List Bytes × Bytes) → Bytes → Bytes → Client W → Streamed × Client W
  stream_full none host t c = (record { calls = []; ending = system_error }, c)
  stream_full (some (lines, body)) host t c =
      (record { calls = (body, true) ∷ []; ending = returned }, keep_cookies lines host t c)

  unfoldable pub stream_body : Incoming → Bytes → Bytes → Client W → Streamed × Client W
  stream_body res host t c =
      if ltb res.status 200 || leb 300 res.status
      then (record { calls = []; ending = runtime_error (make_error_msg host t res.status) }, c)
      else elim res.content_encoding [
        | some _ ↦ (
          record {
            calls = [];
            ending = runtime_error (codes "stream_get: compressed responses are not supported");
          },
          c,
        )
        | none ↦
            let kept : Client W = keep_cookies res.set_cookies host t c in
            if res.chunked
            then (stream_chunked res.buffer res.reads, kept)
            else stream_full res.full host t kept
      ]

  unfoldable pub stream_answer : Option Incoming → Bytes → Bytes → Client W → Streamed × Client W
  stream_answer none host t c = (record { calls = []; ending = system_error }, c)
  stream_answer (some res) host t c = stream_body res host t c

  -- The request and its response; the connection is `exchange`'s.
  unfoldable pub stream_get : Bytes → Bytes → Bytes → Client W → Streamed × Client W
  stream_get host port t c =
      let r : Request = stream_request host port t c in
      let done = exchange r c.world in
      stream_answer done.0 host t (record c { world = done.1; sent = r ∷ c.sent })
