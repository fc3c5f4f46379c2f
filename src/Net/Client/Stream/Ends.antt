-- ===== src/Net/Client/Stream/Ends.antt =====
-- A response in chunks is never read to its end.
use twitch_bot.Prelude.{
  ℕ, zero, suc, ◌≤◌, ◌<◌, leb, ltb, ◌||◌, ◌≡◌, ◌≢◌, refl, sym, ◌∙◌, Bool, true, false, Option, none,
  some, List, [], ◌∷◌, ◌++◌, arith, if◌then◌else◌, inl, inr, Bool-cases, Option-cases, min, ◌-◌,
  length, drop,
}
use twitch_bot.Prelude.Bytes.{Bytes}
use twitch_bot.Net.Chunked.{
  next_chunk_from, get_next_chunk, is_chunked, or_flag, dec_chunk_size, chunk_size,
  state_is_chunked, consume_hex_number,
}
use twitch_bot.Net.Client.{Request, Web, Client}
use twitch_bot.Net.Client.Stream.{
  Incoming, stream_full, stream_body, stream_answer, stream_get, keep_cookies, stream_request,
  process_from, process_buffer, is_parsing_chunked_encoding, returned, system_error, stream_reads,
  stream_chunked,
}

is_chunked-or_flag : (state : ℕ) → is_chunked (or_flag state_is_chunked state) ≡ true
unfolding is_chunked or_flag
is_chunked-or_flag state = ground arith

is_chunked_start : is_chunked state_is_chunked ≡ true
unfolding is_chunked
is_chunked_start = refl

-- A chunk that is given leaves a state of a decoder that is in chunks.
chunk-is_chunked :
    (f : ℕ) (s : Bytes) (state : ℕ) (sv : Bytes)
    → (next_chunk_from f s state false).chunk ≡ some sv
    → is_chunked (next_chunk_from f s state false).state ≡ true
unfolding next_chunk_from
chunk-is_chunked zero s state sv h = ground (arith, h)
chunk-is_chunked (suc f) [] state sv h = ground (arith, h)
chunk-is_chunked (suc f) (x ∷ xs) state sv h =
    let header = consume_hex_number (x ∷ xs) state in
    let given = min (length (x ∷ xs)) (chunk_size state - 2) in
    ground (
      arith,
      h,
      is_chunked_start,
      is_chunked-or_flag (dec_chunk_size state given),
      chunk-is_chunked f header.left header.state sv,
      chunk-is_chunked f (drop (chunk_size state) (x ∷ xs)) state_is_chunked sv,
    )

chunk-is_parsing :
    (s : Bytes) (state : ℕ) (sv : Bytes)
    → (get_next_chunk s state false).chunk ≡ some sv
    → is_parsing_chunked_encoding (get_next_chunk s state false).state ≡ true
unfolding get_next_chunk is_parsing_chunked_encoding
chunk-is_parsing s state sv h = ground (arith, chunk-is_chunked (suc (length s)) s state sv h)

-- No round of `process_buffer` sees the end of the chunks.
process_from-unfinished :
    (f : ℕ) (p : Bytes) (state : ℕ) → (process_from f p state).finished ≡ false
unfolding process_from
process_from-unfinished zero p state = refl
process_from-unfinished (suc f) [] state = refl
process_from-unfinished (suc f) (x ∷ p) state =
    let n = get_next_chunk (x ∷ p) state false in
    elim (Option-cases n.chunk) [
      | inl nothing ↦ rw (process_from, nothing) refl
      | inr (sv, chunk) ↦
          rw (process_from, chunk, chunk-is_parsing (x ∷ p) state sv chunk, if◌then◌else◌)
            (process_from-unfinished f n.left n.state)
    ]

stream_reads-throws :
    (reads : List Bytes) (buffer : Bytes) (state : ℕ)
    → (stream_reads reads buffer state).ending ≡ system_error
unfolding stream_reads process_buffer
stream_reads-throws [] buffer state = refl
stream_reads-throws (r ∷ reads) buffer state =
    let p = process_from (length (buffer ++ r)) (buffer ++ r) state in
    rw (process_from-unfinished (length (buffer ++ r)) (buffer ++ r) state, if◌then◌else◌)
      (stream_reads-throws reads p.rest p.state)

-- Whatever of a chunked body is read with the head and behind it, the zero-size chunk included, the
-- chunked branch does not return: it reads on until a read throws.
pub stream_chunked-throws :
    (buffer : Bytes) (reads : List Bytes) → (stream_chunked buffer reads).ending ≡ system_error
unfolding stream_chunked process_buffer
stream_chunked-throws buffer reads =
    let p = process_from (length buffer) buffer 0 in
    rw (process_from-unfinished (length buffer) buffer 0, if◌then◌else◌)
      (stream_reads-throws reads p.rest p.state)

threw_ne_returned : system_error ≢ returned
threw_ne_returned h = cc h

-- What a call that returns has had from the server.
pub record IsWhole (res : Incoming) (calls : List (Bytes × Bool)) : Type 0 where
  pub unchunked : res.chunked ≡ false
  pub uncoded : res.content_encoding ≡ none
  pub success : (200 ≤ res.status) × (res.status < 300)
  pub given :
      (lines : List Bytes) × (body : Bytes) × (res.full ≡ some (lines, body))
      × (calls ≡ (body, true) ∷ [])

module _ (W : Web) (fuel : ℕ) (exchange : Request → W.E → Option Incoming × W.E) where
  stream_full-returned :
      (full : Option (List Bytes × Bytes)) (host t : Bytes) (c : Client W)
      → (stream_full W fuel exchange full host t c).0.ending ≡ returned
      → (lines : List Bytes) × (body : Bytes) × (full ≡ some (lines, body))
        × ((stream_full W fuel exchange full host t c).0.calls ≡ (body, true) ∷ [])
  unfolding stream_full
  stream_full-returned none host t c h = absurd (threw_ne_returned h)
  stream_full-returned (some (lines, body)) host t c h = (lines, body, refl, refl)

  stream_body-returned :
      (res : Incoming) (host t : Bytes) (c : Client W)
      → (stream_body W fuel exchange res host t c).0.ending ≡ returned
      → IsWhole res (stream_body W fuel exchange res host t c).0.calls
  unfolding stream_body
  stream_body-returned res host t c h =
      elim (Bool-cases (ltb res.status 200 || leb 300 res.status)) [
        | inl bad ↦ absurd (ground (arith, h, bad))
        | inr good ↦ elim (Option-cases res.content_encoding) [
          | inr (v, coded) ↦ absurd (cc (rw (good, coded) at h))
          | inl uncoded ↦ elim (Bool-cases res.chunked) [
            | inl chunked ↦ absurd (
                threw_ne_returned (
                  sym (stream_chunked-throws res.buffer res.reads)
                  ∙ (rw (good, uncoded, chunked) at h)))
            | inr unchunked ↦
                let kept = keep_cookies W fuel exchange res.set_cookies host t c in
                record {
                  unchunked = unchunked;
                  uncoded = uncoded;
                  success = (ground (arith, good), ground (arith, good));
                  given =
                      rw (good, uncoded, unchunked)
                        (stream_full-returned res.full host t kept
                          (rw (good, uncoded, unchunked) at h));
                }
          ]
        ]
      ]

  stream_answer-returned :
      (o : Option Incoming) (host t : Bytes) (c : Client W)
      → (stream_answer W fuel exchange o host t c).0.ending ≡ returned
      → (res : Incoming) × (o ≡ some res)
        × IsWhole res (stream_answer W fuel exchange o host t c).0.calls
  unfolding stream_answer
  stream_answer-returned none host t c h = absurd (threw_ne_returned h)
  stream_answer-returned (some res) host t c h = (res, refl, stream_body-returned res host t c h)

  -- A call of stream_get that returns has had a response with a status of 200 to 299 that is neither
  -- compressed nor chunked, and has given the handler the one body that its second parser has read.
  pub stream_get-returned :
      (host port t : Bytes) (c : Client W)
      → (stream_get W fuel exchange host port t c).0.ending ≡ returned
      → (res : Incoming) × ((exchange (stream_request W fuel exchange host port t c) c.world).0
          ≡ some res)
        × IsWhole res (stream_get W fuel exchange host port t c).0.calls
  unfolding stream_get
  stream_get-returned host port t c h =
      let r = stream_request W fuel exchange host port t c in
      let done = exchange r c.world in
      stream_answer-returned done.0 host t (record c { world = done.1; sent = r ∷ c.sent }) h
