-- ===== src/Helix.antt =====
-- `HelixClient` of lib/twitch_core/src/helix_client.cpp: the bearer token, its checks and renewals, and
-- the status of a stream. The HTTP client, the JSON library and the clock are a `World`.
pub mod Form
pub mod Dates
pub mod Requests
pub mod Counts
pub mod Http
mod Tests
use twitch_bot.Prelude.{
  ℕ, ◌+◌, Bool, true, false, ◌&&◌, not, Option, none, some, List, [], ◌∷◌, ◌++◌, if◌then◌else◌,
}
use twitch_bot.Prelude.Bytes.{Bytes, codes, is_empty}
use twitch_bot.Prelude.Search.{find_string}
use twitch_bot.Helix.Form.{form_urlencode}
use twitch_bot.Helix.Dates.{parse_iso8601_ms}

-- A request, with the header `Authorization` or the body.
pub data Request : Type 0 where
  validate : Bytes → Request
  token_request : Bytes → Request
  streams : Bytes → Bytes → Bytes → Request

-- What an exchange gives: a document, an error value, or an exception, with its message if it is a
-- `std::runtime_error`.
pub data Reply (J : Type 0) : Type 0 where
  document : J → Reply J
  error_value : Reply J
  thrown : Option Bytes → Reply J

-- What `j["data"]` is: no array, an empty one, or one whose first entry has a `started_at`, or throws.
pub data Streams : Type 0 where
  no_array empty_array : Streams
  started_at : Bytes → Streams
  throws : Option Bytes → Streams

pub record World : Type 1 where
  pub E : Type 0
  pub J : Type 0
  pub Time : Type 0
  pub Lifetime : Type 0
  pub exchange : Request → E → Reply J × E
  pub now : E → Time × E
  pub earlier : Time → Time → Bool
  pub after : Time → Lifetime → Time
  pub expires_in : J → Option Lifetime
  pub access_token : J → Option Bytes
  pub stream_data : J → Streams

-- `sent` are the requests made so far, the last one first, and `persisted` the tokens given to the
-- persistor.
pub record HelixClient (W : World) : Type 0 where
  pub client_id : Bytes
  pub client_secret : Bytes
  pub refresh_token_value : Bytes
  pub token : Bytes
  pub token_expiry : W.Time
  pub world : W.E
  pub sent : List Request
  pub persisted : List Bytes

-- What `do_request` ends with.
pub data Attempt : Type 0 where
  status : Option ℕ → Attempt
  raised : Option Bytes → Attempt

abbrev pub bearer : Bytes → Bytes
bearer token = codes "Bearer " ++ token

-- `!error_msg.empty() && error_msg.find("401") != npos`
unfoldable pub is_unauthorised : Bytes → Bool
is_unauthorised what = elim (find_string (codes "401") what) [
  | none ↦ false
  | some _ ↦ not (is_empty what)
]

-- What the request for a stream makes of the reply.
unfoldable pub stream_status : (W : World) → Reply W.J → Attempt
stream_status W (document j) = elim (W.stream_data j) [
  | no_array ↦ status none
  | empty_array ↦ status none
  | started_at ts ↦ status (parse_iso8601_ms ts)
  | throws what ↦ raised what
]
stream_status W error_value = status none
stream_status W (thrown what) = raised what

-- The status of the second attempt, whose exceptions are caught.
unfoldable pub status_of : Attempt → Option ℕ
status_of (status o) = o
status_of (raised _) = none

module _ {W : World} where
  -- A request goes out.
  unfoldable pub perform : Request → HelixClient W → Reply W.J × HelixClient W
  perform r s =
      let done = W.exchange r s.world in (done.0, record s { world = done.1; sent = r ∷ s.sent })

  -- `token_expiry_ = now() + seconds`
  unfoldable pub expire_after : W.Lifetime → HelixClient W → HelixClient W
  expire_after lifetime s =
      let clock = W.now s.world in
      record s { token_expiry = W.after clock.0 lifetime; world = clock.1 }

  unfoldable pub clear_token : HelixClient W → HelixClient W
  clear_token s = record s { token = [] }

  -- What `validate_token` makes of the reply.
  unfoldable pub validated : Reply W.J × HelixClient W → Bool × HelixClient W
  validated (document j, s) = elim (W.expires_in j) [
    | none ↦ (false, s)
    | some lifetime ↦ (true, expire_after lifetime s)
  ]
  validated (error_value, s) = (false, s)
  validated (thrown _, s) = (false, s)

  unfoldable pub validate_token : HelixClient W → Bool × HelixClient W
  validate_token s =
      if is_empty s.token then (false, s) else validated (perform (validate (bearer s.token)) s)

  unfoldable pub build_refresh_token_request_body : HelixClient W → Bytes
  build_refresh_token_request_body s =
      codes "client_id="
      ++ form_urlencode s.client_id
      ++ codes "&client_secret="
      ++ form_urlencode s.client_secret
      ++ codes "&grant_type=refresh_token&refresh_token="
      ++ form_urlencode s.refresh_token_value

  unfoldable pub persist : HelixClient W → HelixClient W
  persist s = record s { persisted = s.token ∷ s.persisted }

  -- What `fetch_token` makes of the reply.
  unfoldable pub fetched : Reply W.J × HelixClient W → HelixClient W
  fetched (document j, s) = elim (W.access_token j) [
    | none ↦ clear_token s
    | some t ↦ elim (W.expires_in j) [
      | none ↦ clear_token s
      | some lifetime ↦ persist (expire_after lifetime (record s { token = t }))
    ]
  ]
  fetched (error_value, s) = clear_token s
  fetched (thrown _, s) = clear_token s

  unfoldable pub fetch_token : Bytes → HelixClient W → HelixClient W
  fetch_token body s = fetched (perform (token_request body) s)

  unfoldable pub refresh_token : HelixClient W → HelixClient W
  refresh_token s = fetch_token (build_refresh_token_request_body s) s

  -- The part of `ensure_valid_token` behind the fast path.
  unfoldable pub renew : HelixClient W → HelixClient W
  renew s = if not (is_empty s.refresh_token_value) then refresh_token s else clear_token s

  -- `!token_.empty() && now() < token_expiry_`, where the clock is read only for a token.
  unfoldable pub looks_fresh : HelixClient W → Bool × HelixClient W
  looks_fresh s =
      let clock = W.now s.world in
      if is_empty s.token
      then (false, s)
      else (W.earlier clock.0 s.token_expiry, record s { world = clock.1 })

  unfoldable pub ensure_valid_token : HelixClient W → HelixClient W
  ensure_valid_token s =
      let fresh : Bool × HelixClient W = looks_fresh s in
      let valid : Bool × HelixClient W = validate_token fresh.1 in
      if fresh.0 then (if valid.0 then valid.1 else renew valid.1) else renew fresh.1

  unfoldable pub do_request : Bytes → HelixClient W → Attempt × HelixClient W
  do_request channel_id s =
      let done : Reply W.J × HelixClient W =
        perform
          (streams (codes "/helix/streams?user_login=" ++ channel_id) s.client_id (bearer s.token))
          s in
      (stream_status W done.0, done.1)

  unfoldable pub retry : Bytes → HelixClient W → Option ℕ × HelixClient W
  retry channel_id s =
      let done = do_request channel_id (ensure_valid_token (clear_token s)) in
      (status_of done.0, done.1)

  -- What `get_stream_status` does behind the first attempt.
  unfoldable pub settle : Bytes → Attempt × HelixClient W → Option ℕ × HelixClient W
  settle channel_id (status o, s) = (o, s)
  settle channel_id (raised none, s) = (none, s)
  settle channel_id (raised (some what), s) =
      let again = retry channel_id s in if is_unauthorised what then again else (none, s)

  -- A status is the start of the stream in milliseconds, as a 64-bit number in two's complement.
  unfoldable pub get_stream_status : Bytes → HelixClient W → Option ℕ × HelixClient W
  get_stream_status channel_id s =
      let ready : HelixClient W = ensure_valid_token s in
      if is_empty ready.token
      then (none, ready)
      else settle channel_id (do_request channel_id ready)
