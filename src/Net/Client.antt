-- ===== src/Net/Client.antt =====
-- `client` of lib/net/src/tb/net/http/http_client.cpp and
-- lib/net/include/tb/net/http/http_client.hpp: the requests of `perform` with redirects and cookies,
-- and `get_with_retry`. A `Web` is what the sockets, the decoders, the JSON reader and the clock do;
-- the pool of connections, the metrics and the request's other headers are left out.
pub mod Hops
pub mod Pool
pub mod Stream
mod Tests
use twitch_bot.Prelude.{
  ℕ, zero, suc, ◌+◌, ◌-◌, ◌/◌, ◌%◌, Bool, true, false, ◌&&◌, ◌||◌, not, Option, none, some, List,
  [], ◌∷◌, ◌++◌, ltb, leb, ◌==◌, if◌then◌else◌, take,
}
use twitch_bot.Prelude.Bytes.{Bytes, codes, equal, is_empty}
use twitch_bot.Prelude.Search.{find, find_string}
use twitch_bot.Net.Url.{Url, target, parse_url, resolve_url}
use twitch_bot.Net.Redirect.{
  Verb, get, head, post, other_verb, RedirectPolicy, is_redirect_status, next_verb, allow_hop,
}
use twitch_bot.Net.Encoding.{Enc, identity, parse_content_encoding, decode}
use twitch_bot.Net.Cookie.{Cookie}
use twitch_bot.Net.Cookie.Jar.{CookieJar, cookie_header_for, store_from_set_cookie, purge_expired}

-- A request that goes out, over TLS.
pub record Request : Type 0 where
  pub method : Verb
  pub host : Bytes
  pub port : Bytes
  pub target : Bytes
  pub host_header : Bytes
  pub cookie : Bytes
  pub body : Bytes

pub record Response : Type 0 where
  pub status : ℕ
  pub location : Option Bytes
  pub set_cookies : List Bytes
  pub content_encoding : Option Bytes
  pub body : Bytes

-- What is not under src: `exchange` connects, writes and reads, and is `none` where that throws a
-- `std::system_error`; `read_json` is `none` for a document that it refuses.
pub record Web : Type 1 where
  pub E : Type 0
  pub J : Type 0
  pub exchange : Request → E → Option Response × E
  pub now : E → ℕ
  pub http_date : Bytes → Option ℕ
  pub sort : List Cookie → List Cookie
  pub gzip_decode : Bytes → Option Bytes
  pub br_decode : Bytes → Option Bytes
  pub read_json : Bytes → Option J

-- The members that `perform` uses, and the requests that went out, the last one first.
pub record Client (W : Web) : Type 0 where
  pub redirect_policy : RedirectPolicy
  pub cookies_enabled : Bool
  pub cookies : CookieJar
  pub world : W.E
  pub sent : List Request

-- What `perform` ends with: the document, or none if it is refused; an exception, a `system_error` or
-- a `runtime_error` with its message; or no end, in the loop of `resolve_url`.
pub data Outcome (J : Type 0) : Type 0 where
  parsed : Option J → Outcome J
  system_error : Outcome J
  runtime_error : Bytes → Outcome J
  endless : Outcome J

unfoldable pub path_from_target : Bytes → Bytes
path_from_target t = if is_empty t then codes "/" else elim (find b'?' t) [
  | none ↦ t
  | some q ↦ if is_empty (take q t) then codes "/" else take q t
]

unfoldable pub default_port_for_scheme : Bytes → Bytes
default_port_for_scheme scheme =
    if equal scheme (codes "https")
    then codes "443"
    else if equal scheme (codes "http")
    then codes "80"
    else []

unfoldable pub host_header_value : Bytes → Bytes → Bytes → Bytes
host_header_value host port scheme =
    if not (is_empty port) && not (equal port (default_port_for_scheme scheme))
    then host ++ b':' ∷ port
    else host

-- `std::to_string` of a status, of at most three digits as Beast reads it.
unfoldable pub status_digits : ℕ → Bytes
status_digits s =
    let ones : Bytes = (b'0' + s % 10) ∷ [] in
    if ltb s 10
    then ones
    else if ltb s 100
    then (b'0' + s / 10) ∷ ones
    else (b'0' + s / 100) ∷ (b'0' + (s / 10) % 10) ∷ ones

unfoldable pub make_error_msg : Bytes → Bytes → ℕ → Bytes
make_error_msg host t status = host ++ t ++ codes " returned " ++ status_digits status

-- The variables of the loop: `method`, `cur_host`, `cur_port` and `cur_target`.
pub record Hop : Type 0 where
  pub method : Verb
  pub cur_host : Bytes
  pub cur_port : Bytes
  pub cur_target : Bytes

-- What a hop leads to: the end, or another hop.
pub data Turn (J : Type 0) : Type 0 where
  ends : Outcome J → Turn J
  follows : Hop → Turn J

-- `base`, the URL of the hop.
unfoldable pub base_url : Hop → Url
base_url h =
    let tgt : Url = parse_url h.cur_target in
    record {
      scheme = codes "https";
      host = h.cur_host;
      port = h.cur_port;
      path = tgt.path;
      query = tgt.query;
    }

-- `if (to.port.empty()) to.port = default_port_for_scheme(to.scheme);`
unfoldable pub with_port : Url → Url
with_port to =
    if is_empty to.port then record to { port = default_port_for_scheme to.scheme } else to

pub record RetryOptions : Type 0 where
  pub max_attempts : ℕ
  pub retry_on_network_error : Bool
  pub retry_on_5xx : Bool

-- "if (method == http::verb::post) req.body() = body"
unfoldable pub body_of : Verb → Bytes → Bytes
body_of post body = body
body_of get body = []
body_of head body = []
body_of (other_verb n) body = []

module _ (W : Web) (fuel : ℕ) where
  -- The tests on the resolved location.
  unfoldable pub follow : RedirectPolicy → Hop → Verb → Url → Turn W.J
  follow policy h next_method to =
      if not (allow_hop policy (base_url h) to next_method)
      then ends (runtime_error (codes "Redirect not allowed by policy"))
      else if not (is_empty to.scheme) && not (equal to.scheme (codes "https"))
      then ends (runtime_error (codes "Redirect to non-https is not supported"))
      else follows record {
        method = next_method;
        cur_host = to.host;
        cur_port = if is_empty to.port then default_port_for_scheme (codes "https") else to.port;
        cur_target = target to;
      }

  unfoldable pub redirect : RedirectPolicy → Hop → ℕ → Option Bytes → Turn W.J
  redirect policy h status none =
      ends (runtime_error (codes "Redirect response missing Location header"))
  redirect policy h status (some loc) = elim (resolve_url fuel (base_url h) loc) [
    | none ↦ ends endless
    | some to ↦ follow policy h (next_verb h.method status) (with_port to)
  ]

  unfoldable pub read_body : Bool → Response → Outcome W.J
  read_body auto_decode res =
      let enc : Enc = elim res.content_encoding [
        | none ↦ identity
        | some v ↦ parse_content_encoding v
      ] in
      elim (if auto_decode then decode W.gzip_decode W.br_decode res.body enc else some res.body) [
        | none ↦ system_error
        | some body ↦ parsed (W.read_json body)
      ]

  -- What the response of a hop leads to.
  unfoldable pub turn : RedirectPolicy → Bool → Hop → Response → Turn W.J
  turn policy auto_decode h res =
      if is_redirect_status res.status
      then redirect policy h res.status res.location
      else if ltb res.status 200 || leb 300 res.status
      then ends (runtime_error (make_error_msg h.cur_host h.cur_target res.status))
      else ends (read_body auto_decode res)

  -- The Set-Cookie headers of a response, in order.
  unfoldable pub store_all : List Bytes → Bytes → Bytes → ℕ → CookieJar → CookieJar
  store_all [] host path now jar = jar
  store_all (line ∷ lines) host path now jar =
      store_all lines host path now (store_from_set_cookie W.http_date jar line host path now)

  unfoldable pub receive : Hop → Response → Client W → Client W
  receive h res c =
      let clock : ℕ = W.now c.world in
      if c.cookies_enabled
      then record c {
        cookies =
            purge_expired clock (
              store_all res.set_cookies h.cur_host (path_from_target h.cur_target) clock c.cookies);
      }
      else c

  unfoldable pub request_of : Hop → Bytes → Client W → Request
  request_of h body c = record {
    method = h.method;
    host = h.cur_host;
    port = h.cur_port;
    target = h.cur_target;
    host_header = host_header_value h.cur_host h.cur_port (codes "https");
    cookie =
        if c.cookies_enabled
        then cookie_header_for W.sort c.cookies h.cur_host (path_from_target h.cur_target) true
            (W.now c.world)
        else [];
    body = body_of h.method body;
  }

  -- A request goes out and its response comes in, or the exchange throws.
  unfoldable pub send : Hop → Bytes → Client W → Option Response × Client W
  send h body c =
      let r : Request = request_of h body c in
      let done = W.exchange r c.world in (done.0, record c { world = done.1; sent = r ∷ c.sent })

  -- The loop over the hops; `hops` are left.
  unfoldable pub perform_from : ℕ → Bool → Hop → Bytes → Client W → Outcome W.J × Client W
  perform_from zero auto_decode h body c = (runtime_error (codes "Too many redirects"), c)
  perform_from (suc hops) auto_decode h body c =
      let done : Option Response × Client W = send h body c in
      elim done.0 [
        | none ↦ (system_error, done.1)
        | some res ↦
            let after : Client W = receive h res done.1 in
            elim (turn c.redirect_policy auto_decode h res) [
              | ends o ↦ (o, after)
              | follows next ↦ perform_from hops auto_decode next body after
            ]
      ]

  unfoldable pub perform :
      Verb → Bytes → Bytes → Bytes → Bytes → Bool → Client W → Outcome W.J × Client W
  perform method host port t body auto_decode c =
      perform_from (suc c.redirect_policy.max_hops) auto_decode
        (record {
          method = method;
          cur_host = host;
          cur_port = if is_empty port then default_port_for_scheme (codes "https") else port;
          cur_target = t;
        })
        body c

  -- Whether an outcome of `perform` is tried again.
  unfoldable pub is_retried : RetryOptions → Outcome W.J → Bool
  is_retried r (parsed _) = false
  is_retried r system_error = r.retry_on_network_error
  is_retried r (runtime_error msg) =
      r.retry_on_5xx
      && elim (find_string (codes " returned 5") msg) [ none ↦ false | some _ ↦ true ]
  is_retried r endless = false

  -- The loop over the attempts; `left` are left, with this one. The pauses between them send nothing.
  unfoldable pub attempts_from : ℕ → RetryOptions → Hop → Bool → Client W → Outcome W.J × Client W
  attempts_from zero r first auto_decode c = (runtime_error (codes "retry logic fell through"), c)
  attempts_from (suc left) r first auto_decode c =
      let done = perform get first.cur_host first.cur_port first.cur_target [] auto_decode c in
      let again = attempts_from left r first auto_decode done.1 in
      if is_retried r done.0 && not (left == 0) then again else done

  unfoldable pub get_with_retry :
      RetryOptions → Bytes → Bytes → Bytes → Bool → Client W → Outcome W.J × Client W
  get_with_retry r host port t auto_decode c =
      attempts_from r.max_attempts r
        (record { method = get; cur_host = host; cur_port = port; cur_target = t }) auto_decode c
