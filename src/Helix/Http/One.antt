-- ===== src/Helix/Http/One.antt =====
-- Each request of `HelixClient` is one request of HTTP.
use twitch_bot.Prelude.{
  ℕ, ◌≡◌, refl, sym, ap, subst, ◌∙◌, Bool, true, false, inl, inr, [], ◌∷◌, if◌then◌else◌,
  Option-cases,
}
use twitch_bot.Prelude.Bytes.{Bytes, codes, equal}
use twitch_bot.Helix.{Request, validate, token_request, streams}
use twitch_bot.Helix.Http.{no_redirects, method_of, endpoint_of, payload_of, configured, call}
use twitch_bot.Net.Redirect.{Verb, get, post}
use twitch_bot.Net.Client
use twitch_bot.Net.Client.{
  Web, Response, Outcome, Hop, Turn, ends, follows, perform, perform_from, send, receive,
  request_of, turn, host_header_value, default_port_for_scheme, body_of,
}

-- A request of HTTP over TLS, without a cookie.
abbrev to_host : Verb → Bytes → Bytes → Bytes → Client.Request
to_host method host target body = record {
  method = method;
  host = host;
  port = codes "443";
  target = target;
  host_header = host;
  cookie = [];
  body = body;
}

-- What each request is in HTTP.
abbrev pub http_request : Request → Client.Request
http_request (validate auth) = to_host get (codes "id.twitch.tv") (codes "/oauth2/validate") []
http_request (token_request body) = to_host post (codes "id.twitch.tv") (codes "/oauth2/token") body
http_request (streams path client_id auth) = to_host get (codes "api.twitch.tv") path []

-- The first hop of a call.
abbrev pub hop_of : Request → Hop
hop_of r = record {
  method = method_of r;
  cur_host = (endpoint_of r).host;
  cur_port = (endpoint_of r).port;
  cur_target = (endpoint_of r).target;
}

-- No redirects and no cookies.
abbrev pub IsConfigured : {W : Web} → Client.Client W → Type 0
IsConfigured c = (c.redirect_policy ≡ no_redirects) × (c.cookies_enabled ≡ false)

-- One request, and the configuration stays.
abbrev pub Sends : {W : Web} → Client.Request → Client.Client W → Client.Client W → Type 0
Sends req c after = (after.sent ≡ req ∷ c.sent) × IsConfigured after

pub configured-IsConfigured : {W : Web} → (c : Client.Client W) → IsConfigured (configured c)
unfolding configured
configured-IsConfigured c = (refl, refl)

module _ (W : Web) (fuel : ℕ) where
  -- Behind the one hop nothing more is sent, whatever the response leads to.
  one_turn :
      (req : Client.Request) (c after : Client.Client W) (auto : Bool) (body : Bytes)
      → Sends req c after
      → (t : Turn W.J)
      → Sends req c (
          (elim t as (λ _. Outcome W.J × Client.Client W) [
            | ends o ↦ (o, after)
            | follows next ↦ perform_from W fuel 0 auto next body after
          ]).1)
  unfolding perform_from
  one_turn req c after auto body sent (ends o) = sent
  one_turn req c after auto body sent (follows next) = sent

  -- Without cookies a response leaves the client as it is.
  unchanged :
      (h : Hop) (res : Response) (after : Client.Client W)
      → after.cookies_enabled ≡ false
      → (req : Client.Request) (c : Client.Client W) → Sends req c after
      → Sends req c (receive W fuel h res after)
  unfolding receive
  unchanged h res after off req c sent =
      let same : receive W fuel h res after ≡ after = simp (receive, off, if◌then◌else◌) refl in
      subst {A = Client.Client W} (λ d. Sends req c d) (sym same) sent

  one_hop :
      (h : Hop) (auto : Bool) (body : Bytes) (c : Client.Client W)
      → IsConfigured c
      → Sends (request_of W fuel h body c) c (perform_from W fuel 1 auto h body c).1
  unfolding perform_from send
  one_hop h auto body c ok = elim (Option-cases (send W fuel h body c).0) [
    | inl broken ↦ rw (perform_from, broken) (refl, ok)
    | inr (res, came) ↦
        rw (perform_from, came)
          (one_turn (request_of W fuel h body c) c (receive W fuel h res (send W fuel h body c).1)
            auto body
            (unchanged h res (send W fuel h body c).1 ok.1 (request_of W fuel h body c) c
              (refl, ok))
            (turn W fuel c.redirect_policy auto h res))
  ]

  pub first_request :
      (r : Request) (c : Client.Client W)
      → IsConfigured c
      → request_of W fuel (hop_of r) (payload_of r) c ≡ http_request r
  unfolding request_of method_of endpoint_of payload_of body_of host_header_value
      default_port_for_scheme equal
  first_request (validate auth) c ok = rw (request_of, ok.1, if◌then◌else◌) refl
  first_request (token_request body) c ok = rw (request_of, ok.1, if◌then◌else◌) refl
  first_request (streams path id auth) c ok = rw (request_of, ok.1, if◌then◌else◌) refl

  call_hop :
      (what : Bytes) (r : Request) (c : Client.Client W)
      → IsConfigured c
      → (call W fuel what r c).1 ≡ (perform_from W fuel 1 true (hop_of r) (payload_of r) c).1
  unfolding call perform endpoint_of
  call_hop what (validate auth) c ok = rw (perform, ok.0) refl
  call_hop what (token_request body) c ok = rw (perform, ok.0) refl
  call_hop what (streams path id auth) c ok = rw (perform, ok.0) refl

  -- A request of HelixClient is one request of HTTP, whatever the server answers: to the endpoint of
  -- that request, with no cookie, and with no redirect behind it. The client has the configuration
  -- that the constructor sets, and keeps it.
  pub call-http_request :
      (what : Bytes) (r : Request) (c : Client.Client W)
      → IsConfigured c
      → Sends (http_request r) c (call W fuel what r c).1
  call-http_request what r c ok =
      let hop = one_hop (hop_of r) true (payload_of r) c ok in
      rw (call_hop what r c ok)
        (hop.0 ∙ ap (λ (q : Client.Request). q ∷ c.sent) (first_request r c ok), hop.1)
