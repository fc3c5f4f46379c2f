-- ===== src/Helix/Http.antt =====
-- The requests of `HelixClient` in lib/twitch_core/src/helix_client.cpp as calls of the HTTP client of
-- lib/net/src/tb/net/http/http_client.cpp. The JSON document is what the `Web` reads; `what` is the
-- message of a `system_error`.
pub mod One
pub mod Rejected
mod Tests
use twitch_bot.Prelude.{ℕ, Bool, true, false, Option, none, some, [], ◌++◌}
use twitch_bot.Prelude.Bytes.{Bytes, codes}
use twitch_bot.Helix.{
  Request, validate, token_request, streams, Reply, document, error_value, thrown,
}
use twitch_bot.Net.Redirect.{Verb, get, post, follow_none, RedirectPolicy}
use twitch_bot.Net.Client.{
  Web, Client, Outcome, parsed, system_error, runtime_error, endless, perform,
}

pub record EndPoint : Type 0 where
  pub host : Bytes
  pub port : Bytes
  pub target : Bytes

abbrev pub oauth_validate : EndPoint
oauth_validate = record {
  host = codes "id.twitch.tv";
  port = codes "443";
  target = codes "/oauth2/validate";
}

abbrev pub access_token : EndPoint
access_token = record {
  host = codes "id.twitch.tv";
  port = codes "443";
  target = codes "/oauth2/token";
}

abbrev pub helix_streams : EndPoint
helix_streams = record {
  host = codes "api.twitch.tv";
  port = codes "443";
  target = codes "/helix/streams?user_login=";
}

abbrev pub no_redirects : RedirectPolicy
no_redirects = record { max_hops = 0; mode = follow_none }

-- The verb, the endpoint with the target that is asked for, and the body.
unfoldable pub method_of : Request → Verb
method_of (validate auth) = get
method_of (token_request body) = post
method_of (streams path client_id auth) = get

unfoldable pub endpoint_of : Request → EndPoint
endpoint_of (validate auth) = oauth_validate
endpoint_of (token_request body) = access_token
endpoint_of (streams path client_id auth) = record helix_streams { target = path }

unfoldable pub payload_of : Request → Bytes
payload_of (validate auth) = []
payload_of (token_request body) = body
payload_of (streams path client_id auth) = []

-- What `HelixClient` gets; `none` is a call that does not end.
unfoldable pub reply_of : {J : Type 0} → Bytes → Outcome J → Option (Reply J)
reply_of what (parsed none) = some error_value
reply_of what (parsed (some j)) = some (document j)
reply_of what system_error = some (thrown (some what))
reply_of what (runtime_error msg) = some (thrown (some msg))
reply_of what endless = none

-- What the constructor of `HelixClient` sets in its HTTP client.
unfoldable pub configured : {W : Web} → Client W → Client W
configured c = record c { redirect_policy = no_redirects; cookies_enabled = false }

module _ (W : Web) (fuel : ℕ) where
  -- A call without options, which decodes the body.
  unfoldable pub call : Bytes → Request → Client W → Option (Reply W.J) × Client W
  call what r c =
      let at : EndPoint = endpoint_of r in
      let done = perform W fuel (method_of r) at.host at.port at.target (payload_of r) true c in
      (reply_of what done.0, done.1)
