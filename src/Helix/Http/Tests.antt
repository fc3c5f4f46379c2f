-- ===== src/Helix/Http/Tests.antt =====
-- A server that fails, and calls to it.
use twitch_bot.Prelude.{◌≡◌, refl, ◌||◌, ◌==◌, true, none, some, [], ◌∷◌, arith}
use twitch_bot.Prelude.Bytes.{Bytes, codes}
use twitch_bot.Helix.{token_request, streams, thrown, is_unauthorised}
use twitch_bot.Helix.Http.{configured, call}
use twitch_bot.Helix.Http.One.{http_request, Sends, configured-IsConfigured, call-http_request}
use twitch_bot.Helix.Http.Rejected.{has_401, path_of, call-is_unauthorised}
use twitch_bot.Net.Redirect.{follow_all, is_redirect_status}
use twitch_bot.Net.Client
use twitch_bot.Net.Client.{Web, Response}

abbrev unavailable : Response
unavailable = record {
  status = 503;
  location = none;
  set_cookies = codes "a=b" ∷ [];
  content_encoding = none;
  body = [];
}

abbrev failing : Web
failing = record {
  E = Unit {0};
  J = Bytes;
  exchange = λ r e. (some unavailable, e);
  now = λ e. 0;
  http_date = λ s. none;
  sort = λ l. l;
  gzip_decode = λ s. none;
  br_decode = λ s. none;
  read_json = λ s. some s;
}

abbrev client : Client.Client failing
client = record {
  redirect_policy = record { max_hops = 5; mode = follow_all };
  cookies_enabled = true;
  cookies = [];
  world = tt;
  sent = [];
}

call-http_request_example :
    Sends
      (http_request (token_request (codes "grant_type=refresh_token")))
      (configured client)
      (call failing 9
        (codes "reset")
        (token_request (codes "grant_type=refresh_token"))
        (configured client)).1
call-http_request_example =
    call-http_request failing 9 (codes "reset") (token_request (codes "grant_type=refresh_token"))
      (configured client) (configured-IsConfigured client)

-- A 503 for the channel "user401" is taken for a failed authorisation.
call-is_unauthorised_example :
    (msg : Bytes) × (((call failing 9
          (codes "reset")
          (streams (path_of (codes "user401")) (codes "id") (codes "Bearer t"))
          (configured client)).0
        ≡ some (thrown (some msg)))
      × (is_unauthorised msg ≡ (has_401 (codes "user401") || 503 == 401)))
unfolding is_redirect_status
call-is_unauthorised_example =
    call-is_unauthorised failing 9 (codes "reset") (codes "user401") (codes "id") (codes "Bearer t")
      (configured client) unavailable (configured-IsConfigured client) refl refl refl (omega arith)
