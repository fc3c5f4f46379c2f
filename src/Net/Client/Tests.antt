-- ===== src/Net/Client/Tests.antt =====
-- A web of two answers, and calls in it.
use twitch_bot.Prelude.{◌≡◌, refl, true, false, Option, none, some, List, [], ◌∷◌, length}
use twitch_bot.Prelude.Bytes.{Bytes, codes, equal, has_prefix, to_lower, lower_byte}
use twitch_bot.Prelude.Search.{find, find_string}
use twitch_bot.Net.Url.{parse_rest, parse_url, resolve_url}
use twitch_bot.Net.Redirect.{
  get, post, safe_only, is_redirect_status, keep_method_on_redirect, post_to_get, next_verb,
  is_safe, allowed_by, allow_hop,
}
use twitch_bot.Net.Encoding.{
  is_space, trim_front, trim_back, trim_token, add_coding, read_token, parse_from,
  parse_content_encoding, decode,
}
use twitch_bot.Net.Client.{
  Request, Response, Web, Client, parsed, runtime_error, path_from_target, default_port_for_scheme,
  host_header_value, status_digits, make_error_msg, base_url, with_port, RetryOptions, body_of,
  follow, redirect, read_body, turn, store_all, receive, request_of, send, perform_from, perform,
  is_retried, attempts_from, get_with_retry,
}

unfoldable scripted_answer : Request → List Response → Option Response × List Response
scripted_answer r [] = (none, [])
scripted_answer r (res ∷ more) = (some res, more)

abbrev scripted : Web
scripted = record {
  E = List Response;
  J = Bytes;
  exchange = scripted_answer;
  now = λ e. 0;
  http_date = λ s. none;
  sort = λ l. l;
  gzip_decode = λ s. some (codes "unzipped");
  br_decode = λ s. none;
  read_json = λ s. some s;
}

abbrev moved : Response
moved = record {
  status = 302;
  location = some (codes "/new");
  set_cookies = [];
  content_encoding = none;
  body = [];
}

abbrev fine : Response
fine = record {
  status = 200;
  location = none;
  set_cookies = [];
  content_encoding = some (codes " X-GZIP");
  body = codes "zz";
}

abbrev broken : Response
broken = record {
  status = 503;
  location = none;
  set_cookies = [];
  content_encoding = none;
  body = [];
}

abbrev client_on : List Response → Client scripted
client_on replies = record {
  redirect_policy = record { max_hops = 5; mode = safe_only };
  cookies_enabled = false;
  cookies = [];
  world = replies;
  sent = [];
}

abbrev three_times : RetryOptions
three_times = record { max_attempts = 3; retry_on_network_error = true; retry_on_5xx = true }

calls : Unit {0}
unfolding scripted_answer equal has_prefix to_lower lower_byte find find_string parse_rest parse_url
    resolve_url is_redirect_status keep_method_on_redirect post_to_get next_verb is_safe allowed_by
    allow_hop is_space trim_front trim_back trim_token add_coding read_token parse_from
    parse_content_encoding decode path_from_target default_port_for_scheme host_header_value
    status_digits make_error_msg base_url with_port body_of follow redirect read_body turn store_all
    receive request_of send perform_from perform is_retried attempts_from get_with_retry
calls =
    let call =
      perform scripted 9 post (codes "h") [] (codes "/old") (codes "x") true
        (client_on (moved ∷ fine ∷ [])) in
    let body : call.0 ≡ parsed (some (codes "unzipped")) = refl in
    let two : length call.1.sent ≡ 2 = refl in
    let again =
      get_with_retry scripted 9 three_times (codes "h") [] (codes "/") true
        (client_on (broken ∷ fine ∷ [])) in
    let retried : again.0 ≡ parsed (some (codes "unzipped")) = refl in
    let once =
      perform scripted 9 get (codes "h") [] (codes "/") [] true (client_on (broken ∷ [])) in
    let message : once.0 ≡ runtime_error (codes "h/ returned 503") = refl in tt
