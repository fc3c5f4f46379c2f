-- ===== src/Helix/Tests.antt =====
-- A scripted world, and the client in it.
use twitch_bot.Prelude.{ℕ, ◌+◌, ◌≡◌, refl, some, List, [], ◌∷◌, ltb, arith, length}
use twitch_bot.Prelude.Bytes.{Bytes, codes, has_prefix}
use twitch_bot.Prelude.Search.{find_string}
use twitch_bot.Helix.{
  Request, Reply, document, error_value, thrown, Streams, started_at, World, HelixClient, perform,
  expire_after, clear_token, validated, validate_token, build_refresh_token_request_body, persist,
  fetched, fetch_token, refresh_token, renew, looks_fresh, ensure_valid_token, stream_status,
  do_request, is_unauthorised, status_of, retry, settle, get_stream_status,
}
use twitch_bot.Helix.Form.{is_unreserved, hex_digit, form_urlencode, digit_value, percent_decode}
use twitch_bot.Helix.Dates.{
  digit, digits_from, parse_digits, widen, era_of, days_from_civil, is_iso8601, parse_iso8601_ms,
}
use twitch_bot.Helix.Dates.Calendar.{nth_day, days_from_civil-nth_day}

-- What the servers scripted_answer, in order.
unfoldable scripted_answer :
    Request
    → List (Reply (Bytes × Streams))
    → Reply (Bytes × Streams) × List (Reply (Bytes × Streams))
scripted_answer r [] = (error_value, [])
scripted_answer r (reply ∷ replies) = (reply, replies)

abbrev scripted : World
scripted = record {
  E = List (Reply (Bytes × Streams));
  J = Bytes × Streams;
  Time = ℕ;
  Lifetime = ℕ;
  exchange = scripted_answer;
  now = λ e. (5, e);
  earlier = ltb;
  after = λ t l. t + l;
  expires_in = λ j. some 3600;
  access_token = λ j. some j.0;
  stream_data = λ j. j.1;
}

abbrev client : HelixClient scripted
client = record {
  client_id = codes "id";
  client_secret = codes "s&t";
  refresh_token_value = codes "r";
  token = codes "old";
  token_expiry = 9;
  world =
      document (codes "", started_at [])
      ∷ thrown (some (codes "HTTP 401"))
      ∷ document (codes "new", started_at [])
      ∷ document (codes "", started_at (codes "2024-02-29T12:00:01Z"))
      ∷ [];
  sent = [];
  persisted = [];
}

days_from_civil-nth_day_example :
    days_from_civil (nth_day 20).year (nth_day 20).month (nth_day 20).day ≡ 20
days_from_civil-nth_day_example = days_from_civil-nth_day 20 (omega arith)

run_with_a_401 : Unit {0}
unfolding scripted_answer perform expire_after clear_token validated validate_token
    build_refresh_token_request_body persist fetched fetch_token refresh_token renew looks_fresh
    ensure_valid_token stream_status do_request is_unauthorised status_of retry settle
    get_stream_status is_unreserved hex_digit form_urlencode digit digits_from parse_digits widen
    era_of days_from_civil is_iso8601 parse_iso8601_ms find_string has_prefix digit_value
    percent_decode
run_with_a_401 =
    let done = get_stream_status (codes "zoe") client in
    let found : done.0 ≡ some 1709208001000 = refl in
    let token : done.1.token ≡ codes "new" = refl in
    let requests : length done.1.sent ≡ 4 = refl in
    let body : form_urlencode (codes "s&t") ≡ codes "s%26t" = refl in tt
