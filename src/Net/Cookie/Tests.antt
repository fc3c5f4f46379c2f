-- ===== src/Net/Cookie/Tests.antt =====
-- Lines, requests and a purge.
use twitch_bot.Prelude.{ℕ, ◌≡◌, refl, Bool, true, false, Option, none, some, List, [], ◌∷◌}
use twitch_bot.Prelude.Bytes.{Bytes, codes, equal, to_lower, lower_byte}
use twitch_bot.Prelude.Search.{find}
use twitch_bot.Prelude.Assoc.{lookup, erase, replace}
use twitch_bot.Net.Cookie.{
  pos, Cookie, make_cookie, max_age_over, expired_at, ltrim, rtrim, trim, ieq, split_parts,
  digits_value, starts_with_digit, from_chars, strip_dot, set_same_site, set_attribute,
  read_attribute, read_attributes, read_cookie, parse_set_cookie, header_from, build_cookie_header,
}
use twitch_bot.Net.Cookie.Jar.{
  CookieJar, path_prefix, path_match, domain_match, same_cookie, upsert, erase_exact, normalise,
  set_bag, put, delete_cookie, store_at, store, store_from_set_cookie, is_sent, select, matching,
  cookie_header_for,
}
use twitch_bot.Net.Cookie.Jar.Stored.{
  IsJar, has_cookie, Operation, puts, stores_line, purges, operate_all, operate_all-IsJar,
}
use twitch_bot.Net.Cookie.Jar.Sent.{In, stored, KeepsMembers, MaySend}
use twitch_bot.Net.Cookie.Jar.Lines.{matching-store_from_set_cookie}

abbrev no_date : Bytes → Option ℕ
no_date s = none

abbrev as_is : List Cookie → List Cookie
as_is l = l

as_is-KeepsMembers : KeepsMembers as_is
as_is-KeepsMembers c l = (λ e. e, λ e. e)

abbrev line : Bytes
line = codes "id = 7 ; Path=/a; SECURE; Max-Age=60"

abbrev parsed : Cookie
parsed = record (make_cookie (codes "id") (codes "7")) {
  domain = codes "x.tv";
  path = codes "/a";
  secure = true;
  max_age = some (pos 60);
}

abbrev jar : CookieJar
jar = (codes "x.tv", record parsed { name = codes "old"; expires = some 3 } ∷ parsed ∷ []) ∷ []

abbrev operations : List Operation
operations =
    stores_line line (codes "X.tv") [] 1 ∷ puts (make_cookie (codes "a") []) ∷ purges 9 ∷ []

operate_all-IsJar_example : IsJar (operate_all no_date operations [])
operate_all-IsJar_example = operate_all-IsJar no_date operations

jar-IsJar : IsJar jar
unfolding lookup same_cookie equal make_cookie
jar-IsJar = ((refl, (refl, (refl, (refl, (refl, (refl, tt)))))), tt)

line_parsed : parse_set_cookie no_date line (codes "X.tv") [] ≡ some parsed
unfolding make_cookie ltrim rtrim trim ieq split_parts digits_value starts_with_digit from_chars
    strip_dot set_same_site set_attribute read_attribute read_attributes read_cookie
    parse_set_cookie find equal to_lower lower_byte
line_parsed = refl

matching-store_from_set_cookie_example :
    (expired_at parsed 1 ≡ false
      → (host req_path : Bytes) (is_https : Bool) (later : ℕ)
      → MaySend host req_path is_https later parsed
      → In parsed (
          matching as_is
            (store_from_set_cookie no_date [] line (codes "X.tv") [] 1)
            host
            req_path
            is_https
            later))
    × (expired_at parsed 1 ≡ true
        → has_cookie parsed.name parsed.path
            (stored parsed.domain (store_from_set_cookie no_date [] line (codes "X.tv") [] 1))
          ≡ false)
matching-store_from_set_cookie_example =
    matching-store_from_set_cookie no_date as_is [] line (codes "X.tv") [] 1 parsed
      as_is-KeepsMembers line_parsed

headers_of_requests : Unit {0}
unfolding make_cookie ltrim rtrim trim ieq split_parts digits_value starts_with_digit from_chars
    strip_dot set_same_site set_attribute read_attribute read_attributes read_cookie
    parse_set_cookie find equal to_lower lower_byte lookup erase replace max_age_over expired_at
    path_prefix path_match domain_match same_cookie upsert erase_exact normalise set_bag put
    delete_cookie store_at store store_from_set_cookie is_sent select matching cookie_header_for
    header_from build_cookie_header
headers_of_requests =
    let kept = store_from_set_cookie no_date [] line (codes "X.tv") [] 1 in
    let sent : cookie_header_for as_is kept (codes "x.tv") (codes "/a/b") true 5 ≡ codes "id=7" =
      refl in
    let plain : cookie_header_for as_is kept (codes "x.tv") (codes "/a/b") false 5 ≡ [] = refl in
    let outside : cookie_header_for as_is kept (codes "x.tv") (codes "/ab") true 5 ≡ [] = refl in
    let gone : store_from_set_cookie no_date kept (codes "id=; path=/a; max-age=-1") (codes "x.tv")
          [] 1
        ≡ [] =
      refl in
    tt
