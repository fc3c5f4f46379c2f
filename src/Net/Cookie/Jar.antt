-- ===== src/Net/Cookie/Jar.antt =====
-- `CookieJar` of lib/net/src/tb/net/http/cookie_jar.cpp. The buckets are an association list, and
-- `sort` is what `std::sort` makes of a list with longer paths first.
pub mod Stored
pub mod Sent
pub mod Lines
use twitch_bot.Prelude.{
  ℕ, ◌+◌, ◌-◌, Bool, true, false, ◌&&◌, ◌||◌, not, Option, none, some, List, [], ◌∷◌, ◌++◌, leb,
  ltb, ◌==◌, if◌then◌else◌, length, take, drop, get_or,
}
use twitch_bot.Prelude.Bytes.{Bytes, codes, equal, is_empty}
use twitch_bot.Prelude.Assoc.{lookup, erase, replace}
use twitch_bot.Net.Cookie.{Cookie, expired_at, parse_set_cookie, build_cookie_header}

-- `it->second.empty()`
abbrev pub no_cookies : List Cookie → Bool
no_cookies [] = true
no_cookies (c ∷ bag) = false

abbrev pub CookieJar : Type 0
CookieJar = List (Bytes × List Cookie)

-- `path_match` of two paths that are not empty.
unfoldable pub path_prefix : Bytes → Bytes → Bool
path_prefix req_path cookie_path =
    if ltb (length req_path) (length cookie_path)
    then false
    else if not (equal (take (length cookie_path) req_path) cookie_path)
    then false
    else length req_path == length cookie_path
      || get_or cookie_path (length cookie_path - 1) 0 == b'/'
      || get_or req_path (length cookie_path) 0 == b'/'

unfoldable pub path_match : Bytes → Bytes → Bool
path_match req_path cookie_path =
    path_prefix (if is_empty req_path then codes "/" else req_path)
      (if is_empty cookie_path then codes "/" else cookie_path)

unfoldable pub domain_match : Bytes → Bytes → Bool
domain_match host cookie_domain = equal host cookie_domain

-- `x.name == c.name && x.path == c.path`
unfoldable pub same_cookie : Bytes → Bytes → Cookie → Bool
same_cookie name path x = equal x.name name && equal x.path path

-- The first cookie of the same name and path is replaced; without one the cookie is the last.
unfoldable pub upsert : List Cookie → Cookie → List Cookie
upsert [] c = c ∷ []
upsert (x ∷ vec) c =
    let rest = upsert vec c in if same_cookie c.name c.path x then c ∷ vec else x ∷ rest

unfoldable pub erase_exact : List Cookie → Bytes → Bytes → List Cookie
erase_exact [] name path = []
erase_exact (x ∷ vec) name path =
    let rest = erase_exact vec name path in if same_cookie name path x then rest else x ∷ rest

unfoldable pub normalise : Cookie → Bytes → Bytes → Cookie
normalise c default_domain default_path = record c {
  domain = if is_empty c.domain then default_domain else c.domain;
  path =
      if is_empty c.path
      then (if is_empty default_path then codes "/" else default_path)
      else c.path;
}

-- `by_domain_[domain]` with a new bucket.
unfoldable pub set_bag : Bytes → List Cookie → CookieJar → CookieJar
set_bag domain bag jar = elim (lookup domain jar) [
  | none ↦ (domain, bag) ∷ jar
  | some _ ↦ replace domain bag jar
]

-- `store(c)`
unfoldable pub put : CookieJar → Cookie → CookieJar
put jar c =
    set_bag c.domain (upsert (elim (lookup c.domain jar) [ none ↦ [] | some bag ↦ bag ]) c) jar

-- "Expired Set-Cookie acts as a delete."
unfoldable pub delete_cookie : CookieJar → Cookie → CookieJar
delete_cookie jar c = elim (lookup c.domain jar) [
  | none ↦ jar
  | some bag ↦
      let left : List Cookie = erase_exact bag c.name c.path in
      if no_cookies left then erase c.domain jar else replace c.domain left jar
]

-- The part that both `store` with a request context and `store_from_set_cookie` have.
unfoldable pub store_at : CookieJar → Cookie → ℕ → CookieJar
store_at jar c now = if expired_at c now then delete_cookie jar c else put jar c

unfoldable pub store : CookieJar → Cookie → Bytes → Bytes → ℕ → CookieJar
store jar c default_domain default_path now =
    store_at jar (normalise c default_domain default_path) now

unfoldable pub store_from_set_cookie :
    (Bytes → Option ℕ) → CookieJar → Bytes → Bytes → Bytes → ℕ → CookieJar
store_from_set_cookie http_date jar line default_domain default_path now =
    elim (parse_set_cookie http_date line default_domain default_path) [
      | none ↦ jar
      | some c ↦ store_at jar c now
    ]

-- The tests of `matching` on a cookie.
unfoldable pub is_sent : Bytes → Bytes → Bool → ℕ → Cookie → Bool
is_sent host path is_https now c =
    if c.secure && not is_https
    then false
    else if expired_at c now
    then false
    else if not (domain_match host c.domain)
    then false
    else path_match path c.path

unfoldable pub select : Bytes → Bytes → Bool → ℕ → List Cookie → List Cookie
select host path is_https now [] = []
select host path is_https now (c ∷ bag) =
    let rest = select host path is_https now bag in
    if is_sent host path is_https now c then c ∷ rest else rest

module _ (sort : List Cookie → List Cookie) where
  unfoldable pub matching : CookieJar → Bytes → Bytes → Bool → ℕ → List Cookie
  matching jar host path is_https now = elim (lookup host jar) [
    | none ↦ []
    | some bag ↦ sort (select host path is_https now bag)
  ]

  unfoldable pub cookie_header_for : CookieJar → Bytes → Bytes → Bool → ℕ → Bytes
  cookie_header_for jar host path is_https now =
      build_cookie_header (matching jar host path is_https now)

unfoldable pub remove_expired : ℕ → List Cookie → List Cookie
remove_expired now [] = []
remove_expired now (c ∷ bag) =
    let rest = remove_expired now bag in if expired_at c now then rest else c ∷ rest

unfoldable pub purge_expired : ℕ → CookieJar → CookieJar
purge_expired now [] = []
purge_expired now (b ∷ jar) =
    let rest = purge_expired now jar in
    let left : List Cookie = remove_expired now b.1 in
    if no_cookies left then rest else (b.0, left) ∷ rest

unfoldable pub clear : CookieJar → CookieJar
clear jar = []
