-- ===== src/Net/Cookie.antt =====
-- `Cookie`, `parse_set_cookie` and `build_cookie_header` of lib/net/src/tb/net/http/cookie.cpp and
-- lib/net/include/tb/net/http/cookie.hpp. A time point is the number of its ticks, and `http_date` is
-- what `parse_http_date` gets from `std::get_time` and `timegm`.
pub mod Jar
mod Tests
use twitch_bot.Prelude.{
  ℕ, zero, suc, ◌+◌, ◌-◌, ◌*◌, Bool, true, false, ◌&&◌, ◌||◌, not, Option, none, some, List, [],
  ◌∷◌, ◌++◌, leb, ltb, ◌==◌, if◌then◌else◌, length, take, drop,
}
use twitch_bot.Prelude.Bytes.{Bytes, codes, equal, is_empty, starts_with_byte, to_lower, lower_byte}
use twitch_bot.Prelude.Search.{find}

-- A number of seconds: `pos n` is n, `negsuc n` is -(n + 1).
pub data ℤ : Type 0 where
  pos negsuc : ℕ → ℤ

pub data SameSite : Type 0 where
  k_null k_lax k_strict k_none : SameSite

pub record Cookie : Type 0 where
  pub name : Bytes
  pub value : Bytes
  pub domain : Bytes
  pub path : Bytes
  pub secure : Bool
  pub http_only : Bool
  pub partitioned : Bool
  pub max_age : Option ℤ
  pub expires : Option ℕ
  pub same_site : SameSite

-- `Cookie c{ name, value }`
unfoldable pub make_cookie : Bytes → Bytes → Cookie
make_cookie name value = record {
  name = name;
  value = value;
  domain = [];
  path = codes "/";
  secure = false;
  http_only = true;
  partitioned = false;
  max_age = none;
  expires = none;
  same_site = k_null;
}

-- `max_age && *max_age <= 0`
unfoldable pub max_age_over : Option ℤ → Bool
max_age_over none = false
max_age_over (some (pos n)) = n == 0
max_age_over (some (negsuc n)) = true

unfoldable pub expired_at : Cookie → ℕ → Bool
expired_at c now =
    if max_age_over c.max_age then true else elim c.expires [ none ↦ false | some t ↦ leb t now ]

unfoldable pub ltrim : Bytes → Bytes
ltrim [] = []
ltrim (c ∷ s) = let rest = ltrim s in if leb c 32 then rest else c ∷ s

unfoldable pub rtrim : Bytes → Bytes
rtrim [] = []
rtrim (c ∷ s) = let rest = rtrim s in if is_empty rest && leb c 32 then [] else c ∷ rest

unfoldable pub trim : Bytes → Bytes
trim s = rtrim (ltrim s)

unfoldable pub ieq : Bytes → Bytes → Bool
ieq [] [] = true
ieq (a ∷ s) (b ∷ t) = lower_byte a == lower_byte b && ieq s t
ieq _ _ = false

-- The parts between ';'. Each round drops a byte at least.
unfoldable pub split_parts : ℕ → Bytes → List Bytes
split_parts zero sv = []
split_parts (suc f) [] = []
split_parts (suc f) (x ∷ xs) =
    let sv : Bytes = x ∷ xs in
    elim (find b';' sv) [
      | none ↦ trim sv ∷ []
      | some at ↦ let rest = split_parts f (drop (at + 1) sv) in trim (take at sv) ∷ rest
    ]

-- `std::from_chars` for an `int`: digits behind an optional '-', in the range of 32 bits.
unfoldable pub digits_value : ℕ → Bytes → ℕ
digits_value v [] = v
digits_value v (c ∷ s) =
    let rest = digits_value (v * 10 + (c - b'0')) s in if leb b'0' c && leb c b'9' then rest else v

unfoldable pub starts_with_digit : Bytes → Bool
starts_with_digit [] = false
starts_with_digit (c ∷ s) = leb b'0' c && leb c b'9'

unfoldable pub from_chars : Bytes → Option ℤ
from_chars s =
    let v : ℕ = digits_value 0 (drop 1 s) in
    let u : ℕ = digits_value 0 s in
    if starts_with_byte b'-' s
    then (if starts_with_digit (drop 1 s) && leb v 2147483648
        then some (elim v [ zero ↦ pos 0 | suc n ↦ negsuc n ])
        else none)
    else if starts_with_digit s && leb u 2147483647
    then some (pos u)
    else none

-- A domain without its first '.'.
unfoldable pub strip_dot : Bytes → Bytes
strip_dot d = if starts_with_byte b'.' d then drop 1 d else d

unfoldable pub set_same_site : Bytes → Cookie → Cookie
set_same_site lv c =
    if equal lv (codes "lax")
    then record c { same_site = k_lax }
    else if equal lv (codes "strict")
    then record c { same_site = k_strict }
    else if equal lv (codes "none")
    then record c { same_site = k_none; secure = true }
    else record c { same_site = k_null }

module _ (http_date : Bytes → Option ℕ) where
  -- The chain of tests on the attribute's name `k`, with its value `v`.
  unfoldable pub set_attribute : Bytes → Bytes → Cookie → Cookie
  set_attribute k v c =
      if ieq k (codes "expires")
      then elim (http_date v) [ none ↦ c | some t ↦ record c { expires = some t } ]
      else if ieq k (codes "max-age")
      then elim (from_chars v) [ none ↦ c | some secs ↦ record c { max_age = some secs } ]
      else if ieq k (codes "domain")
      then record c { domain = strip_dot (to_lower v) }
      else if ieq k (codes "path")
      then record c { path = if is_empty v then codes "/" else v }
      else if ieq k (codes "secure")
      then record c { secure = true }
      else if ieq k (codes "httponly")
      then record c { http_only = true }
      else if ieq k (codes "samesite")
      then set_same_site (to_lower v) c
      else if ieq k (codes "partitioned")
      then record c { partitioned = true; secure = true }
      else c

  -- One part: nothing if it is empty, else its name and value by the first '='.
  unfoldable pub read_attribute : Bytes → Cookie → Cookie
  read_attribute attr c = if is_empty attr then c else elim (find b'=' attr) [
    | none ↦ set_attribute (trim attr) [] c
    | some at ↦ set_attribute (trim (take at attr)) (trim (drop (at + 1) attr)) c
  ]

  unfoldable pub read_attributes : List Bytes → Cookie → Cookie
  read_attributes [] c = c
  read_attributes (attr ∷ attrs) c = read_attributes attrs (read_attribute attr c)

  -- The part `name=value` and the attributes.
  unfoldable pub read_cookie : Bytes → List Bytes → Bytes → Bytes → Option Cookie
  read_cookie nv attrs default_domain default_path = elim (find b'=' nv) [
    | none ↦ none
    | some eq ↦
        let name : Bytes = trim (take eq nv) in
        let made : Cookie = make_cookie name (trim (drop (eq + 1) nv)) in
        if is_empty name
        then none
        else some (
            read_attributes attrs record made {
              domain = strip_dot (to_lower default_domain);
              path = if is_empty default_path then codes "/" else default_path;
            })
  ]

  unfoldable pub parse_set_cookie : Bytes → Bytes → Bytes → Option Cookie
  parse_set_cookie line default_domain default_path = elim (split_parts (length line) line) [
    | [] ↦ none
    | nv ∷ attrs ↦ read_cookie nv attrs default_domain default_path
  ]

-- The loop of `build_cookie_header`, from `first`.
unfoldable pub header_from : Bool → List Cookie → Bytes
header_from first [] = []
header_from first (c ∷ cookies) =
    let skipped = header_from first cookies in
    let rest = header_from false cookies in
    if is_empty c.name
    then skipped
    else (if first then [] else codes "; ") ++ c.name ++ codes "=" ++ c.value ++ rest

unfoldable pub build_cookie_header : List Cookie → Bytes
build_cookie_header cookies = header_from true cookies
