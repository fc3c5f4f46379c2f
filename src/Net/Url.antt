-- ===== src/Net/Url.antt =====
-- lib/net/include/tb/net/http/url.hpp. `std::string` positions are numbers, `npos` is `none`, and
-- `size_t` arithmetic wraps at 2^64.
pub mod RoundTrip
pub mod Resolve
pub mod Dots
pub mod Climbs
mod Tests
use twitch_bot.Prelude.{
  ℕ, zero, suc, ◌+◌, ◌-◌, ◌%◌, ◌^◌, Bool, true, false, not, ◌||◌, Option, none, some, List, [], ◌∷◌,
  ◌++◌, ◌==◌, if◌then◌else◌, take, drop,
}
use twitch_bot.Prelude.Bytes.{Bytes, codes, has_prefix, is_empty, starts_with_byte}
use twitch_bot.Prelude.Search.{find, rfind, find_string}

pub record Url : Type 0 where
  pub scheme : Bytes
  pub host : Bytes
  pub port : Bytes
  pub path : Bytes
  pub query : Bytes

abbrev pub scheme_end : Bytes
scheme_end = codes "://"

abbrev pub authority : Url → Bytes
authority u = u.host ++ (if is_empty u.port then [] else b':' ∷ u.port)

abbrev pub target : Url → Bytes
target u =
    let path : Bytes = if is_empty u.path then b'/' ∷ [] else u.path in
    if is_empty u.query then path else path ++ u.query

abbrev pub origin : Url → Bytes
origin u = u.scheme ++ scheme_end ++ authority u

-- `if (path.empty() || path.front() != '/') path.insert(path.begin(), '/');`
unfoldable pub rooted : Bytes → Bytes
rooted path = if starts_with_byte b'/' path then path else b'/' ∷ path

-- The path and the query, at the end of `parse_url`.
unfoldable pub parse_path : Url → Bytes → Url
parse_path u s = elim (find b'?' s) [
  | none ↦ record u { path = rooted (if is_empty s then b'/' ∷ [] else s) }
  | some q ↦ record u { path = rooted (take q s); query = drop q s }
]

-- `host[:port]`, split at the last ':'.
unfoldable pub parse_authority : Url → Bytes → Url
parse_authority u auth = elim (rfind b':' auth) [
  | none ↦ record u { host = auth }
  | some colon ↦ record u { host = take colon auth; port = drop (colon + 1) auth }
]

abbrev pub no_url : Url
no_url = record { scheme = []; host = []; port = []; path = []; query = [] }

-- `parse_url` behind the scheme.
unfoldable pub parse_rest : Bytes → Bytes → Url
parse_rest scheme s = if is_empty scheme then parse_path no_url s else elim (find b'/' s) [
  | none ↦ parse_path (parse_authority (record no_url { scheme = scheme }) s) (b'/' ∷ [])
  | some slash ↦
      parse_path (parse_authority (record no_url { scheme = scheme }) (take slash s)) (drop slash s)
]

unfoldable pub parse_url : Bytes → Url
parse_url s = elim (find_string scheme_end s) [
  | none ↦ parse_rest [] s
  | some pos ↦ parse_rest (take pos s) (drop (pos + 3) s)
]

-- `size_t` subtraction.
abbrev pub sub64 : ℕ → ℕ → ℕ
sub64 a b = (a + 2 ^ 64 - b) % 2 ^ 64

-- `s.erase(pos, count)`
abbrev pub erase : Bytes → ℕ → ℕ → Bytes
erase s pos count = take pos s ++ drop (pos + count) s

-- The loop that removes "/./". It is `none` where the fuel is spent before the loop ends.
unfoldable pub remove_dots : ℕ → Bytes → Option Bytes
remove_dots zero path = none
remove_dots (suc f) path = elim (find_string (codes "/./") path) [
  | none ↦ some path
  | some i ↦ remove_dots f (erase path i 2)
]

-- `path.rfind('/', i - 1)`: for i = 0 the position is `npos`, and all of the path is searched.
abbrev pub slash_before : Bytes → ℕ → Option ℕ
slash_before path i = if i == 0 then rfind b'/' path else rfind b'/' (take i path)

-- The loop that collapses "/../", `none` where the fuel is spent before the loop ends.
unfoldable pub collapse : ℕ → Bytes → Option Bytes
collapse zero path = none
collapse (suc f) path = elim (find_string (codes "/../") path) [
  | none ↦ some path
  | some i ↦ elim (slash_before path i) [
    | none ↦ some (erase path 0 (i + 3))
    | some j ↦ collapse f (erase path j (sub64 (i + 3) j))
  ]
]

-- The path trimmed to its last '/', with the location behind it.
unfoldable pub join_path : Bytes → Bytes → Bytes
join_path path location = elim (rfind b'/' path) [
  | none ↦ b'/' ∷ location
  | some last_slash ↦ take (last_slash + 1) path ++ location
]

-- `resolve_url` with fuel for each of its two loops.
unfoldable pub resolve_url : ℕ → Url → Bytes → Option Url
resolve_url fuel base location = elim (find_string scheme_end location) [
  | some _ ↦ some (parse_url location)
  | none ↦
      if has_prefix (codes "//") location
      then some (parse_url (base.scheme ++ b':' ∷ location))
      else if starts_with_byte b'/' location
      then some (record base { path = location; query = [] })
      else elim (remove_dots fuel (join_path base.path location)) [
        | none ↦ none
        | some path ↦ elim (collapse fuel path) [
          | none ↦ none
          | some path' ↦ some (record base { path = rooted path'; query = [] })
        ]
      ]
]
