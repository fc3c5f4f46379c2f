-- ===== src/Net/Url/Tests.antt =====
-- Runs on concrete URLs.
use twitch_bot.Prelude.{◌≡◌, refl, inr, none, some, [], ◌∷◌, ◌++◌, ℕ, ap, arith}
use twitch_bot.Prelude.Bytes.{Bytes, codes, has_prefix}
use twitch_bot.Prelude.Search.{find, rfind, find_string, Lacks-of_find}
use twitch_bot.Net.Url.{
  Url, origin, target, rooted, parse_path, parse_authority, parse_rest, parse_url, remove_dots,
  collapse, join_path, resolve_url,
}
use twitch_bot.Net.Url.RoundTrip.{IsUrl, parse_url-print}
use twitch_bot.Net.Url.Resolve.{resolve_url-climb}
use twitch_bot.Net.Url.Climbs.{resolve_url-climbs}
use twitch_bot.Net.Url.Dots.{AreOther}

urls : Unit {0}
unfolding has_prefix find rfind find_string rooted parse_path parse_authority parse_rest parse_url
    remove_dots collapse join_path resolve_url
urls = tt

abbrev api : Url
api = record {
  scheme = codes "https";
  host = codes "a.tv";
  port = codes "443";
  path = codes "/v1/users";
  query = codes "?id=7";
}

parse-api : parse_url (codes "https://a.tv:443/v1/users?id=7") ≡ api
unfolding urls
parse-api = refl

resolve-sibling :
    resolve_url 2 api (codes "x/../y") ≡ some (record api { path = codes "/v1/y"; query = [] })
unfolding urls
resolve-sibling = refl

api-IsUrl : IsUrl api
unfolding urls
api-IsUrl = record {
  scheme_some = refl;
  scheme_colon = Lacks-of_find b':' api.scheme refl;
  host_slash = Lacks-of_find b'/' api.host refl;
  host_colon = Lacks-of_find b':' api.host refl;
  port_slash = Lacks-of_find b'/' api.port refl;
  port_colon = Lacks-of_find b':' api.port refl;
  path_root = refl;
  path_mark = Lacks-of_find b'?' api.path refl;
  query_mark = inr refl;
}

parse_url-print_example : parse_url (origin api ++ target api) ≡ api
parse_url-print_example = parse_url-print api api-IsUrl

abbrev deep : Url
deep = record api { path = codes "/v1/a/b/7" }

abbrev first : Bytes → ℕ
first [] = 0
first (x ∷ xs) = x

-- The segments of `deep`, against one that begins with a dot.
deep-AreOther : (w : Bytes) → first w ≡ 46 → AreOther w (codes "v1" ∷ codes "a" ∷ codes "b" ∷ [])
unfolding urls
deep-AreOther w dot = (
  (Lacks-of_find b'/' (codes "v1") refl, λ e. absurd (omega (arith, dot, ap first e))),
  (
    (Lacks-of_find b'/' (codes "a") refl, λ e. absurd (omega (arith, dot, ap first e))),
    ((Lacks-of_find b'/' (codes "b") refl, λ e. absurd (omega (arith, dot, ap first e))), tt),
  ),
)

resolve_url-climbs_example :
    resolve_url 3 deep (codes "../../me") ≡ some (record deep { path = codes "/v1/me"; query = [] })
unfolding urls
resolve_url-climbs_example =
    resolve_url-climbs 3 deep (codes "v1" ∷ []) (codes "b" ∷ codes "a" ∷ []) (codes "7")
      (codes "me") refl (deep-AreOther (codes "..") refl) (deep-AreOther (codes ".") refl)
      (Lacks-of_find b'/' (codes "7") refl) (Lacks-of_find b'/' (codes "me") refl) (omega arith)
      (omega arith)

abbrev root_file : Url
root_file = record api { path = codes "/a" }

resolve_url-climb_example : resolve_url 9 root_file (codes "../" ++ codes "b/c") ≡ none
unfolding urls
resolve_url-climb_example =
    resolve_url-climb 9 root_file (codes "a") (codes "b/c") refl
      (Lacks-of_find b'/' (codes "a") refl) refl refl (omega arith)
