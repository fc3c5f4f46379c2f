-- ===== src/Net/Url/RoundTrip.antt =====
-- A URL printed by `origin` and `target`, and parsed.
use twitch_bot.Prelude.{
  ◌+◌, ◌≡◌, refl, ap, ◌∙◌, true, false, ◌⊎◌, inl, inr, [], ◌∷◌, ◌++◌, arith, if◌then◌else◌, length,
  length-append, take, drop, take-append_left, drop-append_left, drop-append_cons, append_assoc,
  append-nil,
}
use twitch_bot.Prelude.Bytes.{Bytes, codes, is_empty, starts_with_byte}
use twitch_bot.Prelude.Search.{
  find-append, find-Lacks, rfind-Lacks, rfind-append, find_string-append, Lacks, Lacks-append,
}
use twitch_bot.Net.Url.{
  Url, origin, target, scheme_end, rooted, parse_path, parse_authority, no_url, parse_rest,
  parse_url,
}

-- What `origin` and `target` print so that it can be read: a scheme that is not empty and has no ':',
-- a host and a port with neither ':' nor '/', a path that begins with '/' and has no '?', and a query
-- that is empty or begins with '?'.
pub record IsUrl (u : Url) : Type 0 where
  pub scheme_some : is_empty u.scheme ≡ false
  pub scheme_colon : Lacks b':' u.scheme
  pub host_slash : Lacks b'/' u.host
  pub host_colon : Lacks b':' u.host
  pub port_slash : Lacks b'/' u.port
  pub port_colon : Lacks b':' u.port
  pub path_root : starts_with_byte b'/' u.path ≡ true
  pub path_mark : Lacks b'?' u.path
  pub query_mark : (u.query ≡ []) ⊎ (starts_with_byte b'?' u.query ≡ true)

abbrev authority_of : Bytes → Bytes → Bytes
authority_of host port = host ++ (if is_empty port then [] else b':' ∷ port)

authority_of-Lacks :
    (host port : Bytes) → Lacks b'/' host → Lacks b'/' port → Lacks b'/' (authority_of host port)
authority_of-Lacks host [] h p = Lacks-append b'/' host [] h tt
authority_of-Lacks host (x ∷ xs) h p = Lacks-append b'/' host (b':' ∷ x ∷ xs) h (omega arith, p)

parse_authority-authority_of :
    (scheme host port : Bytes)
    → Lacks b':' host
    → Lacks b':' port
    → parse_authority (record no_url { scheme = scheme }) (authority_of host port)
      ≡ record no_url { scheme = scheme; host = host; port = port }
unfolding parse_authority
parse_authority-authority_of scheme host [] h p =
    ground (arith, append-nil host, rfind-Lacks b':' host h)
parse_authority-authority_of scheme host (x ∷ xs) h p = ground (
  arith,
  rfind-append b':' host (x ∷ xs) p,
  take-append_left host (b':' ∷ x ∷ xs),
  drop-append_cons host b':' (x ∷ xs),
)

abbrev target_of : Bytes → Bytes → Bytes
target_of path query =
    let shown : Bytes = if is_empty path then b'/' ∷ [] else path in
    if is_empty query then shown else shown ++ query

-- The target begins with '/'.
target_of-root :
    (path query : Bytes)
    → starts_with_byte b'/' path ≡ true
    → starts_with_byte b'/' (target_of path query) ≡ true
target_of-root [] query r = ground (arith, r)
target_of-root (x ∷ xs) [] r = r
target_of-root (x ∷ xs) (y ∷ ys) r = r

parse_path-target_of :
    (v : Url) (path query : Bytes)
    → v.query ≡ []
    → starts_with_byte b'/' path ≡ true
    → Lacks b'?' path
    → (query ≡ []) ⊎ (starts_with_byte b'?' query ≡ true)
    → parse_path v (target_of path query) ≡ record v { path = path; query = query }
unfolding parse_path rooted
parse_path-target_of v [] query fresh r m q = ground (arith, r)
parse_path-target_of v (x ∷ xs) [] fresh r m q =
    ground (arith, fresh, r, find-Lacks b'?' (x ∷ xs) m)
parse_path-target_of v (x ∷ xs) (y ∷ ys) fresh r m (inl e) = ground (arith, e)
parse_path-target_of v (x ∷ xs) (y ∷ ys) fresh r m (inr e) =
    let mark : y ≡ b'?' = ground (arith, e) in
    ap (λ k. parse_path v (x ∷ (xs ++ k ∷ ys))) mark
    ∙ ground (
      arith,
      r,
      find-append b'?' (x ∷ xs) ys m,
      take-append_left (x ∷ xs) (b'?' ∷ ys),
      drop-append_left (x ∷ xs) (b'?' ∷ ys),
      mark,
    )

parse_rest-parts :
    (scheme auth path : Bytes)
    → is_empty scheme ≡ false
    → Lacks b'/' auth
    → starts_with_byte b'/' path ≡ true
    → parse_rest scheme (auth ++ path)
      ≡ parse_path (parse_authority (record no_url { scheme = scheme }) auth) path
unfolding parse_rest
parse_rest-parts scheme auth [] s h r = ground (arith, r)
parse_rest-parts scheme auth (x ∷ xs) s h r =
    let slash : x ≡ b'/' = ground (arith, r) in
    ap (λ k. parse_rest scheme (auth ++ k ∷ xs)) slash
    ∙ ground (
      arith,
      s,
      slash,
      find-append b'/' auth xs h,
      take-append_left auth (b'/' ∷ xs),
      drop-append_left auth (b'/' ∷ xs),
    )

parse_url-scheme :
    (scheme rest : Bytes)
    → Lacks b':' scheme
    → parse_url (scheme ++ scheme_end ++ rest) ≡ parse_rest scheme rest
unfolding parse_url
parse_url-scheme scheme rest h =
    let front : take (length scheme) (scheme ++ scheme_end ++ rest) ≡ scheme =
      ap (take (length scheme)) (append_assoc scheme scheme_end rest)
      ∙ take-append_left scheme (scheme_end ++ rest) in
    let back : drop (length scheme + 3) (scheme ++ scheme_end ++ rest) ≡ rest =
      ap (λ n. drop n (scheme ++ scheme_end ++ rest)) {x = length scheme + 3}
        {y = length (scheme ++ scheme_end)} (omega (arith, length-append scheme scheme_end))
      ∙ drop-append_left (scheme ++ scheme_end) rest in
    ground (arith, find_string-append b':' (codes "//") scheme rest h, front, back)

-- Parsing what `origin` and `target` print gives the URL back, if it has a scheme that is not empty and
-- has no ':', a host and a port with neither ':' nor '/', a path that begins with '/' and has no '?',
-- and a query that is empty or begins with '?'.
pub parse_url-print : (u : Url) → IsUrl u → parse_url (origin u ++ target u) ≡ u
parse_url-print u w =
    let auth : Bytes = authority_of u.host u.port in
    let shown : Bytes = target_of u.path u.query in
    ap parse_url (append_assoc (u.scheme ++ scheme_end) auth shown)
    ∙ parse_url-scheme u.scheme (auth ++ shown) w.scheme_colon
    ∙ parse_rest-parts u.scheme auth shown w.scheme_some
        (authority_of-Lacks u.host u.port w.host_slash w.port_slash)
        (target_of-root u.path u.query w.path_root)
    ∙ ap (λ v. parse_path v shown)
        (parse_authority-authority_of u.scheme u.host u.port w.host_colon w.port_colon)
    ∙ parse_path-target_of (record no_url { scheme = u.scheme; host = u.host; port = u.port })
        u.path u.query refl w.path_root w.path_mark w.query_mark
