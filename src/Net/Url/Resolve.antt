-- ===== src/Net/Url/Resolve.antt =====
-- `resolve_url` on relative locations: the loop on "/../" at the front of a path.
use twitch_bot.Prelude.{
  ℕ, zero, suc, ◌+◌, ◌^◌, ◌<◌, ◌≡◌, ◌⊎◌, refl, sym, ap, ◌∙◌, false, inl, inr, Option, none, some,
  [], ◌∷◌, ◌++◌, arith, Option-cases, length, length-append, take, drop, drop_all, length-take,
  append-nil, append_assoc, take-append_left,
}
use twitch_bot.Prelude.Bytes.{Bytes, codes, has_prefix, starts_with_byte}
use twitch_bot.Prelude.Search.{rfind, rfind-lt, rfind-append, find_string, Lacks}
use twitch_bot.Net.Url.{
  Url, scheme_end, rooted, sub64, erase, slash_before, remove_dots, collapse, join_path,
  resolve_url,
}

abbrev pub climb : Bytes → Bytes
climb rest = codes "/../" ++ rest

-- The last '/' of the path is that of "/../" or one of the rest.
rfind-climb :
    (rest : Bytes)
    → (rfind b'/' (climb rest) ≡ some 3)
      ⊎ ((k : ℕ) × ((k < length rest) × (rfind b'/' (climb rest) ≡ some (k + 4))))
unfolding rfind
rfind-climb rest = elim (Option-cases (rfind b'/' rest)) [
  | inl nothing ↦ inl (ground (arith, nothing))
  | inr (k, hit) ↦ inr (k, (rfind-lt b'/' rest k hit, ground (arith, hit)))
]

erase-climb_first : (rest : Bytes) → erase (climb rest) 3 (sub64 3 3) ≡ climb rest
erase-climb_first rest = refl

erase-climb :
    (rest : Bytes) (k : ℕ)
    → k < length rest
    → length rest < 2 ^ 63
    → erase (climb rest) (k + 4) (sub64 3 (k + 4)) ≡ climb (take k rest)
erase-climb rest k h small =
    let kept : take (k + 4) (climb rest) ≡ climb (take k rest) =
      ap (λ n. take n (climb rest)) {x = k + 4} {y = suc (suc (suc (suc k)))} (omega arith) in
    let gone : drop (k + 4 + sub64 3 (k + 4)) (climb rest) ≡ [] =
      drop_all (k + 4 + sub64 3 (k + 4)) (climb rest) (omega (arith, h, small)) in
    rw (gone, kept) (append-nil (climb (take k rest)))

find_string-climb : (rest : Bytes) → find_string (codes "/../") (climb rest) ≡ some 0
unfolding find_string has_prefix
find_string-climb rest = refl

collapse-zero : (path : Bytes) → collapse zero path ≡ none
unfolding collapse
collapse-zero path = refl

-- A round of the loop.
collapse_round :
    (f : ℕ) (rest : Bytes) (j : ℕ)
    → rfind b'/' (climb rest) ≡ some j
    → collapse (suc f) (climb rest) ≡ collapse f (erase (climb rest) j (sub64 3 j))
unfolding collapse
collapse_round f rest j last = rw (collapse, find_string-climb rest, slash_before, last) refl

-- No fuel is enough for the loop on a path that begins with "/../": it erases the path down to "/../"
-- and then nothing. The path is shorter than 2^63 bytes.
collapse-climb : (f : ℕ) (rest : Bytes) → length rest < 2 ^ 63 → collapse f (climb rest) ≡ none
collapse-climb zero rest small = collapse-zero (climb rest)
collapse-climb (suc f) rest small = elim (rfind-climb rest) [
  | inl first ↦
      rw (collapse_round f rest 3 first, erase-climb_first rest) (collapse-climb f rest small)
  | inr (k, (inside, later)) ↦
      rw (collapse_round f rest (k + 4) later, erase-climb rest k inside small)
        (collapse-climb f (take k rest) (omega (arith, length-take k rest, small)))
]

-- What follows the second loop, and the first.
abbrev pub resolved : Url → Option Bytes → Option Url
resolved base none = none
resolved base (some path) = some (record base { path = rooted path; query = [] })

abbrev pub then_collapse : ℕ → Url → Option Bytes → Option Url
then_collapse fuel base none = none
then_collapse fuel base (some path) = resolved base (collapse fuel path)

not_scheme_relative :
    (s : Bytes) → starts_with_byte b'/' s ≡ false → has_prefix (codes "//") s ≡ false
unfolding has_prefix
not_scheme_relative [] h = refl
not_scheme_relative (x ∷ xs) h = ground (arith, h)

-- A relative location that does not name a scheme and does not begin with '/' goes to the two loops.
pub resolve_url_loops :
    (fuel : ℕ) (base : Url) (location : Bytes)
    → find_string scheme_end location ≡ none
    → starts_with_byte b'/' location ≡ false
    → resolve_url fuel base location
      ≡ then_collapse fuel base (remove_dots fuel (join_path base.path location))
unfolding resolve_url
resolve_url_loops fuel base location relative unrooted =
    ground (arith, relative, unrooted, not_scheme_relative location unrooted)

pub join_path-append :
    (dir file location : Bytes)
    → Lacks b'/' file
    → join_path (dir ++ b'/' ∷ file) location ≡ dir ++ b'/' ∷ location
unfolding join_path
join_path-append dir file location h =
    let kept : take (length dir + 1) (dir ++ b'/' ∷ file) ≡ dir ++ b'/' ∷ [] =
      ap (λ n. take n (dir ++ b'/' ∷ file)) {x = length dir + 1} {y = length (dir ++ b'/' ∷ [])}
        (omega (arith, length-append dir (b'/' ∷ [])))
      ∙ ap (take (length (dir ++ b'/' ∷ []))) (sym (append_assoc dir (b'/' ∷ []) file))
      ∙ take-append_left (dir ++ b'/' ∷ []) file in
    rw (join_path, rfind-append b'/' dir file h, kept) (append_assoc dir (b'/' ∷ []) location)

remove_dots-zero : (path : Bytes) → remove_dots zero path ≡ none
unfolding remove_dots
remove_dots-zero path = refl

pub remove_dots_done :
    (f : ℕ) (path : Bytes)
    → find_string (codes "/./") path ≡ none
    → remove_dots (suc f) path ≡ some path
unfolding remove_dots
remove_dots_done f path clean = rw (remove_dots, clean) refl

pub collapse_done :
    (f : ℕ) (path : Bytes)
    → find_string (codes "/../") path ≡ none
    → collapse (suc f) path ≡ some path
unfolding collapse
collapse_done f path clean = rw (collapse, clean) refl

-- With a base whose path is '/' and a name, no fuel is enough to resolve a location that begins with
-- "../", has no "://" and gives a path with no "/./": a server that redirects there stops the client.
pub resolve_url-climb :
    (fuel : ℕ) (base : Url) (file rest : Bytes)
    → base.path ≡ b'/' ∷ file
    → Lacks b'/' file
    → find_string scheme_end (codes "../" ++ rest) ≡ none
    → find_string (codes "/./") (climb rest) ≡ none
    → length rest < 2 ^ 63
    → resolve_url fuel base (codes "../" ++ rest) ≡ none
resolve_url-climb fuel base file rest at_path h relative no_dot small =
    let joined : join_path base.path (codes "../" ++ rest) ≡ climb rest =
      ap (λ p. join_path p (codes "../" ++ rest)) at_path
      ∙ join_path-append [] file (codes "../" ++ rest) h in
    resolve_url_loops fuel base (codes "../" ++ rest) relative refl
    ∙ ap (λ p. then_collapse fuel base (remove_dots fuel p)) joined
    ∙ stuck fuel
  where
    stuck : (g : ℕ) → then_collapse g base (remove_dots g (climb rest)) ≡ none
    stuck zero = ap (then_collapse zero base) (remove_dots-zero (climb rest))
    stuck (suc g) =
        ap (then_collapse (suc g) base) (remove_dots_done g (climb rest) no_dot)
        ∙ ap (resolved base) (collapse-climb (suc g) rest small)
