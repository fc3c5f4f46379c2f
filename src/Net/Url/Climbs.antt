-- ===== src/Net/Url/Climbs.antt =====
-- `resolve_url` on locations that climb with "../" over segments of the base.
use twitch_bot.Prelude.{
  ℕ, zero, suc, ◌+◌, ◌^◌, ◌<◌, ◌≡◌, refl, sym, ap, ◌∙◌, false, none, some, List, [], ◌∷◌, ◌++◌,
  arith, ◌==◌, length, length-append, take, drop, append_assoc, take-append_left, drop-drop,
  drop-append_left, subst,
}
use twitch_bot.Prelude.Bytes.{Bytes, codes, has_prefix, starts_with_byte}
use twitch_bot.Prelude.Search.{find, rfind-append, find_string, Lacks, Lacks-of_find}
use twitch_bot.Net.Url.{
  Url, scheme_end, rooted, sub64, erase, slash_before, remove_dots, collapse, join_path,
  resolve_url,
}
use twitch_bot.Net.Url.Resolve.{
  resolved, then_collapse, resolve_url_loops, join_path-append, remove_dots_done, collapse_done,
}
use twitch_bot.Net.Url.Dots.{
  segments, AreOther, climbs, below, behind, find_string-miss, find_string-segment,
  find_string-segments, find_string-name, dots_plain, segments-snoc, AreOther-front, AreOther-last,
}

erase-climbed :
    (a s rest : Bytes)
    → length (a ++ b'/' ∷ s) < 2 ^ 62
    → erase
        ((a ++ b'/' ∷ s) ++ (codes "/../" ++ rest))
        (length a)
        (sub64 (length (a ++ b'/' ∷ s) + 3) (length a))
      ≡ a ++ b'/' ∷ rest
erase-climbed a s rest small =
    let above : Bytes = a ++ b'/' ∷ s in
    let after : Bytes = codes "/../" ++ rest in
    let kept : take (length a) (above ++ after) ≡ a =
      rw (append_assoc a (b'/' ∷ s) after) (take-append_left a ((b'/' ∷ s) ++ after)) in
    let gone : drop (length a + sub64 (length above + 3) (length a)) (above ++ after)
        ≡ b'/' ∷ rest =
      ap (λ n. drop n (above ++ after)) {x = length a + sub64 (length above + 3) (length a)}
        {y = length above + 3} (omega (arith, small, length-append a (b'/' ∷ s)))
      ∙ sym (drop-drop 3 (length above) (above ++ after))
      ∙ ap (drop 3) (drop-append_left above after) in
    rw (erase, kept, gone) refl

-- A round of the loop: "/../" goes with the segment in front of it.
collapse_one :
    (f : ℕ) (a s rest : Bytes)
    → Lacks b'/' s
    → length (a ++ b'/' ∷ s) < 2 ^ 62
    → find_string (codes "/../") ((a ++ b'/' ∷ s) ++ (codes "/../" ++ rest))
      ≡ some (length (a ++ b'/' ∷ s))
    → collapse (suc f) ((a ++ b'/' ∷ s) ++ (codes "/../" ++ rest)) ≡ collapse f (a ++ b'/' ∷ rest)
unfolding collapse
collapse_one f a s rest h small found =
    let some_bytes : (length (a ++ b'/' ∷ s) == 0) ≡ false =
      ground (arith, length-append a (b'/' ∷ s)) in
    rw
      (
        collapse,
        found,
        slash_before,
        some_bytes,
        take-append_left (a ++ b'/' ∷ s) (codes "/../" ++ rest),
        rfind-append b'/' a s h,
      )
      (ap (collapse f) (erase-climbed a s rest small))

find_string-climbed :
    (ss : List Bytes) (rest : Bytes)
    → AreOther (codes "..") ss
    → find_string (codes "/../") (segments ss ++ (codes "/../" ++ rest))
      ≡ some (length (segments ss))
unfolding find_string has_prefix
find_string-climbed ss rest h =
    find_string-segments (codes "..") ss (codes "../" ++ rest) dots_plain h
    ∙ ap some {x = length (segments ss) + 0} (omega arith)

collapse-climbed :
    (f : ℕ) (ss : List Bytes) (s rest : Bytes)
    → AreOther (codes "..") (ss ++ s ∷ [])
    → length (segments (ss ++ s ∷ [])) < 2 ^ 62
    → collapse (suc f) (segments (ss ++ s ∷ []) ++ (codes "/../" ++ rest))
      ≡ collapse f (segments ss ++ b'/' ∷ rest)
collapse-climbed f ss s rest h small =
    let found : find_string (codes "/../") (segments (ss ++ s ∷ []) ++ (codes "/../" ++ rest))
        ≡ some (length (segments (ss ++ s ∷ []))) =
      find_string-climbed (ss ++ s ∷ []) rest h in
    ap (λ p. collapse (suc f) (p ++ (codes "/../" ++ rest))) (segments-snoc ss s)
    ∙ collapse_one f (segments ss) s rest (AreOther-last (codes "..") ss s h)
        (subst (λ p. length p < 2 ^ 62) (segments-snoc ss s) small)
        (subst (λ p. find_string (codes "/../") (p ++ (codes "/../" ++ rest)) ≡ some (length p))
          (segments-snoc ss s) found)

-- With a round for each segment that is climbed and one more the loop ends.
collapse-climbs :
    (f : ℕ) (keep ups : List Bytes) (name : Bytes)
    → AreOther (codes "..") (below keep ups)
    → Lacks b'/' name
    → length (segments (below keep ups)) < 2 ^ 62
    → length ups < f
    → collapse f (segments (below keep ups) ++ b'/' ∷ climbs ups name)
      ≡ some (segments keep ++ b'/' ∷ name)
collapse-climbs zero keep ups name h plain small enough = absurd (omega (arith, enough))
collapse-climbs (suc f) keep [] name h plain small enough =
    collapse_done f (segments keep ++ b'/' ∷ name) (
      find_string-segments (codes "..") keep name dots_plain h
      ∙ ap (behind (length (segments keep))) (find_string-name (codes "..") name plain))
collapse-climbs (suc f) keep (s ∷ ups) name h plain small enough =
    collapse-climbed f (below keep ups) s (climbs ups name) h small
    ∙ collapse-climbs f keep ups name (AreOther-front (codes "..") (below keep ups) (s ∷ []) h)
        plain
        (omega (
          arith,
          small,
          ap length (segments-snoc (below keep ups) s),
          length-append (segments (below keep ups)) (b'/' ∷ s),
        ))
        (omega (arith, enough))

rooted-segments :
    (ss : List Bytes) (name : Bytes)
    → rooted (segments ss ++ b'/' ∷ name) ≡ segments ss ++ b'/' ∷ name
unfolding rooted
rooted-segments [] name = ground arith
rooted-segments (s ∷ ss) name = ground arith

not_scheme_end : (x : ℕ) (xs : Bytes) → Lacks b'/' xs → has_prefix scheme_end (x ∷ xs) ≡ false
unfolding has_prefix
not_scheme_end x [] h = ground arith
not_scheme_end x (y ∷ ys) h = ground (arith, h.0)

find_string-scheme_end : (name : Bytes) → Lacks b'/' name → find_string scheme_end name ≡ none
unfolding find_string has_prefix
find_string-scheme_end [] h = refl
find_string-scheme_end (x ∷ xs) h =
    find_string-miss scheme_end x xs (not_scheme_end x xs h.1)
    ∙ ap (behind 1) (find_string-scheme_end xs h.1)

climbs-scheme_end :
    (ups : List Bytes) (name : Bytes)
    → Lacks b'/' name
    → find_string scheme_end (climbs ups name) ≡ none
unfolding find_string has_prefix
climbs-scheme_end [] name h = find_string-scheme_end name h
climbs-scheme_end (s ∷ ups) name h = rw (climbs-scheme_end ups name h) refl

climbs-unrooted :
    (ups : List Bytes) (name : Bytes)
    → Lacks b'/' name
    → starts_with_byte b'/' (climbs ups name) ≡ false
climbs-unrooted [] [] h = refl
climbs-unrooted [] (x ∷ xs) h = ground (arith, h.0)
climbs-unrooted (s ∷ ups) name h = refl

dot_plain : Lacks b'/' (codes ".")
unfolding find
dot_plain = Lacks-of_find b'/' (codes ".") refl

climbs-dot :
    (ups : List Bytes) (name : Bytes)
    → Lacks b'/' name
    → find_string (codes "/./") (b'/' ∷ climbs ups name) ≡ none
climbs-dot [] name h = find_string-name (codes ".") name h
climbs-dot (s ∷ ups) name h =
    find_string-segment (codes ".") (codes "..") (climbs ups name) dot_plain dots_plain
      (λ e. absurd (omega (arith, ap length e)))
    ∙ ap (behind 3) (climbs-dot ups name h)

-- With a base whose path is segments, each behind a '/', and then a '/' and a file, a location that
-- climbs over the last segments, one "../" for each, and then names a file gives the segments that
-- are left with that name behind them, and the query goes. The two file names have no '/', no
-- segment has one or is "." or "..", the segments have fewer than 2^62 bytes in all, and the fuel
-- is more than the number of "../".
pub resolve_url-climbs :
    (fuel : ℕ) (base : Url) (keep ups : List Bytes) (file name : Bytes)
    → base.path ≡ segments (below keep ups) ++ b'/' ∷ file
    → AreOther (codes "..") (below keep ups)
    → AreOther (codes ".") (below keep ups)
    → Lacks b'/' file
    → Lacks b'/' name
    → length (segments (below keep ups)) < 2 ^ 62
    → length ups < fuel
    → resolve_url fuel base (climbs ups name)
      ≡ some (record base { path = segments keep ++ b'/' ∷ name; query = [] })
resolve_url-climbs zero base keep ups file name p h no_dot hf hn small enough =
    absurd (omega (arith, enough))
resolve_url-climbs (suc f) base keep ups file name p h no_dot hf hn small enough =
    resolve_url_loops (suc f) base (climbs ups name) (climbs-scheme_end ups name hn)
      (climbs-unrooted ups name hn)
    ∙ ap (λ x. then_collapse (suc f) base (remove_dots (suc f) (join_path x (climbs ups name)))) p
    ∙ ap (λ x. then_collapse (suc f) base (remove_dots (suc f) x))
        (join_path-append (segments (below keep ups)) file (climbs ups name) hf)
    ∙ ap (then_collapse (suc f) base) (
        remove_dots_done f (segments (below keep ups) ++ b'/' ∷ climbs ups name) (
          find_string-segments (codes ".") (below keep ups) (climbs ups name) dot_plain no_dot
          ∙ ap (behind (length (segments (below keep ups)))) (climbs-dot ups name hn)))
    ∙ ap (resolved base) (collapse-climbs (suc f) keep ups name h hn small enough)
    ∙ ap (λ x. some (record base { path = x; query = [] })) (rooted-segments keep name)
