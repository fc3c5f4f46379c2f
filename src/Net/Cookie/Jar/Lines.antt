-- ===== src/Net/Cookie/Jar/Lines.antt =====
-- What a Set-Cookie line does to what is sent, and what a purge does.
use mathlib.Core.Bool.{true≢false}
use twitch_bot.Prelude.{
  ℕ, ◌≡◌, refl, sym, ap, subst, ◌∙◌, Bool, true, false, inl, inr, ◌↔◌, Option, none, some, List, [],
  ◌∷◌, arith, if◌then◌else◌, Bool-cases, Option-cases,
}
use twitch_bot.Prelude.Bytes.{Bytes, equal, equal_iff}
use twitch_bot.Prelude.Assoc.{
  lookup, erase, replace, lookup_head, lookup-replace_self, lookup-erase_self,
}
use twitch_bot.Net.Cookie.{Cookie, expired_at, parse_set_cookie}
use twitch_bot.Net.Cookie.Jar.{
  CookieJar, no_cookies, same_cookie, upsert, erase_exact, set_bag, put, delete_cookie, store_at,
  store_from_set_cookie, matching, remove_expired, purge_expired,
}
use twitch_bot.Net.Cookie.Jar.Stored.{IsJar, has_cookie, lookup-purge_none}
use twitch_bot.Net.Cookie.Jar.Sent.{In, stored, KeepsMembers, MaySend, matching-MaySend}

stored-none : (d : Bytes) (jar : CookieJar) → lookup d jar ≡ none → stored d jar ≡ []
stored-none d jar h = ap (λ o. elim o as (λ _. List Cookie) [ none ↦ [] | some bag ↦ bag ]) h

stored-some :
    (d : Bytes) (jar : CookieJar) (bag : List Cookie) → lookup d jar ≡ some bag → stored d jar ≡ bag
stored-some d jar bag h = ap (λ o. elim o as (λ _. List Cookie) [ none ↦ [] | some bag ↦ bag ]) h

stored-set_bag :
    (d : Bytes) (bag : List Cookie) (jar : CookieJar) → stored d (set_bag d bag jar) ≡ bag
unfolding set_bag
stored-set_bag d bag jar = elim (Option-cases (lookup d jar)) [
  | inl absent ↦ rw (set_bag, absent) (stored-some d ((d, bag) ∷ jar) bag (lookup_head d bag jar))
  | inr (old, present) ↦
      rw (set_bag, present)
        (stored-some d (replace d bag jar) bag (lookup-replace_self d bag old jar present))
]

upsert-In : (vec : List Cookie) (c : Cookie) → In c (upsert vec c)
unfolding upsert
upsert-In [] c = inl refl
upsert-In (x ∷ vec) c = elim (Bool-cases (same_cookie c.name c.path x)) [
  | inl same ↦ rw (same, if◌then◌else◌) (inl refl)
  | inr differs ↦ rw (differs, if◌then◌else◌) (inr (upsert-In vec c))
]

put-In : (jar : CookieJar) (c : Cookie) → In c (stored c.domain (put jar c))
unfolding put
put-In jar c =
    subst {A = List Cookie} (λ bag. In c bag)
      (sym (stored-set_bag c.domain (upsert (stored c.domain jar) c) jar))
      (upsert-In (stored c.domain jar) c)

has_cookie-erased :
    (name path : Bytes) (vec : List Cookie)
    → has_cookie name path (erase_exact vec name path) ≡ false
unfolding erase_exact
has_cookie-erased name path [] = refl
has_cookie-erased name path (x ∷ vec) =
    let rest = has_cookie-erased name path vec in ground (arith, rest)

delete-has_cookie :
    (jar : CookieJar) (c : Cookie)
    → has_cookie c.name c.path (stored c.domain (delete_cookie jar c)) ≡ false
unfolding delete_cookie
delete-has_cookie jar c = elim (Option-cases (lookup c.domain jar)) [
  | inl absent ↦
      rw (delete_cookie, absent) (ap (has_cookie c.name c.path) (stored-none c.domain jar absent))
  | inr (bag, present) ↦ elim (Bool-cases (no_cookies (erase_exact bag c.name c.path))) [
    | inl empty ↦
        rw (delete_cookie, present, empty, if◌then◌else◌)
          (ap (has_cookie c.name c.path)
            (stored-none c.domain (erase c.domain jar) (lookup-erase_self c.domain jar)))
    | inr left ↦
        rw (delete_cookie, present, left, if◌then◌else◌)
          (ap (has_cookie c.name c.path) (
              stored-some c.domain (replace c.domain (erase_exact bag c.name c.path) jar)
                (erase_exact bag c.name c.path)
                (lookup-replace_self c.domain (erase_exact bag c.name c.path) bag jar present))
            ∙ has_cookie-erased c.name c.path bag)
  ]
]

-- A Set-Cookie line of a cookie that is not expired gives a jar from which the cookie is sent with
-- every request that may have it; one of an expired cookie gives a jar that has no cookie of its
-- domain, name and path.
pub matching-store_from_set_cookie :
    (http_date : Bytes → Option ℕ) (sort : List Cookie → List Cookie) (jar : CookieJar)
    (line domain path : Bytes) (now : ℕ) (c : Cookie)
    → KeepsMembers sort
    → parse_set_cookie http_date line domain path ≡ some c
    → (expired_at c now ≡ false
        → (host req_path : Bytes) (is_https : Bool) (later : ℕ)
        → MaySend host req_path is_https later c
        → In c (
            matching sort
              (store_from_set_cookie http_date jar line domain path now)
              host
              req_path
              is_https
              later))
      × (expired_at c now ≡ true
          → has_cookie c.name c.path
              (stored c.domain (store_from_set_cookie http_date jar line domain path now))
            ≡ false)
unfolding store_from_set_cookie store_at
matching-store_from_set_cookie http_date sort jar line domain path now c keeps parsed = (
  λ fresh host req_path is_https later may.
      (matching-MaySend host req_path is_https later sort
          (store_from_set_cookie http_date jar line domain path now) c keeps).1
        (
          subst {A = Bytes}
              (λ d. In c (stored d (store_from_set_cookie http_date jar line domain path now)))
              may.1.1.0 (kept fresh),
          may,
        ),
  λ over.
      rw (store_from_set_cookie, parsed, store_at, over, if◌then◌else◌) (delete-has_cookie jar c),
)
  where
    kept :
        expired_at c now ≡ false
        → In c (stored c.domain (store_from_set_cookie http_date jar line domain path now))
    kept fresh = rw (store_from_set_cookie, parsed, store_at, fresh, if◌then◌else◌) (put-In jar c)

remove_expired-In :
    (now : ℕ) (c : Cookie) (bag : List Cookie)
    → In c (remove_expired now bag) ↔ (In c bag × (expired_at c now ≡ false))
unfolding remove_expired
remove_expired-In now c [] = (λ e. absurd e, λ p. p.0)
remove_expired-In now c (x ∷ bag) = elim (Bool-cases (expired_at x now)) [
  | inr stays ↦
      rw (stays, if◌then◌else◌)
        (
          λ e. elim e [
            | inl here ↦ (inl here, subst {A = Cookie} (λ y. expired_at y now ≡ false) here stays)
            | inr later ↦ let p = (remove_expired-In now c bag).0 later in (inr p.0, p.1)
          ],
          λ p. elim p.0 [
            | inl here ↦ inl here
            | inr later ↦ inr ((remove_expired-In now c bag).1 (later, p.1))
          ],
        )
  | inl goes ↦
      rw (goes, if◌then◌else◌)
        (
          λ e. let p = (remove_expired-In now c bag).0 e in (inr p.0, p.1),
          λ p. elim p.0 [
            | inl here ↦ absurd (
                true≢false
                  (sym (subst {A = Cookie} (λ y. expired_at y now ≡ true) here goes) ∙ p.1))
            | inr later ↦ (remove_expired-In now c bag).1 (later, p.1)
          ],
        )
]

empty_bag : (bag : List Cookie) → no_cookies bag ≡ true → bag ≡ []
empty_bag [] h = refl
empty_bag (c ∷ bag) h = absurd (true≢false (sym h))

purge_empty :
    (now : ℕ) (b : Bytes × List Cookie) (jar : CookieJar)
    → no_cookies (remove_expired now b.1) ≡ true
    → purge_expired now (b ∷ jar) ≡ purge_expired now jar
unfolding purge_expired
purge_empty now b jar h = rw (h, if◌then◌else◌) refl

purge_left :
    (now : ℕ) (b : Bytes × List Cookie) (jar : CookieJar)
    → no_cookies (remove_expired now b.1) ≡ false
    → purge_expired now (b ∷ jar) ≡ (b.0, remove_expired now b.1) ∷ purge_expired now jar
unfolding purge_expired
purge_left now b jar h = rw (h, if◌then◌else◌) refl

stored_here :
    (d : Bytes) (b : Bytes × List Cookie) (jar : CookieJar)
    → equal b.0 d ≡ true
    → stored d (b ∷ jar) ≡ b.1
unfolding lookup
stored_here d b jar h = rw (stored, h, if◌then◌else◌) refl

stored_behind :
    (d : Bytes) (b : Bytes × List Cookie) (jar : CookieJar)
    → equal b.0 d ≡ false
    → stored d (b ∷ jar) ≡ stored d jar
unfolding lookup
stored_behind d b jar h = rw (stored, h, if◌then◌else◌) refl

-- A purge is a purge of each bucket.
stored-purge :
    (now : ℕ) (d : Bytes) (jar : CookieJar)
    → IsJar jar
    → stored d (purge_expired now jar) ≡ remove_expired now (stored d jar)
unfolding purge_expired lookup remove_expired
stored-purge now d [] w = refl
stored-purge now d (b ∷ jar) w = elim (Bool-cases (equal b.0 d)) [
  | inl same ↦
      let absent : lookup d jar ≡ none =
        ap (λ k. lookup k jar) (sym ((equal_iff b.0 d).0 same)) ∙ w.0.0 in
      let whole = ap (remove_expired now) (sym (stored_here d b jar same)) in
      elim (Bool-cases (no_cookies (remove_expired now b.1))) [
        | inl empty ↦
            ap (stored d) (purge_empty now b jar empty)
            ∙ stored-none d (purge_expired now jar) (lookup-purge_none now d jar absent)
            ∙ sym (empty_bag (remove_expired now b.1) empty)
            ∙ whole
        | inr left ↦
            ap (stored d) (purge_left now b jar left)
            ∙ stored_here d (b.0, remove_expired now b.1) (purge_expired now jar) same
            ∙ whole
      ]
  | inr differs ↦
      let rest =
        stored-purge now d jar w.1
        ∙ ap (remove_expired now) (sym (stored_behind d b jar differs)) in
      elim (Bool-cases (no_cookies (remove_expired now b.1))) [
        | inl empty ↦ ap (stored d) (purge_empty now b jar empty) ∙ rest
        | inr left ↦
            ap (stored d) (purge_left now b jar left)
            ∙ stored_behind d (b.0, remove_expired now b.1) (purge_expired now jar) differs
            ∙ rest
      ]
]

-- In a well-formed jar `purge_expired` removes the cookies that are expired, from every domain, and
-- no other.
pub purge_expired-In :
    (now : ℕ) (d : Bytes) (jar : CookieJar) (c : Cookie)
    → IsJar jar
    → In c (stored d (purge_expired now jar)) ↔ (In c (stored d jar) × (expired_at c now ≡ false))
purge_expired-In now d jar c w =
    subst {A = List Cookie} (λ bag. In c bag ↔ (In c (stored d jar) × (expired_at c now ≡ false)))
      (sym (stored-purge now d jar w)) (remove_expired-In now c (stored d jar))
