-- ===== src/Net/Cookie/Jar/Stored.antt =====
-- The well-formed jars, which every operation keeps.
use mathlib.Core.Option.{none-ne-some, some-injective}
use twitch_bot.Prelude.{
  ℕ, ◌≡◌, refl, sym, ap, subst, ◌∙◌, Bool, true, false, ◌||◌, inl, inr, Option, none, some, List,
  [], ◌∷◌, arith, if◌then◌else◌, Bool-cases, Option-cases,
}
use twitch_bot.Prelude.Bytes.{Bytes, equal, equal_iff}
use twitch_bot.Prelude.Assoc.{
  lookup, erase, replace, lookup-erase-none, lookup-replace-none, equal_trans, equal_comm,
}
use twitch_bot.Net.Cookie.{Cookie, expired_at, parse_set_cookie}
use twitch_bot.Net.Cookie.Jar.{
  CookieJar, no_cookies, same_cookie, upsert, erase_exact, normalise, set_bag, put, delete_cookie,
  store_at, store, store_from_set_cookie, remove_expired, purge_expired, clear,
}

abbrev pub has_cookie : Bytes → Bytes → List Cookie → Bool
has_cookie name path [] = false
has_cookie name path (x ∷ bag) = same_cookie name path x || has_cookie name path bag

-- The cookies of a domain; no two have the same name and path.
abbrev pub IsBag : Bytes → List Cookie → Type 0
IsBag d [] = Unit {0}
IsBag d (c ∷ bag) = (c.domain ≡ d) × ((has_cookie c.name c.path bag ≡ false) × IsBag d bag)

-- One bucket for a domain, which has a cookie.
abbrev pub IsJar : CookieJar → Type 0
IsJar [] = Unit {0}
IsJar (b ∷ jar) = ((lookup b.0 jar ≡ none) × ((no_cookies b.1 ≡ false) × IsBag b.0 b.1)) × IsJar jar

-- A cookie that replaces another has its name and path.
same_name_and_path :
    (x c : Cookie) (name path : Bytes)
    → same_cookie c.name c.path x ≡ true
    → same_cookie name path x ≡ same_cookie name path c
unfolding same_cookie
same_name_and_path x c name path h =
    let n : equal x.name c.name ≡ true = ground (arith, h) in
    let p : equal x.path c.path ≡ true = ground (arith, h) in
    ground (arith, equal_trans x.name c.name name n, equal_trans x.path c.path path p)

has_cookie-upsert :
    (name path : Bytes) (vec : List Cookie) (c : Cookie)
    → has_cookie name path (upsert vec c) ≡ has_cookie name path vec || same_cookie name path c
unfolding upsert
has_cookie-upsert name path [] c = ground arith
has_cookie-upsert name path (x ∷ vec) c = elim (Bool-cases (same_cookie c.name c.path x)) [
  | inl same ↦ let h = same_name_and_path x c name path same in ground (arith, same, h)
  | inr differs ↦ let rest = has_cookie-upsert name path vec c in ground (arith, differs, rest)
]

same_cookie_comm : (x c : Cookie) → same_cookie x.name x.path c ≡ same_cookie c.name c.path x
unfolding same_cookie
same_cookie_comm x c = ground (arith, equal_comm c.name x.name, equal_comm c.path x.path)

same_cookie_sym :
    (x c : Cookie) → same_cookie c.name c.path x ≡ false → same_cookie x.name x.path c ≡ false
same_cookie_sym x c h = same_cookie_comm x c ∙ h

has_cookie_same :
    (x c : Cookie) (vec : List Cookie)
    → same_cookie c.name c.path x ≡ true
    → has_cookie c.name c.path vec ≡ has_cookie x.name x.path vec
unfolding same_cookie
has_cookie_same x c vec h =
    let n : x.name ≡ c.name = (equal_iff x.name c.name).0 (ground (arith, h)) in
    let p : x.path ≡ c.path = (equal_iff x.path c.path).0 (ground (arith, h)) in
    ap (λ k. has_cookie k c.path vec) (sym n) ∙ ap (λ k. has_cookie x.name k vec) (sym p)

upsert-IsBag :
    (d : Bytes) (vec : List Cookie) (c : Cookie)
    → IsBag d vec
    → c.domain ≡ d
    → IsBag d (upsert vec c)
unfolding upsert
upsert-IsBag d [] c w e = (e, (refl, tt))
upsert-IsBag d (x ∷ vec) c w e = elim (Bool-cases (same_cookie c.name c.path x)) [
  | inl same ↦ rw (same, if◌then◌else◌) (e, (has_cookie_same x c vec same ∙ w.1.0, w.1.1))
  | inr differs ↦
      rw (differs, if◌then◌else◌)
        (
          w.0,
          (
            has_cookie-upsert x.name x.path vec c
                ∙ ground (arith, w.1.0, same_cookie_sym x c differs),
            upsert-IsBag d vec c w.1.1 e,
          ),
        )
]

no_cookies-upsert : (vec : List Cookie) (c : Cookie) → no_cookies (upsert vec c) ≡ false
unfolding upsert
no_cookies-upsert [] c = refl
no_cookies-upsert (x ∷ vec) c = ground arith

has_cookie-erase :
    (name path n p : Bytes) (vec : List Cookie)
    → has_cookie name path vec ≡ false
    → has_cookie name path (erase_exact vec n p) ≡ false
unfolding erase_exact
has_cookie-erase name path n p [] h = refl
has_cookie-erase name path n p (x ∷ vec) h =
    let rest = has_cookie-erase name path n p vec in ground (arith, h, rest)

erase-IsBag : (d n p : Bytes) (vec : List Cookie) → IsBag d vec → IsBag d (erase_exact vec n p)
unfolding erase_exact
erase-IsBag d n p [] w = tt
erase-IsBag d n p (x ∷ vec) w = elim (Bool-cases (same_cookie n p x)) [
  | inl same ↦ rw (same, if◌then◌else◌) (erase-IsBag d n p vec w.1.1)
  | inr differs ↦
      rw (differs, if◌then◌else◌)
        (w.0, (has_cookie-erase x.name x.path n p vec w.1.0, erase-IsBag d n p vec w.1.1))
]

has_cookie-expired :
    (now : ℕ) (name path : Bytes) (bag : List Cookie)
    → has_cookie name path bag ≡ false
    → has_cookie name path (remove_expired now bag) ≡ false
unfolding remove_expired
has_cookie-expired now name path [] h = refl
has_cookie-expired now name path (x ∷ bag) h =
    let rest = has_cookie-expired now name path bag in ground (arith, h, rest)

expired-IsBag :
    (now : ℕ) (d : Bytes) (bag : List Cookie) → IsBag d bag → IsBag d (remove_expired now bag)
unfolding remove_expired
expired-IsBag now d [] w = tt
expired-IsBag now d (x ∷ bag) w = elim (Bool-cases (expired_at x now)) [
  | inl over ↦ rw (over, if◌then◌else◌) (expired-IsBag now d bag w.1.1)
  | inr fresh ↦
      rw (fresh, if◌then◌else◌)
        (w.0, (has_cookie-expired now x.name x.path bag w.1.0, expired-IsBag now d bag w.1.1))
]

-- A bucket that is stored.
IsBucket : Bytes → List Cookie → Type 0
IsBucket d bag = (no_cookies bag ≡ false) × IsBag d bag

replace-IsJar :
    (d : Bytes) (bag : List Cookie) (jar : CookieJar)
    → IsBucket d bag
    → IsJar jar
    → IsJar (replace d bag jar)
unfolding replace IsBucket
replace-IsJar d bag [] g w = tt
replace-IsJar d bag (b ∷ jar) g w = elim (Bool-cases (equal b.0 d)) [
  | inl same ↦
      let here : b.0 ≡ d = (equal_iff b.0 d).0 same in
      rw (same, if◌then◌else◌)
        ((w.0.0, subst {A = Bytes} (λ k. (no_cookies bag ≡ false) × IsBag k bag) (sym here) g), w.1)
  | inr differs ↦
      rw (differs, if◌then◌else◌)
        ((lookup-replace-none d b.0 bag jar w.0.0, w.0.1), replace-IsJar d bag jar g w.1)
]

erase-IsJar : (d : Bytes) (jar : CookieJar) → IsJar jar → IsJar (erase d jar)
unfolding erase
erase-IsJar d [] w = tt
erase-IsJar d (b ∷ jar) w = elim (Bool-cases (equal b.0 d)) [
  | inl same ↦ rw (same, if◌then◌else◌) (erase-IsJar d jar w.1)
  | inr differs ↦
      rw (differs, if◌then◌else◌)
        ((lookup-erase-none d b.0 jar w.0.0, w.0.1), erase-IsJar d jar w.1)
]

set_bag-IsJar :
    (d : Bytes) (bag : List Cookie) (jar : CookieJar)
    → IsBucket d bag
    → IsJar jar
    → IsJar (set_bag d bag jar)
unfolding set_bag IsBucket
set_bag-IsJar d bag jar g w = elim (Option-cases (lookup d jar)) [
  | inl absent ↦ rw (set_bag, absent) ((absent, g), w)
  | inr (old, present) ↦ rw (set_bag, present) (replace-IsJar d bag jar g w)
]

lookup-IsBag :
    (d : Bytes) (bag : List Cookie) (jar : CookieJar)
    → IsJar jar
    → lookup d jar ≡ some bag
    → IsBag d bag
unfolding lookup
lookup-IsBag d bag [] w e = absurd (none-ne-some bag e)
lookup-IsBag d bag (b ∷ jar) w e = elim (Bool-cases (equal b.0 d)) [
  | inl same ↦
      let here : b.1 ≡ bag =
        some-injective b.1 bag
          (sym (ap (λ (c : Bool). if c then some b.1 else lookup d jar) same) ∙ e) in
      subst {A = Bytes} (λ k. IsBag k bag) ((equal_iff b.0 d).0 same)
        (subst {A = List Cookie} (λ t. IsBag b.0 t) here w.0.1.1)
  | inr differs ↦
      lookup-IsBag d bag jar w.1
        (sym (ap (λ (c : Bool). if c then some b.1 else lookup d jar) differs) ∙ e)
]

put-IsJar : (jar : CookieJar) (c : Cookie) → IsJar jar → IsJar (put jar c)
unfolding put IsBucket
put-IsJar jar c w = elim (Option-cases (lookup c.domain jar)) [
  | inl absent ↦
      rw (put, absent)
        (set_bag-IsJar c.domain (upsert [] c) jar
          (no_cookies-upsert [] c, upsert-IsBag c.domain [] c tt refl) w)
  | inr (bag, present) ↦
      rw (put, present)
        (set_bag-IsJar c.domain (upsert bag c) jar
          (
            no_cookies-upsert bag c,
            upsert-IsBag c.domain bag c (lookup-IsBag c.domain bag jar w present) refl,
          )
          w)
]

delete-IsJar : (jar : CookieJar) (c : Cookie) → IsJar jar → IsJar (delete_cookie jar c)
unfolding delete_cookie IsBucket
delete-IsJar jar c w = elim (Option-cases (lookup c.domain jar)) [
  | inl absent ↦ rw (delete_cookie, absent) w
  | inr (bag, present) ↦ elim (Bool-cases (no_cookies (erase_exact bag c.name c.path))) [
    | inl empty ↦ rw (delete_cookie, present, empty, if◌then◌else◌) (erase-IsJar c.domain jar w)
    | inr some_left ↦
        rw (delete_cookie, present, some_left, if◌then◌else◌)
          (replace-IsJar c.domain (erase_exact bag c.name c.path) jar
            (
              some_left,
              erase-IsBag c.domain c.name c.path bag (lookup-IsBag c.domain bag jar w present),
            )
            w)
  ]
]

store_at-IsJar : (jar : CookieJar) (c : Cookie) (now : ℕ) → IsJar jar → IsJar (store_at jar c now)
unfolding store_at
store_at-IsJar jar c now w = elim (Bool-cases (expired_at c now)) [
  | inl over ↦ rw (store_at, over, if◌then◌else◌) (delete-IsJar jar c w)
  | inr fresh ↦ rw (store_at, fresh, if◌then◌else◌) (put-IsJar jar c w)
]

pub lookup-purge_none :
    (now : ℕ) (d : Bytes) (jar : CookieJar)
    → lookup d jar ≡ none
    → lookup d (purge_expired now jar) ≡ none
unfolding lookup purge_expired
lookup-purge_none now d [] h = refl
lookup-purge_none now d (b ∷ jar) h =
    let rest = lookup-purge_none now d jar in ground (arith, h, rest)

purge-IsJar : (now : ℕ) (jar : CookieJar) → IsJar jar → IsJar (purge_expired now jar)
unfolding purge_expired
purge-IsJar now [] w = tt
purge-IsJar now (b ∷ jar) w = elim (Bool-cases (no_cookies (remove_expired now b.1))) [
  | inl empty ↦ rw (empty, if◌then◌else◌) (purge-IsJar now jar w.1)
  | inr some_left ↦
      rw (some_left, if◌then◌else◌)
        (
          (lookup-purge_none now b.0 jar w.0.0, (some_left, expired-IsBag now b.0 b.1 w.0.1.1)),
          purge-IsJar now jar w.1,
        )
]

-- The operations that change a jar.
pub data Operation : Type 0 where
  puts : Cookie → Operation
  stores : Cookie → Bytes → Bytes → ℕ → Operation
  stores_line : Bytes → Bytes → Bytes → ℕ → Operation
  purges : ℕ → Operation
  clears : Operation

module _ (http_date : Bytes → Option ℕ) where
  unfoldable pub operate : Operation → CookieJar → CookieJar
  operate (puts c) jar = put jar c
  operate (stores c domain path now) jar = store jar c domain path now
  operate (stores_line line domain path now) jar =
      store_from_set_cookie http_date jar line domain path now
  operate (purges now) jar = purge_expired now jar
  operate clears jar = clear jar

  unfoldable pub operate_all : List Operation → CookieJar → CookieJar
  operate_all [] jar = jar
  operate_all (o ∷ os) jar = operate_all os (operate o jar)

  line-IsJar :
      (jar : CookieJar) (line domain path : Bytes) (now : ℕ)
      → IsJar jar
      → IsJar (store_from_set_cookie http_date jar line domain path now)
  unfolding store_from_set_cookie
  line-IsJar jar line domain path now w =
      elim (Option-cases (parse_set_cookie http_date line domain path)) [
        | inl refused ↦ rw (store_from_set_cookie, refused) w
        | inr (c, parsed) ↦ rw (store_from_set_cookie, parsed) (store_at-IsJar jar c now w)
      ]

  operate-IsJar : (o : Operation) (jar : CookieJar) → IsJar jar → IsJar (operate o jar)
  unfolding operate store clear
  operate-IsJar (puts c) jar w = put-IsJar jar c w
  operate-IsJar (stores c domain path now) jar w =
      store_at-IsJar jar (normalise c domain path) now w
  operate-IsJar (stores_line line domain path now) jar w = line-IsJar jar line domain path now w
  operate-IsJar (purges now) jar w = purge-IsJar now jar w
  operate-IsJar clears jar w = tt

  -- After any operations on an empty jar a domain has one bucket, no bucket is empty, a bucket has
  -- the cookies of its domain only, and no two with the same name and path.
  pub operate_all-IsJar : (os : List Operation) → IsJar (operate_all os [])
  unfolding operate_all
  operate_all-IsJar os = go os [] tt
    where
      go : (os : List Operation) (jar : CookieJar) → IsJar jar → IsJar (operate_all os jar)
      go [] jar w = w
      go (o ∷ os) jar w = go os (operate o jar) (operate-IsJar o jar w)
