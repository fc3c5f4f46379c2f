-- ===== src/Net/Cookie/Jar/Sent.antt =====
-- Which cookies are sent, and which a purge leaves.
use mathlib.Core.Bool.{true≢false}
use twitch_bot.Prelude.{
  ℕ, ◌≡◌, sym, subst, ◌∙◌, Bool, true, false, ◌⊎◌, inl, inr, ◌↔◌, Option, none, some, List, [], ◌∷◌,
  arith, if◌then◌else◌, Bool-cases,
}
use twitch_bot.Prelude.Bytes.{Bytes, equal_iff}
use twitch_bot.Prelude.Assoc.{lookup}
use twitch_bot.Net.Cookie.{Cookie, expired_at}
use twitch_bot.Net.Cookie.Jar.{CookieJar, path_match, domain_match, is_sent, select, matching}

abbrev pub In : Cookie → List Cookie → Type 0
In c [] = ⊥
In c (x ∷ xs) = (x ≡ c) ⊎ In c xs

-- The cookies stored for a domain.
abbrev pub stored : Bytes → CookieJar → List Cookie
stored d jar = elim (lookup d jar) [ none ↦ [] | some bag ↦ bag ]

-- A sort keeps the members of a list.
abbrev pub KeepsMembers : (List Cookie → List Cookie) → Type 0
KeepsMembers sort = (c : Cookie) (l : List Cookie) → In c (sort l) ↔ In c l

-- The rules for sending a cookie.
abbrev pub MaySend : Bytes → Bytes → Bool → ℕ → Cookie → Type 0
MaySend host path is_https now c =
    (c.secure ≡ true → is_https ≡ true)
    × ((expired_at c now ≡ false) × ((c.domain ≡ host) × (path_match path c.path ≡ true)))

module _ (host path : Bytes) (is_https : Bool) (now : ℕ) where
  is_sent-MaySend :
      (c : Cookie) → (is_sent host path is_https now c ≡ true) ↔ MaySend host path is_https now c
  unfolding is_sent domain_match
  is_sent-MaySend c = (
    λ h. (
      ground (arith, h),
      (
        ground (arith, h),
        (sym ((equal_iff host c.domain).0 (ground (arith, h))), ground (arith, h)),
      ),
    ),
    λ (s, (fresh, (domain, fits))).
        let d = (equal_iff host c.domain).1 (sym domain) in ground (arith, s, fresh, d, fits),
  )

  select-In :
      (c : Cookie) (bag : List Cookie)
      → In c (select host path is_https now bag)
        ↔ (In c bag × (is_sent host path is_https now c ≡ true))
  unfolding select
  select-In c [] = (λ e. absurd e, λ p. p.0)
  select-In c (x ∷ bag) = elim (Bool-cases (is_sent host path is_https now x)) [
    | inl sends ↦
        rw (sends, if◌then◌else◌)
          (
            λ e. elim e [
              | inl here ↦ (
                inl here,
                subst {A = Cookie} (λ y. is_sent host path is_https now y ≡ true) here sends,
              )
              | inr later ↦ let p = (select-In c bag).0 later in (inr p.0, p.1)
            ],
            λ p. elim p.0 [
              | inl here ↦ inl here
              | inr later ↦ inr ((select-In c bag).1 (later, p.1))
            ],
          )
    | inr held ↦
        rw (held, if◌then◌else◌)
          (
            λ e. let p = (select-In c bag).0 e in (inr p.0, p.1),
            λ p. elim p.0 [
              | inl here ↦ absurd (
                  true≢false (
                    sym p.1
                    ∙ sym (
                        subst {A = Cookie} (λ y. false ≡ is_sent host path is_https now y) here
                          (sym held))))
              | inr later ↦ (select-In c bag).1 (later, p.1)
            ],
          )
  ]

  pub matching-MaySend :
      (sort : List Cookie → List Cookie) (jar : CookieJar) (c : Cookie)
      → KeepsMembers sort
      → In c (matching sort jar host path is_https now)
        ↔ (In c (stored host jar) × MaySend host path is_https now c)
  unfolding matching
  matching-MaySend sort jar c keeps = go (lookup host jar)
    where
      go :
          (o : Option (List Cookie))
          → In c (elim o as (λ _. List Cookie) [
            | none ↦ []
            | some bag ↦ sort (select host path is_https now bag)
          ])
            ↔ (In c (elim o as (λ _. List Cookie) [ none ↦ [] | some bag ↦ bag ])
                × MaySend host path is_https now c)
      go none = (λ e. absurd e, λ p. p.0)
      go (some bag) = (
        λ e.
            let p = (select-In c bag).0 ((keeps c (select host path is_https now bag)).0 e) in
            (p.0, (is_sent-MaySend c).0 p.1),
        λ p.
            (keeps c (select host path is_https now bag)).1
              ((select-In c bag).1 (p.0, (is_sent-MaySend c).1 p.1)),
      )
