-- ===== src/Helix/Form.antt =====
-- `form_urlencode` of lib/twitch_core/src/helix_client.cpp.
use twitch_bot.Prelude.{
  ℕ, ◌+◌, ◌-◌, ◌*◌, ◌/◌, ◌%◌, ◌<◌, ◌≡◌, refl, ap, ◌∙◌, Bool, true, false, ◌||◌, ◌&&◌, inl, inr, [],
  ◌∷◌, ltb, leb, ◌==◌, arith, if◌then◌else◌, Bool-cases,
}
use twitch_bot.Prelude.Bytes.{Bytes}

unfoldable pub is_unreserved : ℕ → Bool
is_unreserved c =
    (leb b'A' c && leb c b'Z')
    || (leb b'a' c && leb c b'z')
    || (leb b'0' c && leb c b'9')
    || c == b'-'
    || c == b'_'
    || c == b'.'
    || c == b'~'

-- `"0123456789ABCDEF"[n]`
unfoldable pub hex_digit : ℕ → ℕ
hex_digit n = if ltb n 10 then b'0' + n else b'A' + (n - 10)

unfoldable pub form_urlencode : Bytes → Bytes
form_urlencode [] = []
form_urlencode (c ∷ s) =
    let rest = form_urlencode s in
    if is_unreserved c
    then c ∷ rest
    else b'%' ∷ hex_digit ((c / 16) % 16) ∷ hex_digit (c % 16) ∷ rest

-- The value of a digit that `hex_digit` gives.
unfoldable pub digit_value : ℕ → ℕ
digit_value c = if leb c b'9' then c - b'0' else c - b'A' + 10

-- What a server reads back.
unfoldable pub percent_decode : Bytes → Bytes
percent_decode [] = []
percent_decode (c ∷ []) = c ∷ []
percent_decode (c ∷ x ∷ []) = c ∷ x ∷ []
percent_decode (c ∷ x ∷ y ∷ s) =
    let plain = percent_decode (x ∷ y ∷ s) in
    let triple = percent_decode s in
    if c == b'%' then (digit_value x * 16 + digit_value y) ∷ triple else c ∷ plain

abbrev pub AreBytes : Bytes → Type 0
AreBytes [] = Unit {0}
AreBytes (c ∷ s) = (c < 256) × AreBytes s

digit_value-hex : (n : ℕ) → n < 16 → digit_value (hex_digit n) ≡ n
unfolding digit_value hex_digit
digit_value-hex n h = ground (arith, h)

not_percent : (c : ℕ) → is_unreserved c ≡ true → (c == b'%') ≡ false
unfolding is_unreserved
not_percent c h = ground (arith, h)

percent_decode_plain :
    (c : ℕ) (s : Bytes) → (c == b'%') ≡ false → percent_decode (c ∷ s) ≡ c ∷ percent_decode s
unfolding percent_decode
percent_decode_plain c [] h = refl
percent_decode_plain c (x ∷ []) h = refl
percent_decode_plain c (x ∷ y ∷ s) h = rw (percent_decode, h, if◌then◌else◌) refl

-- Decoding the percent encoding of any bytes gives them back.
pub percent_decode-form_urlencode : (s : Bytes) → AreBytes s → percent_decode (form_urlencode s) ≡ s
unfolding form_urlencode percent_decode
percent_decode-form_urlencode [] h = refl
percent_decode-form_urlencode (c ∷ s) h = elim (Bool-cases (is_unreserved c)) [
  | inl plain ↦
      rw (plain, if◌then◌else◌)
        (percent_decode_plain c (form_urlencode s) (not_percent c plain)
          ∙ ap (◌∷◌ c) (percent_decode-form_urlencode s h.1))
  | inr other ↦
      rw
        (
          other,
          if◌then◌else◌,
          digit_value-hex ((c / 16) % 16) (omega arith),
          digit_value-hex (c % 16) (omega arith),
          percent_decode-form_urlencode s h.1,
        )
        (ap (λ d. d ∷ s) {x = ((c / 16) % 16) * 16 + c % 16} {y = c} (omega (arith, h.0)))
]
