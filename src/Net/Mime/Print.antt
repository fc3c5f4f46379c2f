-- ===== src/Net/Mime/Print.antt =====
-- Media types that are printed and parsed again.
use twitch_bot.Prelude.{
  ℕ, suc, ◌+◌, ◌≡◌, ◌≢◌, refl, sym, ap, ◌∙◌, false, ◌&&◌, some, [], ◌∷◌, ◌++◌, arith, if◌then◌else◌,
  length, take, drop, take-append_left, drop-append_cons, append-nil, append_assoc, append-nil,
  append_assoc,
}
use twitch_bot.Prelude.Bytes.{Bytes, codes, equal, is_empty, to_lower, lower_byte}
use twitch_bot.Prelude.Search.{find, find-append, find-Lacks, Lacks, Lacks-append}
use twitch_bot.Net.Encoding.{is_space, trim_front, trim_back, trim_token}
use twitch_bot.Net.Mime.{
  MediaType, unquote, set_parameter, read_parameter, read_parameters, media_rest, parse_media_type,
  to_string,
}

-- No space, upper-case letter, separator or quote.
abbrev pub IsPlain : Bytes → Type 0
IsPlain [] = Unit {0}
IsPlain (c ∷ s) =
    (((is_space c ≡ false) × (lower_byte c ≡ c))
      × (((c ≢ b';') × (c ≢ b'/')) × ((c ≢ b'"') × (c ≢ b'\''))))
    × IsPlain s

lower-plain : (s : Bytes) → IsPlain s → to_lower s ≡ s
unfolding to_lower
lower-plain [] w = refl
lower-plain (c ∷ s) w =
    let rest = lower-plain s w.1 in let here = w.0.0.1 in ground (arith, here, rest)

plain-Lacks_semi : (s : Bytes) → IsPlain s → Lacks b';' s
plain-Lacks_semi [] w = tt
plain-Lacks_semi (c ∷ s) w = (w.0.1.0.0, plain-Lacks_semi s w.1)

plain-Lacks_slash : (s : Bytes) → IsPlain s → Lacks b'/' s
plain-Lacks_slash [] w = tt
plain-Lacks_slash (c ∷ s) w = (w.0.1.0.1, plain-Lacks_slash s w.1)

-- Nothing is trimmed behind a plain string that is not empty.
trim_back-plain : (a s : Bytes) → IsPlain s → is_empty s ≡ false → trim_back (a ++ s) ≡ a ++ s
unfolding trim_back
trim_back-plain [] [] w ne = ground arith
trim_back-plain [] (c ∷ []) w ne = let here = w.0.0.0 in ground (arith, here)
trim_back-plain [] (c ∷ x ∷ s) w ne =
    let rest = trim_back-plain [] (x ∷ s) w.1 refl in rw (rest) refl
trim_back-plain (y ∷ a) s w ne = let rest = trim_back-plain a s w ne in rw (rest) (kept a s ne)
  where
    kept :
        (a s : Bytes)
        → is_empty s ≡ false
        → (if is_empty (a ++ s) && is_space y then [] else y ∷ (a ++ s)) ≡ y ∷ (a ++ s)
    kept [] s ne = rw (ne) refl
    kept (z ∷ a) s ne = refl

trim_token-plain :
    (c : ℕ) (a s : Bytes)
    → is_space c ≡ false
    → IsPlain s
    → is_empty s ≡ false
    → trim_token (c ∷ (a ++ s)) ≡ c ∷ (a ++ s)
unfolding trim_token trim_front
trim_token-plain c a s here w ne =
    rw (trim_token, trim_front, here, if◌then◌else◌) (trim_back-plain (c ∷ a) s w ne)

unquote-plain : (s : Bytes) → IsPlain s → unquote s ≡ s
unfolding unquote
unquote-plain [] w = refl
unquote-plain (c ∷ s) w = let a = w.0.1.1.0 in let b = w.0.1.1.1 in ground (arith, a, b)

set_charset : (s cs : Bytes) → IsPlain s → set_parameter (codes "charset") s cs ≡ s
unfolding set_parameter equal
set_charset s cs w = rw (unquote-plain s w) (lower-plain s w)

abbrev charset_start : Bytes
charset_start = codes "charset"

trim_token_word : (c : ℕ) (s : Bytes) → IsPlain (c ∷ s) → trim_token (c ∷ s) ≡ c ∷ s
unfolding trim_token trim_front
trim_token_word c s w =
    rw (trim_token, trim_front, w.0.0.0, if◌then◌else◌) (trim_back-plain [] (c ∷ s) w refl)

-- The parameter ` charset=cs`.
read_parameter-charset :
    (c : ℕ) (s : Bytes)
    → IsPlain (c ∷ s)
    → read_parameter (charset_start ++ b'=' ∷ c ∷ s) [] ≡ c ∷ s
unfolding read_parameter find to_lower lower_byte
read_parameter-charset c s w =
    ap (λ v. set_parameter charset_start v []) (trim_token_word c s w) ∙ set_charset (c ∷ s) [] w

parameter-Lacks : (s : Bytes) → IsPlain s → Lacks b';' (b' ' ∷ (charset_start ++ b'=' ∷ s))
parameter-Lacks s w = Lacks-append b';' (codes " charset=") s (ground arith) (plain-Lacks_semi s w)

parameter_trimmed :
    (s : Bytes)
    → IsPlain s
    → is_empty s ≡ false
    → trim_token (b' ' ∷ (charset_start ++ b'=' ∷ s)) ≡ charset_start ++ b'=' ∷ s
unfolding trim_token trim_front is_space
parameter_trimmed s w ne = trim_back-plain (codes "charset=") s w ne

read_parameters-charset :
    (c : ℕ) (s : Bytes)
    → IsPlain (c ∷ s)
    → (f : ℕ) → read_parameters (suc f) (b' ' ∷ (charset_start ++ b'=' ∷ c ∷ s)) [] ≡ c ∷ s
unfolding read_parameters
read_parameters-charset c s w f =
    rw
      (
        read_parameters,
        find-Lacks b';' (b' ' ∷ (charset_start ++ b'=' ∷ c ∷ s)) (parameter-Lacks (c ∷ s) w),
        parameter_trimmed (c ∷ s) w refl,
      )
      (read_parameter-charset c s w)

abbrev shown_charset : Bytes → Bytes
shown_charset cs = if is_empty cs then [] else codes "; charset=" ++ cs

media_rest-plain :
    (t st : Bytes) → IsPlain st → media_rest t st ≡ record { type = t; subtype = st; charset = [] }
unfolding media_rest
media_rest-plain t st w =
    rw (media_rest, find-Lacks b';' st (plain-Lacks_semi st w))
      (ap (λ u. record { type = t; subtype = u; charset = [] }) (lower-plain st w))

media_rest-shown :
    (t st cs : Bytes)
    → IsPlain st
    → IsPlain cs
    → media_rest t (st ++ shown_charset cs) ≡ record { type = t; subtype = st; charset = cs }
unfolding media_rest
media_rest-shown t st [] w v = ap (media_rest t) (append-nil st) ∙ media_rest-plain t st w
media_rest-shown t st (c ∷ s) w v =
    let at = find-append b';' st (b' ' ∷ (charset_start ++ b'=' ∷ c ∷ s)) (plain-Lacks_semi st w) in
    let behind = drop-append_cons st b';' (b' ' ∷ (charset_start ++ b'=' ∷ c ∷ s)) in
    rw
      (
        media_rest,
        at,
        behind,
        take-append_left st (b';' ∷ b' ' ∷ (charset_start ++ b'=' ∷ c ∷ s)),
        lower-plain st w,
        read_parameters-charset c s v,
      )
      refl

-- What `to_string` gives has no space at its ends.
to_string-trimmed :
    (x : ℕ) (t st cs : Bytes)
    → is_space x ≡ false
    → IsPlain st
    → is_empty st ≡ false
    → IsPlain cs
    → trim_token (x ∷ (t ++ b'/' ∷ (st ++ shown_charset cs)))
      ≡ x ∷ (t ++ b'/' ∷ (st ++ shown_charset cs))
to_string-trimmed x t st [] here w ne v = rw (append-nil) (behind_slash x t st here w ne)
  where
    behind_slash :
        (x : ℕ) (t s : Bytes)
        → is_space x ≡ false
        → IsPlain s
        → is_empty s ≡ false
        → trim_token (x ∷ (t ++ b'/' ∷ s)) ≡ x ∷ (t ++ b'/' ∷ s)
    behind_slash x t s here w ne =
        ap (λ u. trim_token (x ∷ u)) (sym (append_assoc t (b'/' ∷ []) s))
        ∙ trim_token-plain x (t ++ b'/' ∷ []) s here w ne
        ∙ ap (◌∷◌ x) (append_assoc t (b'/' ∷ []) s)
to_string-trimmed x t st (c ∷ s) here w ne v =
    let l : Bytes = codes "; charset=" in
    let all : t ++ b'/' ∷ (st ++ (l ++ c ∷ s)) ≡ (t ++ b'/' ∷ (st ++ l)) ++ c ∷ s =
      ap (λ u. t ++ b'/' ∷ u) (sym (append_assoc st l (c ∷ s)))
      ∙ sym (append_assoc t (b'/' ∷ (st ++ l)) (c ∷ s)) in
    ap (λ u. trim_token (x ∷ u)) all
    ∙ trim_token-plain x (t ++ b'/' ∷ (st ++ l)) (c ∷ s) here v refl
    ∙ ap (◌∷◌ x) (sym all)

parse_trimmed :
    (ct : Bytes) (n : ℕ)
    → trim_token ct ≡ ct
    → is_empty ct ≡ false
    → find b'/' ct ≡ some n
    → parse_media_type ct ≡ some (media_rest (to_lower (take n ct)) (drop (n + 1) ct))
unfolding parse_media_type
parse_trimmed ct n trimmed ne at =
    rw (parse_media_type, trimmed, ne, at, if◌then◌else◌)
      (ap (λ u. some (media_rest (to_lower (take n u)) (drop (n + 1) u))) trimmed)

-- A media type that is printed is parsed as the same type, if its parts have no space, upper-case
-- letter, ';', '/' or quote, and its type and subtype are not empty.
pub parse_media_type-to_string :
    (mt : MediaType)
    → IsPlain mt.type
    → IsPlain mt.subtype
    → IsPlain mt.charset
    → is_empty mt.type ≡ false
    → is_empty mt.subtype ≡ false
    → parse_media_type (to_string mt) ≡ some mt
unfolding parse_media_type to_string
parse_media_type-to_string mt wt ws wc nt ns = go mt.type wt nt
  where
    go :
        (t : Bytes)
        → IsPlain t
        → is_empty t ≡ false
        → parse_media_type (t ++ b'/' ∷ (mt.subtype ++ shown_charset mt.charset))
          ≡ some (record { type = t; subtype = mt.subtype; charset = mt.charset })
    go [] w ne = ground arith
    go (x ∷ t) w ne =
        let rest : Bytes = mt.subtype ++ shown_charset mt.charset in
        let at = find-append b'/' (x ∷ t) rest (plain-Lacks_slash (x ∷ t) w) in
        let whole : Bytes = (x ∷ t) ++ b'/' ∷ rest in
        parse_trimmed whole (length (x ∷ t))
          (to_string-trimmed x t mt.subtype mt.charset w.0.0.0 ws ns wc) refl at
        ∙ ap (λ u. some (media_rest (to_lower u) (drop (length (x ∷ t) + 1) whole)))
            (take-append_left (x ∷ t) (b'/' ∷ rest))
        ∙ ap (λ u. some (media_rest u (drop (length (x ∷ t) + 1) whole))) (lower-plain (x ∷ t) w)
        ∙ ap (λ u. some (media_rest (x ∷ t) u)) (drop-append_cons (x ∷ t) b'/' rest)
        ∙ ap (λ m. some m) (media_rest-shown (x ∷ t) mt.subtype mt.charset ws wc)
