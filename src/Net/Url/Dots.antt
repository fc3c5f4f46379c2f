-- ===== src/Net/Url/Dots.antt =====
-- "/./" and "/../" in a path of plain segments.
use twitch_bot.Prelude.{
  ℕ, suc, ◌+◌, ◌≡◌, ◌≢◌, refl, sym, ap, ◌∙◌, false, inl, inr, Option, none, some, List, [], ◌∷◌,
  ◌++◌, arith, ◌==◌, ==_iff, Bool-cases, length, length-append, append_assoc, append-nil,
}
use twitch_bot.Prelude.Bytes.{Bytes, codes, has_prefix}
use twitch_bot.Prelude.Search.{find, find_string, Lacks, Lacks-of_find}

-- The segments, each behind a '/'.
abbrev pub segments : List Bytes → Bytes
segments [] = []
segments (s ∷ ss) = b'/' ∷ (s ++ segments ss)

-- No segment has a '/' or is `w`.
abbrev pub AreOther : Bytes → List Bytes → Type 0
AreOther w [] = Unit {0}
AreOther w (s ∷ ss) = (Lacks b'/' s × (s ≢ w)) × AreOther w ss

-- `../` for each segment that is climbed, and a name.
abbrev pub climbs : List Bytes → Bytes → Bytes
climbs [] name = name
climbs (s ∷ ups) name = codes "../" ++ climbs ups name

-- The segments that are kept, and the ones that are climbed, the last one first.
abbrev pub below : List Bytes → List Bytes → List Bytes
below keep [] = keep
below keep (s ∷ ups) = below keep ups ++ s ∷ []

has_prefix-segment :
    (w s t : Bytes)
    → Lacks b'/' w
    → Lacks b'/' s
    → s ≢ w
    → has_prefix (w ++ b'/' ∷ []) (s ++ b'/' ∷ t) ≡ false
unfolding has_prefix
has_prefix-segment [] [] t hw hs ne = absurd (ne refl)
has_prefix-segment [] (a ∷ s) t hw hs ne = ground (arith, hs.0)
has_prefix-segment (b ∷ w) [] t hw hs ne = ground (arith, hw.0)
has_prefix-segment (b ∷ w) (a ∷ s) t hw hs ne = elim (Bool-cases (b == a)) [
  | inl same ↦ rw (same) (
      has_prefix-segment w s t hw.1 hs.1
        (λ e. ne (ap (λ x. x ∷ s) (sym ((==_iff b a).0 same)) ∙ ap (◌∷◌ b) e)))
  | inr differs ↦ rw (differs) refl
]

has_prefix-name : (w name : Bytes) → Lacks b'/' name → has_prefix (w ++ b'/' ∷ []) name ≡ false
unfolding has_prefix
has_prefix-name [] [] h = refl
has_prefix-name [] (a ∷ name) h = ground (arith, h.0)
has_prefix-name (b ∷ w) [] h = refl
has_prefix-name (b ∷ w) (a ∷ name) h = ground (arith, has_prefix-name w name h.1)

-- The length of what is skipped, in front of a place that is found or not.
abbrev pub behind : ℕ → Option ℕ → Option ℕ
behind n none = none
behind n (some i) = some (n + i)

pub find_string-miss :
    (p : Bytes) (x : ℕ) (t : Bytes)
    → has_prefix p (x ∷ t) ≡ false
    → find_string p (x ∷ t) ≡ behind 1 (find_string p t)
unfolding find_string
find_string-miss p x t miss = ground (arith, miss)

-- The bytes of a segment are skipped.
find_string-skip :
    (q s t : Bytes)
    → Lacks b'/' s
    → find_string (b'/' ∷ q) (s ++ t) ≡ behind (length s) (find_string (b'/' ∷ q) t)
unfolding has_prefix
find_string-skip q [] t h = ground arith
find_string-skip q (x ∷ s) t h =
    find_string-miss (b'/' ∷ q) x (s ++ t) (ground (arith, h.0))
    ∙ ground (arith, find_string-skip q s t h.1)

pub find_string-segment :
    (w s t : Bytes)
    → Lacks b'/' w
    → Lacks b'/' s
    → s ≢ w
    → find_string (b'/' ∷ (w ++ b'/' ∷ [])) (b'/' ∷ (s ++ b'/' ∷ t))
      ≡ behind (suc (length s)) (find_string (b'/' ∷ (w ++ b'/' ∷ [])) (b'/' ∷ t))
unfolding has_prefix
find_string-segment w s t hw hs ne =
    find_string-miss (b'/' ∷ (w ++ b'/' ∷ [])) b'/' (s ++ b'/' ∷ t)
      (ground (arith, has_prefix-segment w s t hw hs ne))
    ∙ ap (behind 1) (find_string-skip (w ++ b'/' ∷ []) s (b'/' ∷ t) hs)
    ∙ ground arith

behind-behind : (m n : ℕ) (o : Option ℕ) → behind m (behind n o) ≡ behind (m + n) o
behind-behind m n none = refl
behind-behind m n (some i) = ap some (omega arith)

-- No segment is `w`, and so "/w/" is found where it is in what follows.
pub find_string-segments :
    (w : Bytes) (ss : List Bytes) (t : Bytes)
    → Lacks b'/' w
    → AreOther w ss
    → find_string (b'/' ∷ (w ++ b'/' ∷ [])) (segments ss ++ b'/' ∷ t)
      ≡ behind (length (segments ss)) (find_string (b'/' ∷ (w ++ b'/' ∷ [])) (b'/' ∷ t))
find_string-segments w [] t hw h = ground arith
find_string-segments w (s ∷ []) t hw h =
    rw (append-nil s) (find_string-segment w s t hw h.0.0 h.0.1)
find_string-segments w (s ∷ u ∷ ss) t hw h =
    rw
      (
        append_assoc s (segments (u ∷ ss)) (b'/' ∷ t),
        find_string-segment w s ((u ++ segments ss) ++ b'/' ∷ t) hw h.0.0 h.0.1,
        find_string-segments w (u ∷ ss) t hw h.1,
        behind-behind (suc (length s)) (length (segments (u ∷ ss)))
            (find_string (b'/' ∷ (w ++ b'/' ∷ [])) (b'/' ∷ t)),
        length-append s (segments (u ∷ ss)),
      )
      (ap (λ n. behind n (find_string (b'/' ∷ (w ++ b'/' ∷ [])) (b'/' ∷ t)))
        {x = suc (length s) + length (segments (u ∷ ss))} (omega arith))

find_string-empty : (w : Bytes) → find_string (b'/' ∷ (w ++ b'/' ∷ [])) [] ≡ none
unfolding has_prefix find_string
find_string-empty w = refl

pub dots_plain : Lacks b'/' (codes "..")
unfolding find
dots_plain = Lacks-of_find b'/' (codes "..") refl

pub find_string-name :
    (w name : Bytes) → Lacks b'/' name → find_string (b'/' ∷ (w ++ b'/' ∷ [])) (b'/' ∷ name) ≡ none
unfolding has_prefix find_string
find_string-name w name h =
    find_string-miss (b'/' ∷ (w ++ b'/' ∷ [])) b'/' name (ground (arith, has_prefix-name w name h))
    ∙ ap (behind 1) (
        ap (find_string (b'/' ∷ (w ++ b'/' ∷ []))) (sym (append-nil name))
        ∙ find_string-skip (w ++ b'/' ∷ []) name [] h
        ∙ ap (behind (length name)) (find_string-empty w))

pub segments-snoc :
    (ss : List Bytes) (s : Bytes) → segments (ss ++ s ∷ []) ≡ segments ss ++ b'/' ∷ s
segments-snoc [] s = ap (λ x. b'/' ∷ x) (append-nil s)
segments-snoc (u ∷ ss) s = rw (segments-snoc ss s, append_assoc u (segments ss) (b'/' ∷ s)) refl

pub AreOther-front : (w : Bytes) (ss ts : List Bytes) → AreOther w (ss ++ ts) → AreOther w ss
AreOther-front w [] ts h = tt
AreOther-front w (s ∷ ss) ts h = (h.0, AreOther-front w ss ts h.1)

pub AreOther-last :
    (w : Bytes) (ss : List Bytes) (s : Bytes) → AreOther w (ss ++ s ∷ []) → Lacks b'/' s
AreOther-last w [] s h = h.0.0
AreOther-last w (u ∷ ss) s h = AreOther-last w ss s h.1
