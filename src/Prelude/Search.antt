-- ===== src/Prelude/Search.antt =====
-- The searches of `std::string_view`: `find` of a byte, with what it says of the string.
use Prim.Native.Nat.{ℕ, zero, suc, ◌+◌, ◌≤◌, ◌<◌}
use mathlib.Core.Path.{◌≡◌, refl, ap, sym}
use mathlib.Core.Logic.{◌≢◌, ◌⊎◌, inl, inr}
use mathlib.Core.Option
use mathlib.Core.Option.{Option, none, some, none-ne-some}
use mathlib.Core.List.{[], ◌∷◌, ◌++◌}
use native.Mathlib.Omega.{arith}
use twitch_bot.Prelude.Tests.{◌==◌, ==_iff, if◌then◌else◌, Bool-cases, Option-cases}
use twitch_bot.Prelude.Lists.{length, take, drop, take-append_left, drop-append_cons, length-append}
use twitch_bot.Prelude.Bytes.{Bytes, has_prefix, has_prefix-append}

-- `s.find(c)`; `npos` is `none`.
unfoldable pub find : ℕ → Bytes → Option ℕ
find c [] = none
find c (x ∷ xs) = if x == c then some 0 else Option.map suc (find c xs)

-- `s.rfind(c)`.
unfoldable pub rfind : ℕ → Bytes → Option ℕ
rfind c [] = none
rfind c (x ∷ xs) = elim (rfind c xs) [
  | some i ↦ some (suc i)
  | none ↦ if x == c then some 0 else none
]

-- `s.find(needle)`.
unfoldable pub find_string : Bytes → Bytes → Option ℕ
find_string needle [] = if has_prefix needle [] then some 0 else none
find_string needle (x ∷ xs) =
    if has_prefix needle (x ∷ xs) then some 0 else Option.map suc (find_string needle xs)

-- `memchr(s, c, n)`, with the end of the string for a null result.
unfoldable pub find_or_end : ℕ → Bytes → ℕ
unfolding find
find_or_end c s = elim (find c s) [ none ↦ length s | some n ↦ n ]

-- No byte of the string is `c`.
abbrev pub Lacks : ℕ → Bytes → Type 0
Lacks c [] = Unit {0}
Lacks c (x ∷ xs) = (x ≢ c) × Lacks c xs

pub find-append : (c : ℕ) (xs ys : Bytes) → Lacks c xs → find c (xs ++ c ∷ ys) ≡ some (length xs)
unfolding find
find-append c [] ys h = ground arith
find-append c (x ∷ xs) ys h = ground (arith, find-append c xs ys h.1)

pub find-Lacks : (c : ℕ) (xs : Bytes) → Lacks c xs → find c xs ≡ none
unfolding find
find-Lacks c [] h = refl
find-Lacks c (x ∷ xs) h = ground (arith, find-Lacks c xs h.1)

pub Lacks-of_find : (c : ℕ) (xs : Bytes) → find c xs ≡ none → Lacks c xs
unfolding find
Lacks-of_find c [] h = tt
Lacks-of_find c (x ∷ xs) h = ground (arith, Lacks-of_find c xs)

-- Where `find` succeeds the string splits at the first `c`.
pub record Split (c : ℕ) (xs : Bytes) (i : ℕ) : Type 0 where
  pub left : Bytes
  pub right : Bytes
  pub whole : xs ≡ left ++ c ∷ right
  pub lacks : Lacks c left
  pub length_left : length left ≡ i

Split-cons : (c x : ℕ) {xs : Bytes} {j : ℕ} → x ≢ c → Split c xs j → Split c (x ∷ xs) (suc j)
Split-cons c x ne s = record {
  left = x ∷ s.left;
  right = s.right;
  whole = ap (◌∷◌ x) s.whole;
  lacks = (ne, s.lacks);
  length_left = ap suc s.length_left;
}

pub find-Split : (c : ℕ) (xs : Bytes) (i : ℕ) → find c xs ≡ some i → Split c xs i
unfolding find
find-Split c [] i h = absurd (none-ne-some i h)
find-Split c (x ∷ xs) i h = elim (Bool-cases (x == c)) [
  | inl hit ↦ record {
    left = [];
    right = xs;
    whole = ap (λ y. y ∷ xs) ((==_iff x c).0 hit);
    lacks = tt;
    length_left = ground arith;
  }
  | inr miss ↦
      let h' = rw (miss, if◌then◌else◌) at h in
      let (j, e, same) = (Option.map-eq-some_iff suc (find c xs)).0 h' in
      rw (← same) (Split-cons c x (ground arith) (find-Split c xs j e))
]

pub take-Split : {c : ℕ} {xs : Bytes} {i : ℕ} (s : Split c xs i) → take i xs ≡ s.left
take-Split s = rw (← s.length_left, s.whole) (take-append_left s.left _)

pub drop-Split : {c : ℕ} {xs : Bytes} {i : ℕ} (s : Split c xs i) → drop (i + 1) xs ≡ s.right
drop-Split s = rw (← s.length_left, s.whole) (drop-append_cons s.left _ s.right)

pub length-Split :
    {c : ℕ} {xs : Bytes} {i : ℕ} (s : Split c xs i) → length xs ≡ i + 1 + length s.right
length-Split s = rw s.whole (omega (arith, length-append s.left (_ ∷ s.right), s.length_left))

-- Searching the first n bytes, and then the others.
pub find_or_end-take-some :
    (c n : ℕ) (s : Bytes) (p : ℕ) → find c (take n s) ≡ some p → find c s ≡ some p
unfolding find
find_or_end-take-some c zero s p h = absurd (cc)
find_or_end-take-some c (suc n) [] p h = absurd (cc)
find_or_end-take-some c (suc n) (x ∷ s) p h = elim (Bool-cases (x == c)) [
  | inl hit ↦ ground (arith, hit)
  | inr miss ↦
      let (q, e, same) =
        (Option.map-eq-some_iff suc (find c (take n s))).0 (rw (miss, if◌then◌else◌) at h) in
      rw (miss, find_or_end-take-some c n s q e) (ap some same)
]

pub find_or_end-take-none :
    (c n : ℕ) (s : Bytes)
    → n ≤ length s
    → find c (take n s) ≡ none
    → find_or_end c s ≡ n + find_or_end c (drop n s)
unfolding find find_or_end
find_or_end-take-none c zero s h e = omega arith
find_or_end-take-none c (suc n) [] h e = absurd (omega arith)
find_or_end-take-none c (suc n) (x ∷ s) h e = ground (arith, find_or_end-take-none c n s)

pub find_or_end-nil : (c : ℕ) → find_or_end c [] ≡ 0
unfolding find find_or_end
find_or_end-nil c = refl

pub find_or_end-some : (c : ℕ) (s : Bytes) (p : ℕ) → find c s ≡ some p → find_or_end c s ≡ p
unfolding find_or_end
find_or_end-some c s p h = ground arith

pub find_or_end-none : (c : ℕ) (s : Bytes) → find c s ≡ none → find_or_end c s ≡ length s
unfolding find_or_end
find_or_end-none c s h = ground arith

-- Where the first `c` of a longer string stands.
pub find-cons :
    (c x : ℕ) (xs : Bytes) (j : ℕ)
    → find c (x ∷ xs) ≡ some j
    → ((x ≡ c) × (j ≡ 0)) ⊎ ((q : ℕ) × (x ≢ c) × (find c xs ≡ some q) × (j ≡ suc q))
unfolding find
find-cons c x xs j h = elim (Bool-cases (x == c)) [
  | inl hit ↦ inl ((==_iff x c).0 hit, ground arith)
  | inr miss ↦
      let (q, e, same) =
        (Option.map-eq-some_iff suc (find c xs)).0 (rw (miss, if◌then◌else◌) at h) in
      inr (q, ground arith, e, sym same)
]

pub find-nil : (c : ℕ) → find c [] ≡ none
unfolding find
find-nil c = refl

pub find_or_end-append : (c : ℕ) (u v : Bytes) → Lacks c u → find_or_end c (u ++ c ∷ v) ≡ length u
find_or_end-append c u v h = find_or_end-some c (u ++ c ∷ v) (length u) (find-append c u v h)

pub find_or_end-Lacks : (c : ℕ) (u : Bytes) → Lacks c u → find_or_end c u ≡ length u
find_or_end-Lacks c u h = find_or_end-none c u (find-Lacks c u h)

pub Lacks-append : (c : ℕ) (u v : Bytes) → Lacks c u → Lacks c v → Lacks c (u ++ v)
Lacks-append c [] v hu hv = hv
Lacks-append c (x ∷ u) v hu hv = (hu.0, Lacks-append c u v hu.1 hv)

pub rfind-Lacks : (c : ℕ) (xs : Bytes) → Lacks c xs → rfind c xs ≡ none
unfolding rfind
rfind-Lacks c [] h = refl
rfind-Lacks c (x ∷ xs) h = ground (arith, rfind-Lacks c xs h.1)

pub rfind-append : (c : ℕ) (xs ys : Bytes) → Lacks c ys → rfind c (xs ++ c ∷ ys) ≡ some (length xs)
unfolding rfind
rfind-append c [] ys h = ground (arith, rfind-Lacks c ys h)
rfind-append c (x ∷ xs) ys h = ground (arith, rfind-append c xs ys h)

pub find_string-append :
    (c : ℕ) (needle xs rest : Bytes)
    → Lacks c xs
    → find_string (c ∷ needle) (xs ++ (c ∷ needle) ++ rest) ≡ some (length xs)
unfolding find_string has_prefix
find_string-append c needle [] rest h = ground (arith, has_prefix-append needle rest)
find_string-append c needle (x ∷ xs) rest h =
    ground (arith, find_string-append c needle xs rest h.1)

pub rfind-lt : (c : ℕ) (xs : Bytes) (i : ℕ) → rfind c xs ≡ some i → i < length xs
unfolding rfind
rfind-lt c [] i h = absurd (none-ne-some i h)
rfind-lt c (x ∷ xs) i h = elim (Option-cases (rfind c xs)) [
  | inl none_behind ↦ ground (arith, h, none_behind)
  | inr (j, behind) ↦ ground (arith, h, behind, rfind-lt c xs j behind)
]
