-- ===== src/Irc/Scan/Bits.antt =====
-- What the masks, the trailing zeros and the cleared lowest bit say of the bytes.
use Prim.Native.Nat.{bit_and, digits, bit_and-bitwise}
use native.Mathlib.Nat.{pow-suc, mod-eq_of_lt}
use twitch_bot.Prelude.{
  ℕ, zero, suc, ◌+◌, ◌-◌, ◌*◌, ◌/◌, ◌%◌, ◌^◌, ◌≤◌, ◌<◌, min, ◌≡◌, refl, ap, ◌∙◌, none, some, inl,
  inr, subst, [], ◌∷◌, arith, ◌==◌, Bool-cases, length, take, drop, length-take,
}
use mathlib.Core.Path.{ap₂}
use twitch_bot.Prelude.Bytes.{Bytes}
use twitch_bot.Prelude.Search.{find}
use twitch_bot.Irc.Scan.{mask, live_mask, ctz_from}

-- x * 2 ^ p
unfoldable pub shift : ℕ → ℕ → ℕ
shift zero x = x
shift (suc p) x = 2 * shift p x

pub shift-shift : (p q x : ℕ) → shift p (shift q x) ≡ shift (p + q) x
unfolding shift
shift-shift zero q x = ap (λ k. shift k x) {x = q} {y = 0 + q} (omega arith)
shift-shift (suc p) q x =
    ap (λ k. 2 * k) (shift-shift p q x)
    ∙ ap (λ k. shift k x) {x = suc (p + q)} {y = suc p + q} (omega arith)

pub shift-suc : (p x : ℕ) → shift (suc p) x ≡ shift p (2 * x)
unfolding shift
shift-suc zero x = refl
shift-suc (suc p) x = ap (λ k. 2 * k) (shift-suc p x)

pub shift-pos : (p x : ℕ) → 0 < x → 0 < shift p x
unfolding shift
shift-pos zero x h = h
shift-pos (suc p) x h = omega (arith, shift-pos p x h)

pub shift-zero : (p : ℕ) → shift p 0 ≡ 0
unfolding shift
shift-zero zero = refl
shift-zero (suc p) = omega (arith, shift-zero p)

-- The trailing zeros of an odd number shifted by p.
pub ctz_from-shift : (f p y : ℕ) → p < f → ctz_from f (shift p (2 * y + 1)) ≡ p
unfolding ctz_from shift
ctz_from-shift zero p y h = elim h [ ]
ctz_from-shift (suc f) zero y h = ground arith
ctz_from-shift (suc f) (suc p) y h =
    let halved : 2 * shift p (2 * y + 1) / 2 ≡ shift p (2 * y + 1) = omega arith in
    ground (arith, halved, ctz_from-shift f p y)

-- `&` on words of n binary digits at most. One digit more changes nothing, so any number of them
-- does not.
abbrev meet : ℕ → ℕ → ℕ → ℕ
meet n = digits (λ _. zero) min n

meet_one_more : (n x y : ℕ) → x ≤ n → meet (suc n) x y ≡ meet n x y
meet_one_more zero zero y small = refl
meet_one_more (suc n) zero y small = refl
meet_one_more zero (suc x) y small = absurd (omega (arith, small))
meet_one_more (suc n) (suc x) y small =
    let half : suc x / 2 ≤ n = omega (arith, small) in
    ground (arith, meet_one_more n (suc x / 2) (y / 2) half)

meet_more : (k n x y : ℕ) → x ≤ n → meet (n + k) x y ≡ meet n x y
meet_more zero n x y small = ap (λ d. meet d x y) {x = n + 0} {y = n} (omega arith)
meet_more (suc k) n x y small =
    ap (λ d. meet d x y) {x = n + suc k} {y = suc (n + k)} (omega arith)
    ∙ meet_one_more (n + k) x y (omega (arith, small))
    ∙ meet_more k n x y small

nothing_in_common : (y : ℕ) → bit_and 0 y ≡ 0
nothing_in_common y = bit_and-bitwise 0 y

-- The lowest digit of `&`, and the others.
bit_and_step : (x y : ℕ) → bit_and x y ≡ bit_and (x / 2) (y / 2) * 2 + min (x % 2) (y % 2)
bit_and_step zero y = omega (arith, nothing_in_common y, nothing_in_common (y / 2))
bit_and_step (suc x) y =
    let half : ℕ = suc x / 2 in
    let spare : ℕ = x - half in
    let enough : meet x half (y / 2) ≡ meet half half (y / 2) =
      ap (λ d. meet d half (y / 2)) {x = x} {y = half + spare} (omega arith)
      ∙ meet_more spare half half (y / 2) (omega arith) in
    omega (arith, enough, bit_and-bitwise (suc x) y, bit_and-bitwise half (y / 2))

bit_and_self_fuel : (n a : ℕ) → a ≤ n → bit_and a a ≡ a
bit_and_self_fuel n zero h = nothing_in_common 0
bit_and_self_fuel zero (suc a) h = absurd (omega arith)
bit_and_self_fuel (suc n) (suc a) h =
    omega (arith, bit_and_step (suc a) (suc a), bit_and_self_fuel n (suc a / 2) (omega arith))

pub bit_and_self : (a : ℕ) → bit_and a a ≡ a
bit_and_self a = bit_and_self_fuel a a (omega arith)

-- `bits & (bits - 1)` clears the lowest bit.
pub clear_lowest :
    (p y : ℕ) → bit_and (shift p (2 * y + 1)) (shift p (2 * y + 1) - 1) ≡ shift p (2 * y)
unfolding shift
clear_lowest zero y =
    let halves : bit_and ((2 * y + 1) / 2) ((2 * y + 1 - 1) / 2) ≡ bit_and y y =
      ap₂ bit_and {x = (2 * y + 1) / 2} {y = y} {u = (2 * y + 1 - 1) / 2} {v = y} (omega arith)
        (omega arith) in
    omega (arith, bit_and_step (2 * y + 1) (2 * y + 1 - 1), halves, bit_and_self y)
clear_lowest (suc p) y =
    let s : ℕ = shift p (2 * y + 1) in
    let pos : 0 < s = shift-pos p (2 * y + 1) (omega arith) in
    let halves : bit_and (2 * s / 2) ((2 * s - 1) / 2) ≡ bit_and s (s - 1) =
      ap₂ bit_and {x = 2 * s / 2} {y = s} {u = (2 * s - 1) / 2} {v = s - 1} (omega arith)
        (omega arith) in
    omega (arith, bit_and_step (2 * s) (2 * s - 1), halves, clear_lowest p y)

-- The mask of a string with no `c` is 0.
pub mask_Lacks : (c : ℕ) (xs : Bytes) → find c xs ≡ none → mask c xs ≡ 0
unfolding mask find
mask_Lacks c [] h = refl
mask_Lacks c (x ∷ xs) h = ground (arith, mask_Lacks c xs)

-- The lowest bit of a mask is the first `c`, and the bits above are the mask of what follows it.
pub mask-find :
    (c : ℕ) (xs : Bytes) (p : ℕ)
    → find c xs ≡ some p
    → mask c xs ≡ shift p (2 * mask c (drop (suc p) xs) + 1)
unfolding mask find shift
mask-find c [] p h = absurd (cc)
mask-find c (x ∷ xs) zero h = elim (Bool-cases (x == c)) [
  | inl hit ↦ ground (arith, hit)
  | inr miss ↦ ground (arith, find c xs)
]
mask-find c (x ∷ xs) (suc p) h = ground (arith, mask-find c xs p)

pub mask-lt : (c : ℕ) (xs : Bytes) → mask c xs < 2 ^ length xs
unfolding mask
mask-lt c [] = omega arith
mask-lt c (x ∷ xs) = ground (arith, mask-lt c xs, pow-suc 2 (length xs))

pub live_mask-mask :
    (c : ℕ) (s : Bytes) (n : ℕ) → n ≤ length s → live_mask n (mask c (take n s)) ≡ mask c (take n s)
live_mask-mask c s n h =
    let below : mask c (take n s) < 2 ^ n =
      subst (λ k. mask c (take n s) < 2 ^ k) {x = length (take n s)} {y = n}
        (omega (arith, length-take n s)) (mask-lt c (take n s)) in
    ground (arith, mod-eq_of_lt below)
