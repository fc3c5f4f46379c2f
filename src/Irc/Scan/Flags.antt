-- ===== src/Irc/Scan/Flags.antt =====
-- The moderator flag: which bytes of the line set it.
use mathlib.Core.Option.{none-ne-some}
use twitch_bot.Prelude.{
  ℕ, zero, suc, ◌+◌, ◌-◌, ◌*◌, ◌/◌, ◌≤◌, ◌<◌, ◌≡◌, ◌≢◌, refl, sym, ap, ◌∙◌, min, Bool, true, false,
  ◌||◌, none, some, inl, inr, [], ◌∷◌, ◌++◌, arith, if◌then◌else◌, Option-cases, length,
  length-append, take, drop, length-take, length-drop, drop-take, drop-drop,
}
use twitch_bot.Prelude.Bytes.{
  Bytes, sp, codes, is_empty, has_prefix, has_prefix-append, starts_with_byte,
}
use twitch_bot.Prelude.Search.{find, find_or_end, find-nil, find-cons}
use twitch_bot.Irc.Scan.{
  mask, scan64, window, pop_lowest, harvest, harvest_mod, harvest_bc, is_mod_tag, is_user_type_mod,
  scan_tags_from, find_space_in_tags_and_flags,
}
use twitch_bot.Irc.Scan.Bits.{shift, shift-zero, mask_Lacks, live_mask-mask}
use twitch_bot.Irc.Scan.Windows.{find-lt, pop_lowest-mask, spaces-WindowStep}

-- The test holds at one of the first n positions.
unfoldable pub any_at : ℕ → (Bytes → Bool) → Bytes → Bool
any_at zero test s = false
any_at (suc n) test [] = false
any_at (suc n) test (x ∷ xs) = test (x ∷ xs) || any_at n test xs

-- The test holds only in front of a `c`.
abbrev pub Starts : ℕ → (Bytes → Bool) → Type 0
Starts c test = (s : Bytes) → test s ≡ true → starts_with_byte c s ≡ true

any_at-nil : (n : ℕ) (test : Bytes → Bool) → any_at n test [] ≡ false
unfolding any_at
any_at-nil zero test = refl
any_at-nil (suc n) test = refl

any_at-add :
    (a b : ℕ) (test : Bytes → Bool) (s : Bytes)
    → any_at (a + b) test s ≡ (any_at a test s || any_at b test (drop a s))
unfolding any_at
any_at-add zero b test s = ap (λ n. any_at n test s) {x = 0 + b} {y = b} (omega arith)
any_at-add (suc a) b test [] = rw any_at-nil (rw any_at-nil)
any_at-add (suc a) b test (x ∷ s) =
    let next : suc a + b ≡ suc (a + b) = omega arith in
    rw next (ground (arith, any_at-add a b test s))

-- No `c`, no hit.
any_at-none :
    (c : ℕ) (test : Bytes → Bool)
    → Starts c test
    → (n : ℕ) (s : Bytes) → find c (take n s) ≡ none
    → any_at n test s ≡ false
unfolding any_at find
any_at-none c test starts zero s e = refl
any_at-none c test starts (suc n) [] e = refl
any_at-none c test starts (suc n) (x ∷ s) e =
    ground (arith, starts (x ∷ s), any_at-none c test starts n s)

-- The first `c` is the first position to test.
any_at_first :
    (c : ℕ) (test : Bytes → Bool)
    → Starts c test
    → (n j : ℕ) (s : Bytes) → find c (take n s) ≡ some j
    → any_at n test s ≡ (test (drop j s) || any_at (n - suc j) test (drop (suc j) s))
unfolding any_at
any_at_first c test starts zero j s e = absurd (none-ne-some j (sym (find-nil c) ∙ e))
any_at_first c test starts (suc n) j [] e = absurd (none-ne-some j (sym (find-nil c) ∙ e))
any_at_first c test starts (suc n) j (x ∷ s) e = elim (find-cons c x (take n s) j e) [
  | inl (hit, z) ↦ let less : suc n - suc 0 ≡ n = omega arith in rw (z, less)
  | inr (q, miss, e', z) ↦
      let less : suc n - suc (suc q) ≡ n - suc q = omega arith in
      rw (z, less) (ground (arith, starts (x ∷ s), miss, any_at_first c test starts n q s e'))
]

-- The loop over the bits of a mask tests every position of the window.
harvest-any_at :
    (c : ℕ) (test : Bytes → Bool)
    → Starts c test
    → (g k m bits : ℕ) (scan : Bytes) (flag : Bool) → bits ≡ shift k (mask c (take m (drop k scan)))
    → m ≤ length (drop k scan)
    → k + m ≤ 64
    → m ≤ g
    → harvest g test scan bits flag ≡ (flag || any_at m test (drop k scan))
unfolding harvest
harvest-any_at c test starts zero k m bits scan flag eq inside word fuel =
    let none_left : m ≡ 0 = omega arith in rw none_left (unfold any_at in ground arith)
harvest-any_at c test starts (suc g) k m bits scan flag eq inside word fuel =
    elim (Option-cases (find c (take m (drop k scan)))) [
      | inl missing ↦
          let clear : bits ≡ 0 = eq ∙ ap (shift k) (mask_Lacks c _ missing) ∙ shift-zero k in
          ground (arith, clear, any_at-none c test starts m (drop k scan) missing)
      | inr (j, found) ↦
          let t : Bytes = take m (drop k scan) in
          let inner : j < m = omega (arith, find-lt c t j found, length-take m (drop k scan)) in
          let popped = pop_lowest-mask c k j t (omega arith) found in
          let pop : pop_lowest bits ≡ (k + j, shift (suc (k + j)) (mask c (drop (suc j) t))) =
            rw eq popped.0 in
          let ne : bits ≢ 0 = rw eq popped.1 in
          let at : drop j (drop k scan) ≡ drop (k + j) scan = drop-drop j k scan in
          let behind : drop (suc j) (drop k scan) ≡ drop (suc (k + j)) scan =
            drop-drop (suc j) k scan
            ∙ ap (λ n. drop n scan) {x = k + suc j} {y = suc (k + j)} (omega arith) in
          let first = any_at_first c test starts m j (drop k scan) found in
          let flag' = if test (drop (k + j) scan) then true else flag in
          let later =
            harvest-any_at c test starts g (suc (k + j)) (m - suc j)
              (shift (suc (k + j)) (mask c (drop (suc j) t))) scan flag'
              (ap (λ s. shift (suc (k + j)) (mask c s))
                (drop-take (suc j) m (drop k scan) ∙ ap (take (m - suc j)) behind))
              (omega (arith, length-drop k scan, length-drop (suc (k + j)) scan)) (omega arith)
              (omega arith) in
          rw (pop, first, at, behind) (ground (arith, ne, later))
    ]

is_mod_tag-Starts : Starts b'm' is_mod_tag
unfolding is_mod_tag has_prefix
is_mod_tag-Starts [] h = absurd (ground arith)
is_mod_tag-Starts (x ∷ s) h = ground arith

is_mod_tag-here : (w : Bytes) → is_mod_tag (codes "mod=1" ++ w) ≡ true
unfolding is_mod_tag
is_mod_tag-here w = has_prefix-append (codes "mod=1") w

is_user_type_mod-Starts : Starts b'u' is_user_type_mod
unfolding is_user_type_mod has_prefix
is_user_type_mod-Starts [] h = absurd (ground arith)
is_user_type_mod-Starts (x ∷ s) h = ground arith

-- One of the two tags that mark a moderator begins in the first n bytes.
pub names_mod : ℕ → Bytes → Bool
names_mod n s = any_at n is_mod_tag s || any_at n is_user_type_mod s

window_bits :
    (c : ℕ) (s : Bytes) → mask c (take (window s) s) ≡ shift 0 (mask c (take (window s) s))
unfolding shift
window_bits c s = refl

harvest_mod-names_mod :
    (s : Bytes) (flag : Bool)
    → harvest_mod s (scan64 s (window s)) flag ≡ (flag || names_mod (window s) s)
unfolding harvest_mod names_mod scan64
harvest_mod-names_mod s flag =
    let bits = λ (c : ℕ). live_mask-mask c s (window s) (omega arith) in
    let mods =
      harvest-any_at b'm' is_mod_tag is_mod_tag-Starts 64 0 (window s)
        (mask b'm' (take (window s) s)) s flag (window_bits b'm' s) (omega arith) (omega arith)
        (omega arith) in
    let users =
      harvest-any_at b'u' is_user_type_mod is_user_type_mod-Starts 64 0 (window s)
        (mask b'u' (take (window s) s)) s (flag || any_at (window s) is_mod_tag s)
        (window_bits b'u' s) (omega arith) (omega arith) (omega arith) in
    rw (bits b'm', bits b'u', mods, users) (ground arith)

-- The bytes of the windows up to the one that holds the first space.
abbrev pub bytes_seen : Bytes → ℕ
bytes_seen s = min (length s) (64 * (find_or_end sp s / 64 + 1))

names_mod-nil : names_mod (bytes_seen []) [] ≡ false
unfolding names_mod any_at find_or_end find
names_mod-nil = refl

names_mod-add :
    (a b : ℕ) (s : Bytes) (flag : Bool)
    → ((flag || names_mod a s) || names_mod b (drop a s)) ≡ (flag || names_mod (a + b) s)
unfolding names_mod
names_mod-add a b s flag =
    ground (arith, any_at-add a b is_mod_tag s, any_at-add a b is_user_type_mod s)

scan_tags_from_is_mod :
    (f at : ℕ) (s : Bytes) (is_mod is_bc : Bool)
    → length s ≤ f
    → (scan_tags_from f at s is_mod is_bc).is_mod ≡ (is_mod || names_mod (bytes_seen s) s)
unfolding scan_tags_from
scan_tags_from_is_mod zero at [] is_mod is_bc h = ground (arith, names_mod-nil)
scan_tags_from_is_mod zero at (x ∷ xs) is_mod is_bc h = absurd (omega arith)
scan_tags_from_is_mod (suc f) at [] is_mod is_bc h = ground (arith, names_mod-nil)
scan_tags_from_is_mod (suc f) at (x ∷ xs) is_mod is_bc h =
    let s : Bytes = x ∷ xs in
    let m = scan64 s (window s) in
    let mod' = harvest_mod s m is_mod in
    let bc' = harvest_bc s m is_bc in
    let rest : Bytes = drop (window s) s in
    let size = length-drop (window s) s in
    let now = harvest_mod-names_mod s is_mod in
    elim (spaces-WindowStep s) [
      | inl (none_here, off) ↦
          let all : window s + bytes_seen rest ≡ bytes_seen s = omega (arith, off, size) in
          let later = scan_tags_from_is_mod f (at + window s) rest mod' bc' (omega (arith, size)) in
          ground (
            arith,
            none_here,
            later,
            now,
            names_mod-add (window s) (bytes_seen rest) s is_mod,
            ap (λ n. names_mod n s) all,
          )
      | inr (found, off, inside) ↦
          let all : window s ≡ bytes_seen s = omega arith in
          ground (arith, found, now, ap (λ n. names_mod n s) all)
    ]

-- The moderator flag says whether one of the two tags begins in the windows read, which reach up to
-- 63 bytes past the first space.
pub is_mod-names_mod :
    (s : Bytes) → (find_space_in_tags_and_flags s).is_mod ≡ names_mod (bytes_seen s) s
unfolding find_space_in_tags_and_flags
is_mod-names_mod s = scan_tags_from_is_mod (length s) 0 s false false (omega arith)

any_at-hit :
    (test : Bytes → Bool) (n : ℕ) (p t : Bytes)
    → length p < n
    → test t ≡ true
    → is_empty t ≡ false
    → any_at n test (p ++ t) ≡ true
unfolding any_at
any_at-hit test zero p t h hit ne = absurd (omega arith)
any_at-hit test (suc n) [] [] h hit ne = ground (arith, ne)
any_at-hit test (suc n) [] (x ∷ t) h hit ne = ground (arith, hit)
any_at-hit test (suc n) (x ∷ p) t h hit ne =
    rw (any_at-hit test n p t (omega arith) hit ne) (ground arith)

-- `mod=1` anywhere in the first window sets the flag.
pub mod_in_first_window :
    (p w : Bytes)
    → length p < 64
    → (find_space_in_tags_and_flags (p ++ (codes "mod=1" ++ w))).is_mod ≡ true
mod_in_first_window p w h =
    let t : Bytes = codes "mod=1" ++ w in
    let size = length-append p t in
    let inside : length p < bytes_seen (p ++ t) = omega (arith, size) in
    let hit = any_at-hit is_mod_tag (bytes_seen (p ++ t)) p t inside (is_mod_tag-here w) refl in
    is_mod-names_mod (p ++ t) ∙ unfold names_mod in rw hit
