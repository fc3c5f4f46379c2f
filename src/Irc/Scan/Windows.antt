-- ===== src/Irc/Scan/Windows.antt =====
-- The space mask of a window against the search byte by byte, and the scan of the tags block.
use Prim.Native.Nat.{bit_and}
use twitch_bot.Prelude.{
  ◌-◌, sym, ℕ, zero, suc, ◌+◌, ◌*◌, ◌≤◌, ◌<◌, ◌≡◌, ◌≢◌, ◌⊎◌, ap, ◌∙◌, Bool, false, none, some, inl,
  inr, [], ◌∷◌, arith, Option-cases, length, take, drop, length-take, length-drop,
}
use twitch_bot.Prelude.Bytes.{Bytes, sp}
use twitch_bot.Prelude.Search.{
  find, find-Split, length-Split, find_or_end, find_or_end-nil, find_or_end-some,
  find_or_end-take-some, find_or_end-take-none,
}
use twitch_bot.Irc.Scan.{
  mask, window, scan64, ctz64, ctz_from, pop_lowest, harvest_mod, harvest_bc, scan_tags_from,
  find_space_in_tags_and_flags,
}
use twitch_bot.Irc.Scan.Bits.{
  shift, shift-shift, shift-suc, clear_lowest, shift-pos, ctz_from-shift, mask_Lacks, mask-find,
  live_mask-mask,
}

-- The mask `m` of a string of at most 64 bytes: 0 where no byte is `c`, and else its trailing zeros
-- are the offset of the first one.
abbrev pub Locates : ℕ → Bytes → ℕ → Type 0
Locates c s m =
    ((find c s ≡ none) × (m ≡ 0))
    ⊎ ((p : ℕ) × (find c s ≡ some p)
        × (p < length s)
        × (m ≢ 0)
        × (ctz64 m ≡ p)
        × (m ≡ shift p (2 * mask c (drop (suc p) s) + 1)))

pub find-lt : (c : ℕ) (s : Bytes) (p : ℕ) → find c s ≡ some p → p < length s
find-lt c s p e = omega (arith, length-Split (find-Split c s p e))

ctz64-mask : (c : ℕ) (s : Bytes) (p : ℕ) → p < 64 → find c s ≡ some p → ctz64 (mask c s) ≡ p
unfolding ctz64
ctz64-mask c s p h e = rw (mask-find c s p e) (ctz_from-shift 64 p (mask c (drop (suc p) s)) h)

mask_ne_zero : (c : ℕ) (s : Bytes) (p : ℕ) → find c s ≡ some p → mask c s ≢ 0
mask_ne_zero c s p e =
    let m = mask c (drop (suc p) s) in omega (arith, mask-find c s p e, shift-pos p (2 * m + 1))

pub mask-Locates : (c : ℕ) (s : Bytes) → length s ≤ 64 → Locates c s (mask c s)
mask-Locates c s h = elim (Option-cases (find c s)) [
  | inl e ↦ inl (e, mask_Lacks c s e)
  | inr (p, e) ↦
      let below : p < 64 = omega (arith, find-lt c s p e) in
      inr (p, e, find-lt c s p e, mask_ne_zero c s p e, ctz64-mask c s p below e, mask-find c s p e)
]

pub spaces-Locates : (s : Bytes) → Locates sp (take (window s) s) (scan64 s (window s)).spaces
unfolding scan64
spaces-Locates s =
    rw (live_mask-mask sp s (window s) (omega arith))
      (mask-Locates sp (take (window s) s) (omega (arith, length-take (window s) s)))

-- One window: a mask of 0 sends the search on behind the window, and any other mask ends it.
abbrev pub WindowStep : Bytes → ℕ → Type 0
WindowStep s spaces =
    ((spaces ≡ 0) × (find_or_end sp s ≡ window s + find_or_end sp (drop (window s) s)))
    ⊎ ((spaces ≢ 0) × (find_or_end sp s ≡ ctz64 spaces) × (find_or_end sp s < window s))

pub spaces-WindowStep : (s : Bytes) → WindowStep s (scan64 s (window s)).spaces
spaces-WindowStep s = elim (spaces-Locates s) [
  | inl (e, z) ↦ inl (z, find_or_end-take-none sp (window s) s (omega arith) e)
  | inr (p, e, lt, ne, ctz, _) ↦
      let at : find_or_end sp s ≡ p =
        find_or_end-some sp s p (find_or_end-take-some sp (window s) s p e) in
      inr (ne, rw ctz at, omega (arith, at, lt, length-take (window s) s))
]

-- `find_space_in_tags_and_flags` stops at the first space.
scan_tags_from_offset :
    (f at : ℕ) (s : Bytes) (is_mod is_bc : Bool)
    → length s ≤ f
    → (scan_tags_from f at s is_mod is_bc).offset ≡ at + find_or_end sp s
unfolding scan_tags_from
scan_tags_from_offset zero at [] is_mod is_bc h = omega (arith, find_or_end-nil sp)
scan_tags_from_offset zero at (x ∷ xs) is_mod is_bc h = absurd (omega arith)
scan_tags_from_offset (suc f) at [] is_mod is_bc h = omega (arith, find_or_end-nil sp)
scan_tags_from_offset (suc f) at (x ∷ xs) is_mod is_bc h =
    let s : Bytes = x ∷ xs in
    let m = scan64 s (window s) in
    let mod' = harvest_mod s m is_mod in
    let bc' = harvest_bc s m is_bc in
    let shorter : length (drop (window s) s) ≤ f = omega (arith, length-drop (window s) s) in
    ground (
      arith,
      spaces-WindowStep s,
      scan_tags_from_offset f (at + window s) (drop (window s) s) mod' bc' shorter,
    )

-- The scan of the tags by masks stops at the first space, or at the end of the line.
pub tags_offset : (s : Bytes) → (find_space_in_tags_and_flags s).offset ≡ find_or_end sp s
unfolding find_space_in_tags_and_flags
tags_offset s = omega (arith, scan_tags_from_offset (length s) 0 s false false (omega arith))

-- Popping the lowest of the bits k and above.
pub pop_lowest-mask :
    (c k j : ℕ) (t : Bytes)
    → k + j < 64
    → find c t ≡ some j
    → (pop_lowest (shift k (mask c t)) ≡ (k + j, shift (suc (k + j)) (mask c (drop (suc j) t))))
      × (shift k (mask c t) ≢ 0)
unfolding pop_lowest ctz64
pop_lowest-mask c k j t h e =
    let y = mask c (drop (suc j) t) in
    let bits : shift k (mask c t) ≡ shift (k + j) (2 * y + 1) =
      ap (shift k) (mask-find c t j e) ∙ shift-shift k j (2 * y + 1) in
    let low : bit_and (shift (k + j) (2 * y + 1)) (shift (k + j) (2 * y + 1) - 1)
        ≡ shift (suc (k + j)) y =
      clear_lowest (k + j) y ∙ sym (shift-suc (k + j) y) in
    let index : ctz_from 64 (shift (k + j) (2 * y + 1)) ≡ k + j = ctz_from-shift 64 (k + j) y h in
    (rw (bits, index, low), omega (arith, bits, shift-pos (k + j) (2 * y + 1)))
