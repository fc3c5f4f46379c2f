-- ===== src/Irc/Scan.antt =====
-- lib/twitch_core/include/tb/parser/irc_simd_scan.hpp: masks over windows of 64 bytes. A pointer
-- into the line is the suffix of the line that begins there, and `endp` is the end of the suffix.
-- The masks are those of the scalar fallback, which the vector paths compute in larger steps.
pub mod Bits
pub mod Windows
pub mod Flags
use Prim.Native.Nat.{bit_and, bit_or}
use twitch_bot.Prelude.{
  ℕ, zero, suc, ◌+◌, ◌-◌, ◌*◌, ◌/◌, ◌%◌, ◌^◌, min, Bool, true, false, ◌||◌, ◌&&◌, List, [], ◌∷◌,
  ltb, ◌==◌, if◌then◌else◌, length, take, drop,
}
use twitch_bot.Prelude.Bytes.{Bytes, codes, sp, has_prefix}

pub record CharMasks : Type 0 where
  pub spaces : ℕ
  pub semicolons : ℕ
  pub equals : ℕ
  pub colons : ℕ
  pub letters_m : ℕ
  pub letters_b : ℕ
  pub letters_u : ℕ

-- Bit i is set where byte i is `c`. The bits of the loop's `|=` are distinct, so they add up.
unfoldable pub mask : ℕ → Bytes → ℕ
mask c [] = 0
mask c (x ∷ xs) = (if x == c then 1 else 0) + 2 * mask c xs

-- `& live`, with `live` the ones below bit n.
abbrev pub live_mask : ℕ → ℕ → ℕ
live_mask n m = if ltb n 64 then m % 2 ^ n else m

unfoldable pub scan64 : Bytes → ℕ → CharMasks
scan64 ptr n = record {
  spaces = live_mask n (mask sp (take n ptr));
  semicolons = live_mask n (mask b';' (take n ptr));
  equals = live_mask n (mask b'=' (take n ptr));
  colons = live_mask n (mask b':' (take n ptr));
  letters_m = live_mask n (mask b'm' (take n ptr));
  letters_b = live_mask n (mask b'b' (take n ptr));
  letters_u = live_mask n (mask b'u' (take n ptr));
}

-- Trailing zeros of a word that is not 0.
unfoldable pub ctz_from : ℕ → ℕ → ℕ
ctz_from zero x = 0
ctz_from (suc f) x = let rest = ctz_from f (x / 2) in if x % 2 == 1 then 0 else suc rest

unfoldable pub ctz64 : ℕ → ℕ
ctz64 x = ctz_from 64 x

-- `bits &= bits - 1`; the index returned is `ctz64 bits`.
unfoldable pub pop_lowest : ℕ → ℕ × ℕ
pop_lowest bits = (ctz64 bits, bit_and bits (bits - 1))

-- The bytes of the window at `scan`.
abbrev pub window : Bytes → ℕ
window scan = min 64 (length scan)

unfoldable pub contains : Bytes → Bytes → Bool
contains needle [] = has_prefix needle []
contains needle (x ∷ xs) = has_prefix needle (x ∷ xs) || contains needle xs

unfoldable pub contains_broadcaster_1 : Bytes → Bool
contains_broadcaster_1 hay = contains (codes "broadcaster/1") hay

-- The `for (;;)` over the value of a badges tag, from `stop`.
unfoldable pub badges_from : ℕ → Bytes → Bool
badges_from zero stop = false
badges_from (suc f) [] = false
badges_from (suc f) (x ∷ xs) =
    let stop : Bytes = x ∷ xs in
    let c = window stop in
    let mv = scan64 stop c in
    let enders = bit_or mv.semicolons mv.spaces in
    let slice_len = if enders == 0 then c else ctz64 enders in
    let rest = badges_from f (drop c stop) in
    if contains_broadcaster_1 (take slice_len stop)
    then true
    else if enders == 0
    then rest
    else false

-- The tests at a candidate position `s`.
unfoldable pub is_mod_tag : Bytes → Bool
is_mod_tag s = has_prefix (codes "mod=1") s

unfoldable pub is_user_type_mod : Bytes → Bool
is_user_type_mod s = has_prefix (codes "user-type=mod") s

unfoldable pub is_broadcaster_badge : Bytes → Bool
is_broadcaster_badge s = has_prefix (codes "badges=") s && badges_from (length s) (drop 7 s)

-- `while (bits && !flag) { i = pop_lowest(bits); if (test(scan + i)) flag = 1; }`
unfoldable pub harvest : ℕ → (Bytes → Bool) → Bytes → ℕ → Bool → Bool
harvest zero test scan bits flag = flag
harvest (suc f) test scan bits flag =
    let (i, left) = pop_lowest bits in
    let rest = harvest f test scan left (if test (drop i scan) then true else flag) in
    if bits == 0 || flag then flag else rest

-- The flags after one window.
unfoldable pub harvest_mod : Bytes → CharMasks → Bool → Bool
harvest_mod scan m is_mod =
    harvest 64 is_user_type_mod scan m.letters_u (harvest 64 is_mod_tag scan m.letters_m is_mod)

unfoldable pub harvest_bc : Bytes → CharMasks → Bool → Bool
harvest_bc scan m is_bc = harvest 64 is_broadcaster_badge scan m.letters_b is_bc

-- The offset of the first space from `ptr` (of `endp`, if there is none), and the two flags.
pub record TagScan : Type 0 where
  pub offset : ℕ
  pub is_mod : Bool
  pub is_bc : Bool

-- The loop, with `at` bytes already scanned. Each round takes a byte at least.
unfoldable pub scan_tags_from : ℕ → ℕ → Bytes → Bool → Bool → TagScan
scan_tags_from zero at scan is_mod is_bc = record { offset = at; is_mod = is_mod; is_bc = is_bc }
scan_tags_from (suc f) at [] is_mod is_bc = record { offset = at; is_mod = is_mod; is_bc = is_bc }
scan_tags_from (suc f) at (x ∷ xs) is_mod is_bc =
    let scan : Bytes = x ∷ xs in
    let chunk = window scan in
    let m = scan64 scan chunk in
    let is_mod' = harvest_mod scan m is_mod in
    let is_bc' = harvest_bc scan m is_bc in
    let rest = scan_tags_from f (at + chunk) (drop chunk scan) is_mod' is_bc' in
    if m.spaces == 0
    then rest
    else record { offset = at + ctz64 m.spaces; is_mod = is_mod'; is_bc = is_bc' }

unfoldable pub find_space_in_tags_and_flags : Bytes → TagScan
find_space_in_tags_and_flags ptr = scan_tags_from (length ptr) 0 ptr false false
