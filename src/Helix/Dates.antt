-- ===== src/Helix/Dates.antt =====
-- `parse_digits`, `days_from_civil` and `parse_iso8601_ms` of lib/twitch_core/src/helix_client.cpp. A
-- signed number of w bits is its residue below 2^w.
pub mod March
pub mod Calendar
use twitch_bot.Prelude.{
  ℕ, ◌+◌, ◌-◌, ◌*◌, ◌/◌, ◌%◌, ◌^◌, ◌<◌, ◌≤◌, ◌≡◌, refl, ap, ◌∙◌, Bool, true, false, ◌||◌, ◌&&◌, inl,
  inr, Option, none, some, List, [], ◌∷◌, ◌++◌, ltb, leb, ◌==◌, arith, if◌then◌else◌, Bool-cases,
  length, take, drop, get_or, not,
}
use twitch_bot.Prelude.Bytes.{Bytes}

-- `p[i] - '0'` for a signed `char`, as an `int`.
unfoldable pub digit : ℕ → ℕ
digit c = ((if ltb c 128 then c else c + (2 ^ 32 - 256)) + (2 ^ 32 - b'0')) % 2 ^ 32

unfoldable pub digits_from : ℕ → Bytes → ℕ
digits_from v [] = v
digits_from v (c ∷ s) = digits_from ((v * 10 + digit c) % 2 ^ 32) s

-- `parse_digits(p + at, n)`
unfoldable pub parse_digits : Bytes → ℕ → ℕ → ℕ
parse_digits p at n = digits_from 0 (take n (drop at p))

-- An `int` as an `int64_t`.
unfoldable pub widen : ℕ → ℕ
widen v = if ltb v (2 ^ 31) then v else v + (2 ^ 64 - 2 ^ 32)

-- `(y >= 0 ? y : y - 399) / 400`
unfoldable pub era_of : ℕ → ℕ
era_of y = if ltb y (2 ^ 63) then y / 400 else (2 ^ 64 - (2 ^ 64 - y + 399) / 400) % 2 ^ 64

unfoldable pub days_from_civil : ℕ → ℕ → ℕ → ℕ
days_from_civil year m d =
    let y : ℕ = (year + (if leb m 2 then 2 ^ 64 - 1 else 0)) % 2 ^ 64 in
    let era : ℕ = era_of y in
    let yoe : ℕ = (y + (2 ^ 64 - (era * 400) % 2 ^ 64)) % 2 ^ 32 in
    let shifted : ℕ = (m + (if ltb 2 m then 2 ^ 32 - 3 else 9)) % 2 ^ 32 in
    let doy : ℕ = (((153 * shifted + 2) % 2 ^ 32) / 5 + d + (2 ^ 32 - 1)) % 2 ^ 32 in
    let doe : ℕ = (yoe * 365 + yoe / 4 + (2 ^ 32 - yoe / 100) + doy) % 2 ^ 32 in
    (era * 146097 + doe + (2 ^ 64 - 719468)) % 2 ^ 64

-- The separators of "YYYY-MM-DDTHH:MM:SSZ".
unfoldable pub is_iso8601 : Bytes → Bool
is_iso8601 ts =
    length ts == 20
    && get_or ts 4 0 == b'-'
    && get_or ts 7 0 == b'-'
    && get_or ts 10 0 == b'T'
    && get_or ts 13 0 == b':'
    && get_or ts 16 0 == b':'
    && get_or ts 19 0 == b'Z'

unfoldable pub parse_iso8601_ms : Bytes → Option ℕ
parse_iso8601_ms ts =
    let days : ℕ =
      days_from_civil (widen (parse_digits ts 0 4)) (parse_digits ts 5 2) (parse_digits ts 8 2) in
    let secs : ℕ =
      days * 86400
      + parse_digits ts 11 2 * 3600
      + parse_digits ts 14 2 * 60
      + parse_digits ts 17 2 in
    if not (is_iso8601 ts) then none else some ((secs * 1000) % 2 ^ 64)
