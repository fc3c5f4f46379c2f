-- ===== src/Irc/Parse/Spaces.antt =====
-- The search for a space by windows is the search byte by byte.
use twitch_bot.Prelude.{ℕ, zero, suc, ◌+◌, ◌≤◌, ◌≡◌, [], ◌∷◌, arith, length, drop, length-drop}
use twitch_bot.Prelude.Bytes.{Bytes, sp}
use twitch_bot.Prelude.Search.{find_or_end, find_or_end-nil}
use twitch_bot.Irc.Scan.{window}
use twitch_bot.Irc.Scan.Windows.{spaces-WindowStep}
use twitch_bot.Irc.Parse.{find_space_windows, find_first_space_fast}

find_space_windows_lem :
    (f at : ℕ) (s : Bytes) → length s ≤ f → find_space_windows f at s ≡ at + find_or_end sp s
unfolding find_space_windows
find_space_windows_lem zero at [] h = omega (arith, find_or_end-nil sp)
find_space_windows_lem zero at (x ∷ xs) h = absurd (omega arith)
find_space_windows_lem (suc f) at [] h = omega (arith, find_or_end-nil sp)
find_space_windows_lem (suc f) at (x ∷ xs) h =
    let s : Bytes = x ∷ xs in
    let shorter : length (drop (window s) s) ≤ f = omega (arith, length-drop (window s) s) in
    ground (
      arith,
      spaces-WindowStep s,
      find_space_windows_lem f (at + window s) (drop (window s) s) shorter,
    )

-- The search by windows of 64 bytes returns the first space, or the end, as `memchr` does.
pub find_first_space_fast-find_or_end : (s : Bytes) → find_first_space_fast s ≡ find_or_end sp s
unfolding find_first_space_fast
find_first_space_fast-find_or_end s = ground (arith, find_space_windows_lem (length s) 0 s)
