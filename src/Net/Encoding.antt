-- ===== src/Net/Encoding.antt =====
-- lib/net/include/tb/net/http/encoding.hpp: the Content-Encoding header and the choice of a decoder.
-- The decoders drive zlib and brotli and are parameters.
use twitch_bot.Prelude.{
  ℕ, zero, suc, ◌+◌, Bool, true, false, ◌&&◌, ◌||◌, not, Option, none, some, [], ◌∷◌, leb, ◌==◌,
  if◌then◌else◌, take, drop, length,
}
use twitch_bot.Prelude.Bytes.{Bytes, codes, equal, is_empty, to_lower}
use twitch_bot.Prelude.Search.{find}

-- The bits of `enc`.
pub record Enc : Type 0 where
  pub gzip : Bool
  pub br : Bool
  pub deflate : Bool

abbrev pub identity : Enc
identity = record { gzip = false; br = false; deflate = false }

-- `std::isspace`
unfoldable pub is_space : ℕ → Bool
is_space c = c == 32 || (leb 9 c && leb c 13)

unfoldable pub trim_front : Bytes → Bytes
trim_front [] = []
trim_front (c ∷ s) = let rest = trim_front s in if is_space c then rest else c ∷ s

unfoldable pub trim_back : Bytes → Bytes
trim_back [] = []
trim_back (c ∷ s) = let rest = trim_back s in if is_empty rest && is_space c then [] else c ∷ rest

unfoldable pub trim_token : Bytes → Bytes
trim_token s = trim_back (trim_front s)

-- The tests on a token, which is in lower case.
unfoldable pub add_coding : Bytes → Enc → Enc
add_coding t e =
    if equal t (codes "identity")
    then e
    else if equal t (codes "gzip") || equal t (codes "x-gzip")
    then record e { gzip = true }
    else if equal t (codes "br")
    then record e { br = true }
    else if equal t (codes "deflate")
    then record e { deflate = true }
    else e

unfoldable pub read_token : Bytes → Enc → Enc
read_token token e =
    if is_empty (trim_token token) then e else add_coding (to_lower (trim_token token)) e

-- The loop of `parse_content_encoding`. Each round drops a byte at least.
unfoldable pub parse_from : ℕ → Bytes → Enc → Enc
parse_from zero value e = e
parse_from (suc f) [] e = e
parse_from (suc f) (x ∷ xs) e =
    let value : Bytes = x ∷ xs in
    elim (find b',' value) [
      | none ↦ read_token value e
      | some comma ↦ parse_from f (drop (comma + 1) value) (read_token (take comma value) e)
    ]

unfoldable pub parse_content_encoding : Bytes → Enc
parse_content_encoding value = parse_from (length value) value identity

unfoldable pub decode : (Bytes → Option Bytes) → (Bytes → Option Bytes) → Bytes → Enc → Option Bytes
decode gzip_decode br_decode input which =
    if not which.gzip && not which.br && not which.deflate
    then some input
    else if which.gzip
    then gzip_decode input
    else if which.br
    then br_decode input
    else none
