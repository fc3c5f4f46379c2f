-- ===== src/Net/Mime.antt =====
-- `parse` of lib/net/src/tb/net/http/mime.cpp: the Content-Type header. `none` is the error
-- `invalid_content_type`.
pub mod Print
mod Tests
use twitch_bot.Prelude.{
  ℕ, zero, suc, ◌+◌, ◌-◌, Bool, true, false, ◌&&◌, ◌||◌, Option, none, some, List, [], ◌∷◌, ◌++◌,
  leb, ◌==◌, if◌then◌else◌, take, drop, length, get_or,
}
use twitch_bot.Prelude.Bytes.{Bytes, codes, equal, has_prefix, is_empty, starts_with_byte, to_lower}
use twitch_bot.Prelude.Search.{find}
use twitch_bot.Net.Encoding.{trim_token}

pub record MediaType : Type 0 where
  pub type : Bytes
  pub subtype : Bytes
  pub charset : Bytes

-- Without the quotes, if the value begins and ends with the same one.
unfoldable pub unquote : Bytes → Bytes
unquote v =
    if (starts_with_byte b'"' v || starts_with_byte b'\'' v)
      && leb 2 (length v)
      && get_or v (length v - 1) 0 == get_or v 0 0
    then take (length v - 2) (drop 1 v)
    else v

-- A parameter `key=value`, with the charset that it leaves.
unfoldable pub set_parameter : Bytes → Bytes → Bytes → Bytes
set_parameter key value cs = if equal key (codes "charset") then to_lower (unquote value) else cs

unfoldable pub read_parameter : Bytes → Bytes → Bytes
read_parameter kv cs = if is_empty kv then cs else elim (find b'=' kv) [
  | none ↦ set_parameter (to_lower kv) [] cs
  | some eq ↦ set_parameter (to_lower (take eq kv)) (trim_token (drop (eq + 1) kv)) cs
]

-- The loop over the parameters. Each round drops a byte at least.
unfoldable pub read_parameters : ℕ → Bytes → Bytes → Bytes
read_parameters zero params cs = cs
read_parameters (suc f) [] cs = cs
read_parameters (suc f) (x ∷ xs) cs =
    let params : Bytes = x ∷ xs in
    elim (find b';' params) [
      | none ↦ read_parameter (trim_token params) cs
      | some next_semi ↦
          read_parameters f (drop (next_semi + 1) params)
            (read_parameter (trim_token (take next_semi params)) cs)
    ]

-- What stands behind the '/'.
unfoldable pub media_rest : Bytes → Bytes → MediaType
media_rest t rest = elim (find b';' rest) [
  | none ↦ record { type = t; subtype = to_lower rest; charset = [] }
  | some semi ↦
      let params : Bytes = drop (semi + 1) rest in
      record {
        type = t;
        subtype = to_lower (take semi rest);
        charset = read_parameters (length params) params [];
      }
]

unfoldable pub parse_media_type : Bytes → Option MediaType
parse_media_type content_type =
    let ct : Bytes = trim_token content_type in
    if is_empty ct then none else elim (find b'/' ct) [
      | none ↦ none
      | some slash ↦ some (media_rest (to_lower (take slash ct)) (drop (slash + 1) ct))
    ]

-- `to_string`
unfoldable pub to_string : MediaType → Bytes
to_string mt =
    mt.type
    ++ b'/' ∷ (mt.subtype ++ (if is_empty mt.charset then [] else codes "; charset=" ++ mt.charset))

-- `subtype.rfind(p)` of a `p` that is not empty.
unfoldable pub rfind_string : Bytes → Bytes → Option ℕ
rfind_string p [] = none
rfind_string p (x ∷ xs) =
    let later = rfind_string p xs in
    elim later [ some i ↦ some (i + 1) | none ↦ if has_prefix p (x ∷ xs) then some 0 else none ]

unfoldable pub is_json_like : MediaType → Bool
is_json_like mt =
    if equal mt.type (codes "application")
    then (if equal mt.subtype (codes "json")
        then true
        else elim (rfind_string (codes "+json") mt.subtype) [
          | none ↦ false
          | some plus ↦ plus + 5 == length mt.subtype
        ])
    else false

unfoldable pub is_json : Bytes → Bool
is_json ct = elim (parse_media_type ct) [ none ↦ false | some mt ↦ is_json_like mt ]
