-- ===== src/Net/Mime/Tests.antt =====
-- Content-Type headers.
use twitch_bot.Prelude.{◌≡◌, refl, true, false, some, []}
use twitch_bot.Prelude.Bytes.{codes, equal, has_prefix, to_lower, lower_byte}
use twitch_bot.Prelude.Search.{find}
use twitch_bot.Net.Encoding.{is_space, trim_front, trim_back, trim_token}
use twitch_bot.Net.Mime.{
  MediaType, unquote, set_parameter, read_parameter, read_parameters, media_rest, parse_media_type,
  to_string, rfind_string, is_json_like, is_json,
}

abbrev json_utf : MediaType
json_utf = record { type = codes "ab"; subtype = codes "cd"; charset = codes "u8" }

headers : Unit {0}
unfolding equal has_prefix to_lower lower_byte find is_space trim_front trim_back trim_token unquote
    set_parameter read_parameter read_parameters media_rest parse_media_type to_string rfind_string
    is_json_like is_json
headers =
    let quoted : parse_media_type (codes " Text/HTML; a=b; Charset = \"UTF-8\" ")
        ≡ some (record { type = codes "text"; subtype = codes "html"; charset = [] }) =
      refl in
    let tight : parse_media_type (codes "Text/HTML;CHARSET='UTF-8'")
        ≡ some (record { type = codes "text"; subtype = codes "html"; charset = codes "utf-8" }) =
      refl in
    let suffix : is_json (codes "application/ld+json") ≡ true = refl in
    let spaced : is_json (codes "application/json ; charset=utf-8") ≡ false = refl in tt
