-- ===== src/App/Integrations/Names.antt =====
-- The names of environment variables do not depend on the case of a service.
use twitch_bot.Prelude.{ℕ, ◌≡◌, refl, ap, Option, [], ◌∷◌, map, arith}
use twitch_bot.Prelude.Bytes.{Bytes, lower_byte, to_lower, to_lower_idem}
use twitch_bot.App.Integrations.{
  Integrations, name_byte, name_part, env_name, api_key_override, env_override, get_opt,
}

name_byte-lower_byte : (c : ℕ) → name_byte (lower_byte c) ≡ name_byte c
unfolding name_byte lower_byte
name_byte-lower_byte c = ground arith

map-name_byte : (s : Bytes) → map name_byte (to_lower s) ≡ map name_byte s
unfolding to_lower
map-name_byte [] = refl
map-name_byte (c ∷ s) = ground (arith, name_byte-lower_byte c, map-name_byte s)

name_part-to_lower : (s : Bytes) → name_part (to_lower s) ≡ name_part s
unfolding name_part to_lower
name_part-to_lower [] = refl
name_part-to_lower (c ∷ s) = ap (◌∷◌ b'_') (map-name_byte (c ∷ s))

module _ (getenv : Bytes → Option Bytes) where
  env_override-to_lower :
      (service key : Bytes)
      → env_override getenv (to_lower service) key ≡ env_override getenv service key
  unfolding env_override api_key_override env_name
  env_override-to_lower service key =
      ground (arith, map-name_byte service, name_part-to_lower service)

  pub get_opt-to_lower :
      (service key : Bytes) (s : Integrations)
      → get_opt getenv (to_lower service) key s ≡ get_opt getenv service key s
  unfolding get_opt
  get_opt-to_lower service key s =
      ground (arith, env_override-to_lower service key, to_lower_idem service)
