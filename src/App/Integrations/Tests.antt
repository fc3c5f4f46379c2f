-- ===== src/App/Integrations/Tests.antt =====
-- A file with two services and an environment with one variable.
use twitch_bot.Prelude.{◌≡◌, ◌↔◌, refl, Option, none, some, [], ◌∷◌, if◌then◌else◌}
use twitch_bot.Prelude.Bytes.{Bytes, codes, equal, to_lower}
use twitch_bot.Prelude.Assoc.{lookup, emplace, erase}
use twitch_bot.Toml.Tree.{
  Table, text, number, sub_table, empty, entry, trees, get, entries, as_table, value_string,
}
use twitch_bot.App.Integrations as I
use twitch_bot.App.Integrations.{
  Integrations, Kv, ok, err, missing_service, missing_key, not_found, name_byte, name_part,
  env_name, getenv_nonempty, api_key_override, env_override, has, value_in, get_opt, overlay,
  values, read_strings, add_service, read_services, services_of, parse_file, load, load_file,
}
use twitch_bot.App.Integrations.Lookup.{is_in, get-get_opt-values}

-- The environment has the key of one service.
abbrev env : Bytes → Option Bytes
env name = if equal name (codes "OPEN_AI_API_KEY") then some (codes "from env") else none

abbrev app_config : Table
app_config =
    entry (codes "integrations")
      (sub_table (
        entry (codes "Open-AI")
          (sub_table (
            entry (codes "api_key") (text (codes "from file"))
              (entry (codes "org") (text (codes "o")) (entry (codes "n") number empty))))
          (entry (codes "none") (sub_table empty) empty)))
      empty

abbrev loaded : Integrations
loaded = record {
  path = codes "app_config.toml";
  services =
      (codes "open-ai", (codes "org", codes "o") ∷ (codes "api_key", codes "from file") ∷ []) ∷ [];
}

lookups : Unit {0}
unfolding equal to_lower lookup emplace erase get entries as_table value_string name_byte name_part
    env_name getenv_nonempty api_key_override env_override has value_in I.get get_opt overlay values
    read_strings add_service read_services services_of parse_file load load_file
lookups = tt

loads : load trees (codes "app_config.toml") (λ path. some (some app_config)) ≡ ok loaded
unfolding lookups
loads = refl

overridden : I.get env (codes "open-AI") (codes "api_key") loaded ≡ ok (codes "from env")
unfolding lookups
overridden = refl

from_file : get_opt env (codes "OPEN-ai") (codes "org") loaded ≡ some (codes "o")
unfolding lookups
from_file = refl

absent : I.get env (codes "github") (codes "token") loaded ≡ err (missing_service (codes "github"))
unfolding lookups
absent = refl

-- A service and a key whose names are cut at another underscore have the same variable.
same_variable :
    env_name (codes "INTEGRATIONS") (codes "a_b") (codes "c")
    ≡ env_name (codes "INTEGRATIONS") (codes "a") (codes "b_c")
unfolding lookups
same_variable = refl

abbrev open_ai : Kv
open_ai = (codes "org", codes "o") ∷ (codes "api_key", codes "from file") ∷ []

get-get_opt-values_example :
    ((v : Bytes)
      → (I.get env (codes "open-AI") (codes "api_key") loaded ≡ ok v)
        ↔ (get_opt env (codes "open-AI") (codes "api_key") loaded ≡ some v))
    × (is_in (codes "api_key") (values env (codes "open-AI") loaded)
        ≡ is_in (codes "api_key") open_ai)
    × (value_in (codes "api_key") (values env (codes "open-AI") loaded) ≡ (
        if is_in (codes "api_key") open_ai
        then get_opt env (codes "open-AI") (codes "api_key") loaded
        else none))
    × (get_opt env (to_lower (codes "open-AI")) (codes "api_key") loaded
        ≡ get_opt env (codes "open-AI") (codes "api_key") loaded)
unfolding lookups
get-get_opt-values_example =
    get-get_opt-values env (codes "open-AI") (codes "api_key") loaded open_ai refl
