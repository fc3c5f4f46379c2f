-- ===== src/App/Integrations.antt =====
-- `Integrations` of app/src/integrations.cpp and app/include/app/integrations.hpp. The environment is a
-- parameter: `std::getenv` of each name, and toml++ is that of `Toml`.
pub mod Lookup
pub mod Names
mod Tests
use twitch_bot.Prelude.{
  ℕ, ◌+◌, ◌-◌, Bool, true, false, ◌&&◌, ◌||◌, Option, none, some, List, [], ◌∷◌, ◌++◌, map, leb,
  if◌then◌else◌,
}
use twitch_bot.Prelude.Bytes.{Bytes, codes, equal, is_empty, to_lower}
use twitch_bot.Prelude.Assoc.{lookup, emplace}
use twitch_bot.Toml.{Toml}

-- `KV`, and `Map` from a service to its keys.
abbrev pub Kv : Type 0
Kv = List (Bytes × Bytes)

abbrev pub Services : Type 0
Services = List (Bytes × Kv)

pub record Integrations : Type 0 where
  pub path : Bytes
  pub services : Services

-- Where an `EnvError` is thrown.
pub data EnvError : Type 0 where
  not_found parse_error : (path : Bytes) → EnvError
  empty_path : EnvError
  missing_service : (service : Bytes) → EnvError
  missing_key : (key service : Bytes) → EnvError

pub data Result (A : Type 0) : Type 0 where
  ok : A → Result A
  err : EnvError → Result A

unfoldable pub is_ascii_alnum : ℕ → Bool
is_ascii_alnum c =
    (leb b'0' c && leb c b'9') || (leb b'A' c && leb c b'Z') || (leb b'a' c && leb c b'z')

unfoldable pub ascii_toupper : ℕ → ℕ
ascii_toupper c = if leb b'a' c && leb c b'z' then c - b'a' + b'A' else c

-- `is_ascii_alnum(ch) ? ascii_toupper(ch) : '_'`
unfoldable pub name_byte : ℕ → ℕ
unfolding is_ascii_alnum ascii_toupper
name_byte c = if is_ascii_alnum c then ascii_toupper c else b'_'

-- A part of a name behind the first.
unfoldable pub name_part : Bytes → Bytes
name_part s = if is_empty s then [] else b'_' ∷ map name_byte s

-- `mk`
unfoldable pub env_name : Bytes → Bytes → Bytes → Bytes
env_name a b c = map name_byte a ++ (name_part b ++ name_part c)

-- The value of a key in the file, where it is there and not empty.
unfoldable pub value_in : Bytes → Kv → Option Bytes
value_in key kv = elim (lookup key kv) [
  | none ↦ none
  | some v ↦ if is_empty v then none else some v
]

module _ (getenv : Bytes → Option Bytes) where
  unfoldable pub getenv_nonempty : Bytes → Option Bytes
  getenv_nonempty name = elim (getenv name) [
    | none ↦ none
    | some v ↦ if is_empty v then none else some v
  ]

  -- The special case of `api_key`.
  unfoldable pub api_key_override : Bytes → Bytes → Option Bytes
  api_key_override service key =
      if equal key (codes "api_key")
      then getenv_nonempty (env_name service (codes "API_KEY") [])
      else none

  unfoldable pub env_override : Bytes → Bytes → Option Bytes
  env_override service key = elim (getenv_nonempty (env_name (codes "INTEGRATIONS") service key)) [
    | some v ↦ some v
    | none ↦ elim (getenv_nonempty (env_name service key [])) [
      | some v ↦ some v
      | none ↦ api_key_override service key
    ]
  ]

  unfoldable pub has : Bytes → Integrations → Bool
  has service s = elim (lookup (to_lower service) s.services) [ none ↦ false | some _ ↦ true ]

  unfoldable pub get : Bytes → Bytes → Integrations → Result Bytes
  get service key s = elim (env_override service key) [
    | some v ↦ ok v
    | none ↦ elim (lookup (to_lower service) s.services) [
      | none ↦ err (missing_service service)
      | some kv ↦ elim (value_in key kv) [ none ↦ err (missing_key key service) | some v ↦ ok v ]
    ]
  ]

  unfoldable pub get_opt : Bytes → Bytes → Integrations → Option Bytes
  get_opt service key s = elim (env_override service key) [
    | some v ↦ some v
    | none ↦ elim (lookup (to_lower service) s.services) [ none ↦ none | some kv ↦ value_in key kv ]
  ]

  -- The loop that lays the environment over the values of the file.
  unfoldable pub overlay : Bytes → Kv → Kv
  overlay service [] = []
  overlay service ((k, v) ∷ kv) = elim (env_override service k) [
    | none ↦ (k, v) ∷ overlay service kv
    | some e ↦ (k, e) ∷ overlay service kv
  ]

  unfoldable pub values : Bytes → Integrations → Kv
  values service s = elim (lookup (to_lower service) s.services) [
    | none ↦ []
    | some kv ↦ overlay service kv
  ]

module _ (T : Toml) where
  -- The strings of a table.
  unfoldable pub read_strings : List (Bytes × T.Node) → Kv → Kv
  read_strings [] kv = kv
  read_strings ((k, v) ∷ rest) kv =
      read_strings rest (elim (T.value_string v) [ none ↦ kv | some s ↦ emplace k s kv ])

  -- One service: entries that are no table, and tables with no string, are left out.
  unfoldable pub add_service : Bytes → Kv → Services → Services
  add_service name [] services = services
  add_service name (e ∷ kv) services = emplace name (e ∷ kv) services

  unfoldable pub read_services : List (Bytes × T.Node) → Services → Services
  read_services [] services = services
  read_services ((svc, node) ∷ rest) services = read_services rest (elim (T.as_table node) [
    | none ↦ services
    | some t ↦ add_service (to_lower svc) (read_strings (T.entries t) []) services
  ])

  unfoldable pub services_of : T.Table → Services
  services_of root = elim (T.get (codes "integrations") root) [
    | none ↦ []
    | some node ↦ elim (T.as_table node) [ none ↦ [] | some t ↦ read_services (T.entries t) [] ]
  ]

  unfoldable pub parse_file : Bytes → T.File → Result Integrations
  parse_file path file = elim (T.parse_file file) [
    | none ↦ err (parse_error path)
    | some root ↦ ok (record { path = path; services = services_of root })
  ]

  -- `load`; `default_path` is app_config.toml in the current directory.
  unfoldable pub load : Bytes → (Bytes → Option T.File) → Result Integrations
  load default_path disk = elim (disk default_path) [
    | none ↦ err (not_found default_path)
    | some file ↦ parse_file default_path file
  ]

  unfoldable pub load_file : Bytes → (Bytes → Option T.File) → Result Integrations
  load_file path disk =
      if is_empty path
      then err empty_path
      else elim (disk path) [ none ↦ err (not_found path) | some file ↦ parse_file path file ]
