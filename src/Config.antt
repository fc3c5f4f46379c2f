-- ===== src/Config.antt =====
-- `Config` and `write_access_token_in_config` of lib/twitch_core/src/config.cpp and
-- lib/twitch_core/include/tb/twitch/config.hpp. A path is its string, and the disk gives each path its
-- file. `parse_file` throws a `parse_error` for a file that it cannot read too.
pub mod Required
pub mod Fetch
pub mod Token
mod Tests
use twitch_bot.Prelude.{
  ◌≡◌, refl, Bool, true, false, Option, none, some, List, [], ◌∷◌, if◌then◌else◌,
}
use twitch_bot.Prelude.Bytes.{Bytes, codes, equal, is_empty}
use twitch_bot.Toml.{Toml}

-- The messages of `EnvError`, by where they are thrown.
pub data EnvError : Type 0 where
  parse_error expected_table invalid_value not_found : (path : Bytes) → EnvError
  missing_key : (key : Bytes) → (path : Bytes) → EnvError
  empty_path : EnvError

-- A fetched value, or what is thrown.
pub data Result (A : Type 0) : Type 0 where
  err : EnvError → Result A
  ok : A → Result A

infixl 5 ◌>>=◌
abbrev pub ◌>>=◌ : {A B : Type 0} → Result A → (A → Result B) → Result B
fetched >>= use_it = elim fetched [ err thrown ↦ err thrown | ok value ↦ use_it value ]

-- Where nothing is thrown the first part has a value, and the second is made of it.
pub fetched-ok :
    {A B : Type 0} (fetched : Result A) (use_it : A → Result B) {result : B}
    → (fetched >>= use_it) ≡ ok result
    → (value : A) × (fetched ≡ ok value) × (use_it value ≡ ok result)
fetched-ok (err thrown) use_it h = cc
fetched-ok (ok value) use_it h = (value, refl, h)

pub record AppConfig : Type 0 where
  pub client_id : Bytes
  pub client_secret : Bytes

pub record BotConfig : Type 0 where
  pub login : Bytes
  pub control_channel : Bytes

pub record AuthConfig : Type 0 where
  pub access_token : Bytes
  pub refresh_token : Bytes

pub record Config : Type 0 where
  pub path : Bytes
  pub app : AppConfig
  pub bot : BotConfig
  pub auth : AuthConfig

-- `if (opt && !opt->empty())`
unfoldable pub non_empty : Option Bytes → Option Bytes
non_empty none = none
non_empty (some s) = if is_empty s then none else some s

-- The dotted keys that are read.
abbrev pub app_key : Bytes → List Bytes
app_key key = codes "twitch" ∷ codes "app" ∷ key ∷ []

abbrev pub bot_key : Bytes → List Bytes
bot_key key = codes "twitch" ∷ codes "bot" ∷ key ∷ []

abbrev pub auth_key : Bytes → List Bytes
auth_key key = codes "twitch" ∷ codes "auth" ∷ key ∷ []

-- The control channel is the login unless there is one.
unfoldable pub or_login : Option Bytes → Bytes → Bytes
or_login none login = login
or_login (some channel) login = channel

-- `parse_config` from what it fetches, in order: the first error is thrown.
unfoldable pub config_from :
    Bytes
    → Result Bytes
    → Result Bytes
    → Result Bytes
    → Option Bytes
    → Result Bytes
    → Result Bytes
    → Result Config
config_from path client_id client_secret login channel access refresh = do
  id ← client_id
  secret ← client_secret
  name ← login
  token ← access
  renewal ← refresh
  ok (record {
    path = path;
    app = record { client_id = id; client_secret = secret };
    bot = record { login = name; control_channel = or_login channel name };
    auth = record { access_token = token; refresh_token = renewal };
  })

-- What a write comes to: the file is not opened; it is opened, and so cut, and then not written as a
-- whole, where the stream says what `good` answers, which may be true, as it is asked in front of the
-- close; or it is written.
pub data Write (F : Type 0) : Type 0 where
  not_opened : Write F
  cut_short : Bool → F → Write F
  written : Write F

module _ (T : Toml) where
  abbrev pub Disk : Type 0
  Disk = Bytes → Option T.File

  -- The loop over the keys.
  unfoldable pub walk : Bytes → T.Node → List Bytes → Result T.Node
  walk path node [] = ok node
  walk path node (key ∷ keys) = elim (T.as_table node) [
    | none ↦ err (expected_table path)
    | some t ↦ elim (T.get key t) [
      | none ↦ err (missing_key key path)
      | some found ↦ walk path found keys
    ]
  ]

  unfoldable pub string_of : Bytes → T.Node → Result Bytes
  string_of path node = elim (non_empty (T.value_string node)) [
    | none ↦ err (invalid_value path)
    | some s ↦ ok s
  ]

  unfoldable pub fetch_string : Bytes → T.Table → List Bytes → Result Bytes
  fetch_string path root keys = walk path (T.table_node root) keys >>= string_of path

  -- The empty string stands for none.
  unfoldable pub walk_optional : T.Node → List Bytes → Option T.Node
  walk_optional node [] = some node
  walk_optional node (key ∷ keys) = elim (T.as_table node) [
    | none ↦ none
    | some t ↦ elim (T.get key t) [ none ↦ none | some found ↦ walk_optional found keys ]
  ]

  unfoldable pub fetch_optional_string : T.Table → List Bytes → Option Bytes
  fetch_optional_string root keys = elim (walk_optional (T.table_node root) keys) [
    | none ↦ none
    | some node ↦ non_empty (T.value_string node)
  ]

  unfoldable pub config_of : Bytes → T.Table → Result Config
  config_of path t =
      config_from path (fetch_string path t (app_key (codes "client_id")))
        (fetch_string path t (app_key (codes "client_secret")))
        (fetch_string path t (bot_key (codes "login")))
        (fetch_optional_string t (bot_key (codes "control_channel")))
        (fetch_string path t (auth_key (codes "access_token")))
        (fetch_string path t (auth_key (codes "refresh_token")))

  -- `toml::parse_file`
  unfoldable pub read_table : Bytes → Disk → Option T.Table
  read_table path disk = elim (disk path) [ none ↦ none | some file ↦ T.parse_file file ]

  unfoldable pub parse_config : Bytes → Disk → Result Config
  parse_config path disk = elim (read_table path disk) [
    | none ↦ err (parse_error path)
    | some t ↦ config_of path t
  ]

  unfoldable pub load_file : Bytes → Disk → Result Config
  load_file path disk = if is_empty path then err empty_path else parse_config path disk

  -- `load`; `default_path` is config.toml in the current directory.
  unfoldable pub load : Bytes → Disk → Result Config
  load default_path disk = elim (disk default_path) [
    | none ↦ err (not_found default_path)
    | some _ ↦ parse_config default_path disk
  ]

  -- `get_as<toml::table>`
  unfoldable pub get_as_table : Bytes → T.Table → Option T.Table
  get_as_table key t = elim (T.get key t) [ none ↦ none | some node ↦ T.as_table node ]

  -- A change of the table that is there under a key.
  unfoldable pub change_table : Bytes → T.Table → T.Table → T.Table
  change_table key sub t = T.insert_or_assign key (T.table_node sub) t

  unfoldable pub set_token : Bytes → T.Table → T.Table
  set_token token auth = T.insert_or_assign (codes "access_token") (T.string_node token) auth

  unfoldable pub set_token_in_twitch : Bytes → T.Table → T.Table
  set_token_in_twitch token tw = elim (get_as_table (codes "auth") tw) [
    | none ↦ T.insert (codes "auth") (T.table_node (set_token token T.empty_table)) tw
    | some auth ↦ change_table (codes "auth") (set_token token auth) tw
  ]

  unfoldable pub update_token : Bytes → T.Table → T.Table
  update_token token t = elim (get_as_table (codes "twitch") t) [
    | none ↦
        T.insert (codes "twitch")
          (T.table_node
            (T.insert (codes "auth") (T.table_node (set_token token T.empty_table)) T.empty_table))
          t
    | some tw ↦ change_table (codes "twitch") (set_token_in_twitch token tw) t
  ]

  abbrev pub write_to : Bytes → T.File → Disk → Disk
  write_to path file disk p = if equal path p then some file else disk p

  unfoldable pub write_access_token_in_config : Bytes → Bytes → Write T.File → Disk → Bool × Disk
  write_access_token_in_config path token write disk = elim (read_table path disk) [
    | none ↦ (false, disk)
    | some t ↦ elim write [
      | not_opened ↦ (false, disk)
      | cut_short good left ↦ (good, write_to path left disk)
      | written ↦ (true, write_to path (T.print (update_token token t)) disk)
    ]
  ]
