-- ===== src/Config/Tests.antt =====
-- A file with every key, and files without.
use twitch_bot.Prelude.{◌≡◌, ◌↔◌, refl, true, false, none, some}
use twitch_bot.Prelude.Bytes.{Bytes, codes, equal}
use twitch_bot.Toml.Tree.{
  Table, text, number, sub_table, empty, entry, trees, trees-IsToml, get, as_table, value_string,
  insert, insert_or_assign,
}
use twitch_bot.Config.{
  ok, err, Config, expected_table, not_found, missing_key, non_empty, or_login, config_from,
  cut_short, written, Disk, walk, string_of, fetch_string, walk_optional, fetch_optional_string,
  config_of, read_table, parse_config, load_file, load, get_as_table, change_table, set_token,
  set_token_in_twitch, update_token, write_to, write_access_token_in_config,
}
use twitch_bot.Config.Required.{Gives, parse_config-Gives}
use twitch_bot.Config.Token.{Leaves, write-parse_config}

abbrev app_table : Table
app_table =
    entry (codes "client_id") (text (codes "id"))
      (entry (codes "client_secret") (text (codes "secret")) empty)

abbrev auth_table : Bytes → Table
auth_table token =
    entry (codes "access_token") (text token)
      (entry (codes "refresh_token") (text (codes "renew")) empty)

abbrev file_of : Bytes → Table
file_of token =
    entry (codes "twitch")
      (sub_table (
        entry (codes "app") (sub_table app_table) (
          entry (codes "bot") (sub_table (entry (codes "login") (text (codes "bot")) empty))
            (entry (codes "auth") (sub_table (auth_table token)) empty))))
      (entry (codes "other") number empty)

abbrev config_path : Bytes
config_path = codes "config.toml"

-- A disk with one file.
abbrev disk_of : Table → Disk trees
disk_of t path = elim (equal config_path path) [ true ↦ some (some t) | false ↦ none ]

abbrev read : Bytes → Config
read token = record {
  path = config_path;
  app = record { client_id = codes "id"; client_secret = codes "secret" };
  bot = record { login = codes "bot"; control_channel = codes "bot" };
  auth = record { access_token = token; refresh_token = codes "renew" };
}

configs : Unit {0}
unfolding equal non_empty or_login config_from walk string_of fetch_string walk_optional
    fetch_optional_string config_of read_table parse_config load_file load get_as_table change_table
    set_token set_token_in_twitch update_token write_access_token_in_config get as_table
    value_string insert insert_or_assign
configs = tt

parsed : parse_config trees config_path (disk_of (file_of (codes "old"))) ≡ ok (read (codes "old"))
unfolding configs
parsed = refl

parse_config-Gives_example :
    (parse_config trees config_path (disk_of (file_of (codes "old"))) ≡ ok (read (codes "old"))) ↔ (
      (t : Table) × (read_table trees config_path (disk_of (file_of (codes "old"))) ≡ some t)
      × Gives trees config_path t (read (codes "old")))
parse_config-Gives_example =
    parse_config-Gives trees config_path (disk_of (file_of (codes "old"))) (read (codes "old"))

abbrev old_disk : Disk trees
old_disk = disk_of (file_of (codes "old"))

write-parse_config_example :
    Leaves trees config_path
      (codes "new")
      old_disk
      (read (codes "old"))
      written
      (write_access_token_in_config trees config_path (codes "new") written old_disk)
    × ((other : Bytes)
        → equal config_path other ≡ false
        → (write_access_token_in_config trees config_path (codes "new") written old_disk).1 other
          ≡ old_disk other)
write-parse_config_example =
    write-parse_config trees-IsToml config_path (codes "new") written old_disk (read (codes "old"))
      refl parsed

no_file : load trees config_path (λ path. none) ≡ err (not_found config_path)
unfolding configs
no_file = refl

no_twitch :
    load_file trees config_path (disk_of empty) ≡ err (missing_key (codes "twitch") config_path)
unfolding configs
no_twitch = refl

no_table :
    parse_config trees config_path (disk_of (entry (codes "twitch") number empty))
    ≡ err (expected_table config_path)
unfolding configs
no_table = refl

-- Where twitch is no table the token is not stored, and the answer is true.
not_stored :
    write_access_token_in_config trees config_path
      (codes "new")
      written
      (disk_of (entry (codes "twitch") number empty))
    ≡ (
      true,
      write_to trees config_path
          (some (entry (codes "twitch") number empty))
          (disk_of (entry (codes "twitch") number empty)),
    )
unfolding configs
not_stored = refl

-- A write that fails leaves a file that is cut, and may say that it has not.
cut :
    (write_access_token_in_config trees config_path (codes "new") (cut_short true none) old_disk).1
      config_path
    ≡ some none
unfolding configs
cut = refl
