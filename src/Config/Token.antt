-- ===== src/Config/Token.antt =====
-- What is read behind a change of the access token.
use mathlib.Core.Option.{some-injective}
use twitch_bot.Prelude.{
  ◌≡◌, refl, ap, sym, ◌∙◌, Bool, true, false, inl, inr, Option, some, [], ◌∷◌, if◌then◌else◌,
  Option-cases, arith,
}
use twitch_bot.Prelude.Bytes.{Bytes, codes, equal, equal_refl, is_empty}
use twitch_bot.Toml.{Toml, IsToml}
use twitch_bot.Config.Fetch.{
  walk_through, fetch-in, fetch-same, optional-in, optional-same, get_assigned, get_unassigned,
  fetch-set_token,
}
use twitch_bot.Config.{
  Result, ok, err, fetched-ok, Config, auth_key, config_from, Write, not_opened, cut_short, written,
  Disk, walk, string_of, fetch_string, fetch_optional_string, config_of, read_table, parse_config,
  get_as_table, change_table, set_token, set_token_in_twitch, update_token, write_to,
  write_access_token_in_config,
}

-- The configuration with another access token.
abbrev pub with_token : Bytes → Config → Config
with_token token cfg = record cfg { auth = record cfg.auth { access_token = token } }

config_from-token :
    (path : Bytes) (a b l : Result Bytes) (channel : Option Bytes) (access refresh : Result Bytes)
    (cfg : Config) (token : Bytes)
    → config_from path a b l channel access refresh ≡ ok cfg
    → ((old : Bytes) × (access ≡ ok old))
      × (config_from path a b l channel (ok token) refresh ≡ ok (with_token token cfg))
unfolding config_from
config_from-token path (err e) b l channel x y cfg token h = absurd (cc h)
config_from-token path (ok a) (err e) l channel x y cfg token h = absurd (cc h)
config_from-token path (ok a) (ok b) (err e) channel x y cfg token h = absurd (cc h)
config_from-token path (ok a) (ok b) (ok l) channel (err e) y cfg token h = absurd (cc h)
config_from-token path (ok a) (ok b) (ok l) channel (ok x) (err e) cfg token h = absurd (cc h)
config_from-token path (ok a) (ok b) (ok l) channel (ok x) (ok y) cfg token h =
    ((x, refl), ground (arith, h))

module _ {T : Toml} (laws : IsToml T) (path : Bytes) where
  -- In a table with the tables twitch and twitch.auth.
  module _ (t tw auth : T.Table) (n m : T.Node) (token : Bytes)
      (has_twitch : T.get (codes "twitch") t ≡ some n) (twitch_table : T.as_table n ≡ some tw)
      (has_auth : T.get (codes "auth") tw ≡ some m) (auth_table : T.as_table m ≡ some auth)
      (some_bytes : is_empty token ≡ false) where
    abbrev auth' : T.Table
    auth' = set_token T token auth

    abbrev tw' : T.Table
    tw' = change_table T (codes "auth") auth' tw

    update_token-changes : update_token T token t ≡ change_table T (codes "twitch") tw' t
    unfolding update_token set_token_in_twitch get_as_table
    update_token-changes =
        rw
          (
            update_token, get_as_table, has_twitch, twitch_table, set_token_in_twitch, get_as_table,
            has_auth, auth_table,
          )
          refl

    abbrev t' : T.Table
    t' = change_table T (codes "twitch") tw' t

    -- What stands in another table than twitch.auth is fetched as before.
    fetch_elsewhere :
        (name key : Bytes)
        → equal (codes "auth") name ≡ false
        → fetch_string T path t' (codes "twitch" ∷ name ∷ key ∷ [])
          ≡ fetch_string T path t (codes "twitch" ∷ name ∷ key ∷ [])
    unfolding change_table
    fetch_elsewhere name key differs =
        fetch-in laws path t' tw' (T.table_node tw') (codes "twitch") name (key ∷ [])
          (get_assigned laws path (codes "twitch") (T.table_node tw') t) (laws.is_table tw')
        ∙ fetch-same laws path tw' tw name (key ∷ [])
            (get_unassigned laws path (codes "auth") name (T.table_node auth') tw differs)
        ∙ sym (fetch-in laws path t tw n (codes "twitch") name (key ∷ []) has_twitch twitch_table)

    optional_elsewhere :
        (name key : Bytes)
        → equal (codes "auth") name ≡ false
        → fetch_optional_string T t' (codes "twitch" ∷ name ∷ key ∷ [])
          ≡ fetch_optional_string T t (codes "twitch" ∷ name ∷ key ∷ [])
    unfolding change_table
    optional_elsewhere name key differs =
        optional-in laws path t' tw' (T.table_node tw') (codes "twitch") name (key ∷ [])
          (get_assigned laws path (codes "twitch") (T.table_node tw') t) (laws.is_table tw')
        ∙ optional-same laws path tw' tw name (key ∷ [])
            (get_unassigned laws path (codes "auth") name (T.table_node auth') tw differs)
        ∙ sym
            (optional-in laws path t tw n (codes "twitch") name (key ∷ []) has_twitch twitch_table)

    -- What stands in twitch.auth is fetched from the changed table.
    fetch_auth :
        (key : Bytes) → fetch_string T path t' (auth_key key) ≡ fetch_string T path auth' (key ∷ [])
    unfolding change_table
    fetch_auth key =
        fetch-in laws path t' tw' (T.table_node tw') (codes "twitch") (codes "auth") (key ∷ [])
          (get_assigned laws path (codes "twitch") (T.table_node tw') t) (laws.is_table tw')
        ∙ fetch-in laws path tw' auth' (T.table_node auth') (codes "auth") key []
            (get_assigned laws path (codes "auth") (T.table_node auth') tw) (laws.is_table auth')

    fetch_refresh :
        fetch_string T path t' (auth_key (codes "refresh_token"))
        ≡ fetch_string T path t (auth_key (codes "refresh_token"))
    unfolding set_token equal
    fetch_refresh =
        fetch_auth (codes "refresh_token")
        ∙ fetch-same laws path auth' auth (codes "refresh_token") [] (
            get_unassigned laws path (codes "access_token") (codes "refresh_token")
              (T.string_node token) auth refl)
        ∙ sym (
            fetch-in laws path t tw n (codes "twitch") (codes "auth") (codes "refresh_token" ∷ [])
              has_twitch twitch_table
            ∙ fetch-in laws path tw auth m (codes "auth") (codes "refresh_token") [] has_auth
                auth_table)

    config_of-changed :
        (cfg : Config)
        → config_of T path t ≡ ok cfg
        → config_of T path t' ≡ ok (with_token token cfg)
    unfolding config_of equal
    config_of-changed cfg h =
        rw
          (
            fetch_elsewhere (codes "app") (codes "client_id") refl,
            fetch_elsewhere (codes "app") (codes "client_secret") refl,
            fetch_elsewhere (codes "bot") (codes "login") refl,
            optional_elsewhere (codes "bot") (codes "control_channel") refl,
            fetch_auth (codes "access_token"),
            fetch-set_token laws path token auth some_bytes,
            fetch_refresh,
          )
          (config_from-token path _ _ _ _ _ _ cfg token h).1

  -- A string that is fetched from twitch.auth stands in a table of a table.
  auth_tables :
      (t : T.Table) (key old : Bytes)
      → fetch_string T path t (auth_key key) ≡ ok old
      → (tw : T.Table) × (auth : T.Table) × (n : T.Node) × (m : T.Node) × (T.get (codes "twitch") t
          ≡ some n)
        × (T.as_table n ≡ some tw)
        × (T.get (codes "auth") tw ≡ some m)
        × (T.as_table m ≡ some auth)
  unfolding fetch_string
  auth_tables t key old h =
      let (last, reached, _) =
        fetched-ok (walk T path (T.table_node t) (auth_key key)) (string_of T path) h in
      let (t0, n, root, has_twitch, more) =
        walk_through laws path (T.table_node t) last (codes "twitch") (codes "auth" ∷ key ∷ [])
          reached in
      let (tw, m, twitch_table, has_auth, rest) =
        walk_through laws path n last (codes "auth") (key ∷ []) more in
      let (auth, _, auth_table, _, _) = walk_through laws path m last key [] rest in
      let same : t0 ≡ t = some-injective t0 t (sym root ∙ laws.is_table t) in
      (
        tw,
        auth,
        n,
        m,
        ap (T.get (codes "twitch")) (sym same) ∙ has_twitch,
        twitch_table,
        has_auth,
        auth_table,
      )

  update_token-config :
      (t : T.Table) (token : Bytes) (cfg : Config)
      → is_empty token ≡ false
      → config_of T path t ≡ ok cfg
      → config_of T path (update_token T token t) ≡ ok (with_token token cfg)
  unfolding config_of
  update_token-config t token cfg some_bytes h =
      let (old, access) = (config_from-token path _ _ _ _ _ _ cfg token h).0 in
      let (tw, auth, n, m, has_twitch, twitch_table, has_auth, auth_table) =
        auth_tables t (codes "access_token") old access in
      ap (config_of T path) (
        update_token-changes t tw auth n m token has_twitch twitch_table has_auth auth_table
          some_bytes)
      ∙ config_of-changed t tw auth n m token has_twitch twitch_table has_auth auth_table some_bytes
          cfg h

parse_config-write_to :
    (T : Toml) (path : Bytes) (file : T.File) (disk : Disk T) (t : T.Table)
    → T.parse_file file ≡ some t
    → parse_config T path (write_to T path file disk) ≡ config_of T path t
unfolding parse_config read_table
parse_config-write_to T path file disk t parsed =
    rw (parse_config, read_table, equal_refl path, if◌then◌else◌, parsed) refl

-- What a write leaves for the caller, by how the write ends.
abbrev pub Leaves :
    (T : Toml) (path token : Bytes) → Disk T → Config → Write T.File → Bool × Disk T → Type 0
Leaves T path token disk cfg not_opened r = (r.0 ≡ false) × (r.1 path ≡ disk path)
Leaves T path token disk cfg (cut_short good left) r = (r.0 ≡ good) × (r.1 path ≡ some left)
Leaves T path token disk cfg written r =
    (r.0 ≡ true) × (parse_config T path r.1 ≡ ok (with_token token cfg))

-- Where a file gives a configuration and the access token is not empty: if the file cannot be opened, the
-- answer is false and the file is the one that there was; if the write is cut short, the answer is
-- whether the stream was still good when it was asked, and the file is what the cut has left; if all is
-- written, the answer is true and the file gives the same configuration with that token. No other file
-- is changed. toml++ reads back the table that it prints.
pub write-parse_config :
    {T : Toml} (laws : IsToml T) (path token : Bytes) (write : Write T.File) (disk : Disk T)
    (cfg : Config)
    → is_empty token ≡ false
    → parse_config T path disk ≡ ok cfg
    → Leaves T path token disk cfg write (write_access_token_in_config T path token write disk)
      × ((other : Bytes)
          → equal path other ≡ false
          → (write_access_token_in_config T path token write disk).1 other ≡ disk other)
unfolding parse_config write_access_token_in_config
write-parse_config {T} laws path token write disk cfg some_bytes h =
    elim (Option-cases (read_table T path disk)) [
      | inl unread ↦ absurd (cc (rw (parse_config, unread) at h))
      | inr (t, read) ↦ go write t read
    ]
  where
    go :
        (w : Write T.File) (t : T.Table)
        → read_table T path disk ≡ some t
        → Leaves T path token disk cfg w (write_access_token_in_config T path token w disk)
          × ((other : Bytes)
              → equal path other ≡ false
              → (write_access_token_in_config T path token w disk).1 other ≡ disk other)
    go not_opened t read =
        rw (write_access_token_in_config, read) ((refl, refl), λ other differs. refl)
    go (cut_short good left) t read =
        rw (write_access_token_in_config, read)
          (
            (refl, rw (equal_refl path, if◌then◌else◌) refl),
            λ other differs. rw (differs, if◌then◌else◌) refl,
          )
    go written t read = (
      (
        rw (write_access_token_in_config, read) refl,
        rw (write_access_token_in_config, read)
            (parse_config-write_to T path (T.print (update_token T token t)) disk
                (update_token T token t) (laws.parsed (update_token T token t))
              ∙ update_token-config laws path t token cfg some_bytes
                  (rw (parse_config, read) at h)),
      ),
      λ other differs. rw (write_access_token_in_config, read, differs) refl,
    )
