-- ===== src/Config/Required.antt =====
-- What makes a configuration file valid.
use twitch_bot.Prelude.{
  ◌≡◌, ◌↔◌, ◌⊎◌, refl, ap, sym, ◌∙◌, false, inl, inr, Option, none, some, List, [], ◌∷◌,
  Option-cases, Bool-cases, arith,
}
use twitch_bot.Prelude.Bytes.{Bytes, codes, is_empty}
use twitch_bot.Toml.{Toml}
use twitch_bot.Config.{
  Result, ok, err, fetched-ok, Config, or_login, non_empty, app_key, bot_key, auth_key, config_from,
  Disk, walk, string_of, fetch_string, walk_optional, fetch_optional_string, config_of, read_table,
  parse_config,
}

-- The value that stands under dotted keys.
unfoldable pub node_at : (T : Toml) → T.Node → List Bytes → Option T.Node
node_at T node [] = some node
node_at T node (key ∷ keys) = elim (T.as_table node) [
  | none ↦ none
  | some t ↦ elim (T.get key t) [ none ↦ none | some found ↦ node_at T found keys ]
]

-- A string that is not empty stands under the keys of a table.
abbrev pub Holds : (T : Toml) → T.Table → List Bytes → Bytes → Type 0
Holds T root keys s =
    (node : T.Node) × (node_at T (T.table_node root) keys ≡ some node)
    × (T.value_string node ≡ some s)
    × (is_empty s ≡ false)

-- The control channel is what the file holds for it, or the login where the file holds none.
abbrev pub ControlOf : (T : Toml) → T.Table → Bytes → Bytes → Type 0
ControlOf T t login channel =
    Holds T t (bot_key (codes "control_channel")) channel
    ⊎ (((s : Bytes) → ¬ Holds T t (bot_key (codes "control_channel")) s) × (channel ≡ login))

-- The file holds each field of the configuration but the control channel, which may be the login.
pub record Gives (T : Toml) (path : Bytes) (t : T.Table) (cfg : Config) : Type 0 where
  pub path_kept : cfg.path ≡ path
  pub client_id : Holds T t (app_key (codes "client_id")) cfg.app.client_id
  pub client_secret : Holds T t (app_key (codes "client_secret")) cfg.app.client_secret
  pub login : Holds T t (bot_key (codes "login")) cfg.bot.login
  pub control_channel : ControlOf T t cfg.bot.login cfg.bot.control_channel
  pub access_token : Holds T t (auth_key (codes "access_token")) cfg.auth.access_token
  pub refresh_token : Holds T t (auth_key (codes "refresh_token")) cfg.auth.refresh_token

module _ (T : Toml) (path : Bytes) where
  walk-node_at :
      (node found : T.Node) (keys : List Bytes)
      → (walk T path node keys ≡ ok found) ↔ (node_at T node keys ≡ some found)
  unfolding walk node_at
  walk-node_at node found [] = ((λ h. cc h), (λ h. cc h))
  walk-node_at node found (key ∷ keys) = elim (Option-cases (T.as_table node)) [
    | inl no_table ↦ (
      (λ h. absurd (cc (rw (walk, no_table) at h))),
      (λ h. absurd (cc (rw (node_at, no_table) at h))),
    )
    | inr (t, table) ↦ elim (Option-cases (T.get key t)) [
      | inl missing ↦ (
        (λ h. absurd (cc (rw (walk, table, missing) at h))),
        (λ h. absurd (cc (rw (node_at, table, missing) at h))),
      )
      | inr (n, next) ↦
          let rest = walk-node_at n found keys in
          (
            (λ h. rw (node_at, table, next) (rest.0 (rw (walk, table, next) at h))),
            (λ h. rw (walk, table, next) (rest.1 (rw (node_at, table, next) at h))),
          )
    ]
  ]

  string_of-ok :
      (node : T.Node) (s : Bytes)
      → (string_of T path node ≡ ok s) ↔ ((T.value_string node ≡ some s) × (is_empty s ≡ false))
  unfolding string_of non_empty
  string_of-ok node s = elim (Option-cases (T.value_string node)) [
    | inl nothing ↦ (
      (λ h. absurd (cc (rw (string_of, non_empty, nothing) at h))),
      (λ h. absurd (cc (h.0, nothing))),
    )
    | inr (u, value) ↦ elim (Bool-cases (is_empty u)) [
      | inl blank ↦ (
        (λ h. absurd (cc (rw (string_of, non_empty, value, blank) at h))),
        (λ h. ground (arith, h.0, h.1, value, blank)),
      )
      | inr full ↦ (
        (λ h. ground (arith, rw (string_of, non_empty, value, full) at h, value, full)),
        (λ h. rw (string_of, non_empty, value, full) (ground (arith, h.0, value))),
      )
    ]
  ]

  fetch_string-Holds :
      (t : T.Table) (keys : List Bytes) (s : Bytes)
      → (fetch_string T path t keys ≡ ok s) ↔ Holds T t keys s
  unfolding fetch_string
  fetch_string-Holds t keys s = (
    (λ h.
        let (node, reached, value) =
          fetched-ok (walk T path (T.table_node t) keys) (string_of T path) h in
        let (is_value, full) = (string_of-ok node s).0 value in
        (node, (walk-node_at (T.table_node t) node keys).0 reached, is_value, full)),
    (λ (node, reached, is_value, full).
        rw ((walk-node_at (T.table_node t) node keys).1 reached)
          ((string_of-ok node s).1 (is_value, full))),
  )

  walk_optional-node_at :
      (node : T.Node) (keys : List Bytes) → walk_optional T node keys ≡ node_at T node keys
  unfolding walk_optional node_at
  walk_optional-node_at node [] = refl
  walk_optional-node_at node (key ∷ keys) = elim (Option-cases (T.as_table node)) [
    | inl no_table ↦ rw (walk_optional, node_at, no_table) refl
    | inr (t, table) ↦ elim (Option-cases (T.get key t)) [
      | inl missing ↦ rw (walk_optional, node_at, table, missing) refl
      | inr (n, next) ↦ rw (walk_optional, node_at, table, next) (walk_optional-node_at n keys)
    ]
  ]

  -- A node's string, if it is not empty.
  non_empty-some :
      (o : Option Bytes) (s : Bytes)
      → (non_empty o ≡ some s) ↔ ((o ≡ some s) × (is_empty s ≡ false))
  unfolding non_empty
  non_empty-some none s = ((λ h. absurd (cc h)), (λ h. absurd (cc h.0)))
  non_empty-some (some u) s = elim (Bool-cases (is_empty u)) [
    | inl blank ↦
        ((λ h. absurd (cc (rw (non_empty, blank) at h))), (λ h. ground (arith, h.0, h.1, blank)))
    | inr full ↦
        ((λ h. ground (arith, rw (non_empty, full) at h, full)), (λ h. rw (non_empty, full) h.0))
  ]

  fetch_optional-Holds :
      (t : T.Table) (keys : List Bytes) (s : Bytes)
      → (fetch_optional_string T t keys ≡ some s) ↔ Holds T t keys s
  unfolding fetch_optional_string
  fetch_optional-Holds t keys s =
      let same = walk_optional-node_at (T.table_node t) keys in
      elim (Option-cases (node_at T (T.table_node t) keys)) [
        | inl nothing ↦ (
          (λ h. absurd (cc (rw (fetch_optional_string, same, nothing) at h))),
          (λ (n, reached, _, _). absurd (cc (reached, nothing))),
        )
        | inr (n, reached) ↦ (
          (λ h.
              let (value, full) =
                (non_empty-some (T.value_string n) s).0
                  (rw (fetch_optional_string, same, reached) at h) in
              (n, reached, value, full)),
          (λ (m, found, value, full).
              rw (fetch_optional_string, same, found)
                ((non_empty-some (T.value_string m) s).1 (value, full))),
        )
      ]

  or_login-ControlOf :
      (t : T.Table) (login channel : Bytes)
      → (channel ≡ or_login (fetch_optional_string T t (bot_key (codes "control_channel"))) login)
        ↔ ControlOf T t login channel
  unfolding or_login
  or_login-ControlOf t login channel =
      let key = bot_key (codes "control_channel") in
      elim (Option-cases (fetch_optional_string T t key)) [
        | inl absent ↦ (
          (λ h. inr (
            (λ s there. cc (absent, (fetch_optional-Holds t key s).1 there)),
            rw (or_login, absent) at h,
          )),
          (λ c. elim c [
            | inl there ↦ absurd (cc (absent, (fetch_optional-Holds t key channel).1 there))
            | inr (_, own) ↦ rw (or_login, absent) own
          ]),
        )
        | inr (c, there) ↦ (
          (λ h. inl (
              (fetch_optional-Holds t key channel).0
                (there ∙ ap (λ x. some x) (sym (rw (or_login, there) at h))))),
          (λ p. elim p [
            | inl held ↦ rw ((fetch_optional-Holds t key channel).1 held) refl
            | inr (nothing, _) ↦ absurd (nothing c ((fetch_optional-Holds t key c).0 there))
          ]),
        )
      ]

  -- The parts of a configuration that is put together.
  record Parts (a b l : Result Bytes) (channel : Option Bytes) (x y : Result Bytes) (cfg : Config)
      : Type 0 where
    pub path_kept : cfg.path ≡ path
    pub client_id : a ≡ ok cfg.app.client_id
    pub client_secret : b ≡ ok cfg.app.client_secret
    pub login : l ≡ ok cfg.bot.login
    pub control_channel : cfg.bot.control_channel ≡ or_login channel cfg.bot.login
    pub access_token : x ≡ ok cfg.auth.access_token
    pub refresh_token : y ≡ ok cfg.auth.refresh_token

  config_from-Parts :
      (a b l : Result Bytes) (channel : Option Bytes) (x y : Result Bytes) (cfg : Config)
      → config_from path a b l channel x y ≡ ok cfg
      → Parts a b l channel x y cfg
  unfolding config_from
  config_from-Parts (err e) b l channel x y cfg h = absurd (cc h)
  config_from-Parts (ok a) (err e) l channel x y cfg h = absurd (cc h)
  config_from-Parts (ok a) (ok b) (err e) channel x y cfg h = absurd (cc h)
  config_from-Parts (ok a) (ok b) (ok l) channel (err e) y cfg h = absurd (cc h)
  config_from-Parts (ok a) (ok b) (ok l) channel (ok x) (err e) cfg h = absurd (cc h)
  config_from-Parts (ok a) (ok b) (ok l) channel (ok x) (ok y) cfg h = record {
    path_kept = ground (arith, h);
    client_id = ground (arith, h);
    client_secret = ground (arith, h);
    login = ground (arith, h);
    control_channel = ground (arith, h);
    access_token = ground (arith, h);
    refresh_token = ground (arith, h);
  }

  Parts-config_from :
      (a b l : Result Bytes) (channel : Option Bytes) (x y : Result Bytes) (cfg : Config)
      → Parts a b l channel x y cfg
      → config_from path a b l channel x y ≡ ok cfg
  unfolding config_from
  Parts-config_from a b l channel x y cfg p =
      rw (p.client_id, p.client_secret, p.login, p.access_token, p.refresh_token)
        (ground (arith, p.path_kept, p.control_channel))

  config_of-Gives :
      (t : T.Table) (cfg : Config) → (config_of T path t ≡ ok cfg) ↔ Gives T path t cfg
  unfolding config_of
  config_of-Gives t cfg = (
    (λ h.
        let p = config_from-Parts _ _ _ _ _ _ cfg h in
        record {
          path_kept = p.path_kept;
          client_id = (fetch_string-Holds t _ _).0 p.client_id;
          client_secret = (fetch_string-Holds t _ _).0 p.client_secret;
          login = (fetch_string-Holds t _ _).0 p.login;
          control_channel = (or_login-ControlOf t _ _).0 p.control_channel;
          access_token = (fetch_string-Holds t _ _).0 p.access_token;
          refresh_token = (fetch_string-Holds t _ _).0 p.refresh_token;
        }),
    (λ g. Parts-config_from _ _ _ _ _ _ cfg (record {
      path_kept = g.path_kept;
      client_id = (fetch_string-Holds t _ _).1 g.client_id;
      client_secret = (fetch_string-Holds t _ _).1 g.client_secret;
      login = (fetch_string-Holds t _ _).1 g.login;
      control_channel = (or_login-ControlOf t _ _).1 g.control_channel;
      access_token = (fetch_string-Holds t _ _).1 g.access_token;
      refresh_token = (fetch_string-Holds t _ _).1 g.refresh_token;
    })),
  )

  -- A configuration is read exactly where the file can be parsed and each of its five required keys
  -- holds a string that is not empty; then these are its fields, its path is the one given, whether or
  -- not it is absolute, and its control channel is the non-empty string that the file holds for it, or
  -- the login where it holds none. In every other case an error is thrown.
  pub parse_config-Gives :
      (disk : Disk T) (cfg : Config)
      → (parse_config T path disk ≡ ok cfg)
        ↔ ((t : T.Table) × (read_table T path disk ≡ some t) × Gives T path t cfg)
  unfolding parse_config
  parse_config-Gives disk cfg = elim (Option-cases (read_table T path disk)) [
    | inl unread ↦ (
      (λ h. absurd (cc (rw (parse_config, unread) at h))),
      (λ (t, read, _). absurd (cc (read, unread))),
    )
    | inr (t, read) ↦ (
      (λ h. (t, read, (config_of-Gives t cfg).0 (rw (parse_config, read) at h))),
      (λ (u, found, g). rw (parse_config, found) ((config_of-Gives u cfg).1 g)),
    )
  ]
