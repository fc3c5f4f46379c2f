-- ===== src/Config/Fetch.antt =====
-- What is fetched from a table that has changed in one place.
use twitch_bot.Prelude.{◌≡◌, refl, ap, ◌∙◌, false, inl, inr, some, List, [], ◌∷◌, Option-cases}
use twitch_bot.Prelude.Bytes.{Bytes, codes, equal, equal_refl, is_empty}
use twitch_bot.Toml.{Toml, IsToml}
use twitch_bot.Config.{
  ok, ◌>>=◌, non_empty, walk, string_of, fetch_string, walk_optional, fetch_optional_string,
  set_token,
}

module _ {T : Toml} (laws : IsToml T) (path : Bytes) where
  -- A walk that succeeds goes through a table.
  pub walk_through :
      (node m : T.Node) (key : Bytes) (keys : List Bytes)
      → walk T path node (key ∷ keys) ≡ ok m
      → (t : T.Table) × (n : T.Node) × (T.as_table node ≡ some t)
        × (T.get key t ≡ some n)
        × (walk T path n keys ≡ ok m)
  unfolding walk
  walk_through node m key keys h = elim (Option-cases (T.as_table node)) [
    | inl no_table ↦ absurd (cc (rw (walk, no_table) at h))
    | inr (t, table) ↦ elim (Option-cases (T.get key t)) [
      | inl missing ↦ absurd (cc (rw (walk, table, missing) at h))
      | inr (n, found) ↦ (t, n, table, found, rw (walk, table, found) at h)
    ]
  ]

  pub walk-same :
      (node : T.Node) (t : T.Table) (key : Bytes) (keys : List Bytes)
      → T.as_table node ≡ some t
      → walk T path node (key ∷ keys) ≡ walk T path (T.table_node t) (key ∷ keys)
  unfolding walk
  walk-same node t key keys table = rw (walk, table, laws.is_table t) refl

  -- The first key leads to a table.
  pub fetch-in :
      (t sub : T.Table) (node : T.Node) (a key : Bytes) (keys : List Bytes)
      → T.get a t ≡ some node
      → T.as_table node ≡ some sub
      → fetch_string T path t (a ∷ key ∷ keys) ≡ fetch_string T path sub (key ∷ keys)
  unfolding fetch_string walk
  fetch-in t sub node a key keys found table =
      ap (λ r. r >>= string_of T path) (first ∙ walk-same node sub key keys table)
    where
      first : walk T path (T.table_node t) (a ∷ key ∷ keys) ≡ walk T path node (key ∷ keys)
      first = rw (walk, laws.is_table t, found) refl

  pub fetch-same :
      (t u : T.Table) (key : Bytes) (keys : List Bytes)
      → T.get key t ≡ T.get key u
      → fetch_string T path t (key ∷ keys) ≡ fetch_string T path u (key ∷ keys)
  unfolding fetch_string walk
  fetch-same t u key keys same =
      rw (fetch_string, walk, laws.is_table t, laws.is_table u, same) refl

  pub optional-in :
      (t sub : T.Table) (node : T.Node) (a key : Bytes) (keys : List Bytes)
      → T.get a t ≡ some node
      → T.as_table node ≡ some sub
      → fetch_optional_string T t (a ∷ key ∷ keys) ≡ fetch_optional_string T sub (key ∷ keys)
  unfolding fetch_optional_string walk_optional
  optional-in t sub node a key keys found table =
      rw (fetch_optional_string, walk_optional, laws.is_table t, found, table, laws.is_table sub)
        refl

  pub optional-same :
      (t u : T.Table) (key : Bytes) (keys : List Bytes)
      → T.get key t ≡ T.get key u
      → fetch_optional_string T t (key ∷ keys) ≡ fetch_optional_string T u (key ∷ keys)
  unfolding fetch_optional_string walk_optional
  optional-same t u key keys same =
      rw (fetch_optional_string, walk_optional, laws.is_table t, laws.is_table u, same) refl

  pub get_assigned :
      (key : Bytes) (n : T.Node) (t : T.Table) → T.get key (T.insert_or_assign key n t) ≡ some n
  get_assigned key n t = laws.get-insert_or_assign key key n t ∙ rw (equal_refl key) refl

  pub get_unassigned :
      (key other : Bytes) (n : T.Node) (t : T.Table)
      → equal key other ≡ false
      → T.get other (T.insert_or_assign key n t) ≡ T.get other t
  get_unassigned key other n t differs = laws.get-insert_or_assign key other n t ∙ rw (differs) refl

  -- A string that is set is fetched.
  pub fetch-set_token :
      (token : Bytes) (auth : T.Table)
      → is_empty token ≡ false
      → fetch_string T path (set_token T token auth) (codes "access_token" ∷ []) ≡ ok token
  unfolding fetch_string set_token walk string_of non_empty
  fetch-set_token token auth some_bytes =
      rw
        (
          fetch_string,
          walk,
          laws.is_table (T.insert_or_assign (codes "access_token") (T.string_node token) auth),
          get_assigned (codes "access_token") (T.string_node token) auth,
          string_of,
          laws.is_string token,
          non_empty,
          some_bytes,
        )
        refl
