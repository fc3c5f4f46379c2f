-- ===== src/App/Integrations/Lookup.antt =====
-- What the lookups of a credential give, and that the case of the service's name does not matter.
use twitch_bot.Prelude.{
  ◌≡◌, ◌↔◌, refl, ap, ◌∙◌, Bool, true, false, inl, inr, Option, none, some, [], ◌∷◌, if◌then◌else◌,
  Option-cases, Bool-cases, arith,
}
use twitch_bot.Prelude.Bytes.{Bytes, codes, equal, equal_iff, is_empty, to_lower}
use twitch_bot.Prelude.Assoc.{lookup}
use twitch_bot.App.Integrations.Names.{get_opt-to_lower}
use twitch_bot.App.Integrations.{
  Kv, Integrations, ok, env_name, getenv_nonempty, api_key_override, env_override, value_in, get,
  get_opt, overlay, values,
}

-- Whether a key is there.
abbrev pub is_in : Bytes → Kv → Bool
is_in key kv = elim (lookup key kv) [ none ↦ false | some _ ↦ true ]

module _ (getenv : Bytes → Option Bytes) where
  getenv_nonempty_lem : (name v : Bytes) → getenv_nonempty getenv name ≡ some v → is_empty v ≡ false
  unfolding getenv_nonempty
  getenv_nonempty_lem name v h = ground (arith, h)

  env_override_nonempty :
      (service key v : Bytes) → env_override getenv service key ≡ some v → is_empty v ≡ false
  unfolding env_override api_key_override
  env_override_nonempty service key v h = ground (
    arith,
    h,
    getenv_nonempty_lem (env_name (codes "INTEGRATIONS") service key) v,
    getenv_nonempty_lem (env_name service key []) v,
    getenv_nonempty_lem (env_name service (codes "API_KEY") []) v,
  )

  -- The value of a key under the environment.
  abbrev over : Bytes → Bytes → Bytes → Bytes
  over service key v = elim (env_override getenv service key) [ none ↦ v | some e ↦ e ]

  lookup-overlay :
      (service key : Bytes) (kv : Kv)
      → lookup key (overlay getenv service kv)
        ≡ (elim (lookup key kv) [ none ↦ none | some v ↦ some (over service key v) ])
  unfolding lookup overlay
  lookup-overlay service key [] = refl
  lookup-overlay service key ((k, v) ∷ kv) = elim (Bool-cases (equal k key)) [
    | inl same ↦ ground (
      arith,
      same,
      ap (env_override getenv service) ((equal_iff k key).0 same),
      lookup-overlay service key kv,
    )
    | inr differs ↦ ground (arith, differs, lookup-overlay service key kv)
  ]

  get-get_opt :
      (service key v : Bytes) (s : Integrations)
      → (get getenv service key s ≡ ok v) ↔ (get_opt getenv service key s ≡ some v)
  unfolding get get_opt
  get-get_opt service key v s = elim (Option-cases (env_override getenv service key)) [
    | inr (e, set) ↦ rw (get, get_opt, set) ((λ h. cc h), (λ h. cc h))
    | inl unset ↦ elim (Option-cases (lookup (to_lower service) s.services)) [
      | inl absent ↦ rw (get, get_opt, unset, absent) ((λ h. absurd (cc h)), (λ h. absurd (cc h)))
      | inr (kv, found) ↦ elim (Option-cases (value_in key kv)) [
        | inl missing ↦
            rw (get, get_opt, unset, found, missing) ((λ h. absurd (cc h)), (λ h. absurd (cc h)))
        | inr (u, value) ↦ rw (get, get_opt, unset, found, value) ((λ h. cc h), (λ h. cc h))
      ]
    ]
  ]

  overlay-value_in :
      (service key : Bytes) (kv : Kv)
      → value_in key (overlay getenv service kv) ≡ (
          if is_in key kv
          then elim (env_override getenv service key) [ some e ↦ some e | none ↦ value_in key kv ]
          else none)
  unfolding value_in
  overlay-value_in service key kv = elim (Option-cases (env_override getenv service key)) [
    | inl unset ↦ ground (arith, unset, lookup-overlay service key kv)
    | inr (e, set) ↦
        ground (arith, set, lookup-overlay service key kv, env_override_nonempty service key e set)
  ]

  is_in-overlay :
      (service key : Bytes) (kv : Kv) → is_in key (overlay getenv service kv) ≡ is_in key kv
  is_in-overlay service key kv = ground (arith, lookup-overlay service key kv)

  get_opt_found :
      (service key : Bytes) (s : Integrations) (kv : Kv)
      → lookup (to_lower service) s.services ≡ some kv
      → (elim (env_override getenv service key) [ some e ↦ some e | none ↦ value_in key kv ])
        ≡ get_opt getenv service key s
  unfolding get_opt
  get_opt_found service key s kv found = ground (arith, found)

  -- Of a service of the file get gives the value that get_opt gives, and throws where get_opt has none;
  -- values has the keys of the file, each with what get_opt gives for it, the empty string standing for
  -- none; and get_opt does not depend on the case of the service.
  pub get-get_opt-values :
      (service key : Bytes) (s : Integrations) (kv : Kv)
      → lookup (to_lower service) s.services ≡ some kv
      → ((v : Bytes) → (get getenv service key s ≡ ok v) ↔ (get_opt getenv service key s ≡ some v))
        × (is_in key (values getenv service s) ≡ is_in key kv)
        × (value_in key (values getenv service s)
            ≡ (if is_in key kv then get_opt getenv service key s else none))
        × (get_opt getenv (to_lower service) key s ≡ get_opt getenv service key s)
  unfolding values
  get-get_opt-values service key s kv found = (
    (λ v. get-get_opt service key v s),
    rw (values, found) (is_in-overlay service key kv),
    rw (values, found)
        (overlay-value_in service key kv
          ∙ ap (λ o. if is_in key kv then o else none) (get_opt_found service key s kv found)),
    get_opt-to_lower getenv service key s,
  )
