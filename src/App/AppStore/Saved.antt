-- ===== src/App/AppStore/Saved.antt =====
-- What is saved is loaded again.
use twitch_bot.Prelude.{
  ◌≡◌, refl, ap, sym, ◌∙◌, inl, inr, Option, none, some, List, [], ◌∷◌, if◌then◌else◌, Option-cases,
  Bool-cases,
}
use twitch_bot.Prelude.Bytes.{Bytes, codes, equal, equal_iff, to_lower, to_lower_idem}
use twitch_bot.Prelude.Assoc.{
  lookup, lookup_cons, emplace, emplace_absent, emplace_present, emplace-IsMap, IsMap,
}
use twitch_bot.Toml.{Toml, IsToml}
use twitch_bot.App.AppStore.{PerChannel, replaced, failed, load_channels, channels_of, load, save}
use twitch_bot.App.AppStore.Written.{AreLower, lookup-load_saved}

-- Adding a channel under its name in lower case keeps a map with keys in lower case.
add-AreLower :
    (key value : Bytes) (m : PerChannel)
    → IsMap m × AreLower m
    → IsMap (emplace (to_lower key) value m) × AreLower (emplace (to_lower key) value m)
add-AreLower key value m w = (
  emplace-IsMap (to_lower key) value m w.0,
  λ other u h. elim (Option-cases (lookup (to_lower key) m)) [
    | inr (v, present) ↦ w.1 other u (rw (emplace_present (to_lower key) value v m present) at h)
    | inl absent ↦
        let found =
          rw
            (emplace_absent (to_lower key) value m absent, lookup_cons (to_lower key) other value m)
            at h in
        elim (Bool-cases (equal (to_lower key) other)) [
          | inl same ↦
              let e : to_lower key ≡ other = (equal_iff (to_lower key) other).0 same in
              ap to_lower (sym e) ∙ to_lower_idem key ∙ e
          | inr differs ↦ w.1 other u (rw (differs, if◌then◌else◌) at found)
        ]
  ],
)

module _ (T : Toml) where
  load_channels-AreLower :
      (es : List (Bytes × T.Node)) (m : PerChannel)
      → IsMap m × AreLower m
      → IsMap (load_channels T es m) × AreLower (load_channels T es m)
  unfolding load_channels
  load_channels-AreLower [] m w = w
  load_channels-AreLower ((key, node) ∷ es) m w = elim (Option-cases (T.value_string node)) [
    | inl other ↦ rw (other) (load_channels-AreLower es m w)
    | inr (v, is_string) ↦
        rw (is_string)
          (load_channels-AreLower es (emplace (to_lower key) v m) (add-AreLower key v m w))
  ]

  empty-AreLower : IsMap {H = Bytes} [] × AreLower []
  unfolding lookup
  empty-AreLower = (tt, λ key value h. cc h)

  channels_of-AreLower :
      (root : T.Table) → IsMap (channels_of T root) × AreLower (channels_of T root)
  unfolding channels_of
  channels_of-AreLower root = elim (Option-cases (T.get (codes "channels") root)) [
    | inl absent ↦ rw (channels_of, absent) empty-AreLower
    | inr (node, present) ↦ elim (Option-cases (T.as_table node)) [
      | inl no_table ↦ rw (channels_of, present, no_table) empty-AreLower
      | inr (chs, table) ↦
          rw (channels_of, present, table)
            (load_channels-AreLower (T.entries chs) [] empty-AreLower)
    ]
  ]

  load-AreLower : (file : Option T.File) → IsMap (load T file) × AreLower (load T file)
  unfolding load
  load-AreLower none = empty-AreLower
  load-AreLower (some file) = elim (Option-cases (T.parse_file file)) [
    | inl unparsed ↦ rw (load, unparsed) empty-AreLower
    | inr (root, parsed) ↦ rw (load, parsed) (channels_of-AreLower root)
  ]

-- A store that was loaded from any file, saved, and loaded again has the same value for each channel,
-- where the file was replaced; where it was not, the file is the one that there was.
pub load-save :
    {T : Toml} (laws : IsToml T) (before file : Option T.File) (channel : Bytes)
    → (lookup channel (load T (save T replaced (load T before) file))
        ≡ lookup channel (load T before))
      × (save T failed (load T before) file ≡ file)
unfolding save
load-save {T} laws before file channel =
    let (is_map, lower) = load-AreLower T before in
    (lookup-load_saved laws channel (load T before) is_map lower, refl)
