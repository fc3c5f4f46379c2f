-- ===== src/App/AppStore/Written.antt =====
-- What is read from the tables of a map.
use mathlib.Core.Option
use mathlib.Core.Option.{some-injective, none-ne-some}
use twitch_bot.Prelude.{
  ◌≡◌, refl, ap, sym, ◌∙◌, Bool, true, false, inl, inr, Option, none, some, List, [], ◌∷◌,
  if◌then◌else◌, Option-cases, Bool-cases, arith,
}
use twitch_bot.Prelude.Bytes.{Bytes, codes, equal, equal_refl, to_lower}
use twitch_bot.Prelude.Assoc.{
  lookup, lookup_cons, lookup_head, lookup_tail, lookup_same, emplace, emplace_absent,
  emplace_present, IsMap,
}
use twitch_bot.Toml.{Toml, IsToml}
use twitch_bot.App.AppStore.{
  PerChannel, load_channels, channels_of, load, channel_table, root_table,
}

abbrev or_else : Option Bytes → Option Bytes → Option Bytes
or_else (some a) b = some a
or_else none b = b

lookup-emplace :
    (k key v : Bytes) (m : PerChannel) (rest : Option Bytes)
    → or_else (lookup k (emplace key v m)) rest
      ≡ or_else (lookup k m) (if equal key k then some v else rest)
lookup-emplace k key v m rest = elim (Option-cases (lookup key m)) [
  | inl absent ↦
      rw (emplace_absent key v m absent, lookup_cons key k v m)
        (elim (Bool-cases (equal key k)) [
          | inl same ↦ ground (arith, same, lookup_same key k m same, absent)
          | inr differs ↦ ground (arith, differs)
        ])
  | inr (u, present) ↦ rw (emplace_present key v u m present) (elim (Bool-cases (equal key k)) [
    | inl same ↦ ground (arith, same, lookup_same key k m same, present)
    | inr differs ↦ ground (arith, differs)
  ])
]

-- Every key that is found is in lower case.
abbrev pub AreLower : PerChannel → Type 0
AreLower m = (key value : Bytes) → lookup key m ≡ some value → to_lower key ≡ key

module _ {T : Toml} (laws : IsToml T) where
  -- The table has the channels of the map, in front of those that it had.
  get-channel_table :
      (key : Bytes) (m : PerChannel) (t : T.Table)
      → IsMap m
      → T.get key (channel_table T m t)
        ≡ (elim (lookup key m) [ none ↦ T.get key t | some v ↦ some (T.string_node v) ])
  unfolding channel_table lookup
  get-channel_table key [] t w = refl
  get-channel_table key (c ∷ m) t w =
      let assigned = T.insert_or_assign c.0 (T.string_node c.1) t in
      let got = laws.get-insert_or_assign c.0 key (T.string_node c.1) t in
      elim (Bool-cases (equal c.0 key)) [
        | inl same ↦ ground (
          arith,
          same,
          got,
          lookup_same c.0 key m same,
          w.0,
          get-channel_table key m assigned w.1,
        )
        | inr differs ↦ ground (arith, differs, got, get-channel_table key m assigned w.1)
      ]

  -- The string of a node that is found.
  abbrev string_in : Option T.Node → Option Bytes
  string_in none = none
  string_in (some node) = T.value_string node

  -- The entries are strings under keys in lower case.
  abbrev AreStrings : List (Bytes × T.Node) → Type 0
  AreStrings es =
      (key : Bytes) (node : T.Node)
      → lookup key es ≡ some node
      → (to_lower key ≡ key) × (v : Bytes) × (T.value_string node ≡ some v)

  string_in_if :
      (c : Bool) (n : T.Node) (o : Option T.Node)
      → string_in (if c then some n else o) ≡ (if c then T.value_string n else string_in o)
  string_in_if true n o = refl
  string_in_if false n o = refl

  lookup-load_channels :
      (k : Bytes) (es : List (Bytes × T.Node)) (m : PerChannel)
      → IsMap es
      → AreStrings es
      → lookup k (load_channels T es m) ≡ or_else (lookup k m) (string_in (lookup k es))
  unfolding load_channels lookup
  lookup-load_channels k [] m w h = ground arith
  lookup-load_channels k ((key, node) ∷ es) m w h =
      let (lower, v, is_string) = h key node (lookup_head key node es) in
      let tail : AreStrings es = λ other n e. h other n (lookup_tail key other node n es w.0 e) in
      let rest = lookup-load_channels k es (emplace key v m) w.1 tail in
      rw
        (
          is_string,
          lower,
          rest,
          lookup-emplace k key v m (string_in (lookup k es)),
          lookup_cons key k node es,
          string_in_if (equal key k) node (lookup k es),
          is_string,
        )
        refl

  -- The entries of the table of a map.
  lookup-saved :
      (key : Bytes) (m : PerChannel)
      → IsMap m
      → lookup key (T.entries (channel_table T m T.empty_table))
        ≡ Option.map T.string_node (lookup key m)
  lookup-saved key m w = ground (
    arith,
    laws.lookup-entries key (channel_table T m T.empty_table),
    get-channel_table key m T.empty_table w,
    laws.get_empty key,
  )

  saved-AreStrings :
      (m : PerChannel)
      → IsMap m
      → AreLower m
      → AreStrings (T.entries (channel_table T m T.empty_table))
  saved-AreStrings m w lower key node h = elim (Option-cases (lookup key m)) [
    | inl absent ↦
        absurd (
          none-ne-some node (sym (lookup-saved key m w ∙ ap (Option.map T.string_node) absent) ∙ h))
    | inr (v, present) ↦
        let e : T.string_node v ≡ node =
          some-injective (T.string_node v) node
            (sym (lookup-saved key m w ∙ ap (Option.map T.string_node) present) ∙ h) in
        (lower key v present, v, ap T.value_string (sym e) ∙ laws.is_string v)
  ]

  saved_string :
      (key : Bytes) (m : PerChannel)
      → IsMap m
      → string_in (lookup key (T.entries (channel_table T m T.empty_table))) ≡ lookup key m
  saved_string key m w = ap string_in (lookup-saved key m w) ∙ elim (Option-cases (lookup key m)) [
    | inl absent ↦ rw (absent) refl
    | inr (v, present) ↦ rw (present) (laws.is_string v)
  ]

  -- What a map that is saved gives back.
  pub lookup-load_saved :
      (k : Bytes) (m : PerChannel)
      → IsMap m
      → AreLower m
      → lookup k (load T (some (T.print (root_table T m)))) ≡ lookup k m
  unfolding load channels_of root_table lookup
  lookup-load_saved k m w lower =
      let chs = channel_table T m T.empty_table in
      let in_root : T.get (codes "channels") (root_table T m) ≡ some (T.table_node chs) =
        laws.get-insert_or_assign (codes "channels") (codes "channels") (T.table_node chs)
          T.empty_table
        ∙ rw (equal_refl (codes "channels")) refl in
      rw (load, laws.parsed (root_table T m), channels_of, in_root, laws.is_table chs)
        (lookup-load_channels k (T.entries chs) [] (laws.entries-IsMap chs)
            (saved-AreStrings m w lower)
          ∙ saved_string k m w)
