-- ===== src/App/Store/Load.antt =====
-- What `load` makes of a file that the store has written.
use mathlib.Core.Option
use mathlib.Core.Option.{none-ne-some, some-injective}
use twitch_bot.Prelude.{
  ◌≡◌, ◌≢◌, subst, refl, sym, ap, ◌∙◌, Bool, true, false, inl, inr, Option, none, some, List, [],
  ◌∷◌, if◌then◌else◌, Bool-cases, Option-cases,
}
use twitch_bot.Prelude.Bytes.{Bytes, equal, to_lower}
use twitch_bot.Prelude.Assoc.{
  lookup, emplace, IsMap, lookup_same, lookup_head, lookup_tail, lookup_cons, emplace_absent,
  emplace_present,
}
use twitch_bot.App.Store.{
  Channels, ChannelInfo, Node, channel_table, other_value, Toml, load_entries,
}

-- Every key is in lower case.
abbrev pub AllLower : {H : Type 0} → List (Bytes × H) → Type 0
AllLower {H} m = (key : Bytes) (v : H) → lookup key m ≡ some v → to_lower key ≡ key

-- What toml++ promises: a table that is printed is parsed as one with the same keys and aliases.
pub record IsFaithful (T : Toml) : Type 0 where
  pub entries : Channels → List (Bytes × Node)
  pub parsed : (m : Channels) → IsMap m → T.parse_file (T.print m) ≡ some (entries m)
  pub entries_map : (m : Channels) → IsMap m → IsMap (entries m)
  pub same :
      (m : Channels) (key : Bytes)
      → IsMap m
      → lookup key (entries m) ≡ Option.map channel_table (lookup key m)

-- The alias of a node, if it is a channel.
abbrev info_of : Option Node → Option ChannelInfo
info_of (some (channel_table a)) = some a
info_of (some other_value) = none
info_of none = none

abbrev or_else : Option ChannelInfo → Option ChannelInfo → Option ChannelInfo
or_else (some a) b = some a
or_else none b = b

-- The keys of the entries are in lower case and their values are tables.
abbrev AreChannels : List (Bytes × Node) → Type 0
AreChannels es =
    (key : Bytes) (v : Node)
    → lookup key es ≡ some v
    → (to_lower key ≡ key) × ((a : ChannelInfo) × (v ≡ channel_table a))

AreChannels-tail :
    (c : Bytes × Node) (es : List (Bytes × Node))
    → IsMap (c ∷ es)
    → AreChannels (c ∷ es)
    → AreChannels es
AreChannels-tail c es w h k v e = h k v (lookup_tail c.0 k c.1 v es w.0 e)

-- An entry is added unless its key is there.
lookup-emplace :
    (k key : Bytes) (a : ChannelInfo) (m : Channels) (rest : Option ChannelInfo)
    → or_else (lookup k (emplace key a m)) rest
      ≡ or_else (lookup k m) (if equal key k then some a else rest)
lookup-emplace k key a m rest = elim (Option-cases (lookup key m)) [
  | inl absent ↦
      rw (emplace_absent key a m absent, lookup_cons key k a m)
        (elim (Bool-cases (equal key k)) [
          | inl same ↦ rw (same, if◌then◌else◌, sym (lookup_same key k m same), absent) refl
          | inr differs ↦ rw (differs, if◌then◌else◌) refl
        ])
  | inr (u, present) ↦ rw (emplace_present key a u m present) (elim (Bool-cases (equal key k)) [
    | inl same ↦ rw (sym (lookup_same key k m same), present) refl
    | inr differs ↦ rw (differs, if◌then◌else◌) refl
  ])
]

info_of_if :
    (c : Bool) (v : Node) (o : Option Node)
    → info_of (if c then some v else o) ≡ (if c then info_of (some v) else info_of o)
info_of_if true v o = refl
info_of_if false v o = refl

not_a_channel : (a : ChannelInfo) → other_value ≢ channel_table a
not_a_channel a e =
    subst {A = Node} (λ v. elim v [ channel_table _ ↦ ⊥ | other_value ↦ Unit {0} ]) e tt

none-or_else : (o : Option ChannelInfo) → or_else o none ≡ o
none-or_else (some a) = refl
none-or_else none = refl

pub lookup-load_entries :
    (k : Bytes) (es : List (Bytes × Node)) (m : Channels)
    → IsMap es
    → AreChannels es
    → lookup k (load_entries es m) ≡ or_else (lookup k m) (info_of (lookup k es))
unfolding load_entries lookup
lookup-load_entries k [] m w h = sym (none-or_else (lookup k m))
lookup-load_entries k ((key, channel_table a) ∷ es) m w h =
    let lower : to_lower key ≡ key =
      (h key (channel_table a) (lookup_head key (channel_table a) es)).0 in
    let rest =
      lookup-load_entries k es (emplace key a m) w.1
        (AreChannels-tail (key, channel_table a) es w h) in
    rw
      (
        lower,
        rest,
        lookup-emplace k key a m (info_of (lookup k es)),
        lookup_cons key k (channel_table a) es,
      )
      (ap (or_else (lookup k m)) (sym (info_of_if (equal key k) (channel_table a) (lookup k es))))
lookup-load_entries k ((key, other_value) ∷ es) m w h =
    let c = (h key other_value (lookup_head key other_value es)).1 in absurd (not_a_channel c.0 c.1)

-- The entries that are read for a printed table.
entries_lookup :
    {T : Toml} (faithful : IsFaithful T) (m : Channels) (k : Bytes)
    → IsMap m
    → info_of (lookup k (faithful.entries m)) ≡ lookup k m
entries_lookup faithful m k w = rw (faithful.same m k w) (elim (Option-cases (lookup k m)) [
  | inl absent ↦ rw (absent) refl
  | inr (v, present) ↦ rw (present) refl
])

entries_AreChannels :
    {T : Toml} (faithful : IsFaithful T) (m : Channels)
    → IsMap m
    → AllLower m
    → AreChannels (faithful.entries m)
entries_AreChannels {T} faithful m w lower k v e = elim (Option-cases (lookup k m)) [
  | inl absent ↦ absurd (none-ne-some v (sym (stored none absent) ∙ e))
  | inr (a, present) ↦
      (lower k a present, (a, some-injective v (channel_table a) (sym e ∙ stored (some a) present)))
]
  where
    stored :
        (o : Option ChannelInfo)
        → lookup k m ≡ o
        → lookup k (faithful.entries m) ≡ Option.map channel_table o
    stored o found = faithful.same m k w ∙ ap (Option.map channel_table) found

-- What is read back has the channels that were written.
pub lookup-read_back :
    {T : Toml} (faithful : IsFaithful T) (m : Channels) (k : Bytes)
    → IsMap m
    → AllLower m
    → lookup k (load_entries (faithful.entries m) []) ≡ lookup k m
unfolding lookup
lookup-read_back faithful m k w lower =
    lookup-load_entries k (faithful.entries m) [] (faithful.entries_map m w)
      (entries_AreChannels faithful m w lower)
    ∙ entries_lookup faithful m k w
