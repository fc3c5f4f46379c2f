-- ===== src/App/Store/Synced.antt =====
-- What the file holds, in every reachable state of the store: the invariant of its runs, what a store
-- that is started on the file answers, and that a save reaches the file.
use mathlib.Core.Option.{none-ne-some}
use twitch_bot.Prelude.{
  ◌≡◌, refl, sym, ap, subst, ◌∙◌, Bool, true, false, ◌⊎◌, inl, inr, Option, none, some, List, [],
  ◌∷◌, if◌then◌else◌, Bool-cases, Option-cases,
}
use twitch_bot.Prelude.Bytes.{Bytes, equal, equal_iff, to_lower, to_lower_idem}
use twitch_bot.Prelude.Assoc.{
  lookup, emplace, erase, replace, IsMap, lookup_cons, lookup-erase-none, lookup-replace-none,
  erase-IsMap, replace-IsMap, emplace-IsMap, emplace_absent, emplace_present,
}
use twitch_bot.App.Store.{
  Channels, ChannelInfo, Node, channel_table, other_value, Toml, ChannelStore, Handler, idle, fired,
  saving, writing, load_entries, read_disk, load, add_channel, remove_channel, same_alias,
  set_alias, mark_dirty, schedule_timer, wake, exchange_dirty, build_table, write_file,
}
use twitch_bot.App.Store.Load.{AllLower, IsFaithful, lookup-read_back}
use twitch_bot.App.Store.Steps.{
  Step, adds, removes, aliases, marks, schedules, wakes, exchanges, builds, writes, fresh, Reach,
  start, next,
}

-- The keys are unique and in lower case.
abbrev pub IsTidy : Channels → Type 0
IsTidy m = IsMap m × AllLower m

-- A key that an operation does not add.
shrink-AllLower :
    (m n : Channels)
    → ((k : Bytes) → lookup k m ≡ none → lookup k n ≡ none)
    → AllLower m
    → AllLower n
shrink-AllLower m n sub lower k v e = elim (Option-cases (lookup k m)) [
  | inl absent ↦ absurd (none-ne-some v (sym (sub k absent) ∙ e))
  | inr (u, present) ↦ lower k u present
]

emplace-IsTidy :
    (key : Bytes) (a : ChannelInfo) (m : Channels) → IsTidy m → IsTidy (emplace (to_lower key) a m)
emplace-IsTidy key a m (w, lower) = (
  emplace-IsMap (to_lower key) a m w,
  λ k v e. elim (Option-cases (lookup (to_lower key) m)) [
    | inl absent ↦ elim (Bool-cases (equal (to_lower key) k)) [
      | inl same ↦
          subst {A = Bytes} (λ x. to_lower x ≡ x) ((equal_iff (to_lower key) k).0 same)
            (to_lower_idem key)
      | inr differs ↦ lower k v (
          subst {A = Bool} (λ b. (if b then some a else lookup k m) ≡ some v) differs
            (sym (lookup_cons (to_lower key) k a m)
              ∙ sym (ap (lookup k) (emplace_absent (to_lower key) a m absent))
              ∙ e))
    ]
    | inr (u, present) ↦
        lower k v (sym (ap (lookup k) (emplace_present (to_lower key) a u m present)) ∙ e)
  ],
)

erase-IsTidy : (key : Bytes) (m : Channels) → IsTidy m → IsTidy (erase key m)
erase-IsTidy key m (w, lower) =
    (erase-IsMap key m w, shrink-AllLower m (erase key m) (λ k. lookup-erase-none key k m) lower)

replace-IsTidy :
    (key : Bytes) (a : ChannelInfo) (m : Channels) → IsTidy m → IsTidy (replace key a m)
replace-IsTidy key a m (w, lower) = (
  replace-IsMap key a m w,
  shrink-AllLower m (replace key a m) (λ k. lookup-replace-none key k a m) lower,
)

load_entries-IsTidy :
    (es : List (Bytes × Node)) (m : Channels) → IsTidy m → IsTidy (load_entries es m)
unfolding load_entries
load_entries-IsTidy [] m tidy = tidy
load_entries-IsTidy ((key, channel_table a) ∷ es) m tidy =
    load_entries-IsTidy es (emplace (to_lower key) a m) (emplace-IsTidy key a m tidy)
load_entries-IsTidy ((key, other_value) ∷ es) m tidy = load_entries-IsTidy es m tidy

-- What a store finds on a disk.
unfoldable pub contents : (T : Toml) → Option T.File → Channels
contents T disk = elim (read_disk T disk) [ none ↦ [] | some channels ↦ channels ]

abbrev OnDisk : (T : Toml) → Channels → Option T.File → Type 0
OnDisk T m disk = (k : Bytes) → lookup k (contents T disk) ≡ lookup k m

-- What holds where no change is pending, by where the handler stands.
abbrev pub Settled : (T : Toml) → Handler → Channels → Option T.File → Type 0
Settled T idle m disk = OnDisk T m disk
Settled T fired m disk = OnDisk T m disk
Settled T saving m disk = Unit {0}
Settled T (writing table) m disk = table ≡ m

abbrev pub Inv : {T : Toml} → ChannelStore T → Type 0
Inv {T} s = IsTidy s.channel_data × ((s.dirty ≡ true) ⊎ Settled T s.handler s.channel_data s.disk)

nil-IsTidy : IsTidy []
unfolding lookup
nil-IsTidy = (tt, λ k v e. absurd (none-ne-some v e))

read_disk-IsTidy : (T : Toml) (disk : Option T.File) → IsTidy (contents T disk)
unfolding contents read_disk
read_disk-IsTidy T none = nil-IsTidy
read_disk-IsTidy T (some file) = go (T.parse_file file)
  where
    go :
        (o : Option (List (Bytes × Node)))
        → IsTidy
            (elim (elim o as (λ _. Option Channels) [
              | none ↦ none
              | some entries ↦ some (load_entries entries [])
            ])
              as (λ _. Channels) [ none ↦ [] | some channels ↦ channels ])
    go none = nil-IsTidy
    go (some entries) = load_entries-IsTidy entries [] nil-IsTidy

-- A store that is started on a disk has its contents.
pub load-fresh :
    (T : Toml) (disk : Option T.File)
    → load (fresh {T = T} disk) ≡ record (fresh {T = T} disk) { channel_data = contents T disk }
unfolding load contents
load-fresh T disk = elim (Option-cases (read_disk T disk)) [
  | inl absent ↦ rw (load, contents, absent) refl
  | inr (m, present) ↦ rw (load, contents, present) refl
]

pub load-Inv : (T : Toml) (disk : Option T.File) → Inv (load (fresh {T = T} disk))
load-Inv T disk =
    subst {A = ChannelStore T} (λ s. Inv s) (sym (load-fresh T disk))
      (read_disk-IsTidy T disk, inr (λ k. refl))

module _ {T : Toml} where
  add_channel-Inv : (c : Bytes) (s : ChannelStore T) → Inv s → Inv (add_channel c s)
  unfolding add_channel
  add_channel-Inv c s inv = go (lookup (to_lower c) s.channel_data)
    where
      go :
          (o : Option ChannelInfo)
          → Inv (elim o as (λ _. ChannelStore T) [
            | none ↦ record s {
              channel_data = emplace (to_lower c) none s.channel_data;
              dirty = true;
            }
            | some _ ↦ s
          ])
      go none = (emplace-IsTidy c none s.channel_data inv.0, inl refl)
      go (some u) = inv

  remove_channel-Inv : (c : Bytes) (s : ChannelStore T) → Inv s → Inv (remove_channel c s)
  unfolding remove_channel
  remove_channel-Inv c s inv = go (lookup (to_lower c) s.channel_data)
    where
      go :
          (o : Option ChannelInfo)
          → Inv (elim o as (λ _. ChannelStore T) [
            | none ↦ s
            | some _ ↦ record s { channel_data = erase (to_lower c) s.channel_data; dirty = true }
          ])
      go none = inv
      go (some u) = (erase-IsTidy (to_lower c) s.channel_data inv.0, inl refl)

  set_alias-Inv :
      (c : Bytes) (a : Option Bytes) (s : ChannelStore T) → Inv s → Inv (set_alias c a s)
  unfolding set_alias
  set_alias-Inv c a s inv = go (lookup (to_lower c) s.channel_data)
    where
      changed : ChannelStore T
      changed = record s { channel_data = replace (to_lower c) a s.channel_data; dirty = true }

      test : (b : Bool) → Inv (if b then s else changed)
      test true = inv
      test false = (replace-IsTidy (to_lower c) a s.channel_data inv.0, inl refl)

      go :
          (o : Option ChannelInfo)
          → Inv (elim o as (λ _. ChannelStore T) [
            | none ↦ s
            | some info ↦ if same_alias info a then s else changed
          ])
      go none = inv
      go (some info) = test (same_alias info a)

  wake-Inv : (err : Bool) (s : ChannelStore T) → s.handler ≡ idle → Inv s → Inv (wake err s)
  unfolding wake
  wake-Inv err s e (tidy, inl d) = (tidy, inl d)
  wake-Inv true s e (tidy, inr settled) =
      (tidy, inr (subst {A = Handler} (λ h. Settled T h s.channel_data s.disk) e settled))
  wake-Inv false s e (tidy, inr settled) =
      (tidy, inr (subst {A = Handler} (λ h. Settled T h s.channel_data s.disk) e settled))

  exchange-Inv : (s : ChannelStore T) → s.handler ≡ fired → Inv s → Inv (exchange_dirty s)
  unfolding exchange_dirty
  exchange-Inv s e inv = go s.dirty refl
    where
      go :
          (b : Bool)
          → s.dirty ≡ b
          → Inv (
              if b
              then record s { dirty = false; handler = saving }
              else record s { handler = idle })
      go true d = (inv.0, inr tt)
      go false d = (
        inv.0,
        elim inv.1 [
          | inl pending ↦ inl pending
          | inr settled ↦
              inr (subst {A = Handler} (λ h. Settled T h s.channel_data s.disk) e settled)
        ],
      )

  build-Inv : (s : ChannelStore T) → Inv s → Inv (build_table s)
  unfolding build_table
  build-Inv s inv = (inv.0, inr refl)

  -- A printed table is on the disk.
  pub OnDisk-print :
      (faithful : IsFaithful T) (m : Channels) → IsTidy m → OnDisk T m (some (T.print m))
  unfolding contents read_disk
  OnDisk-print faithful m (w, lower) k =
      rw (contents, read_disk, faithful.parsed m w) (lookup-read_back faithful m k w lower)

  write-Inv :
      (faithful : IsFaithful T) (table : Channels) (s : ChannelStore T)
      → s.handler ≡ writing table
      → Inv s
      → Inv (write_file true table s)
  unfolding write_file
  write-Inv faithful table s e (tidy, inl pending) = (tidy, inl pending)
  write-Inv faithful table s e (tidy, inr settled) =
      let same : table ≡ s.channel_data =
        subst {A = Handler} (λ h. Settled T h s.channel_data s.disk) e settled in
      (
        tidy,
        inr (
            subst {A = Channels} (λ t. OnDisk T s.channel_data (some (T.print t))) (sym same)
              (OnDisk-print faithful s.channel_data tidy)),
      )

  Step-Inv : (faithful : IsFaithful T) (s t : ChannelStore T) → Step s t → Inv s → Inv t
  unfolding mark_dirty schedule_timer
  Step-Inv faithful _ _ (adds s c) inv = add_channel-Inv c s inv
  Step-Inv faithful _ _ (removes s c) inv = remove_channel-Inv c s inv
  Step-Inv faithful _ _ (aliases s c a) inv = set_alias-Inv c a s inv
  Step-Inv faithful _ _ (marks s) inv = (inv.0, inl refl)
  Step-Inv faithful _ _ (schedules s) inv = inv
  Step-Inv faithful _ _ (wakes s err _ e) inv = wake-Inv err s e inv
  Step-Inv faithful _ _ (exchanges s e) inv = exchange-Inv s e inv
  Step-Inv faithful _ _ (builds s e) inv = build-Inv s inv
  Step-Inv faithful _ _ (writes s table e) inv = write-Inv faithful table s e inv

  pub Reach-Inv :
      (faithful : IsFaithful T) (disk : Option T.File) (s : ChannelStore T) → Reach disk s → Inv s
  Reach-Inv faithful disk _ start = load-Inv T disk
  Reach-Inv faithful disk _ (next {s} {t} r step) =
      Step-Inv faithful s t step (Reach-Inv faithful disk s r)
