-- ===== src/App/Store/Restart.antt =====
-- What the operations of the store do to what it answers, and what a store answers that is started on
-- the file of another.
use mathlib.Core.Bool.{true≢false}
use mathlib.Core.Option.{none-ne-some}
use twitch_bot.Prelude.{
  ◌≡◌, refl, sym, ap, subst, ◌∙◌, Bool, true, false, ◌&&◌, ◌||◌, not, inl, inr, Option, none, some,
  arith, if◌then◌else◌, Bool-cases, Option-cases,
}
use twitch_bot.Prelude.Bytes.{Bytes, equal, equal_iff, to_lower}
use twitch_bot.Prelude.Assoc.{
  lookup, IsMap, lookup_cons, lookup_same, lookup-erase_if, lookup-replace_if, emplace_absent,
}
use twitch_bot.App.Store.{
  ChannelInfo, Toml, ChannelStore, Handler, idle, load, add_channel, remove_channel,
  contains_channel, get_alias, same_alias, set_alias,
}
use twitch_bot.App.Store.Load.{AllLower, IsFaithful}
use twitch_bot.App.Store.Steps.{fresh, Reach}
use twitch_bot.App.Store.Synced.{Inv, Settled, contents, load-fresh, Reach-Inv}

module _ {T : Toml} where
  -- In every state that is reached from the load at start, no two entries have the same key and
  -- every key is in lower case, whatever the spelling of the operations' arguments.
  pub Reach-IsMap :
      (faithful : IsFaithful T) (disk : Option T.File) (s : ChannelStore T)
      → Reach disk s
      → IsMap s.channel_data × AllLower s.channel_data
  Reach-IsMap faithful disk s r = (Reach-Inv faithful disk s r).0

  -- A store that is started on a disk that holds the map of `s` answers as `s`.
  restarted :
      (s : ChannelStore T) (disk : Option T.File) (c : Bytes)
      → ((k : Bytes) → lookup k (contents T disk) ≡ lookup k s.channel_data)
      → (contains_channel c (load (fresh {T = T} disk)) ≡ contains_channel c s)
        × (get_alias c (load (fresh {T = T} disk)) ≡ get_alias c s)
  unfolding contains_channel get_alias
  restarted s disk c same =
      rw (load-fresh T disk, contains_channel, get_alias, same (to_lower c)) (refl, refl)

  -- In a state that is reached from the load at start, writes having succeeded, with no change pending and no handler running, the file holds the channels:
  -- a store that is started on it gives the same answers to `contains` and `get_alias`.
  pub load-quiet :
      (faithful : IsFaithful T) (disk : Option T.File) (s : ChannelStore T) (c : Bytes)
      → Reach disk s
      → s.dirty ≡ false
      → s.handler ≡ idle
      → (contains_channel c (load (fresh {T = T} s.disk)) ≡ contains_channel c s)
        × (get_alias c (load (fresh {T = T} s.disk)) ≡ get_alias c s)
  load-quiet faithful disk s c r clean quiet =
      restarted s s.disk c (settled (Reach-Inv faithful disk s r))
    where
      settled : Inv s → (k : Bytes) → lookup k (contents T s.disk) ≡ lookup k s.channel_data
      settled (tidy, inl pending) = absurd (true≢false (sym pending ∙ clean))
      settled (tidy, inr there) =
          subst {A = Handler} (λ h. Settled T h s.channel_data s.disk) quiet there

same_alias_sound : (a b : Option Bytes) → same_alias a b ≡ true → a ≡ b
unfolding same_alias
same_alias_sound none none e = refl
same_alias_sound (some a) (some b) e = ap (λ x. some x) ((equal_iff a b).0 e)
same_alias_sound none (some b) e = ground arith
same_alias_sound (some a) none e = ground arith

abbrev pub has : Option ChannelInfo → Bool
has none = false
has (some a) = true

abbrev alias_of : Option ChannelInfo → Option Bytes
alias_of none = none
alias_of (some a) = a

-- The answers, by what is stored for the two names, which is the same for equal names.
pub answers :
    (b : Bool) (o p : Option ChannelInfo) (a : Option Bytes)
    → (b ≡ true → o ≡ p)
    → ((has (if b && not (has o) then some none else p) ≡ has p || b)
        × (alias_of (if b && not (has o) then some none else p) ≡ alias_of p))
      × (((has (if b then none else p) ≡ has p && not b)
            × (alias_of (if b then none else p) ≡ (if b then none else alias_of p)))
          × ((has (if b && has o then some a else p) ≡ has p)
              × (alias_of (if b && has o then some a else p)
                  ≡ (if b && has p then a else alias_of p))))
answers true none none a h = ((refl, refl), ((refl, refl), (refl, refl)))
answers true none (some v) a h = absurd (none-ne-some v (h refl))
answers true (some u) none a h = absurd (none-ne-some u (sym (h refl)))
answers true (some u) (some v) a h = ((refl, refl), ((refl, refl), (refl, refl)))
answers false o none a h = ((refl, refl), ((refl, refl), (refl, refl)))
answers false o (some v) a h = ((refl, refl), ((refl, refl), (refl, refl)))

module _ {T : Toml} (s : ChannelStore T) (c k : Bytes) where
  pub lookup-add : lookup k (add_channel c s).channel_data ≡ (
      if equal (to_lower c) k && not (contains_channel c s)
      then some none
      else lookup k s.channel_data)
  unfolding add_channel contains_channel
  lookup-add = elim (Option-cases (lookup (to_lower c) s.channel_data)) [
    | inl absent ↦
        rw (add_channel, contains_channel, absent)
          (rw
            (
              emplace_absent (to_lower c) none s.channel_data absent,
              lookup_cons (to_lower c) k none s.channel_data,
            )
            ground arith)
    | inr (u, present) ↦ rw (add_channel, contains_channel, present) ground arith
  ]

  pub lookup-remove :
      lookup k (remove_channel c s).channel_data
      ≡ (if equal (to_lower c) k then none else lookup k s.channel_data)
  unfolding remove_channel contains_channel
  lookup-remove = elim (Option-cases (lookup (to_lower c) s.channel_data)) [
    | inl absent ↦
        rw (remove_channel, absent)
          (elim (Bool-cases (equal (to_lower c) k)) [
            | inl same ↦
                rw (same, if◌then◌else◌, sym (lookup_same (to_lower c) k s.channel_data same))
                  absent
            | inr differs ↦ ground (arith, differs)
          ])
    | inr (u, present) ↦
        rw (remove_channel, present) (lookup-erase_if (to_lower c) k s.channel_data)
  ]

  lookup-set :
      (a : Option Bytes)
      → lookup k (set_alias c a s).channel_data
        ≡ (if equal (to_lower c) k && contains_channel c s then some a else lookup k s.channel_data)
  unfolding set_alias contains_channel
  lookup-set a = elim (Option-cases (lookup (to_lower c) s.channel_data)) [
    | inl absent ↦ rw (set_alias, contains_channel, absent) ground arith
    | inr (u, present) ↦
        rw (set_alias, contains_channel, present)
          (elim (Bool-cases (same_alias u a)) [
            | inl equals ↦
                rw (equals, if◌then◌else◌)
                  (elim (Bool-cases (equal (to_lower c) k)) [
                    | inl same ↦
                        rw
                          (
                            same,
                            if◌then◌else◌,
                            sym (lookup_same (to_lower c) k s.channel_data same),
                            present,
                          )
                          (ap (λ x. some x) (same_alias_sound u a equals))
                    | inr other ↦ ground (arith, other)
                  ])
            | inr differs ↦
                rw (differs, if◌then◌else◌)
                  (lookup-replace_if (to_lower c) k a u s.channel_data present ∙ ground arith)
          ])
  ]

module _ {T : Toml} (s : ChannelStore T) (c d : Bytes) where
  -- What the operations do to the answers about any channel: a channel that is added is contained, with
  -- no alias if it was not there, and the aliases of the others are kept; one that is removed is not
  -- contained and has no alias; an alias is set for a channel that is contained, and nothing else
  -- changes. Names are compared in lower case.
  pub contains_channel-get_alias :
      (a : Option Bytes)
      → ((contains_channel d (add_channel c s)
            ≡ contains_channel d s || equal (to_lower c) (to_lower d))
          × (get_alias d (add_channel c s) ≡ get_alias d s))
        × (((contains_channel d (remove_channel c s)
                ≡ contains_channel d s && not (equal (to_lower c) (to_lower d)))
              × (get_alias d (remove_channel c s)
                  ≡ (if equal (to_lower c) (to_lower d) then none else get_alias d s)))
            × ((contains_channel d (set_alias c a s) ≡ contains_channel d s)
                × (get_alias d (set_alias c a s) ≡ (
                    if equal (to_lower c) (to_lower d) && contains_channel d s
                    then a
                    else get_alias d s))))
  unfolding contains_channel get_alias
  contains_channel-get_alias a =
      rw
        (
          contains_channel,
          get_alias,
          lookup-add s c (to_lower d),
          lookup-remove s c (to_lower d),
          lookup-set s c (to_lower d) a,
        )
        (answers (equal (to_lower c) (to_lower d)) (lookup (to_lower c) s.channel_data)
          (lookup (to_lower d) s.channel_data) a
          (λ e. lookup_same (to_lower c) (to_lower d) s.channel_data e))
