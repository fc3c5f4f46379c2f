-- ===== src/App/Commands/Authority.antt =====
-- Who may change the channels.
use twitch_bot.Prelude.{
  ◌≡◌, refl, sym, ap, ◌∙◌, Bool, true, false, not, ◌&&◌, ◌||◌, ◌⊎◌, inl, inr, arith, if◌then◌else◌,
  Bool-cases, drop,
}
use twitch_bot.Prelude.Bytes.{Bytes, equal, is_empty, starts_with_byte, to_lower, to_lower_idem}
use twitch_bot.Prelude.Assoc.{lookup}
use twitch_bot.Irc.Message.{IrcMessage, param}
use twitch_bot.App.Store.{Toml, contains_channel, save, mark_dirty, schedule_timer}
use twitch_bot.App.Store.Restart.{lookup-add, lookup-remove}
use twitch_bot.Bot.{is_privileged}
use twitch_bot.App.Commands.{
  App, canonical, target_of, Command, join_it, leave_it, list_them, answer, silent, join_target,
  leave_target, join_command, leave_command, channels_command, run_command,
}

pub canonical_lower : (s : Bytes) → to_lower (canonical s) ≡ canonical s
unfolding canonical
canonical_lower s = elim (Bool-cases (starts_with_byte b'#' s)) [
  | inl marked ↦ rw (canonical, marked, if◌then◌else◌) (to_lower_idem (drop 1 s))
  | inr plain ↦ rw (canonical, plain, if◌then◌else◌) (to_lower_idem s)
]

module _ {T : Toml} (msg : IrcMessage) (a : App T) where
  -- The message comes from the control channel, and names no channel or comes from one who may.
  abbrev pub authorised : Bool
  authorised =
      equal (param msg 0) a.bot.control_channel && (is_empty msg.trailing || is_privileged msg)

  pub join_command-state : (join_command msg a).state ≡ (
      if authorised && not (contains_channel (target_of msg) a.store)
      then (join_target (target_of msg) a).state
      else a)
  unfolding join_command answer silent
  join_command-state = ground arith

  pub leave_command-state : (leave_command msg a).state ≡ (
      if authorised && contains_channel (target_of msg) a.store
      then (leave_target (target_of msg) a).state
      else a)
  unfolding leave_command answer silent
  leave_command-state = ground arith

  -- Who may change whether the channel is stored: in the control channel, one who is privileged, and
  -- anyone for the channel of their own name.
  abbrev pub may_change : Bytes → Bool
  may_change k =
      equal (param msg 0) a.bot.control_channel
      && (is_privileged msg || (is_empty msg.trailing && equal (canonical msg.prefix) (to_lower k)))

  of_target :
      (k : Bytes)
      → authorised ≡ true
      → equal (to_lower (target_of msg)) (to_lower k) ≡ true
      → may_change k ≡ true
  unfolding target_of
  of_target k allowed same = elim (Bool-cases (is_empty msg.trailing)) [
    | inl own ↦
        let at : equal (to_lower (canonical msg.prefix)) (to_lower k) ≡ true =
          ap
            (λ b.
              equal (to_lower (canonical (if b then msg.prefix else msg.trailing))) (to_lower k))
            {x = true} {y = is_empty msg.trailing} (sym own)
          ∙ same in
        let low : equal (canonical msg.prefix) (to_lower k) ≡ true =
          ap (λ s. equal s (to_lower k)) (sym (canonical_lower msg.prefix)) ∙ at in
        ground (arith, allowed, own, low)
    | inr named ↦ ground (arith, allowed, named)
  ]

  kept_or_allowed :
      (k : Bytes) (done : App T)
      → (changes : Bool) → (changes ≡ true → authorised ≡ true)
      → (equal (to_lower (target_of msg)) (to_lower k) ≡ false
          → lookup (to_lower k) done.store.channel_data ≡ lookup (to_lower k) a.store.channel_data)
      → (lookup (to_lower k) (if changes then done else a).store.channel_data
          ≡ lookup (to_lower k) a.store.channel_data)
        ⊎ (may_change k ≡ true)
  kept_or_allowed k done false needs other = inl refl
  kept_or_allowed k done true needs other =
      elim (Bool-cases (equal (to_lower (target_of msg)) (to_lower k))) [
        | inl same ↦ inr (of_target k (needs refl) same)
        | inr differs ↦ inl (other differs)
      ]

  join_other :
      (k : Bytes)
      → equal (to_lower (target_of msg)) (to_lower k) ≡ false
      → lookup (to_lower k) (join_target (target_of msg) a).state.store.channel_data
        ≡ lookup (to_lower k) a.store.channel_data
  unfolding join_target save mark_dirty schedule_timer
  join_other k differs = lookup-add a.store (target_of msg) (to_lower k) ∙ ground (arith, differs)

  leave_other :
      (k : Bytes)
      → equal (to_lower (target_of msg)) (to_lower k) ≡ false
      → lookup (to_lower k) (leave_target (target_of msg) a).state.store.channel_data
        ≡ lookup (to_lower k) a.store.channel_data
  unfolding leave_target save mark_dirty schedule_timer
  leave_other k differs =
      lookup-remove a.store (target_of msg) (to_lower k) ∙ ground (arith, differs)

  -- A command keeps the entry of a channel in the store as it is, its alias included, or the absence of
  -- one; or it comes from the control channel and from one who is privileged or who names no channel and has
  -- the channel's name.
  pub run_command-lookup :
      (c : Command) (k : Bytes)
      → (lookup (to_lower k) (run_command c msg a).state.store.channel_data
          ≡ lookup (to_lower k) a.store.channel_data)
        ⊎ (may_change k ≡ true)
  unfolding run_command channels_command silent
  run_command-lookup join_it k = rw (join_command-state) (
      kept_or_allowed k (join_target (target_of msg) a).state
        (authorised && not (contains_channel (target_of msg) a.store)) (λ h. ground (arith, h))
        (join_other k))
  run_command-lookup leave_it k = rw (leave_command-state) (
      kept_or_allowed k (leave_target (target_of msg) a).state
        (authorised && contains_channel (target_of msg) a.store) (λ h. ground (arith, h))
        (leave_other k))
  run_command-lookup list_them k = elim (Bool-cases (equal (param msg 0) a.bot.control_channel)) [
    | inl here ↦ inl (ground (arith, here))
    | inr there ↦ inl (ground (arith, there))
  ]
