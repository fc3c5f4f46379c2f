-- ===== src/App/Commands/Agreement.antt =====
-- The channels of the bot are those of the store.
use twitch_bot.Prelude.{
  ◌≡◌, refl, sym, ap, ◌∙◌, Bool, true, false, not, ◌&&◌, ◌||◌, inl, inr, Option, none, List, [],
  ◌∷◌, ◌++◌, map, arith, if◌then◌else◌, Bool-cases,
}
use twitch_bot.Prelude.Bytes.{Bytes, equal, is_empty, to_lower}
use twitch_bot.Prelude.Assoc.{lookup, IsMap, lookup_same, equal_trans, equal_comm}
use twitch_bot.Irc.Message.{IrcMessage, param}
use twitch_bot.App.Store.{
  Channels, Toml, ChannelStore, channel_names, load, contains_channel, add_channel, remove_channel,
  save, mark_dirty, schedule_timer,
}
use twitch_bot.App.Store.Steps.{fresh}
use twitch_bot.App.Store.Synced.{load-Inv}
use twitch_bot.App.Store.Restart.{has, answers, lookup-add, lookup-remove}
use twitch_bot.Bot.Channels.{has_channel_same, has_channel-append, has_channel-channel_list}
use twitch_bot.Bot.{
  has_channel, erase_channel, add_initial, set_initial_channels, join_channel, part_channel,
  channel_list,
}
use twitch_bot.App.Commands.{
  App, target_of, Command, join_it, leave_it, list_them, silent, join_target, leave_target,
  channels_command, run_command, run_commands, start_app,
}
use twitch_bot.App.Commands.Authority.{
  canonical_lower, join_command-state, leave_command-state, authorised,
}

abbrev IsDistinct : List Bytes → Type 0
IsDistinct [] = Unit {0}
IsDistinct (c ∷ channels) = (has_channel c channels ≡ false) × IsDistinct channels

has_channel-add :
    (k c : Bytes) (channels : List Bytes)
    → has_channel k (add_initial c channels) ≡ has_channel k channels || equal c k
unfolding add_initial
has_channel-add k c channels = elim (Bool-cases (has_channel c channels)) [
  | inl there ↦
      rw (add_initial, there, if◌then◌else◌)
        (elim (Bool-cases (equal c k)) [
          | inl same ↦ let h = has_channel_same c k channels same in ground (arith, h, there, same)
          | inr differs ↦ ground (arith, differs)
        ])
  | inr missing ↦ rw (add_initial, missing, if◌then◌else◌) (has_channel-append k c channels)
]

append-IsDistinct :
    (c : Bytes) (channels : List Bytes)
    → IsDistinct channels
    → has_channel c channels ≡ false
    → IsDistinct (channels ++ c ∷ [])
unfolding has_channel
append-IsDistinct c [] d h = (refl, tt)
append-IsDistinct c (x ∷ channels) d h = (
  has_channel-append x c channels ∙ ground (arith, d.0, h, equal_comm c x),
  append-IsDistinct c channels d.1 (ground (arith, h)),
)

add-IsDistinct :
    (c : Bytes) (channels : List Bytes) → IsDistinct channels → IsDistinct (add_initial c channels)
unfolding add_initial
add-IsDistinct c channels d = elim (Bool-cases (has_channel c channels)) [
  | inl there ↦ rw (add_initial, there, if◌then◌else◌) d
  | inr missing ↦ rw (add_initial, missing, if◌then◌else◌) (append-IsDistinct c channels d missing)
]

has_channel-erase :
    (k c : Bytes) (channels : List Bytes)
    → IsDistinct channels
    → has_channel k (erase_channel c channels) ≡ has_channel k channels && not (equal c k)
unfolding has_channel erase_channel
has_channel-erase k c [] d = refl
has_channel-erase k c (x ∷ channels) d = elim (Bool-cases (equal x c)) [
  | inl same ↦
      rw (same, if◌then◌else◌)
        (elim (Bool-cases (equal c k)) [
          | inl hit ↦
              let gone = has_channel_same x k channels (equal_trans x c k same ∙ hit) in
              ground (arith, d.0, gone, hit)
          | inr miss ↦ let other = equal_trans x c k same in ground (arith, other, miss)
        ])
  | inr differs ↦
      rw (differs, if◌then◌else◌)
        (elim (Bool-cases (equal x k)) [
          | inl hit ↦
              let back = equal_trans x k c hit in
              let turn = equal_comm k c in ground (arith, hit, differs, back, turn)
          | inr miss ↦ let rest = has_channel-erase k c channels d.1 in ground (arith, miss, rest)
        ])
]

erase-IsDistinct :
    (c : Bytes) (channels : List Bytes)
    → IsDistinct channels
    → IsDistinct (erase_channel c channels)
unfolding has_channel erase_channel
erase-IsDistinct c [] d = tt
erase-IsDistinct c (x ∷ channels) d = elim (Bool-cases (equal x c)) [
  | inl same ↦ rw (same, if◌then◌else◌) d.1
  | inr differs ↦
      rw (differs, if◌then◌else◌)
        (has_channel-erase x c channels d.1 ∙ ground (arith, d.0), erase-IsDistinct c channels d.1)
]

names_has : (k : Bytes) (m : Channels) → has_channel k (map (λ c. c.0) m) ≡ has (lookup k m)
unfolding has_channel lookup
names_has k [] = refl
names_has k (c ∷ m) = elim (Bool-cases (equal c.0 k)) [
  | inl same ↦ rw (same, if◌then◌else◌) refl
  | inr differs ↦ rw (differs, if◌then◌else◌) (names_has k m)
]

names-IsDistinct : (m : Channels) → IsMap m → IsDistinct (map (λ c. c.0) m)
names-IsDistinct [] w = tt
names-IsDistinct (c ∷ m) w = (names_has c.0 m ∙ ap has w.0, names-IsDistinct m w.1)

module _ {T : Toml} where
  stored_add :
      (target k : Bytes) (s : ChannelStore T)
      → to_lower target ≡ target
      → has (lookup k (add_channel target s).channel_data)
        ≡ has (lookup k s.channel_data) || equal target k
  unfolding contains_channel
  stored_add target k s low =
      ap has (lookup-add s target k)
      ∙ (answers (equal (to_lower target) k) (lookup (to_lower target) s.channel_data)
          (lookup k s.channel_data) none
          (λ e. lookup_same (to_lower target) k s.channel_data e)).0.0
      ∙ ap (λ t. has (lookup k s.channel_data) || equal t k) low

  stored_remove :
      (target k : Bytes) (s : ChannelStore T)
      → to_lower target ≡ target
      → has (lookup k (remove_channel target s).channel_data)
        ≡ has (lookup k s.channel_data) && not (equal target k)
  stored_remove target k s low =
      ap has (lookup-remove s target k)
      ∙ (answers (equal (to_lower target) k) (lookup (to_lower target) s.channel_data)
          (lookup k s.channel_data) none
          (λ e. lookup_same (to_lower target) k s.channel_data e)).1.0.0
      ∙ ap (λ t. has (lookup k s.channel_data) && not (equal t k)) low

  -- A stored channel is one of the bot's, and the other way round; the bot's are distinct.
  abbrev pub Agree : App T → Type 0
  Agree a =
      ((k : Bytes) → has_channel k a.bot.initial_channels ≡ has (lookup k a.store.channel_data))
      × IsDistinct a.bot.initial_channels

  join-Agree :
      (target : Bytes) (a : App T)
      → to_lower target ≡ target
      → Agree a
      → Agree (join_target target a).state
  unfolding join_target save mark_dirty schedule_timer join_channel
  join-Agree target a low agree = (
    λ k.
        has_channel-add k target a.bot.initial_channels
        ∙ ap (λ b. b || equal target k) (agree.0 k)
        ∙ sym (stored_add target k a.store low),
    add-IsDistinct target a.bot.initial_channels agree.1,
  )

  leave-Agree :
      (target : Bytes) (a : App T)
      → to_lower target ≡ target
      → Agree a
      → Agree (leave_target target a).state
  unfolding leave_target save mark_dirty schedule_timer part_channel
  leave-Agree target a low agree = (
    λ k.
        has_channel-erase k target a.bot.initial_channels agree.1
        ∙ ap (λ b. b && not (equal target k)) (agree.0 k)
        ∙ sym (stored_remove target k a.store low),
    erase-IsDistinct target a.bot.initial_channels agree.1,
  )

  if-Agree : (b : Bool) (a c : App T) → Agree a → Agree c → Agree (if b then c else a)
  if-Agree true a c p q = q
  if-Agree false a c p q = p

  pub command-Agree :
      (c : Command) (msg : IrcMessage) (a : App T) → Agree a → Agree (run_command c msg a).state
  unfolding run_command channels_command silent target_of
  command-Agree join_it msg a agree = rw (join_command-state msg a) (
      if-Agree (authorised msg a && not (contains_channel (target_of msg) a.store)) a
        (join_target (target_of msg) a).state agree
        (join-Agree (target_of msg) a
          (canonical_lower (if is_empty msg.trailing then msg.prefix else msg.trailing)) agree))
  command-Agree leave_it msg a agree = rw (leave_command-state msg a) (
      if-Agree (authorised msg a && contains_channel (target_of msg) a.store) a
        (leave_target (target_of msg) a).state agree
        (leave-Agree (target_of msg) a
          (canonical_lower (if is_empty msg.trailing then msg.prefix else msg.trailing)) agree))
  command-Agree list_them msg a agree =
      elim (Bool-cases (equal (param msg 0) a.bot.control_channel)) [
        | inl here ↦ rw (run_command, channels_command, here) agree
        | inr there ↦ rw (run_command, channels_command, there) agree
      ]

  run-Agree :
      (cs : List (Command × IrcMessage)) (a : App T) → Agree a → Agree (run_commands cs a).state
  unfolding run_commands silent
  run-Agree [] a agree = agree
  run-Agree ((c, msg) ∷ cs) a agree =
      run-Agree cs (run_command c msg a).state (command-Agree c msg a agree)

pub start-Agree :
    (T : Toml) (disk : Option T.File) (control : Bytes) → Agree (start_app {T = T} disk control)
unfolding start_app set_initial_channels channel_names
start-Agree T disk control =
    let m : Channels = (load (fresh {T = T} disk)).channel_data in
    (λ k. names_has k m, names-IsDistinct m (load-Inv T disk).0.0)

-- After the start and any commands, run one behind the other, the names in the store and those that
-- the bot joins when it connects are the same, the control channel apart, which it always joins.
pub run_commands-channel_list :
    (T : Toml) (disk : Option T.File) (control : Bytes) (cs : List (Command × IrcMessage))
    (k : Bytes)
    → has_channel k (channel_list (run_commands cs (start_app {T = T} disk control)).state.bot)
      ≡ has (lookup k (run_commands cs (start_app {T = T} disk control)).state.store.channel_data)
        || equal (run_commands cs (start_app {T = T} disk control)).state.bot.control_channel k
run_commands-channel_list T disk control cs k =
    let a : App T = (run_commands cs (start_app disk control)).state in
    has_channel-channel_list k a.bot
    ∙ ap (λ b. b || equal a.bot.control_channel k)
        ((run-Agree cs (start_app disk control) (start-Agree T disk control)).0 k)
