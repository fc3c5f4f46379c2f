-- ===== src/Bot/Channels.antt =====
-- Which channels the bot's lists have.
use twitch_bot.Prelude.{
  ◌≡◌, ap, true, ◌||◌, inl, inr, List, [], ◌∷◌, ◌++◌, arith, if◌then◌else◌, Bool-cases,
}
use twitch_bot.Prelude.Bytes.{Bytes, equal, equal_iff}
use twitch_bot.Bot.{TwitchBot, has_channel, channel_list}

pub has_channel_same :
    (a b : Bytes) (channels : List Bytes)
    → equal a b ≡ true
    → has_channel a channels ≡ has_channel b channels
has_channel_same a b channels h = ap (λ k. has_channel k channels) ((equal_iff a b).0 h)

pub has_channel-append :
    (k c : Bytes) (channels : List Bytes)
    → has_channel k (channels ++ c ∷ []) ≡ has_channel k channels || equal c k
unfolding has_channel
has_channel-append k c [] = ground arith
has_channel-append k c (x ∷ channels) = ground (arith, has_channel-append k c channels)

pub has_channel-channel_list :
    (k : Bytes) (bot : TwitchBot)
    → has_channel k (channel_list bot)
      ≡ has_channel k bot.initial_channels || equal bot.control_channel k
unfolding channel_list
has_channel-channel_list k bot =
    elim (Bool-cases (has_channel bot.control_channel bot.initial_channels)) [
      | inl there ↦
          rw (channel_list, there, if◌then◌else◌)
            (elim (Bool-cases (equal bot.control_channel k)) [
              | inl same ↦
                  let h = has_channel_same bot.control_channel k bot.initial_channels same in
                  ground (arith, h, there, same)
              | inr differs ↦ ground (arith, differs)
            ])
      | inr missing ↦
          rw (channel_list, missing, if◌then◌else◌)
            (has_channel-append k bot.control_channel bot.initial_channels)
    ]
