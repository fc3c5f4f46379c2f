-- ===== src/Bot/Rounds/Served.antt =====
-- What each round of `run_bot` connects with.
use twitch_bot.Prelude.{
  ◌≡◌, refl, true, inl, inr, List, [], ◌∷◌, ◌++◌, arith, if◌then◌else◌, Bool-cases,
}
use twitch_bot.Prelude.Bytes.{Bytes, codes, equal_refl, has_prefix, has_prefix-append}
use twitch_bot.Helix.{World}
use twitch_bot.Helix.Requests.{Backed, ensure_valid_token-Backed}
use twitch_bot.Irc.Client.{connect_join}
use twitch_bot.Irc.Client.Connect.{Attempt, up, thrown, greeting}
use twitch_bot.Irc.Client.Connect.Secure.{Ends, connect-Ends}
use twitch_bot.Dispatcher.{Dispatcher, Call}
use twitch_bot.Bot.{TwitchBot, has_channel, channel_list, oauth_token}
use twitch_bot.Bot.Channels.{has_channel-channel_list}
use twitch_bot.Bot.Rounds.{Running, Meets, Done, prepare, dial, end_round, supervise, run_bot}

oauth_token-prefix : (token : Bytes) → has_prefix (codes "oauth:") (oauth_token token) ≡ true
unfolding oauth_token
oauth_token-prefix token = elim (Bool-cases (has_prefix (codes "oauth:") token)) [
  | inl there ↦ rw (oauth_token, there, if◌then◌else◌) there
  | inr absent ↦ rw (oauth_token, absent, if◌then◌else◌) (has_prefix-append (codes "oauth:") token)
]

-- The control channel and each of the bot's channels are joined.
channel_list-has :
    (bot : TwitchBot)
    → (has_channel bot.control_channel (channel_list bot) ≡ true)
      × ((c : Bytes)
          → has_channel c bot.initial_channels ≡ true
          → has_channel c (channel_list bot) ≡ true)
channel_list-has bot = (
  ground (arith, equal_refl bot.control_channel, has_channel-channel_list bot.control_channel bot),
  λ c h. ground (arith, h, has_channel-channel_list c bot),
)

module _ {W : World} {S H L : Type 0} where
  -- The attempt to connect, with the state that it is made in and the token's client in front of it.
  pub record IsServed (e : Done W S H L) : Type 0 where
    pub backed : Backed e.before e.prepared.helix
    pub token : e.prepared.access_token ≡ oauth_token e.prepared.helix.token
    pub prefixed : has_prefix (codes "oauth:") e.prepared.access_token ≡ true
    pub connected :
        Ends
          (greeting e.prepared.access_token e.prepared.bot.control_channel
            ++ connect_join (channel_list e.prepared.bot))
          e.attempt
    pub control : has_channel e.prepared.bot.control_channel (channel_list e.prepared.bot) ≡ true
    pub channels :
        (c : Bytes)
        → has_channel c e.prepared.bot.initial_channels ≡ true
        → has_channel c (channel_list e.prepared.bot) ≡ true

  abbrev pub AreServed : List (Done W S H L) → Type 0
  AreServed [] = Unit {0}
  AreServed (e ∷ es) = IsServed e × AreServed es

module _ {W : World} {S H L : Type 0} (d : Dispatcher H L)
    (handler : Call H L → S × TwitchBot → S × TwitchBot) where
  end_round-IsServed :
      (m : Meets) (r : Running W S) (a : Attempt)
      → Ends
          (greeting (prepare r).access_token (prepare r).bot.control_channel
            ++ connect_join (channel_list (prepare r).bot))
          a
      → IsServed (end_round d handler m r.helix (prepare r) a).0
  unfolding end_round prepare
  end_round-IsServed m r (thrown s) ends = record {
    backed = ensure_valid_token-Backed r.helix;
    token = refl;
    prefixed = oauth_token-prefix _;
    connected = ends;
    control = (channel_list-has r.bot).0;
    channels = (channel_list-has r.bot).1;
  }
  end_round-IsServed m r (up s) ends = record {
    backed = ensure_valid_token-Backed r.helix;
    token = refl;
    prefixed = oauth_token-prefix _;
    connected = ends;
    control = (channel_list-has r.bot).0;
    channels = (channel_list-has r.bot).1;
  }

  -- In each round of a run the bot connects with a token that is empty, or that was the client's and has
  -- been validated by the one request made, or that was fetched and given to the persistor, behind
  -- "oauth:"; `connect` throws and has sent nothing, or has sent PASS with that token, NICK, CAP REQ and
  -- the JOIN lines, over a verified connection; and these join the control channel and each of the
  -- bot's channels of that time, whatever happened in the rounds before.
  pub run_bot-AreServed :
      (rounds : List Meets) (r : Running W S) → AreServed (run_bot d handler rounds r)
  unfolding run_bot supervise dial
  run_bot-AreServed [] r = tt
  run_bot-AreServed (m ∷ rounds) r = (
    end_round-IsServed m r (dial m.answers (prepare r)) (
        connect-Ends m.answers (prepare r).access_token (prepare r).bot.control_channel
          (channel_list (prepare r).bot)),
    run_bot-AreServed rounds (supervise d handler m r).1,
  )
