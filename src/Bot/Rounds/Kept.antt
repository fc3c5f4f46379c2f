-- ===== src/Bot/Rounds/Kept.antt =====
-- What the handlers keep, each round finds.
use twitch_bot.Prelude.{List, [], ◌∷◌}
use twitch_bot.Helix.{World, HelixClient}
use twitch_bot.Irc.Client.Connect.{Attempt, up, thrown}
use twitch_bot.Dispatcher.{Dispatcher, Call}
use twitch_bot.Bot.{
  TwitchBot, Effect, send, reason, refresh_token, close_link, wake_supervisor, call,
}
use twitch_bot.Bot.Rounds.{
  Running, Meets, Done, prepare, dial, run_effect, run_effects, serve, end_round, supervise,
  run_bot,
}

-- In each round the state that the bot connects with is one of `I`.
abbrev pub AreKept :
    {W : World} {S H L : Type 0} → (S × TwitchBot → Type 0) → List (Done W S H L) → Type 0
AreKept I [] = Unit {0}
AreKept I (e ∷ es) = I (e.prepared.app, e.prepared.bot) × AreKept I es

module _ {W : World} {S H L : Type 0} (d : Dispatcher H L)
    (handler : Call H L → S × TwitchBot → S × TwitchBot) (I : S × TwitchBot → Type 0)
    (keeps : (c : Call H L) (s : S × TwitchBot) → I s → I (handler c s)) where
  run_effects-keeps :
      (es : List (Effect H L)) (r : Running W S)
      → I (r.app, r.bot)
      → I ((run_effects d handler es r).app, (run_effects d handler es r).bot)
  unfolding run_effects run_effect
  run_effects-keeps [] r h = h
  run_effects-keeps (send frame ∷ es) r h = run_effects-keeps es r h
  run_effects-keeps (reason text ∷ es) r h = run_effects-keeps es r h
  run_effects-keeps (refresh_token ∷ es) r h =
      run_effects-keeps es (run_effect d handler refresh_token r) h
  run_effects-keeps (close_link ∷ es) r h = run_effects-keeps es r h
  run_effects-keeps (wake_supervisor ∷ es) r h = run_effects-keeps es r h
  run_effects-keeps (call c ∷ es) r h =
      run_effects-keeps es (run_effect d handler (call c) r) (keeps c (r.app, r.bot) h)

  end_round-keeps :
      (m : Meets) (before : HelixClient W) (r : Running W S) (a : Attempt)
      → I (r.app, r.bot)
      → I (
        (end_round d handler m before r a).0.prepared.app,
        (end_round d handler m before r a).0.prepared.bot,
      )
        × I ((end_round d handler m before r a).1.app, (end_round d handler m before r a).1.bot)
  unfolding end_round serve
  end_round-keeps m before r (thrown s) h = (h, h)
  end_round-keeps m before r (up s) h = (h, run_effects-keeps _ _ h)

  pub run_bot-AreKept :
      (rounds : List Meets) (r : Running W S)
      → I (r.app, r.bot)
      → AreKept I (run_bot d handler rounds r)
  unfolding run_bot supervise prepare
  run_bot-AreKept [] r h = tt
  run_bot-AreKept (m ∷ rounds) r h =
      let round = end_round-keeps m r.helix (prepare r) (dial m.answers (prepare r)) h in
      (round.0, run_bot-AreKept rounds (supervise d handler m r).1 round.1)
