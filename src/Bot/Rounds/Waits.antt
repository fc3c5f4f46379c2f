-- ===== src/Bot/Rounds/Waits.antt =====
-- The pauses between the rounds of `run_bot`, and what they do not depend on.
use twitch_bot.Prelude.{ℕ, ◌+◌, ◌≤◌, ◌<◌, ◌≡◌, refl, sym, ap, subst, List, [], ◌∷◌, length, arith}
use twitch_bot.Prelude.Bytes.{Bytes}
use twitch_bot.Config.{Config}
use twitch_bot.Helix.{World, HelixClient}
use twitch_bot.Irc.Client.Connect.{Attempt, up, thrown}
use twitch_bot.Dispatcher.{Dispatcher, Call}
use twitch_bot.Bot.{TwitchBot, Round, run_round, run_rounds}
use twitch_bot.Bot.Pauses.{IsDraw, Fit, AreDraws, run_rounds-Fit}
use twitch_bot.Bot.Rounds.{
  Running, Meets, Done, prepare, dial, start_bot, end_round, supervise, run_bot,
}

-- The rounds that a run has had, with their draws.
abbrev pub had :
    {W : World} {S H L : Type 0} → List Meets → List (Done W S H L) → List (Round × (ℕ → ℕ))
had [] es = []
had (m ∷ rounds) [] = []
had (m ∷ rounds) (e ∷ es) = (e.round, m.draw) ∷ had rounds es

abbrev pub AreMet : List Meets → Type 0
AreMet [] = Unit {0}
AreMet (m ∷ rounds) = IsDraw m.draw × AreMet rounds

abbrev pub pauses : {W : World} {S H L : Type 0} → List (Done W S H L) → List ℕ
pauses [] = []
pauses (e ∷ es) = e.pause ∷ pauses es

module _ {W : World} {S H L : Type 0} where
  length-had :
      (rounds : List Meets) (es : List (Done W S H L)) → length (had rounds es) ≤ length rounds
  length-had [] es = omega arith
  length-had (m ∷ rounds) [] = omega arith
  length-had (m ∷ rounds) (e ∷ es) = let h = length-had rounds es in omega (arith, h)

  had-AreDraws :
      (rounds : List Meets) (es : List (Done W S H L)) → AreMet rounds → AreDraws (had rounds es)
  had-AreDraws [] es h = tt
  had-AreDraws (m ∷ rounds) [] h = tt
  had-AreDraws (m ∷ rounds) (e ∷ es) h = (h.0, had-AreDraws rounds es h.1)

module _ {W : World} {S H L : Type 0} (d : Dispatcher H L)
    (handler : Call H L → S × TwitchBot → S × TwitchBot) where
  -- What a round makes of the counters.
  end_round-run_round :
      (m : Meets) (before : HelixClient W) (r : Running W S) (a : Attempt)
      → run_round m.draw (end_round d handler m before r a).0.round r.backoffs ≡ (
        (end_round d handler m before r a).1.backoffs,
        (end_round d handler m before r a).0.pause,
      )
  unfolding end_round
  end_round-run_round m before r (thrown s) = refl
  end_round-run_round m before r (up s) = refl

  pauses-run_rounds :
      (rounds : List Meets) (r : Running W S)
      → pauses (run_bot d handler rounds r)
        ≡ run_rounds (had rounds (run_bot d handler rounds r)) r.backoffs
  unfolding run_bot run_rounds supervise prepare
  pauses-run_rounds [] r = refl
  pauses-run_rounds (m ∷ rounds) r =
      let here = end_round-run_round m r.helix (prepare r) (dial m.answers (prepare r)) in
      let more = pauses-run_rounds rounds (supervise d handler m r).1 in
      rw (here) (ap (◌∷◌ (supervise d handler m r).0.pause) more)

  -- In a run of rounds each pause is at least 150 ms. After n failures to connect in a row the next one's
  -- is at most 30 s and at most 3 s doubled n times, sixteen at most, and the pause after a connection
  -- that was up is at most 2 s, however often connections are lost. Each draw is in its range, and the
  -- failures in a row with the rounds to come are fewer than 2^32.
  pub run_bot-Fit :
      (rounds : List Meets) (r : Running W S)
      → AreMet rounds
      → r.backoffs.connect_attempts + length rounds < 4294967296
      → Fit r.backoffs.connect_attempts
          (had rounds (run_bot d handler rounds r))
          (pauses (run_bot d handler rounds r))
  run_bot-Fit rounds r draws few =
      let es = run_bot d handler rounds r in
      subst {A = List ℕ} (λ ps. Fit r.backoffs.connect_attempts (had rounds es) ps)
        (sym (pauses-run_rounds rounds r))
        (run_rounds-Fit (had rounds es) r.backoffs (had-AreDraws rounds es draws)
          (omega (arith, few, length-had rounds es)))

  -- The access token of the configuration has no effect on a run of the bot: with any other one in its
  -- place each round does the same.
  pub start_bot-access_token :
      (cfg : Config) (token : Bytes) (stored : List Bytes) (app : S) (e : W.E) (rounds : List Meets)
      → run_bot d handler rounds (start_bot {W = W} cfg stored app e)
        ≡ run_bot d handler rounds (
            start_bot {W = W}
              (record cfg { auth = record cfg.auth { access_token = token } })
              stored
              app
              e)
  unfolding run_bot supervise prepare start_bot
  start_bot-access_token cfg token stored app e [] = refl
  start_bot-access_token cfg token stored app e (m ∷ rounds) = refl
