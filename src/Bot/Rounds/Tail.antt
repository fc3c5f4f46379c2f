-- ===== src/Bot/Rounds/Tail.antt =====
-- What a lost connection leaves for the next one.
use twitch_bot.Prelude.{
  ◌≡◌, refl, sym, ap, ◌∙◌, List, [], ◌∷◌, ◌++◌, append-nil, append_assoc, map, length-append,
  flatten, arith,
}
use twitch_bot.Prelude.Bytes.{Bytes, cr, lf}
use twitch_bot.Prelude.Search.{Lacks}
use twitch_bot.Helix.{World}
use twitch_bot.Irc.Client.{Reading, read_loop}
use twitch_bot.Irc.Client.Machine.{
  open_line, next, emitted, kept, machine, machine_open, machine-cr, machine_line,
}
use twitch_bot.Irc.Client.Frames.{read_loop-machine, wire, AreLines, handle_line, machine-wire}
use twitch_bot.Irc.Client.Connect.{Session, Attempt, up}
use twitch_bot.Dispatcher.{Dispatcher, Call}
use twitch_bot.Bot.{
  TwitchBot, Effect, send, reason, refresh_token, close_link, wake_supervisor, call, on_line,
}
use twitch_bot.Bot.Rounds.{
  Running, Meets, prepare, dial, run_effect, run_effects, effects_of, serve, end_round, supervise,
}

-- A line cut short stays behind the lines.
machine-wire_tail :
    (ls : List Bytes) (t : Bytes)
    → AreLines ls
    → Lacks cr t
    → machine (open_line []) (wire ls ++ t) ≡ record { lines = ls; tail = t }
unfolding wire machine kept
machine-wire_tail [] t w h =
    ap (machine (open_line [])) (sym (append-nil t)) ∙ machine_open [] t [] h
machine-wire_tail (l ∷ ls) t w h =
    ap (machine (open_line [])) (append_assoc l (cr ∷ lf ∷ wire ls) t)
    ∙ machine-cr l (lf ∷ (wire ls ++ t)) w.1.0
    ∙ machine_line l (wire ls ++ t)
    ∙ handle_line l (machine (open_line []) (wire ls ++ t)) w.0
    ∙ ap (λ (r : Reading). record r { lines = l ∷ r.lines }) (machine-wire_tail ls t w.1.1 h)

-- The next line goes behind the one that was cut short.
machine-tail_wire :
    (t l : Bytes) (ls : List Bytes)
    → AreLines (l ∷ ls)
    → machine (open_line t) (wire (l ∷ ls)) ≡ record { lines = (t ++ l) ∷ ls; tail = [] }
unfolding wire machine next emitted
machine-tail_wire t l ls w =
    machine_open t l (cr ∷ lf ∷ wire ls) w.1.0
    ∙ machine_line (t ++ l) (wire ls)
    ∙ handle_line (t ++ l) (machine (open_line []) (wire ls))
        (omega (arith, w.0, length-append t l))
    ∙ ap (λ (r : Reading). record r { lines = (t ++ l) ∷ r.lines }) (machine-wire ls w.1.1)

module _ {W : World} {S H L : Type 0} (d : Dispatcher H L)
    (handler : Call H L → S × TwitchBot → S × TwitchBot) where
  run_effects-line_tail :
      (es : List (Effect H L)) (r : Running W S)
      → (run_effects d handler es r).line_tail ≡ r.line_tail
  unfolding run_effects run_effect
  run_effects-line_tail [] r = refl
  run_effects-line_tail (send frame ∷ es) r = run_effects-line_tail es r
  run_effects-line_tail (reason text ∷ es) r = run_effects-line_tail es r
  run_effects-line_tail (refresh_token ∷ es) r =
      run_effects-line_tail es (run_effect d handler refresh_token r)
  run_effects-line_tail (close_link ∷ es) r = run_effects-line_tail es r
  run_effects-line_tail (wake_supervisor ∷ es) r = run_effects-line_tail es r
  run_effects-line_tail (call c ∷ es) r = run_effects-line_tail es (run_effect d handler (call c) r)

  -- A round that connects.
  end_round_up :
      (m : Meets) (r : Running W S) (a : Attempt) (s : Session)
      → a ≡ up s
      → ((end_round d handler m r.helix (prepare r) a).0.effects
          ≡ effects_of d handler m.frames (prepare r))
        × ((end_round d handler m r.helix (prepare r) a).1.line_tail
            ≡ (serve d handler m.frames (prepare r)).line_tail)
  unfolding end_round
  end_round_up m r a s h = rw (h) (refl, refl)

  round_read :
      (m : Meets) (r : Running W S) (s : Session)
      → dial m.answers (prepare r) ≡ up s
      → ((supervise d handler m r).0.effects
          ≡ flatten (map (on_line d) (read_loop r.line_tail m.frames).lines))
        × ((supervise d handler m r).1.line_tail ≡ (read_loop r.line_tail m.frames).tail)
  unfolding supervise effects_of serve prepare
  round_read m r s h =
      let f = end_round_up m r (dial m.answers (prepare r)) s h in
      (f.0, f.1 ∙ run_effects-line_tail _ _)

  -- Where a connection is lost within a line, and the next round connects, the part of the line that
  -- came is put in front of the first line of the new connection, and the bot acts on what they make
  -- together; the lines behind it are whole. The lines sent are not empty and have no CR, nor
  -- has the part, and the bot was not within a line before.
  pub lost-line_tail :
      (lost again : Meets) (r : Running W S) (s s' : Session) (ls : List Bytes) (t l : Bytes)
      (ls' : List Bytes)
      → r.line_tail ≡ []
      → dial lost.answers (prepare r) ≡ up s
      → dial again.answers (prepare (supervise d handler lost r).1) ≡ up s'
      → flatten lost.frames ≡ wire ls ++ t
      → AreLines ls
      → Lacks cr t
      → flatten again.frames ≡ wire (l ∷ ls')
      → AreLines (l ∷ ls')
      → (supervise d handler again (supervise d handler lost r).1).0.effects
        ≡ flatten (map (on_line d) ((t ++ l) ∷ ls'))
  unfolding kept
  lost-line_tail lost again r s s' ls t l ls' whole up1 up2 cut w h cut' w' =
      let first = round_read lost r s up1 in
      let second = round_read again (supervise d handler lost r).1 s' up2 in
      let read : read_loop r.line_tail lost.frames ≡ record { lines = ls; tail = t } =
        ap (λ b. read_loop b lost.frames) whole
        ∙ read_loop-machine (open_line []) lost.frames tt
        ∙ ap (machine (open_line [])) cut
        ∙ machine-wire_tail ls t w h in
      let left : (supervise d handler lost r).1.line_tail ≡ t =
        first.1 ∙ ap (λ (q : Reading). q.tail) read in
      let next_read : read_loop (supervise d handler lost r).1.line_tail again.frames
          ≡ record { lines = (t ++ l) ∷ ls'; tail = [] } =
        ap (λ b. read_loop b again.frames) left
        ∙ read_loop-machine (open_line t) again.frames h
        ∙ ap (machine (open_line t)) cut'
        ∙ machine-tail_wire t l ls' w' in
      second.0 ∙ ap (λ (q : Reading). flatten (map (on_line d) q.lines)) next_read
