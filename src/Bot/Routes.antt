-- ===== src/Bot/Routes.antt =====
-- What the bot does with the lines of a connection.
use twitch_bot.Prelude.{
  ◌≡◌, refl, ap, ◌++◌, append_assoc, ◌∙◌, Bool, true, false, List, [], ◌∷◌, map, arith, flatten,
  length, ◌<◌,
}
use twitch_bot.Prelude.Bytes.{Bytes, codes, equal, cr}
use twitch_bot.Prelude.Search.{Lacks}
use twitch_bot.Irc.Message.{IrcMessage}
use twitch_bot.Irc.Parse.{parse_irc_line}
use twitch_bot.Irc.Parse.Print.{print_irc_line, IsPrintable, IsWord}
use twitch_bot.Irc.Parse.RoundTrip.{parse-print_irc_line}
use twitch_bot.Irc.Client.Frames.{wire, AreLines, read_loop-wire}
use twitch_bot.Irc.Client.{crlf}
use twitch_bot.Dispatcher.{Dispatcher, Call}
use twitch_bot.Bot.{
  Effect, send, refresh_token, close_link, wake_supervisor, call, pong, on_message, on_line,
  on_frames,
}

-- The server's PING with a payload.
abbrev pub ping : Bytes → IrcMessage
ping payload = record {
  command = codes "PING";
  params = [];
  is_moderator = false;
  is_broadcaster = false;
  raw_tags = [];
  prefix = [];
  trailing = payload;
}

abbrev pub ping_line : Bytes → Bytes
ping_line payload = print_irc_line (ping payload)

ping-IsWord : IsWord (codes "PING")
ping-IsWord = ground arith

ping-IsPrintable : (payload : Bytes) → IsPrintable (ping payload)
ping-IsPrintable payload = record {
  tags_lack = tt;
  prefix_lacks = tt;
  command_word = ping-IsWord;
  command_no_at = refl;
  param_words = tt;
  room = omega arith;
}

-- The bytes of `PONG :payload`, with CR and LF.
abbrev pub pong_line : Bytes → Bytes
pong_line payload = codes "PONG :" ++ (payload ++ 13 ∷ 10 ∷ [])

pong-pong_line : (payload : Bytes) → pong payload ≡ pong_line payload
unfolding pong
pong-pong_line payload = append_assoc (codes "PONG :") payload crlf

module _ {H L : Type 0} (d : Dispatcher H L) where
  on_line-ping : (payload : Bytes) → on_line d (ping_line payload) ≡ send (pong_line payload) ∷ []
  unfolding on_line on_message equal
  on_line-ping payload =
      let read = parse-print_irc_line (ping payload) (ping-IsPrintable payload) in
      let cmd : (parse_irc_line (ping_line payload)).command ≡ codes "PING" =
        ap (λ (m : IrcMessage). m.command) read in
      let text : (parse_irc_line (ping_line payload)).trailing ≡ payload =
        ap (λ (m : IrcMessage). m.trailing) read in
      rw (on_line, on_message, cmd, text) (ap (λ b. send b ∷ []) (pong-pong_line payload))

  -- However the lines of a server are cut into frames, the bot acts on each line, in order.
  on_frames-wire :
      (ls frames : List Bytes)
      → flatten frames ≡ wire ls
      → AreLines ls
      → on_frames d frames ≡ flatten (map (on_line d) ls)
  unfolding on_frames
  on_frames-wire ls frames cut lines = rw (read_loop-wire ls frames cut lines) refl

  pings_answered :
      (payloads : List Bytes)
      → flatten (map (on_line d) (map ping_line payloads)) ≡ map (λ p. send (pong_line p)) payloads
  pings_answered [] = refl
  pings_answered (p ∷ payloads) = rw (on_line-ping p, pings_answered payloads) refl

abbrev AreClean : List Bytes → Type 0
AreClean [] = Unit {0}
AreClean (p ∷ ps) = Lacks cr p × AreClean ps

ping-Lacks : (payload : Bytes) → Lacks cr payload → Lacks cr (ping_line payload)
unfolding print_irc_line
ping-Lacks [] h = ground arith
ping-Lacks (x ∷ p) h = ground (arith, h)

ping_length : (payload : Bytes) → 0 < length (ping_line payload)
unfolding print_irc_line
ping_length [] = omega arith
ping_length (x ∷ p) = omega arith

ping-AreLines : (payloads : List Bytes) → AreClean payloads → AreLines (map ping_line payloads)
ping-AreLines [] h = tt
ping-AreLines (p ∷ payloads) h = (ping_length p, (ping-Lacks p h.0, ping-AreLines payloads h.1))

-- Every PING of the server is answered: however the lines `PING :payload` are cut into frames, the
-- bot sends the bytes `PONG :payload` with CR and LF for each, in order, and does nothing else. No
-- payload has a CR.
pub on_frames-ping :
    {H L : Type 0} (d : Dispatcher H L) (payloads frames : List Bytes)
    → flatten frames ≡ wire (map ping_line payloads)
    → AreClean payloads
    → on_frames d frames ≡ map (λ p. send (pong_line p)) payloads
on_frames-ping d payloads frames cut clean =
    on_frames-wire d (map ping_line payloads) frames cut (ping-AreLines payloads clean)
    ∙ pings_answered d payloads

module _ {H L : Type 0} where
  abbrev pub closes : List (Effect H L) → Bool
  closes [] = false
  closes (close_link ∷ es) = true
  closes (_ ∷ es) = closes es

  abbrev pub wakes : List (Effect H L) → Bool
  wakes [] = false
  wakes (wake_supervisor ∷ es) = true
  wakes (_ ∷ es) = wakes es

  abbrev pub refreshes : List (Effect H L) → Bool
  refreshes [] = false
  refreshes (refresh_token ∷ es) = true
  refreshes (_ ∷ es) = refreshes es

  abbrev pub calls_of : List (Effect H L) → List (Call H L)
  calls_of [] = []
  calls_of (call c ∷ es) = c ∷ calls_of es
  calls_of (_ ∷ es) = calls_of es

-- The connection is closed and the supervisor woken if `lost`, the token is refreshed if `stale`, and
-- the calls are `cs`.
abbrev pub Outcome : {H L : Type 0} → List (Effect H L) → Bool → Bool → List (Call H L) → Type 0
Outcome es lost stale cs =
    (closes es ≡ lost) × ((wakes es ≡ lost) × ((refreshes es ≡ stale) × (calls_of es ≡ cs)))
