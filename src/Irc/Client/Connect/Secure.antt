-- ===== src/Irc/Client/Connect/Secure.antt =====
-- What is sent goes over a verified connection.
use twitch_bot.Prelude.{◌≡◌, refl, Bool, true, false, List, [], ◌∷◌, ◌++◌, if◌then◌else◌}
use twitch_bot.Prelude.Bytes.{Bytes}
use twitch_bot.Irc.Client.{connect_join}
use twitch_bot.Irc.Client.Connect.{
  Answers, Wait, resolving, connecting, tls_handshake, ws_handshake, Session, Attempt, up, thrown,
  open_tcp, open_tls, open_ws, greeting, send_all, connect,
}

-- Both handshakes are through, the one of TLS with the CA bundle, SNI and the verification of the peer.
pub record IsVerified (s : Session) : Type 0 where
  pub ca_bundle : s.ca_bundle ≡ true
  pub sni : s.sni ≡ true
  pub verify_peer : s.verify_peer ≡ true
  pub tls : s.tls ≡ true
  pub ws : s.ws ≡ true

abbrev pub is_resolving : Wait → Bool
is_resolving resolving = true
is_resolving connecting = false
is_resolving tls_handshake = false
is_resolving ws_handshake = false

-- Each wait has a deadline, but the one for the resolver has none.
abbrev pub HaveDeadlines : List (Wait × Bool) → Type 0
HaveDeadlines [] = Unit {0}
HaveDeadlines ((w, deadline) ∷ waits) =
    ((if is_resolving w then false else true) ≡ deadline) × HaveDeadlines waits

-- What an attempt ends with.
abbrev pub Ends : List Bytes → Attempt → Type 0
Ends frames (thrown s) = (s.sent ≡ []) × HaveDeadlines s.waits
Ends frames (up s) =
    IsVerified s × ((s.sent ≡ frames) × ((s.deadline ≡ false) × HaveDeadlines s.waits))

-- Each call in turn is the first that is answered badly, or none is.
answered :
    (resolved tcp_connected has_handle has_context ca_loaded sni_accepted tls_accepted
      ws_accepted : Bool)
    (token nick : Bytes) (channels : List Bytes)
    → Ends (greeting token nick ++ connect_join channels) (
        connect
          (record {
            resolved = resolved;
            tcp_connected = tcp_connected;
            has_handle = has_handle;
            has_context = has_context;
            ca_loaded = ca_loaded;
            sni_accepted = sni_accepted;
            tls_accepted = tls_accepted;
            ws_accepted = ws_accepted;
          })
          token
          nick
          channels)
unfolding connect open_tcp open_tls open_ws send_all
answered false _ _ _ _ _ _ _ token nick channels = (refl, (refl, tt))
answered true false _ _ _ _ _ _ token nick channels = (refl, (refl, (refl, tt)))
answered true true false _ _ _ _ _ token nick channels = (refl, (refl, (refl, tt)))
answered true true true false _ _ _ _ token nick channels = (refl, (refl, (refl, tt)))
answered true true true true false _ _ _ token nick channels = (refl, (refl, (refl, tt)))
answered true true true true true false _ _ token nick channels = (refl, (refl, (refl, tt)))
answered true true true true true true false _ token nick channels =
    (refl, (refl, (refl, (refl, tt))))
answered true true true true true true true false token nick channels =
    (refl, (refl, (refl, (refl, (refl, tt)))))
answered true true true true true true true true token nick channels = (
  record { ca_bundle = refl; sni = refl; verify_peer = refl; tls = refl; ws = refl },
  (refl, (refl, (refl, (refl, (refl, (refl, tt)))))),
)

-- Whatever connect is answered: it throws and has sent nothing, the token not either, or it returns with
-- both handshakes through, the one of TLS with the CA bundle, SNI and the verification of the peer, has
-- sent PASS, NICK and CAP REQ and then the lines that join the channels, and has no deadline left; and
-- each wait but the one for the resolver, which has none, has a deadline.
pub connect-Ends :
    (a : Answers) (token nick : Bytes) (channels : List Bytes)
    → Ends (greeting token nick ++ connect_join channels) (connect a token nick channels)
connect-Ends a token nick channels =
    answered a.resolved a.tcp_connected a.has_handle a.has_context a.ca_loaded a.sni_accepted
      a.tls_accepted a.ws_accepted token nick channels
