-- ===== src/Irc/Client/Connect/Tests.antt =====
-- A connection to one channel, and one whose peer is not verified.
use twitch_bot.Prelude.{◌≡◌, refl, true, false, [], ◌∷◌, ◌++◌}
use twitch_bot.Prelude.Bytes.{codes}
use twitch_bot.Irc.Client.{crlf, push_channel, join_from, connect_join}
use twitch_bot.Irc.Client.Connect.{
  Answers, session, open_tcp, open_tls, open_ws, greeting, capabilities, send_all, connect,
}
use twitch_bot.Irc.Client.Connect.Secure.{Ends, connect-Ends}

abbrev all_good : Answers
all_good = record {
  resolved = true;
  tcp_connected = true;
  has_handle = true;
  has_context = true;
  ca_loaded = true;
  sni_accepted = true;
  tls_accepted = true;
  ws_accepted = true;
}

sends :
    (session (connect all_good (codes "oauth:t") (codes "bot") (codes "chat" ∷ []))).sent
    ≡ (codes "PASS oauth:t" ++ crlf)
      ∷ (codes "NICK bot" ++ crlf)
      ∷ capabilities
      ∷ (codes "JOIN #chat" ++ crlf)
      ∷ []
unfolding connect open_tcp open_tls open_ws greeting send_all connect_join join_from push_channel
sends = refl

connect-Ends_example :
    Ends (greeting (codes "oauth:t") (codes "bot") ++ connect_join (codes "chat" ∷ [])) (
      connect
        (record all_good { tls_accepted = false })
        (codes "oauth:t")
        (codes "bot")
        (codes "chat" ∷ []))
connect-Ends_example =
    connect-Ends (record all_good { tls_accepted = false }) (codes "oauth:t") (codes "bot")
      (codes "chat" ∷ [])
