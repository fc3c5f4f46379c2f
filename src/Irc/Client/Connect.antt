-- ===== src/Irc/Client/Connect.antt =====
-- `connect` of lib/twitch_core/src/irc_client.cpp: its handshakes, each of which may throw, and what it
-- sends behind them. The answers of Boost and OpenSSL are a parameter.
pub mod Secure
mod Tests
use twitch_bot.Prelude.{Bool, true, false, List, [], ◌∷◌, ◌++◌, if◌then◌else◌}
use twitch_bot.Prelude.Bytes.{Bytes, codes}
use twitch_bot.Irc.Client.{crlf, connect_join}

-- What the calls that may fail answer: the resolver, `async_connect`, `native_handle` and
-- `SSL_get_SSL_CTX`, `SSL_CTX_load_verify_locations`, `SSL_set_tlsext_host_name` and the two
-- handshakes.
pub record Answers : Type 0 where
  pub resolved : Bool
  pub tcp_connected : Bool
  pub has_handle : Bool
  pub has_context : Bool
  pub ca_loaded : Bool
  pub sni_accepted : Bool
  pub tls_accepted : Bool
  pub ws_accepted : Bool

-- The waits for the other side.
pub data Wait : Type 0 where
  resolving connecting tls_handshake ws_handshake : Wait

-- What has been set on the stream: the deadline (`expires_after`, and not `expires_never` behind it),
-- the CA bundle, the name for SNI, the verification of the peer, the handshakes that are through; the
-- waits, the last one first, each with whether there was a deadline; and the frames that were sent.
pub record Session : Type 0 where
  pub deadline : Bool
  pub ca_bundle : Bool
  pub sni : Bool
  pub verify_peer : Bool
  pub tls : Bool
  pub ws : Bool
  pub waits : List (Wait × Bool)
  pub sent : List Bytes

-- An exception leaves the session where it was thrown.
pub data Attempt : Type 0 where
  up : Session → Attempt
  thrown : Session → Attempt

abbrev pub session : Attempt → Session
session (up s) = s
session (thrown s) = s

infixl 5 ◌>>>◌
abbrev pub ◌>>>◌ : Attempt → (Session → Attempt) → Attempt
up s >>> f = f s
thrown s >>> f = thrown s

-- A wait that throws unless the answer is good.
unfoldable pub await : Wait → Bool → Session → Attempt
await w answer s =
    let s' : Session = record s { waits = (w, s.deadline) ∷ s.waits } in
    if answer then up s' else thrown s'

-- `if (!answer) throw ...`
unfoldable pub require : Bool → Session → Attempt
require answer s = if answer then up s else thrown s

abbrev pub expires_after : Session → Session
expires_after s = record s { deadline = true }

abbrev pub expires_never : Session → Session
expires_never s = record s { deadline = false }

-- "DNS and TCP connect with deadlines to avoid stalls."
unfoldable pub open_tcp : Answers → Session → Attempt
unfolding await
open_tcp a s =
    await resolving a.resolved s
    >>> (λ s1. await connecting a.tcp_connected (expires_after s1))
    >>> (λ s2. up (expires_never s2))

-- The CA bundle, SNI and the verification of the peer, and the handshake.
unfoldable pub open_tls : Answers → Session → Attempt
unfolding await require
open_tls a s =
    require a.has_handle s
    >>> require a.has_context
    >>> require a.ca_loaded
    >>> (λ s1. require a.sni_accepted (record s1 { ca_bundle = true }))
    >>> (λ s2.
        await tls_handshake a.tls_accepted
          (expires_after (record s2 { sni = true; verify_peer = true })))
    >>> (λ s3. up (expires_never (record s3 { tls = true })))

unfoldable pub open_ws : Answers → Session → Attempt
unfolding await
open_ws a s =
    await ws_handshake a.ws_accepted (expires_after s)
    >>> (λ s1. up (expires_never (record s1 { ws = true })))

abbrev pub capabilities : Bytes
capabilities = codes "CAP REQ :twitch.tv/membership twitch.tv/tags twitch.tv/commands" ++ crlf

-- The frames of PASS, NICK and CAP REQ.
unfoldable pub greeting : Bytes → Bytes → List Bytes
greeting token nick =
    (codes "PASS " ++ token ++ crlf) ∷ (codes "NICK " ++ nick ++ crlf) ∷ capabilities ∷ []

unfoldable pub send_all : List Bytes → Session → Session
send_all frames s = record s { sent = s.sent ++ frames }

-- The stream as the client is constructed with.
abbrev pub unopened : Session
unopened = record {
  deadline = false;
  ca_bundle = false;
  sni = false;
  verify_peer = false;
  tls = false;
  ws = false;
  waits = [];
  sent = [];
}

-- `connect`; a send does not throw.
unfoldable pub connect : Answers → Bytes → Bytes → List Bytes → Attempt
connect a access_token control_channel channels =
    open_tcp a unopened >>> open_tls a >>> open_ws a >>> (λ s.
      up (send_all (connect_join channels) (send_all (greeting access_token control_channel) s)))
