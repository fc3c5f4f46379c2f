-- ===== src/Helix/Http/Rejected.antt =====
-- Which replies `get_stream_status` takes for a failed authorisation.
use twitch_bot.Prelude.{
  ℕ, ◌<◌, ◌≡◌, refl, ap, ◌∙◌, Bool, true, false, ◌&&◌, ◌||◌, not, inl, inr, Option, none, some, [],
  ◌∷◌, ◌++◌, append_assoc, arith, ltb, leb, ◌==◌, if◌then◌else◌, Bool-cases, Option-cases,
}
use twitch_bot.Prelude.Bytes.{Bytes, codes, sp, has_prefix}
use twitch_bot.Prelude.Search.{find_string}
use twitch_bot.Helix.{Request, streams, thrown, is_unauthorised}
use twitch_bot.Helix.Http.{helix_streams, method_of, endpoint_of, payload_of, reply_of, call}
use twitch_bot.Helix.Http.One.{http_request, hop_of, IsConfigured, first_request}
use twitch_bot.Net.Redirect.{RedirectPolicy, is_redirect_status}
use twitch_bot.Net.Client
use twitch_bot.Net.Client.{
  Web, Response, Hop, ends, runtime_error, status_digits, make_error_msg, turn, send, perform,
  perform_from,
}

abbrev is_found : Option ℕ → Bool
is_found none = false
is_found (some _) = true

-- Whether "401" stands in a string.
abbrev pub has_401 : Bytes → Bool
has_401 s = is_found (find_string (codes "401") s)

has_401-cons :
    (x : ℕ) (s : Bytes) → has_401 (x ∷ s) ≡ (has_prefix (codes "401") (x ∷ s) || has_401 s)
unfolding find_string
has_401-cons x s = elim (Bool-cases (has_prefix (codes "401") (x ∷ s))) [
  | inl here ↦ simp (find_string, here, if◌then◌else◌, ◌||◌) refl
  | inr later ↦ elim (Option-cases (find_string (codes "401") s)) [
    | inl nowhere ↦ simp (find_string, later, if◌then◌else◌, nowhere, ◌||◌) refl
    | inr (i, found) ↦ simp (find_string, later, if◌then◌else◌, found, ◌||◌) refl
  ]
]

-- No byte is '4'.
abbrev no_4 : Bytes → Bool
no_4 [] = true
no_4 (x ∷ xs) = not (x == b'4') && no_4 xs

has_401-append : (p s : Bytes) → no_4 p ≡ true → has_401 (p ++ s) ≡ has_401 s
unfolding has_prefix
has_401-append [] s h = refl
has_401-append (x ∷ p) s h = has_401-cons x (p ++ s) ∙ ground (arith, h, has_401-append p s)

-- A space ends what is compared with "401".
has_prefix-space :
    (s r : Bytes) → has_prefix (codes "401") (s ++ sp ∷ r) ≡ has_prefix (codes "401") s
unfolding has_prefix
has_prefix-space [] r = refl
has_prefix-space (a ∷ []) r = ground arith
has_prefix-space (a ∷ b ∷ []) r = ground arith
has_prefix-space (a ∷ b ∷ c ∷ s) r = refl

has_401-space : (s r : Bytes) → has_401 (s ++ sp ∷ r) ≡ (has_401 s || has_401 r)
unfolding find_string has_prefix
has_401-space [] r = has_401-cons sp r
has_401-space (x ∷ s) r =
    has_401-cons x (s ++ sp ∷ r)
    ∙ ground (arith, has_prefix-space (x ∷ s) r, has_401-space s r, has_401-cons x s)

has_401-status_digits : (s : ℕ) → s < 1000 → has_401 (status_digits s) ≡ (s == 401)
unfolding status_digits find_string has_prefix
has_401-status_digits s h = ground (arith, h)

returned : (d : Bytes) → codes " returned " ++ d ≡ sp ∷ (codes "returned " ++ d)
returned d = refl

-- The path that is asked for.
abbrev pub path_of : Bytes → Bytes
path_of channel_id = helix_streams.target ++ channel_id

has_401-message :
    (channel_id : Bytes) (s : ℕ)
    → s < 1000
    → has_401 (make_error_msg helix_streams.host (path_of channel_id) s)
      ≡ (has_401 channel_id || s == 401)
unfolding make_error_msg
has_401-message channel_id s h =
    let digits : Bytes = status_digits s in
    let tail : Bytes = codes " returned " ++ digits in
    ap has_401 (append_assoc (helix_streams.host ++ path_of channel_id) (codes " returned ") digits)
    ∙ ap has_401 (append_assoc helix_streams.host (path_of channel_id) tail)
    ∙ has_401-append helix_streams.host (path_of channel_id ++ tail) refl
    ∙ ap has_401 (append_assoc helix_streams.target channel_id tail)
    ∙ has_401-append helix_streams.target (channel_id ++ tail) refl
    ∙ ap (λ t. has_401 (channel_id ++ t)) (returned digits)
    ∙ has_401-space channel_id (codes "returned " ++ digits)
    ∙ ap (λ b. has_401 channel_id || b)
        (has_401-append (codes "returned ") digits refl ∙ has_401-status_digits s h)

is_unauthorised-cons : (x : ℕ) (s : Bytes) → is_unauthorised (x ∷ s) ≡ has_401 (x ∷ s)
unfolding is_unauthorised
is_unauthorised-cons x s = elim (Option-cases (find_string (codes "401") (x ∷ s))) [
  | inl nowhere ↦ simp (is_unauthorised, nowhere) refl
  | inr (i, found) ↦ simp (is_unauthorised, found) refl
]

is_unauthorised-message :
    (channel_id : Bytes) (s : ℕ)
    → s < 1000
    → is_unauthorised (make_error_msg helix_streams.host (path_of channel_id) s)
      ≡ (has_401 channel_id || s == 401)
unfolding make_error_msg
is_unauthorised-message channel_id s h =
    is_unauthorised-cons b'a' _ ∙ has_401-message channel_id s h

module _ (W : Web) (fuel : ℕ) where
  -- A status that is no redirect and is below 200 or from 300 on ends the call.
  turn_failed :
      (policy : RedirectPolicy) (auto : Bool) (h : Hop) (res : Response)
      → is_redirect_status res.status ≡ false
      → (ltb res.status 200 || leb 300 res.status) ≡ true
      → turn W fuel policy auto h res
        ≡ ends (runtime_error (make_error_msg h.cur_host h.cur_target res.status))
  unfolding turn
  turn_failed policy auto h res direct failed = simp (turn, direct, failed, if◌then◌else◌) refl

  call-message :
      (what channel_id client_id auth : Bytes) (c : Client.Client W) (res : Response)
      → (send W fuel (hop_of (streams (path_of channel_id) client_id auth)) [] c).0 ≡ some res
      → is_redirect_status res.status ≡ false
      → (ltb res.status 200 || leb 300 res.status) ≡ true
      → (call W fuel what (streams (path_of channel_id) client_id auth) c).0
        ≡ some (thrown (some (make_error_msg helix_streams.host (path_of channel_id) res.status)))
  unfolding call perform perform_from method_of endpoint_of payload_of reply_of
  call-message what channel_id client_id auth c res came direct failed =
      rw
        (
          call,
          perform,
          perform_from,
          came,
          turn_failed c.redirect_policy true (hop_of (streams (path_of channel_id) client_id auth))
              res direct failed,
        )
        refl

  -- A request for a stream that is answered with a status that is no redirect, of three digits at most
  -- and not of 200 to 299, throws, with a message that is taken for a failed authorisation where the
  -- status is 401, and where "401" stands in the channel's name, for any status. The client has the
  -- configuration that the constructor sets.
  pub call-is_unauthorised :
      (what channel_id client_id auth : Bytes) (c : Client.Client W) (res : Response)
      → IsConfigured c
      → (W.exchange (http_request (streams (path_of channel_id) client_id auth)) c.world).0
        ≡ some res
      → is_redirect_status res.status ≡ false
      → (ltb res.status 200 || leb 300 res.status) ≡ true
      → res.status < 1000
      → (msg : Bytes) × (((call W fuel what (streams (path_of channel_id) client_id auth) c).0
            ≡ some (thrown (some msg)))
          × (is_unauthorised msg ≡ (has_401 channel_id || res.status == 401)))
  unfolding send payload_of
  call-is_unauthorised what channel_id client_id auth c res ok came direct failed small =
      let r : Request = streams (path_of channel_id) client_id auth in
      let sent =
        ap (λ (q : Client.Request). (W.exchange q c.world).0) (first_request W fuel r c ok)
        ∙ came in
      (
        make_error_msg helix_streams.host (path_of channel_id) res.status,
        (
          call-message what channel_id client_id auth c res sent direct failed,
          is_unauthorised-message channel_id res.status small,
        ),
      )
