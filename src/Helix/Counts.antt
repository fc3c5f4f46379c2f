-- ===== src/Helix/Counts.antt =====
-- How many requests the client makes.
use twitch_bot.Prelude.{
  ℕ, ◌+◌, ◌≤◌, ap, inl, inr, none, some, List, [], ◌∷◌, arith, if◌then◌else◌, Bool-cases, length,
  suc,
}
use twitch_bot.Prelude.Bytes.{Bytes, is_empty}
use twitch_bot.Helix.{
  Request, validate, token_request, streams, World, HelixClient, Attempt, status, raised, perform,
  clear_token, validate_token, renew, looks_fresh, ensure_valid_token, do_request, is_unauthorised,
  retry, settle, get_stream_status,
}
use twitch_bot.Helix.Requests.{renew-cases, checked_sent, looks_fresh-keeps}

abbrev pub count_streams : List Request → ℕ
count_streams [] = 0
count_streams (streams _ _ _ ∷ rs) = suc (count_streams rs)
count_streams (validate _ ∷ rs) = count_streams rs
count_streams (token_request _ ∷ rs) = count_streams rs

-- What a call has sent: `n` requests at most, of which `k` at most ask for a stream.
abbrev pub AtMost : ℕ → ℕ → List Request → List Request → Type 0
AtMost n k before now =
    (length now ≤ length before + n) × (count_streams now ≤ count_streams before + k)

module _ {W : World} where
  renew-AtMost : (s : HelixClient W) → AtMost 1 0 s.sent (renew s).sent
  renew-AtMost s = elim (renew-cases s) [
    | inl asked ↦ rw (asked) (omega arith, omega arith)
    | inr (same, cleared) ↦ rw (same) (omega arith, omega arith)
  ]

  ensure_valid_token-AtMost : (s : HelixClient W) → AtMost 2 0 s.sent (ensure_valid_token s).sent
  unfolding ensure_valid_token
  ensure_valid_token-AtMost s = elim (Bool-cases (looks_fresh s).0) [
    | inl fresh ↦ elim (Bool-cases (validate_token (looks_fresh s).1).0) [
      | inl valid ↦
          rw (ensure_valid_token, fresh, valid, if◌then◌else◌, checked_sent s fresh)
            (omega arith, omega arith)
      | inr refused ↦
          let n = ap length (checked_sent s fresh) in
          let k = ap count_streams (checked_sent s fresh) in
          let more = renew-AtMost (validate_token (looks_fresh s).1).1 in
          rw (ensure_valid_token, fresh, refused, if◌then◌else◌)
            (omega (arith, n, more), omega (arith, k, more))
    ]
    | inr stale ↦
        let same = (looks_fresh-keeps s).1.0 in
        let n = ap length same in
        let k = ap count_streams same in
        let more = renew-AtMost (looks_fresh s).1 in
        rw (ensure_valid_token, stale, if◌then◌else◌)
          (omega (arith, n, more), omega (arith, k, more))
  ]

  do_request-AtMost :
      (channel_id : Bytes) (s : HelixClient W) → AtMost 1 1 s.sent (do_request channel_id s).1.sent
  unfolding do_request perform
  do_request-AtMost channel_id s = (omega arith, omega arith)

  -- Without a token there is no validation.
  cleared-AtMost : (s : HelixClient W) → AtMost 1 0 s.sent (ensure_valid_token (clear_token s)).sent
  unfolding ensure_valid_token clear_token looks_fresh
  cleared-AtMost s = renew-AtMost (clear_token s)

  retry-AtMost :
      (channel_id : Bytes) (s : HelixClient W) → AtMost 2 1 s.sent (retry channel_id s).1.sent
  unfolding retry
  retry-AtMost channel_id s =
      let a = cleared-AtMost s in
      let b = do_request-AtMost channel_id (ensure_valid_token (clear_token s)) in
      (omega (arith, a, b), omega (arith, a, b))

  settle-AtMost :
      (channel_id : Bytes) (a : Attempt) (s : HelixClient W)
      → AtMost 2 1 s.sent (settle channel_id (a, s)).1.sent
  unfolding settle
  settle-AtMost channel_id (status o) s = (omega arith, omega arith)
  settle-AtMost channel_id (raised none) s = (omega arith, omega arith)
  settle-AtMost channel_id (raised (some what)) s = elim (Bool-cases (is_unauthorised what)) [
    | inl again ↦ rw (settle, again, if◌then◌else◌) (retry-AtMost channel_id s)
    | inr other ↦ rw (settle, other, if◌then◌else◌) (omega arith, omega arith)
  ]

  -- A call of `get_stream_status` makes five requests at most, of which two ask for the stream.
  pub get_stream_status-AtMost :
      (channel_id : Bytes) (s : HelixClient W)
      → AtMost 5 2 s.sent (get_stream_status channel_id s).1.sent
  unfolding get_stream_status
  get_stream_status-AtMost channel_id s =
      elim (Bool-cases (is_empty (ensure_valid_token s).token)) [
        | inl absent ↦
            let a = ensure_valid_token-AtMost s in
            rw (get_stream_status, absent, if◌then◌else◌) (omega (arith, a), omega (arith, a))
        | inr present ↦
            let ready : HelixClient W = ensure_valid_token s in
            let a = ensure_valid_token-AtMost s in
            let b = do_request-AtMost channel_id ready in
            let c =
              settle-AtMost channel_id (do_request channel_id ready).0
                (do_request channel_id ready).1 in
            rw (get_stream_status, present, if◌then◌else◌)
              (omega (arith, a, b, c), omega (arith, a, b, c))
      ]
