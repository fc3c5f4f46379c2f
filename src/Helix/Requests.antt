-- ===== src/Helix/Requests.antt =====
-- What a token that a call has left has behind it.
use twitch_bot.Prelude.{
  ◌≡◌, refl, sym, ap, subst, ◌∙◌, true, false, ◌⊎◌, inl, inr, [], ◌∷◌, if◌then◌else◌, Bool-cases,
  Option-cases,
}
use twitch_bot.Prelude.Bytes.{is_empty}
use twitch_bot.Helix.{
  validate, token_request, Reply, document, error_value, thrown, World, HelixClient, bearer,
  perform, expire_after, clear_token, validated, validate_token, build_refresh_token_request_body,
  persist, fetched, fetch_token, refresh_token, renew, looks_fresh, ensure_valid_token,
}

module _ {W : World} where
  validated-sent : (r : Reply W.J) (s : HelixClient W) → (validated (r, s)).1.sent ≡ s.sent
  unfolding validated expire_after
  validated-sent (document j) s = elim (Option-cases (W.expires_in j)) [
    | inl broken ↦ rw (validated, broken) refl
    | inr (lifetime, ok) ↦ rw (validated, ok) refl
  ]
  validated-sent error_value s = refl
  validated-sent (thrown what) s = refl

  validated-token : (r : Reply W.J) (s : HelixClient W) → (validated (r, s)).1.token ≡ s.token
  unfolding validated expire_after
  validated-token (document j) s = elim (Option-cases (W.expires_in j)) [
    | inl broken ↦ rw (validated, broken) refl
    | inr (lifetime, ok) ↦ rw (validated, ok) refl
  ]
  validated-token error_value s = refl
  validated-token (thrown what) s = refl

  validated-persisted :
      (r : Reply W.J) (s : HelixClient W) → (validated (r, s)).1.persisted ≡ s.persisted
  unfolding validated expire_after
  validated-persisted (document j) s = elim (Option-cases (W.expires_in j)) [
    | inl broken ↦ rw (validated, broken) refl
    | inr (lifetime, ok) ↦ rw (validated, ok) refl
  ]
  validated-persisted error_value s = refl
  validated-persisted (thrown what) s = refl

  fetched-sent : (r : Reply W.J) (s : HelixClient W) → (fetched (r, s)).sent ≡ s.sent
  unfolding fetched clear_token persist expire_after
  fetched-sent (document j) s = elim (Option-cases (W.access_token j)) [
    | inl broken ↦ rw (fetched, broken) refl
    | inr (t, ok) ↦ elim (Option-cases (W.expires_in j)) [
      | inl no_expiry ↦ rw (fetched, ok, no_expiry) refl
      | inr (lifetime, expires) ↦ rw (fetched, ok, expires) refl
    ]
  ]
  fetched-sent error_value s = refl
  fetched-sent (thrown what) s = refl

  -- A token that is fetched goes to the persistor.
  fetched-token :
      (r : Reply W.J) (s : HelixClient W)
      → ((fetched (r, s)).token ≡ [])
        ⊎ ((fetched (r, s)).persisted ≡ (fetched (r, s)).token ∷ s.persisted)
  unfolding fetched clear_token persist expire_after
  fetched-token (document j) s = elim (Option-cases (W.access_token j)) [
    | inl broken ↦ inl (rw (fetched, broken) refl)
    | inr (t, ok) ↦ elim (Option-cases (W.expires_in j)) [
      | inl no_expiry ↦ inl (rw (fetched, ok, no_expiry) refl)
      | inr (lifetime, expires) ↦ inr (rw (fetched, ok, expires) refl)
    ]
  ]
  fetched-token error_value s = inl refl
  fetched-token (thrown what) s = inl refl

  validate_token-sent :
      (s : HelixClient W)
      → is_empty s.token ≡ false
      → (validate_token s).1.sent ≡ validate (bearer s.token) ∷ s.sent
  unfolding validate_token perform
  validate_token-sent s h =
      rw (validate_token, h, if◌then◌else◌)
        (validated-sent (W.exchange (validate (bearer s.token)) s.world).0
          (perform (validate (bearer s.token)) s).1)

  validate_token-token :
      (s : HelixClient W) → is_empty s.token ≡ false → (validate_token s).1.token ≡ s.token
  unfolding validate_token perform
  validate_token-token s h =
      rw (validate_token, h, if◌then◌else◌)
        (validated-token (W.exchange (validate (bearer s.token)) s.world).0
          (perform (validate (bearer s.token)) s).1)

  refresh_token-sent :
      (s : HelixClient W)
      → (refresh_token s).sent ≡ token_request (build_refresh_token_request_body s) ∷ s.sent
  unfolding refresh_token fetch_token perform
  refresh_token-sent s =
      fetched-sent (W.exchange (token_request (build_refresh_token_request_body s)) s.world).0
        (perform (token_request (build_refresh_token_request_body s)) s).1

  -- `renew` has sent the token request, or has cleared the token.
  pub renew-cases :
      (s : HelixClient W)
      → ((renew s).sent ≡ token_request (build_refresh_token_request_body s) ∷ s.sent)
        ⊎ (((renew s).sent ≡ s.sent) × ((renew s).token ≡ []))
  unfolding renew clear_token
  renew-cases s = elim (Bool-cases (is_empty s.refresh_token_value)) [
    | inl absent ↦ inr (rw (renew, absent, if◌then◌else◌) (refl, refl))
    | inr present ↦ inl (rw (renew, present, if◌then◌else◌) (refresh_token-sent s))
  ]

  renew-token :
      (s : HelixClient W)
      → ((renew s).token ≡ []) ⊎ ((renew s).persisted ≡ (renew s).token ∷ s.persisted)
  unfolding renew clear_token refresh_token fetch_token perform
  renew-token s = elim (Bool-cases (is_empty s.refresh_token_value)) [
    | inl absent ↦ inl (rw (renew, absent, if◌then◌else◌) refl)
    | inr present ↦
        rw (renew, present, if◌then◌else◌)
          (fetched-token (W.exchange (token_request (build_refresh_token_request_body s)) s.world).0
            (perform (token_request (build_refresh_token_request_body s)) s).1)
  ]

  validate_token-persisted :
      (s : HelixClient W) → is_empty s.token ≡ false → (validate_token s).1.persisted ≡ s.persisted
  unfolding validate_token perform
  validate_token-persisted s h =
      rw (validate_token, h, if◌then◌else◌)
        (validated-persisted (W.exchange (validate (bearer s.token)) s.world).0
          (perform (validate (bearer s.token)) s).1)

  pub looks_fresh-keeps :
      (s : HelixClient W)
      → ((looks_fresh s).1.token ≡ s.token)
        × (((looks_fresh s).1.sent ≡ s.sent)
            × (((looks_fresh s).1.persisted ≡ s.persisted)
                × ((looks_fresh s).0 ≡ true → is_empty s.token ≡ false)))
  unfolding looks_fresh
  looks_fresh-keeps s = elim (Bool-cases (is_empty s.token)) [
    | inl absent ↦ rw (looks_fresh, absent, if◌then◌else◌) (refl, (refl, (refl, λ e. sym e)))
    | inr present ↦ rw (looks_fresh, present, if◌then◌else◌) (refl, (refl, (refl, λ e. refl)))
  ]

  -- What stands behind a token that a call has left.
  abbrev pub Backed : HelixClient W → HelixClient W → Type 0
  Backed s t =
      (t.token ≡ [])
      ⊎ (((t.token ≡ s.token)
            × ((t.sent ≡ validate (bearer s.token) ∷ s.sent)
                × ((validate_token (looks_fresh s).1).0 ≡ true)))
          ⊎ (t.persisted ≡ t.token ∷ s.persisted))

  renewed-Backed : (s t : HelixClient W) → t.persisted ≡ s.persisted → Backed s (renew t)
  renewed-Backed s t kept = elim (renew-token t) [
    | inl cleared ↦ inl cleared
    | inr fetched_now ↦ inr (inr (fetched_now ∙ ap (◌∷◌ (renew t).token) kept))
  ]

  fresh_token :
      (s : HelixClient W) → (looks_fresh s).0 ≡ true → is_empty (looks_fresh s).1.token ≡ false
  fresh_token s fresh = let k = looks_fresh-keeps s in ap is_empty k.0 ∙ k.1.1.1 fresh

  pub checked_sent :
      (s : HelixClient W)
      → (looks_fresh s).0 ≡ true
      → (validate_token (looks_fresh s).1).1.sent ≡ validate (bearer s.token) ∷ s.sent
  checked_sent s fresh =
      let k = looks_fresh-keeps s in
      validate_token-sent (looks_fresh s).1 (fresh_token s fresh)
      ∙ ap (λ t. validate (bearer t) ∷ (looks_fresh s).1.sent) k.0
      ∙ ap (◌∷◌ (validate (bearer s.token))) k.1.0

  ensure_valid :
      (s : HelixClient W)
      → (looks_fresh s).0 ≡ true
      → (validate_token (looks_fresh s).1).0 ≡ true
      → ensure_valid_token s ≡ (validate_token (looks_fresh s).1).1
  unfolding ensure_valid_token
  ensure_valid s fresh valid = rw (ensure_valid_token, fresh, valid, if◌then◌else◌) refl

  ensure_refused :
      (s : HelixClient W)
      → (looks_fresh s).0 ≡ true
      → (validate_token (looks_fresh s).1).0 ≡ false
      → ensure_valid_token s ≡ renew (validate_token (looks_fresh s).1).1
  unfolding ensure_valid_token
  ensure_refused s fresh refused = rw (ensure_valid_token, fresh, refused, if◌then◌else◌) refl

  ensure_stale :
      (s : HelixClient W)
      → (looks_fresh s).0 ≡ false
      → ensure_valid_token s ≡ renew (looks_fresh s).1
  unfolding ensure_valid_token
  ensure_stale s stale = rw (ensure_valid_token, stale, if◌then◌else◌) refl

  -- After `ensure_valid_token` the token is empty, or it is the one there was, its validation is the
  -- one request of the call and has succeeded, or it is one that the call has fetched and given to the persistor.
  pub ensure_valid_token-Backed : (s : HelixClient W) → Backed s (ensure_valid_token s)
  ensure_valid_token-Backed s = elim (Bool-cases (looks_fresh s).0) [
    | inl fresh ↦ elim (Bool-cases (validate_token (looks_fresh s).1).0) [
      | inl valid ↦
          subst {A = HelixClient W} (λ t. Backed s t) (sym (ensure_valid s fresh valid))
            (inr (
              inl (
                validate_token-token (looks_fresh s).1 (fresh_token s fresh)
                    ∙ (looks_fresh-keeps s).0,
                (checked_sent s fresh, valid),
              )))
      | inr refused ↦
          subst {A = HelixClient W} (λ t. Backed s t) (sym (ensure_refused s fresh refused))
            (renewed-Backed s (validate_token (looks_fresh s).1).1 (
              validate_token-persisted (looks_fresh s).1 (fresh_token s fresh)
              ∙ (looks_fresh-keeps s).1.1.0))
    ]
    | inr stale ↦
        subst {A = HelixClient W} (λ t. Backed s t) (sym (ensure_stale s stale))
          (renewed-Backed s (looks_fresh s).1 (looks_fresh-keeps s).1.1.0)
  ]
