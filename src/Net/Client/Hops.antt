-- ===== src/Net/Client/Hops.antt =====
-- The requests of a call, as a trail of hops that the redirect policy allows.
use native.Mathlib.Nat.{suc-mul}
use twitch_bot.Prelude.{
  ℕ, zero, suc, ◌+◌, ◌*◌, ◌≤◌, ◌≡◌, refl, sym, ap, subst, ◌∙◌, Bool, true, false, not, ◌&&◌, ◌||◌,
  inl, inr, Option, none, some, List, [], ◌∷◌, arith, ◌==◌, ltb, leb, if◌then◌else◌, Bool-cases,
  Option-cases, length,
}
use twitch_bot.Prelude.Bytes.{Bytes, codes, equal, equal_iff, is_empty}
use twitch_bot.Net.Url.{Url, target, resolve_url}
use twitch_bot.Net.Redirect.{
  Verb, get, RedirectMode, follow_none, safe_only, same_origin_only, follow_all, RedirectPolicy,
  next_verb, is_safe, same_origin, allowed_by, allow_hop, is_redirect_status,
}
use twitch_bot.Net.Client.{
  Request, Response, Web, Client, Outcome, default_port_for_scheme, Hop, Turn, ends, follows,
  base_url, with_port, RetryOptions, follow, redirect, turn, receive, request_of, send,
  perform_from, perform, is_retried, attempts_from, get_with_retry,
}

-- What the mode asks of the hop from `h` to `next`.
abbrev pub Allowed : RedirectMode → Hop → Hop → Type 0
Allowed follow_none h next = ⊥
Allowed safe_only h next = is_safe next.method ≡ true
Allowed same_origin_only h next = (next.cur_host ≡ h.cur_host) × (next.cur_port ≡ h.cur_port)
Allowed follow_all h next = Unit {0}

-- The request of a hop.
abbrev pub IsFor : Hop → Request → Type 0
IsFor h r =
    (r.method ≡ h.method)
    × ((r.host ≡ h.cur_host) × ((r.port ≡ h.cur_port) × (r.target ≡ h.cur_target)))

-- The requests from the hop `h` on, `n` at most: from `before` to `now`.
pub data Trail (mode : RedirectMode) : ℕ → Hop → List Request → List Request → Type 0 where
  stays : (n : ℕ) (h : Hop) (before : List Request) → Trail mode n h before before
  goes :
      (n : ℕ) (h next : Hop) (r : Request) (before now : List Request)
      → IsFor h r
      → Allowed mode h next
      → Trail mode n next (r ∷ before) now
      → Trail mode (suc n) h before now
  arrives :
      (n : ℕ) (h : Hop) (r : Request) (before : List Request)
      → IsFor h r
      → Trail mode (suc n) h before (r ∷ before)

pub Trail-length :
    (mode : RedirectMode) (n : ℕ) (h : Hop) (before now : List Request)
    → Trail mode n h before now
    → length now ≤ length before + n
Trail-length mode _ _ _ _ (stays n h before) = omega arith
Trail-length mode _ _ _ _ (goes n h next r before now for allowed trail) =
    let rest = Trail-length mode n next (r ∷ before) now trail in omega (arith, rest)
Trail-length mode _ _ _ _ (arrives n h r before for) = omega arith

abbrev TurnAllowed : {J : Type 0} → RedirectMode → Hop → Turn J → Type 0
TurnAllowed mode h (ends o) = Unit {0}
TurnAllowed mode h (follows next) = Allowed mode h next

with_port-scheme : (to : Url) → (with_port to).scheme ≡ to.scheme
unfolding with_port
with_port-scheme to = elim (Bool-cases (is_empty to.port)) [
  | inl absent ↦ rw (with_port, absent, if◌then◌else◌) refl
  | inr present ↦ rw (with_port, present, if◌then◌else◌) refl
]

with_port-port :
    (to : Url) → is_empty to.port ≡ true → (with_port to).port ≡ default_port_for_scheme to.scheme
unfolding with_port
with_port-port to absent = rw (with_port, absent, if◌then◌else◌) refl

with_port-known :
    (to : Url)
    → equal (codes "https") (with_port to).scheme ≡ true
    → is_empty (with_port to).port ≡ false
unfolding with_port default_port_for_scheme equal
with_port-known to h = elim (Bool-cases (is_empty to.port)) [
  | inl absent ↦
      let https : codes "https" ≡ to.scheme =
        (equal_iff (codes "https") to.scheme).0
          (sym (ap (equal (codes "https")) (with_port-scheme to)) ∙ h) in
      ap is_empty (with_port-port to absent)
      ∙ subst {A = Bytes} (λ sc. is_empty (default_port_for_scheme sc) ≡ false) https refl
  | inr present ↦ rw (with_port, present, if◌then◌else◌) present
]

-- The hop that `follow` makes of an allowed location.
allow_hop-Allowed :
    (mode : RedirectMode) (h : Hop) (v : Verb) (to : Url)
    → (equal (codes "https") to.scheme ≡ true → is_empty to.port ≡ false)
    → allowed_by mode (base_url h) to v ≡ true
    → Allowed mode h (record {
      method = v;
      cur_host = to.host;
      cur_port = if is_empty to.port then default_port_for_scheme (codes "https") else to.port;
      cur_target = target to;
    })
unfolding allowed_by same_origin base_url
allow_hop-Allowed follow_none h v to known ok = absurd (ground (arith, ok))
allow_hop-Allowed safe_only h v to known ok = ok
allow_hop-Allowed same_origin_only h v to known ok =
    let s : equal (codes "https") to.scheme ≡ true = ground (arith, ok) in
    let host : equal h.cur_host to.host ≡ true = ground (arith, ok) in
    let port : equal h.cur_port to.port ≡ true = ground (arith, ok) in
    (
      sym ((equal_iff h.cur_host to.host).0 host),
      rw (known s, if◌then◌else◌) (sym ((equal_iff h.cur_port to.port).0 port)),
    )
allow_hop-Allowed follow_all h v to known ok = tt

one_attempt :
    (left hops sent before most : ℕ)
    → sent ≤ before + suc most
    → most ≡ hops
    → sent ≤ before + suc left * suc hops
one_attempt left hops sent before most here same =
    omega (arith, here, same, suc-mul left (suc hops))

all_attempts :
    (left hops sent before most : ℕ)
    → sent ≤ before + suc most
    → most ≡ hops
    → (after : ℕ) → after ≤ sent + left * suc hops
    → after ≤ before + suc left * suc hops
all_attempts left hops sent before most here same after rest =
    omega (arith, here, same, rest, suc-mul left (suc hops))

module _ (W : Web) (fuel : ℕ) where
  follow-Allowed :
      (policy : RedirectPolicy) (h : Hop) (v : Verb) (to : Url)
      → (equal (codes "https") to.scheme ≡ true → is_empty to.port ≡ false)
      → TurnAllowed policy.mode h (follow W fuel policy h v to)
  unfolding follow allow_hop
  follow-Allowed policy h v to known =
      elim (Bool-cases (allowed_by policy.mode (base_url h) to v)) [
        | inr refused ↦ rw (follow, allow_hop, refused, if◌then◌else◌) tt
        | inl allowed ↦
            elim (Bool-cases (not (is_empty to.scheme) && not (equal to.scheme (codes "https")))) [
              | inl other_scheme ↦ rw (follow, allow_hop, allowed, other_scheme, if◌then◌else◌) tt
              | inr https ↦
                  rw (follow, allow_hop, allowed, https, if◌then◌else◌)
                    (allow_hop-Allowed policy.mode h v to known allowed)
            ]
      ]

  redirect-Allowed :
      (policy : RedirectPolicy) (h : Hop) (status : ℕ) (loc : Option Bytes)
      → TurnAllowed policy.mode h (redirect W fuel policy h status loc)
  unfolding redirect
  redirect-Allowed policy h status none = tt
  redirect-Allowed policy h status (some loc) =
      elim (Option-cases (resolve_url fuel (base_url h) loc)) [
        | inl endless_loop ↦ rw (redirect, endless_loop) tt
        | inr (to, resolved) ↦
            rw (redirect, resolved)
              (follow-Allowed policy h (next_verb h.method status) (with_port to)
                (with_port-known to))
      ]

  turn-Allowed :
      (policy : RedirectPolicy) (auto : Bool) (h : Hop) (res : Response)
      → TurnAllowed policy.mode h (turn W fuel policy auto h res)
  unfolding turn
  turn-Allowed policy auto h res = elim (Bool-cases (is_redirect_status res.status)) [
    | inl redirects ↦
        rw (turn, redirects, if◌then◌else◌) (redirect-Allowed policy h res.status res.location)
    | inr other ↦ elim (Bool-cases (ltb res.status 200 || leb 300 res.status)) [
      | inl failed ↦ rw (turn, other, failed, if◌then◌else◌) tt
      | inr fine ↦ rw (turn, other, fine, if◌then◌else◌) tt
    ]
  ]

  receive-keeps :
      (h : Hop) (res : Response) (c : Client W)
      → ((receive W fuel h res c).sent ≡ c.sent)
        × ((receive W fuel h res c).redirect_policy ≡ c.redirect_policy)
  unfolding receive
  receive-keeps h res c = elim (Bool-cases c.cookies_enabled) [
    | inl enabled ↦ rw (receive, enabled, if◌then◌else◌) (refl, refl)
    | inr disabled ↦ rw (receive, disabled, if◌then◌else◌) (refl, refl)
  ]

  -- The rest of a call behind a response, by what the response leads to.
  step-Trail :
      (n : ℕ) (policy : RedirectPolicy) (h : Hop) (r : Request) (before : List Request)
      (auto : Bool) (body : Bytes) (after : Client W)
      → IsFor h r
      → after.sent ≡ r ∷ before
      → after.redirect_policy ≡ policy
      → ((next : Hop) (c : Client W)
          → c.redirect_policy ≡ policy
          → Trail policy.mode n next c.sent (perform_from W fuel n auto next body c).1.sent)
      → (t : Turn W.J) → TurnAllowed policy.mode h t
      → Trail policy.mode (suc n) h before (
          (elim t as (λ _. Outcome W.J × Client W) [
            | ends o ↦ (o, after)
            | follows next ↦ perform_from W fuel n auto next body after
          ]).1.sent)
  step-Trail n policy h r before auto body after for sent same more (ends o) allowed =
      subst {A = List Request} (λ now. Trail policy.mode (suc n) h before now) (sym sent)
        (arrives n h r before for)
  step-Trail n policy h r before auto body after for sent same more (follows next) allowed =
      goes n h next r before ((perform_from W fuel n auto next body after).1.sent) for allowed (
        subst {A = List Request}
          (λ old. Trail policy.mode n next old (perform_from W fuel n auto next body after).1.sent)
          sent (more next after same))

  perform_from-Trail :
      (n : ℕ) (policy : RedirectPolicy) (auto : Bool) (body : Bytes) (h : Hop) (c : Client W)
      → c.redirect_policy ≡ policy
      → Trail policy.mode n h c.sent (perform_from W fuel n auto h body c).1.sent
  unfolding perform_from send request_of
  perform_from-Trail zero policy auto body h c same = stays zero h c.sent
  perform_from-Trail (suc n) policy auto body h c same =
      elim (Option-cases (send W fuel h body c).0) [
        | inl broken ↦
            rw (perform_from, broken)
              (arrives n h (request_of W fuel h body c) c.sent (refl, (refl, (refl, refl))))
        | inr (res, came) ↦
            rw (perform_from, came)
              (step-Trail n policy h (request_of W fuel h body c) c.sent auto body
                (receive W fuel h res (send W fuel h body c).1) (refl, (refl, (refl, refl)))
                (receive-keeps h res (send W fuel h body c).1).0
                ((receive-keeps h res (send W fuel h body c).1).1 ∙ same)
                (λ next d e. perform_from-Trail n policy auto body next d e)
                (turn W fuel c.redirect_policy auto h res)
                (subst {A = RedirectPolicy}
                  (λ p. TurnAllowed policy.mode h (turn W fuel p auto h res)) (sym same)
                  (turn-Allowed policy auto h res)))
      ]

  pub perform-Trail :
      (method : Verb) (host port t body : Bytes) (auto : Bool) (c : Client W)
      → Trail c.redirect_policy.mode
          (suc c.redirect_policy.max_hops)
          (record {
            method = method;
            cur_host = host;
            cur_port = if is_empty port then default_port_for_scheme (codes "https") else port;
            cur_target = t;
          })
          c.sent
          (perform W fuel method host port t body auto c).1.sent
  unfolding perform
  perform-Trail method host port t body auto c =
      perform_from-Trail (suc c.redirect_policy.max_hops) c.redirect_policy auto body
        (record {
          method = method;
          cur_host = host;
          cur_port = if is_empty port then default_port_for_scheme (codes "https") else port;
          cur_target = t;
        })
        c refl

  turned-policy :
      (n : ℕ) (auto : Bool) (body : Bytes) (after : Client W) (policy : RedirectPolicy)
      → after.redirect_policy ≡ policy
      → ((next : Hop) (c : Client W)
          → (perform_from W fuel n auto next body c).1.redirect_policy ≡ c.redirect_policy)
      → (t : Turn W.J)
      → ((elim t as (λ _. Outcome W.J × Client W) [
        | ends o ↦ (o, after)
        | follows next ↦ perform_from W fuel n auto next body after
      ]).1.redirect_policy)
        ≡ policy
  turned-policy n auto body after policy same more (ends o) = same
  turned-policy n auto body after policy same more (follows next) = more next after ∙ same

  perform_from-policy :
      (n : ℕ) (auto : Bool) (body : Bytes) (h : Hop) (c : Client W)
      → (perform_from W fuel n auto h body c).1.redirect_policy ≡ c.redirect_policy
  unfolding perform_from send
  perform_from-policy zero auto body h c = refl
  perform_from-policy (suc n) auto body h c = elim (Option-cases (send W fuel h body c).0) [
    | inl broken ↦ rw (perform_from, broken) refl
    | inr (res, came) ↦
        rw (perform_from, came)
          (turned-policy n auto body (receive W fuel h res (send W fuel h body c).1)
            c.redirect_policy (receive-keeps h res (send W fuel h body c).1).1
            (λ next d. perform_from-policy n auto body next d)
            (turn W fuel c.redirect_policy auto h res))
  ]

  perform-length :
      (method : Verb) (host port t body : Bytes) (auto : Bool) (c : Client W)
      → length (perform W fuel method host port t body auto c).1.sent
        ≤ length c.sent + suc c.redirect_policy.max_hops
  perform-length method host port t body auto c =
      Trail-length c.redirect_policy.mode (suc c.redirect_policy.max_hops)
        (record {
          method = method;
          cur_host = host;
          cur_port = if is_empty port then default_port_for_scheme (codes "https") else port;
          cur_target = t;
        })
        c.sent (perform W fuel method host port t body auto c).1.sent
        (perform-Trail method host port t body auto c)

  attempts-length :
      (left : ℕ) (r : RetryOptions) (first : Hop) (auto : Bool) (c : Client W) (hops : ℕ)
      → c.redirect_policy.max_hops ≡ hops
      → length (attempts_from W fuel left r first auto c).1.sent ≤ length c.sent + left * suc hops
  unfolding attempts_from perform
  attempts-length zero r first auto c hops same = omega arith
  attempts-length (suc left) r first auto c hops same =
      let done = perform W fuel get first.cur_host first.cur_port first.cur_target [] auto c in
      let here = perform-length get first.cur_host first.cur_port first.cur_target [] auto c in
      let kept : done.1.redirect_policy.max_hops ≡ hops =
        ap (λ (p : RedirectPolicy). p.max_hops)
          (perform_from-policy (suc c.redirect_policy.max_hops) auto []
            (record {
              method = get;
              cur_host = first.cur_host;
              cur_port =
                  if is_empty first.cur_port
                  then default_port_for_scheme (codes "https")
                  else first.cur_port;
              cur_target = first.cur_target;
            })
            c)
        ∙ same in
      let rest = attempts-length left r first auto done.1 hops kept in
      elim (Bool-cases (is_retried W fuel r done.0 && not (left == 0))) [
        | inl again ↦
            rw (attempts_from, again, if◌then◌else◌)
              (all_attempts left hops (length done.1.sent) (length c.sent)
                c.redirect_policy.max_hops here same _ rest)
        | inr over ↦
            rw (attempts_from, over, if◌then◌else◌)
              (one_attempt left hops (length done.1.sent) (length c.sent) c.redirect_policy.max_hops
                here same)
      ]

  -- `get_with_retry` sends at most max_attempts times max_hops + 1 requests.
  pub get_with_retry-length :
      (r : RetryOptions) (host port t : Bytes) (auto : Bool) (c : Client W)
      → length (get_with_retry W fuel r host port t auto c).1.sent
        ≤ length c.sent + r.max_attempts * suc c.redirect_policy.max_hops
  unfolding get_with_retry
  get_with_retry-length r host port t auto c =
      attempts-length r.max_attempts r
        (record { method = get; cur_host = host; cur_port = port; cur_target = t }) auto c
        c.redirect_policy.max_hops refl
