-- ===== src/Net/Redirect.antt =====
-- lib/net/include/tb/net/http/redirect_policy.hpp.
use twitch_bot.Prelude.{ℕ, Bool, true, false, ◌&&◌, ◌||◌, ◌==◌, if◌then◌else◌}
use twitch_bot.Prelude.Bytes.{Bytes, equal}
use twitch_bot.Net.Url.{Url}

-- `boost::beast::http::verb`, by the verbs that the code names.
pub data Verb : Type 0 where
  get head post : Verb
  other_verb : ℕ → Verb

unfoldable pub is_redirect_status : ℕ → Bool
is_redirect_status s = s == 301 || s == 302 || s == 303 || s == 307 || s == 308

unfoldable pub keep_method_on_redirect : ℕ → Bool
keep_method_on_redirect s = s == 307 || s == 308

pub data RedirectMode : Type 0 where
  follow_none safe_only same_origin_only follow_all : RedirectMode

pub record RedirectPolicy : Type 0 where
  pub max_hops : ℕ
  pub mode : RedirectMode

unfoldable pub post_to_get : Verb → Verb
post_to_get post = get
post_to_get get = get
post_to_get head = head
post_to_get (other_verb n) = other_verb n

unfoldable pub next_verb : Verb → ℕ → Verb
next_verb cur status =
    if keep_method_on_redirect status then cur else if status == 303 then get else post_to_get cur

-- `resulting == get || resulting == head`
unfoldable pub is_safe : Verb → Bool
is_safe get = true
is_safe head = true
is_safe post = false
is_safe (other_verb n) = false

unfoldable pub same_origin : Bytes → Bytes → Bytes → Bytes → Bytes → Bytes → Bool
same_origin scheme_a host_a port_a scheme_b host_b port_b =
    equal scheme_a scheme_b && equal host_a host_b && equal port_a port_b

unfoldable pub allowed_by : RedirectMode → Url → Url → Verb → Bool
allowed_by follow_none from to resulting = false
allowed_by safe_only from to resulting = is_safe resulting
allowed_by same_origin_only from to resulting =
    same_origin from.scheme from.host from.port to.scheme to.host to.port
allowed_by follow_all from to resulting = true

unfoldable pub allow_hop : RedirectPolicy → Url → Url → Verb → Bool
allow_hop policy from to resulting = allowed_by policy.mode from to resulting
