-- ===== src/Net/Client/Pool.antt =====
-- The pool of connections of `client`: lib/net/include/tb/net/http/http_client.hpp and
-- lib/net/src/tb/net/http/http_client.cpp. Requests run interleaved on one strand; a step is what one
-- does between two suspensions. Times are in nanoseconds. A vector is a list with its back in front.
pub mod Keys
pub mod Owned
pub mod Interleaved
mod Tests
use twitch_bot.Prelude.{
  ℕ, ◌+◌, ◌-◌, ◌*◌, ◌^◌, ◌≡◌, Bool, true, false, ◌&&◌, Option, none, some, List, [], ◌∷◌, ◌++◌, ltb,
  if◌then◌else◌, length, map, flatten,
}
use twitch_bot.Prelude.Bytes.{Bytes}
use twitch_bot.Prelude.Search.{Lacks}
use twitch_bot.Prelude.Assoc.{lookup, replace}

-- A connection, with the host and the port that it was opened to; `id` tells connections apart.
pub record Connection : Type 0 where
  pub id : ℕ
  pub host : Bytes
  pub port : Bytes
  pub last_used : ℕ

abbrev pub Buckets : Type 0
Buckets = List (Bytes × List Connection)

unfoldable pub make_pool_key : Bytes → Bytes → Bytes
make_pool_key host port = host ++ b':' ∷ port

abbrev pub k_pool_idle_timeout : ℕ
k_pool_idle_timeout = 60 * 10 ^ 9

-- `steady_clock::now() - conn->last_used > k_pool_idle_timeout`
unfoldable pub is_stale : ℕ → Connection → Bool
is_stale now c = ltb k_pool_idle_timeout (now - c.last_used)

-- `vec.back()`, which is popped, unless it is stale.
unfoldable pub pop_fresh : ℕ → List Connection → Option Connection
pop_fresh now [] = none
pop_fresh now (c ∷ cs) = if is_stale now c then none else some c

unfoldable pub popped : List Connection → List Connection
popped [] = []
popped (c ∷ cs) = cs

-- What a request takes from the pool, and the pool that it leaves, with a bucket for its key.
unfoldable pub take_connection : Bytes → ℕ → Buckets → Option Connection
take_connection key now pool = elim (lookup key pool) [
  | none ↦ none
  | some bucket ↦ pop_fresh now bucket
]

unfoldable pub without_taken : Bytes → Buckets → Buckets
without_taken key pool = elim (lookup key pool) [
  | none ↦ (key, []) ∷ pool
  | some bucket ↦ replace key (popped bucket) pool
]

-- `return_to_pool`; `limit` is `expected_conns_per_host_`.
unfoldable pub return_to_pool : ℕ → Bool → Bool → ℕ → Bytes → Connection → Buckets → Buckets
return_to_pool limit keep_alive is_open now key c pool = elim (lookup key pool) [
  | none ↦ pool
  | some bucket ↦
      if keep_alive && (is_open && ltb (length bucket) limit)
      then replace key (record c { last_used = now } ∷ bucket) pool
      else pool
]

-- `shutdown`: the connections that are closed, and the pool that is left.
unfoldable pub shutdown : Buckets → List Connection × Buckets
shutdown pool = (flatten (map (λ b. b.1) pool), [])

-- A request to a host and a port with the connection that it uses.
pub record Held : Type 0 where
  pub host : Bytes
  pub port : Bytes
  pub conn : Connection

pub record Pool : Type 0 where
  pub buckets : Buckets
  pub held : List Held
  pub next_id : ℕ
  pub now : ℕ

-- A request takes a connection, or finds none; one that has found none opens its connection; time
-- passes; a request ends, by its return or an exception; and the client is shut down while no request
-- is under way. No port has a ':'.
pub data Step (limit : ℕ) (s : Pool) : Pool → Type 0 where
  reuses :
      (host port : Bytes) (c : Connection)
      → Lacks b':' port
      → take_connection (make_pool_key host port) s.now s.buckets ≡ some c
      → Step limit s (record s {
        buckets = without_taken (make_pool_key host port) s.buckets;
        held = record { host = host; port = port; conn = c } ∷ s.held;
      })
  misses :
      (host port : Bytes)
      → take_connection (make_pool_key host port) s.now s.buckets ≡ none
      → Step limit s (record s { buckets = without_taken (make_pool_key host port) s.buckets })
  opens :
      (host port : Bytes)
      → Lacks b':' port
      → Step limit s (record s {
        held =
            record {
              host = host;
              port = port;
              conn = record { id = s.next_id; host = host; port = port; last_used = s.now };
            }
            ∷ s.held;
        next_id = s.next_id + 1;
      })
  passes : (n : ℕ) → Step limit s (record s { now = s.now + n })
  finishes :
      (before after : List Held) (h : Held) (keep_alive is_open : Bool)
      → s.held ≡ before ++ h ∷ after
      → Step limit s (record s {
        buckets =
            return_to_pool limit keep_alive is_open s.now
              (make_pool_key h.host h.port)
              h.conn
              s.buckets;
        held = before ++ after;
      })
  shuts_down : s.held ≡ [] → Step limit s (record s { buckets = (shutdown s.buckets).1 })

-- The client as it is constructed.
abbrev pub unused : ℕ → Pool
unused now = record { buckets = []; held = []; next_id = 0; now = now }

pub data Reach (limit : ℕ) : Pool → Type 0 where
  start : (now : ℕ) → Reach limit (unused now)
  next : {s t : Pool} → Reach limit s → Step limit s t → Reach limit t
