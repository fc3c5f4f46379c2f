-- ===== src/Net/Client/Pool/Tests.antt =====
-- Two requests to one host, one behind the other, with a third at the same time.
use twitch_bot.Prelude.{ℕ, refl, true, [], ◌∷◌, arith}
use twitch_bot.Prelude.Bytes.{Bytes, codes, equal}
use twitch_bot.Prelude.Assoc.{lookup, replace}
use twitch_bot.Net.Client.Pool.{
  Connection, Held, Pool, make_pool_key, is_stale, pop_fresh, popped, take_connection,
  without_taken, return_to_pool, reuses, misses, opens, passes, finishes, Reach, start, next,
}
use twitch_bot.Net.Client.Pool.Owned.{IsPool}
use twitch_bot.Net.Client.Pool.Interleaved.{Reach-IsPool}

abbrev host : Bytes
host = codes "id.twitch.tv"

abbrev port : Bytes
port = codes "443"

abbrev opened : ℕ → ℕ → Connection
opened id now = record { id = id; host = host; port = port; last_used = now }

abbrev held : Connection → Held
held c = record { host = host; port = port; conn = c }

-- The first connection is taken again while the second is in use.
abbrev reused : Pool
reused = record {
  buckets = (make_pool_key host port, []) ∷ [];
  held = held (opened 0 7) ∷ held (opened 1 5) ∷ [];
  next_id = 2;
  now = 10;
}

pool_runs : Unit {0}
unfolding equal lookup replace make_pool_key is_stale pop_fresh popped take_connection without_taken
    return_to_pool
pool_runs = tt

reused-Reach : Reach 4 reused
unfolding pool_runs
reused-Reach =
    next
      (next
        (next
          (next
            (next (next (next (start 5) (misses host port refl)) (opens host port (omega arith)))
              (opens host port (omega arith)))
            (passes 2))
          (finishes (held (opened 1 5) ∷ []) [] (held (opened 0 5)) true true refl))
        (passes 3))
      (reuses host port (opened 0 7) (omega arith) refl)

Reach-IsPool_example : IsPool 4 reused
Reach-IsPool_example = Reach-IsPool reused-Reach
