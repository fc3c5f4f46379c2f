-- ===== src/Net/Client/Pool/Interleaved.antt =====
-- The pool under every interleaving of requests.
use twitch_bot.Prelude.{ℕ, ◌+◌, ◌≡◌, ◌≢◌, refl, ap, subst, ◌∙◌, some, List, [], ◌++◌, arith}
use twitch_bot.Prelude.Bytes.{Bytes}
use twitch_bot.Prelude.Assoc.{lookup}
use twitch_bot.Net.Client.Pool.{
  Connection, make_pool_key, Pool, Step, reuses, misses, opens, passes, finishes, shuts_down, Reach,
  start, next, shutdown,
}
use twitch_bot.Net.Client.Pool.Keys.{
  one_if, count_pool, count_held, count_held-middle, count-taken, count-without_taken,
  count-return_to_pool,
}
use twitch_bot.Net.Client.Pool.Owned.{
  AreUsed, IsPool, AreOwn-later, AreUsed-later, AreUsed-drop, without_taken-AreBuckets,
  return_to_pool-AreBuckets, taken-IsUsed,
}

no_entry : (key : Bytes) (bucket : List Connection) → lookup key [] ≢ some bucket
unfolding lookup
no_entry key bucket h = cc h

empty_count : (id : ℕ) → count_pool id [] ≡ 0
unfolding count_pool
empty_count id = refl

Step-IsPool : {limit : ℕ} {s t : Pool} → Step limit s t → IsPool limit s → IsPool limit t
unfolding count_held shutdown
Step-IsPool {limit} {s} (reuses host port c no_colon h) v = record {
  bounded = without_taken-AreBuckets limit s.now (make_pool_key host port) s.buckets v.bounded;
  own = (taken-IsUsed limit s.now host port s.buckets c v.bounded no_colon h, v.own);
  once =
      λ id. omega (arith, v.once id, count-taken id s.now (make_pool_key host port) s.buckets c h);
  unopened = λ id later.
      omega
        (arith, v.unopened id later, count-taken id s.now (make_pool_key host port) s.buckets c h);
}
Step-IsPool {limit} {s} (misses host port h) v = record {
  bounded = without_taken-AreBuckets limit s.now (make_pool_key host port) s.buckets v.bounded;
  own = v.own;
  once = λ id. omega (arith, v.once id, count-without_taken id (make_pool_key host port) s.buckets);
  unopened = λ id later.
      omega
        (arith, v.unopened id later, count-without_taken id (make_pool_key host port) s.buckets);
}
Step-IsPool {limit} {s} (opens host port no_colon) v = record {
  bounded = v.bounded;
  own = ((refl, (refl, (no_colon, omega arith))), v.own);
  once = λ id. ground (arith, v.once id, v.unopened id);
  unopened = λ id later. ground (arith, v.unopened id);
}
Step-IsPool {limit} {s} (passes n) v = record {
  bounded = λ key bucket h.
      (let (few, owned) = v.bounded key bucket h in (few, AreOwn-later s.now n key bucket owned));
  own = AreUsed-later s.now n s.held v.own;
  once = v.once;
  unopened = v.unopened;
}
Step-IsPool {limit} {s} (finishes before after h keep_alive is_open e) v =
    let (used, rest) = AreUsed-drop s.now before after h (subst (AreUsed s.now) e v.own) in
    let key = make_pool_key h.host h.port in
    let counts : (id : ℕ)
        → count_held id s.held ≡ one_if h.conn.id id + count_held id (before ++ after) =
      λ id. ap (count_held id) e ∙ count_held-middle id before after h in
    record {
      bounded = return_to_pool-AreBuckets limit keep_alive is_open s.now h s.buckets v.bounded used;
      own = rest;
      once = λ id. omega (
        arith,
        v.once id,
        counts id,
        count-return_to_pool id limit keep_alive is_open s.now key h.conn s.buckets,
      );
      unopened = λ id later. omega (
        arith,
        v.unopened id later,
        counts id,
        count-return_to_pool id limit keep_alive is_open s.now key h.conn s.buckets,
      );
    }
Step-IsPool {limit} {s} (shuts_down e) v = record {
  bounded = λ key bucket h. absurd (no_entry key bucket h);
  own = v.own;
  once = λ id. omega (arith, v.once id, empty_count id);
  unopened = λ id later. omega (arith, v.unopened id later, empty_count id);
}

-- In every state of the pool no bucket has more connections than the limit, each connection of a bucket
-- was opened to the host and the port of its key, each request uses a connection to its own host and
-- port, no connection is in two places, and none was last used in the future.
pub Reach-IsPool : {limit : ℕ} {s : Pool} → Reach limit s → IsPool limit s
unfolding count_pool count_held
Reach-IsPool (start now) = record {
  bounded = λ key bucket h. absurd (no_entry key bucket h);
  own = tt;
  once = λ id. omega arith;
  unopened = λ id later. omega arith;
}
Reach-IsPool (next r step) = Step-IsPool step (Reach-IsPool r)
