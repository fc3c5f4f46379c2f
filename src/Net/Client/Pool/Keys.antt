-- ===== src/Net/Client/Pool/Keys.antt =====
-- Keys of the pool, and how often a connection is in it.
use mathlib.Core.Option.{some-injective}
use twitch_bot.Prelude.{
  ℕ, ◌+◌, ◌≤◌, ◌≡◌, refl, ap, sym, ◌∙◌, inl, inr, some, List, [], ◌∷◌, ◌++◌, ◌==◌, ltb, ◌&&◌, Bool,
  if◌then◌else◌, Bool-cases, Option-cases, length, take, drop, take-append_left, drop-append_cons,
  arith,
}
use twitch_bot.Prelude.Bytes.{Bytes, equal}
use twitch_bot.Prelude.Search.{Lacks, rfind, rfind-append}
use twitch_bot.Prelude.Assoc.{lookup, replace}
use twitch_bot.Net.Client.Pool.{
  Connection, Buckets, make_pool_key, pop_fresh, popped, take_connection, without_taken,
  return_to_pool, Held,
}

-- A key gives the host and the port back.
pub make_pool_key-injective :
    (host port host' port' : Bytes)
    → Lacks b':' port
    → Lacks b':' port'
    → make_pool_key host port ≡ make_pool_key host' port'
    → (host ≡ host') × (port ≡ port')
unfolding make_pool_key
make_pool_key-injective host port host' port' v v' e =
    let n : length host ≡ length host' = some-injective (length host) (length host') (
      sym (rfind-append b':' host port v) ∙ ap (rfind b':') e ∙ rfind-append b':' host' port' v') in
    (
      sym (take-append_left host (b':' ∷ port))
          ∙ ap (take (length host)) e
          ∙ ap (λ k. take k (host' ++ b':' ∷ port')) n
          ∙ take-append_left host' (b':' ∷ port'),
      sym (drop-append_cons host b':' port)
          ∙ ap (drop (length host + 1)) e
          ∙ ap (λ k. drop (k + 1) (host' ++ b':' ∷ port')) n
          ∙ drop-append_cons host' b':' port',
    )

abbrev pub one_if : ℕ → ℕ → ℕ
one_if a b = if a == b then 1 else 0

-- How often a connection is in a bucket, in the pool, and in use.
unfoldable pub count : ℕ → List Connection → ℕ
count id [] = 0
count id (c ∷ cs) = one_if c.id id + count id cs

unfoldable pub count_pool : ℕ → Buckets → ℕ
count_pool id [] = 0
count_pool id (b ∷ pool) = count id b.1 + count_pool id pool

unfoldable pub count_held : ℕ → List Held → ℕ
count_held id [] = 0
count_held id (h ∷ held) = one_if h.conn.id id + count_held id held

pub count_pool-replace :
    (id : ℕ) (key : Bytes) (v u : List Connection) (pool : Buckets)
    → lookup key pool ≡ some u
    → count_pool id (replace key v pool) + count id u ≡ count_pool id pool + count id v
unfolding count_pool lookup replace
count_pool-replace id key v u [] h = ground (arith, h)
count_pool-replace id key v u (b ∷ pool) h = elim (Bool-cases (equal b.0 key)) [
  | inl same ↦ ground (arith, same, h)
  | inr differs ↦ ground (arith, differs, h, count_pool-replace id key v u pool)
]

pub count_held-middle :
    (id : ℕ) (before after : List Held) (h : Held)
    → count_held id (before ++ h ∷ after) ≡ one_if h.conn.id id + count_held id (before ++ after)
unfolding count_held
count_held-middle id [] after h = refl
count_held-middle id (g ∷ before) after h = omega (arith, count_held-middle id before after h)

-- A connection that is taken was the back of the bucket.
pub take_connection-some :
    (key : Bytes) (now : ℕ) (pool : Buckets) (c : Connection)
    → take_connection key now pool ≡ some c
    → (cs : List Connection) × (lookup key pool ≡ some (c ∷ cs))
unfolding take_connection pop_fresh
take_connection-some key now pool c h = elim (Option-cases (lookup key pool)) [
  | inl absent ↦ absurd (cc (rw (take_connection, absent) at h))
  | inr ([], found) ↦ absurd (cc (rw (take_connection, found) at h))
  | inr (b ∷ cs, found) ↦
      let e : b ≡ c = ground (arith, rw (take_connection, found) at h) in
      (cs, found ∙ ap (λ x. some (x ∷ cs)) e)
]

pub count-taken :
    (id now : ℕ) (key : Bytes) (pool : Buckets) (c : Connection)
    → take_connection key now pool ≡ some c
    → count_pool id (without_taken key pool) + one_if c.id id ≡ count_pool id pool
unfolding without_taken popped count
count-taken id now key pool c h =
    let (cs, found) = take_connection-some key now pool c h in
    rw (without_taken, found) (omega (arith, count_pool-replace id key cs (c ∷ cs) pool found))

pub count-without_taken :
    (id : ℕ) (key : Bytes) (pool : Buckets)
    → count_pool id (without_taken key pool) ≤ count_pool id pool
unfolding without_taken popped count count_pool
count-without_taken id key pool = elim (Option-cases (lookup key pool)) [
  | inl absent ↦ rw (without_taken, absent) (omega arith)
  | inr ([], found) ↦
      rw (without_taken, found) (omega (arith, count_pool-replace id key [] [] pool found))
  | inr (c ∷ cs, found) ↦
      rw (without_taken, found) (omega (arith, count_pool-replace id key cs (c ∷ cs) pool found))
]

pub count-return_to_pool :
    (id limit : ℕ) (keep_alive is_open : Bool) (now : ℕ) (key : Bytes) (c : Connection)
    (pool : Buckets)
    → count_pool id (return_to_pool limit keep_alive is_open now key c pool)
      ≤ count_pool id pool + one_if c.id id
unfolding return_to_pool count
count-return_to_pool id limit keep_alive is_open now key c pool =
    elim (Option-cases (lookup key pool)) [
      | inl absent ↦ rw (return_to_pool, absent) (omega arith)
      | inr (bucket, found) ↦
          elim (Bool-cases (keep_alive && (is_open && ltb (length bucket) limit))) [
            | inl kept ↦
                rw (return_to_pool, found, kept)
                  (omega (
                    arith,
                    count_pool-replace id key (record c { last_used = now } ∷ bucket) bucket pool
                        found,
                  ))
            | inr closed ↦ rw (return_to_pool, found, closed) (omega arith)
          ]
    ]
