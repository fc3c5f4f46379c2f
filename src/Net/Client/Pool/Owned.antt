-- ===== src/Net/Client/Pool/Owned.antt =====
-- What holds of the pool and of the connections in use.
use mathlib.Core.Option.{some-injective}
use twitch_bot.Prelude.{
  ℕ, ◌+◌, ◌≤◌, ◌≡◌, refl, sym, subst, ◌∙◌, Bool, ◌&&◌, inl, inr, some, List, [], ◌∷◌, ◌++◌, ltb,
  if◌then◌else◌, Bool-cases, Option-cases, length, arith,
}
use twitch_bot.Prelude.Bytes.{Bytes, equal, equal_iff}
use twitch_bot.Prelude.Search.{Lacks}
use twitch_bot.Prelude.Assoc.{lookup, lookup_cons, replace, lookup-replace_if}
use twitch_bot.Net.Client.Pool.{
  Connection, Buckets, make_pool_key, popped, take_connection, without_taken, return_to_pool, Held,
  Pool,
}
use twitch_bot.Net.Client.Pool.Keys.{
  make_pool_key-injective, count_pool, count_held, take_connection-some,
}

-- A connection stands in the bucket of the host and the port that it was opened to.
abbrev pub IsOwn : ℕ → Bytes → Connection → Type 0
IsOwn now key c = Lacks b':' c.port × ((make_pool_key c.host c.port ≡ key) × (c.last_used ≤ now))

abbrev pub AreOwn : ℕ → Bytes → List Connection → Type 0
AreOwn now key [] = Unit {0}
AreOwn now key (c ∷ cs) = IsOwn now key c × AreOwn now key cs

abbrev pub AreBuckets : ℕ → ℕ → Buckets → Type 0
AreBuckets limit now pool =
    (key : Bytes) (bucket : List Connection)
    → lookup key pool ≡ some bucket
    → (length bucket ≤ limit) × AreOwn now key bucket

-- A request uses a connection to its own host and port.
abbrev pub IsUsed : ℕ → Held → Type 0
IsUsed now h =
    (h.conn.host ≡ h.host)
    × ((h.conn.port ≡ h.port) × (Lacks b':' h.conn.port × (h.conn.last_used ≤ now)))

abbrev pub AreUsed : ℕ → List Held → Type 0
AreUsed now [] = Unit {0}
AreUsed now (h ∷ held) = IsUsed now h × AreUsed now held

-- No bucket has more connections than the limit, each connection of a bucket was opened to the host and
-- port of its key, each request uses one that was opened to its own, and no connection is in two places.
pub record IsPool (limit : ℕ) (s : Pool) : Type 0 where
  pub bounded : AreBuckets limit s.now s.buckets
  pub own : AreUsed s.now s.held
  pub once : (id : ℕ) → count_pool id s.buckets + count_held id s.held ≤ 1
  pub unopened : (id : ℕ) → s.next_id ≤ id → count_pool id s.buckets + count_held id s.held ≡ 0

pub AreOwn-later :
    (now n : ℕ) (key : Bytes) (cs : List Connection) → AreOwn now key cs → AreOwn (now + n) key cs
AreOwn-later now n key [] v = tt
AreOwn-later now n key (c ∷ cs) v =
    ((v.0.0, (v.0.1.0, omega (arith, v.0.1.1))), AreOwn-later now n key cs v.1)

pub AreUsed-later : (now n : ℕ) (held : List Held) → AreUsed now held → AreUsed (now + n) held
AreUsed-later now n [] v = tt
AreUsed-later now n (h ∷ held) v =
    ((v.0.0, (v.0.1.0, (v.0.1.1.0, omega (arith, v.0.1.1.1)))), AreUsed-later now n held v.1)

pub AreUsed-drop :
    (now : ℕ) (before after : List Held) (h : Held)
    → AreUsed now (before ++ h ∷ after)
    → IsUsed now h × AreUsed now (before ++ after)
AreUsed-drop now [] after h v = v
AreUsed-drop now (g ∷ before) after h v =
    let (used, rest) = AreUsed-drop now before after h v.1 in (used, (v.0, rest))

AreBuckets-replace :
    (limit now : ℕ) (key : Bytes) (u v : List Connection) (pool : Buckets)
    → AreBuckets limit now pool
    → lookup key pool ≡ some u
    → length v ≤ limit
    → AreOwn now key v
    → AreBuckets limit now (replace key v pool)
AreBuckets-replace limit now key u v pool good found few owned other bucket h =
    let e = sym (lookup-replace_if key other v u pool found) ∙ h in
    elim (Bool-cases (equal key other)) [
      | inl same ↦
          let w : v ≡ bucket = some-injective v bucket (rw (same, if◌then◌else◌) at e) in
          subst (λ b. (length b ≤ limit) × AreOwn now other b) w
            (few, subst (λ k. AreOwn now k v) ((equal_iff key other).0 same) owned)
      | inr differs ↦ good other bucket (rw (differs, if◌then◌else◌) at e)
    ]

AreBuckets-cons :
    (limit now : ℕ) (key : Bytes) (pool : Buckets)
    → AreBuckets limit now pool
    → AreBuckets limit now ((key, []) ∷ pool)
AreBuckets-cons limit now key pool good other bucket h =
    let e = sym (lookup_cons key other [] pool) ∙ h in
    elim (Bool-cases (equal key other)) [
      | inl same ↦
          let w : [] ≡ bucket = some-injective [] bucket (rw (same, if◌then◌else◌) at e) in
          subst (λ b. (length b ≤ limit) × AreOwn now other b) w (omega arith, tt)
      | inr differs ↦ good other bucket (rw (differs, if◌then◌else◌) at e)
    ]

popped-short : (cs : List Connection) → length (popped cs) ≤ length cs
unfolding popped
popped-short [] = omega arith
popped-short (c ∷ cs) = omega arith

popped-AreOwn :
    (now : ℕ) (key : Bytes) (cs : List Connection) → AreOwn now key cs → AreOwn now key (popped cs)
unfolding popped
popped-AreOwn now key [] v = tt
popped-AreOwn now key (c ∷ cs) v = v.1

pub without_taken-AreBuckets :
    (limit now : ℕ) (key : Bytes) (pool : Buckets)
    → AreBuckets limit now pool
    → AreBuckets limit now (without_taken key pool)
unfolding without_taken
without_taken-AreBuckets limit now key pool good = elim (Option-cases (lookup key pool)) [
  | inl absent ↦ rw (without_taken, absent) (AreBuckets-cons limit now key pool good)
  | inr (bucket, found) ↦
      let (few, owned) = good key bucket found in
      rw (without_taken, found)
        (AreBuckets-replace limit now key bucket (popped bucket) pool good found
          (omega (arith, few, popped-short bucket)) (popped-AreOwn now key bucket owned))
]

pub return_to_pool-AreBuckets :
    (limit : ℕ) (keep_alive is_open : Bool) (now : ℕ) (h : Held) (pool : Buckets)
    → AreBuckets limit now pool
    → IsUsed now h
    → AreBuckets limit now
        (return_to_pool limit keep_alive is_open now (make_pool_key h.host h.port) h.conn pool)
unfolding return_to_pool
return_to_pool-AreBuckets limit keep_alive is_open now h pool good used =
    let key = make_pool_key h.host h.port in
    elim (Option-cases (lookup key pool)) [
      | inl absent ↦ rw (return_to_pool, absent) good
      | inr (bucket, found) ↦
          elim (Bool-cases (keep_alive && (is_open && ltb (length bucket) limit))) [
            | inr closed ↦ rw (return_to_pool, found, closed) good
            | inl kept ↦
                let (few, owned) = good key bucket found in
                rw (return_to_pool, found, kept)
                  (AreBuckets-replace limit now key bucket
                    (record h.conn { last_used = now } ∷ bucket) pool good found
                    (ground (arith, kept))
                    ((used.1.1.0, (rw (used.0, used.1.0) refl, omega arith)), owned))
          ]
    ]

-- A connection that is taken from the bucket of a key is one to the key's host and port.
pub taken-IsUsed :
    (limit now : ℕ) (host port : Bytes) (pool : Buckets) (c : Connection)
    → AreBuckets limit now pool
    → Lacks b':' port
    → take_connection (make_pool_key host port) now pool ≡ some c
    → IsUsed now (record { host = host; port = port; conn = c })
taken-IsUsed limit now host port pool c good no_colon h =
    let (cs, found) = take_connection-some (make_pool_key host port) now pool c h in
    let own = (good (make_pool_key host port) (c ∷ cs) found).1.0 in
    let same = make_pool_key-injective c.host c.port host port own.0 no_colon own.1.0 in
    (same.0, (same.1, (own.0, own.1.1)))
