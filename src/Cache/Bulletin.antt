-- ===== src/Cache/Bulletin.antt =====
-- cache.py `BulletinCache`. The Redis client, the loader and the clock are parameters that read and change a
-- world `S`; a call that raises gives `none`. Times are microseconds. Bytes are read as text by the client.
use ocean_data_engine_fronte.Prelude.{
  ℕ, zero, suc, ◌+◌, Bool, true, false, Option, none, some, String, str_append, ltb, if◌then◌else◌,
}

pub record RedisClient (S : Type 0) : Type 0 where
  pub get : String → S → Option (Option String) × S
  -- set(key, value, nx=nx, ex=ttl): true when the key was set
  pub set : (key value : String) → (nx : Bool) → (ttl : ℕ) → S → Option Bool × S
  -- neither the reply nor an error is looked at
  pub delete : String → S → S

pub record Surroundings (S : Type 0) : Type 0 where
  -- `none` for a cache that is disabled
  pub client : Option (RedisClient S)
  pub loader : S → Option String × S
  pub monotonic : S → ℕ
  pub sleep : ℕ → S → S

pub record BulletinCache : Type 0 where
  pub ttl_s : ℕ
  pub lock_ttl_s : ℕ
  pub wait_timeout : ℕ
  pub namespace : String
  pub hits : ℕ
  pub misses : ℕ
  pub single_flight_waits : ℕ
  pub degraded_fetches : ℕ

module _ {S : Type 0} (env : Surroundings S) where
  abbrev pub value_key : BulletinCache → String → String
  value_key c key = str_append c.namespace (str_append ":v:" key)

  abbrev pub lock_key : BulletinCache → String → String
  lock_key c key = str_append c.namespace (str_append ":lock:" key)

  -- a call that raises reads as a miss
  abbrev pub read : Option (Option String) × S → Option String × S
  read (none, s) = (none, s)
  read (some value, s) = (value, s)

  abbrev pub get_with : Option (RedisClient S) → BulletinCache → String → S → Option String × S
  get_with none c key s = (none, s)
  get_with (some r) c key s = read (r.get (value_key c key) s)

  unfoldable pub get : BulletinCache → String → S → Option String × S
  get c key s = get_with env.client c key s

  -- int(ttl_s or self.ttl_s)
  abbrev pub ttl_or : Option ℕ → ℕ → ℕ
  ttl_or none default = default
  ttl_or (some zero) default = default
  ttl_or (some (suc n)) default = suc n

  unfoldable pub set : BulletinCache → String → String → Option ℕ → S → S
  set c key value ttl_s s = elim env.client [
    | none ↦ s
    | some r ↦ (r.set (value_key c key) value false (ttl_or ttl_s c.ttl_s) s).1
  ]

  -- without a client, or when the call raises, the caller fetches
  abbrev pub elected : Option Bool × S → Bool × S
  elected (none, s) = (true, s)
  elected (some b, s) = (b, s)

  unfoldable pub acquire : BulletinCache → String → S → Bool × S
  acquire c key s = elim env.client [
    | none ↦ (true, s)
    | some r ↦ elected (r.set (lock_key c key) "1" true c.lock_ttl_s s)
  ]

  unfoldable pub release : BulletinCache → String → S → S
  release c key s = elim env.client [ none ↦ s | some r ↦ r.delete (lock_key c key) s ]

  unfoldable pub invalidate : BulletinCache → String → S → S
  invalidate c key s = elim env.client [ none ↦ s | some r ↦ r.delete (value_key c key) s ]

  pub record Fetch : Type 0 where
    -- `none` when the loader raised
    pub document : Option String
    pub cache : BulletinCache
    pub world : S

  abbrev pub fetched : Option String → BulletinCache → S → Fetch
  fetched document c s = record { document = document; cache = c; world = s }

  abbrev pub store : BulletinCache → String → Option ℕ → Option String × S → Option String × S
  store c key ttl_s (none, s) = (none, s)
  store c key ttl_s (some value, s) = (some value, set c key value ttl_s s)

  -- the elected caller: the lock is released at the end, also when the loader raises
  unfoldable pub fetch_elected : BulletinCache → String → Option ℕ → S → Fetch
  unfolding set release
  fetch_elected c key ttl_s s =
      let (document, s') = store c key ttl_s (env.loader s) in fetched document c (release c key s')

  -- the fallback of a caller that waited too long
  unfoldable pub fetch_directly : BulletinCache → String → Option ℕ → S → Fetch
  unfolding set
  fetch_directly c key ttl_s s =
      let (document, s') = store c key ttl_s (env.loader s) in
      fetched document (record c { degraded_fetches = suc c.degraded_fetches }) s'

  -- one turn of the waiting loop gives a document, or the world in which to go on
  abbrev pub hit : BulletinCache → S → String → Fetch
  hit c s document = fetched (some document) (record c { hits = suc c.hits }) s

  -- `while time.monotonic() < deadline`, for a number of turns; `none` when they do not suffice
  unfoldable pub wait : ℕ → BulletinCache → String → Option ℕ → ℕ → S → Option Fetch
  unfolding get fetch_directly
  wait zero c key ttl_s deadline s =
      if ltb (env.monotonic s) deadline then none else some (fetch_directly c key ttl_s s)
  wait (suc turns) c key ttl_s deadline s =
      let (cached, s') = get c key (env.sleep 100_000 s) in
      let rest = wait turns c key ttl_s deadline s' in
      if ltb (env.monotonic s) deadline
      then (elim cached [ some document ↦ some (hit c s' document) | none ↦ rest ])
      else some (fetch_directly c key ttl_s s)

  abbrev pub after_acquire : ℕ → BulletinCache → String → Option ℕ → Bool × S → Option Fetch
  after_acquire turns c key ttl_s (true, s) = some (fetch_elected c key ttl_s s)
  after_acquire turns c key ttl_s (false, s) =
      wait turns (record c { single_flight_waits = suc c.single_flight_waits }) key ttl_s
        (env.monotonic s + c.wait_timeout) s

  abbrev pub after_get : ℕ → BulletinCache → String → Option ℕ → Option String × S → Option Fetch
  after_get turns c key ttl_s (some document, s) = some (hit c s document)
  after_get turns c key ttl_s (none, s) =
      let c' = record c { misses = suc c.misses } in
      after_acquire turns c' key ttl_s (acquire c' key s)

  unfoldable pub get_or_fetch : ℕ → BulletinCache → String → Option ℕ → S → Option Fetch
  unfolding get acquire fetch_elected wait
  get_or_fetch turns c key ttl_s s = after_get turns c key ttl_s (get c key s)
