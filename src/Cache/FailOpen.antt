-- ===== src/Cache/FailOpen.antt =====
-- The cache never makes a document unavailable.
use ocean_data_engine_fronte.Prelude.{
  ℕ, zero, suc, ◌+◌, ◌*◌, ◌≤◌, ◌≡◌, refl, sym, subst, ◌∙◌, inl, inr, Bool, true, false, Option,
  none, some, String, arith, ltb, Bool-cases,
}
use ocean_data_engine_fronte.Cache.Bulletin.{
  RedisClient, Surroundings, BulletinCache, Fetch, get_with, get, acquire, value_key, read, store,
  fetch_elected, fetch_directly, wait, hit, after_acquire, after_get, get_or_fetch,
}

not_before : (now deadline : ℕ) → ltb now deadline ≡ true → deadline ≤ now → ⊥
not_before now deadline h k = ground arith

module _ {S : Type 0} (env : Surroundings S) where
  -- The monotonic clock does not run back in a reading call, and a sleep takes its time.
  pub record IsClocked : Type 0 where
    pub get_forward :
        (r : RedisClient S) (key : String) (s : S)
        → env.client ≡ some r
        → env.monotonic s ≤ env.monotonic (r.get key s).1
    pub sleep_forward : (n : ℕ) (s : S) → env.monotonic s + n ≤ env.monotonic (env.sleep n s)

  -- A result with a document.
  abbrev pub Available : Option (Fetch env) → Type 0
  Available none = ⊥
  Available (some r) = (document : String) × (r.document ≡ some document)

  abbrev pub LoaderReturns : Type 0
  LoaderReturns = (s : S) → (document : String) × ((env.loader s).0 ≡ some document)

  module _ (clocked : IsClocked) (loads : LoaderReturns) where
    read_world : (x : Option (Option String) × S) → (read env x).1 ≡ x.1
    read_world (none, s) = refl
    read_world (some v, s) = refl

    get_with-forward :
        (o : Option (RedisClient S)) (c : BulletinCache) (key : String) (s : S)
        → env.client ≡ o
        → env.monotonic s ≤ env.monotonic (get_with env o c key s).1
    get_with-forward none c key s h = omega arith
    get_with-forward (some r) c key s h =
        let forward = clocked.get_forward r (value_key env c key) s h in
        subst (λ s'. env.monotonic s ≤ env.monotonic s')
          (sym (read_world (r.get (value_key env c key) s))) forward

    get-forward :
        (c : BulletinCache) (key : String) (s : S)
        → env.monotonic s ≤ env.monotonic (get env c key s).1
    unfolding get
    get-forward c key s = get_with-forward env.client c key s refl

    store_document :
        (c : BulletinCache) (key : String) (ttl_s : Option ℕ) (x : Option String × S)
        → (store env c key ttl_s x).0 ≡ x.0
    store_document c key ttl_s (none, s) = refl
    store_document c key ttl_s (some v, s) = refl

    directly-Available :
        (c : BulletinCache) (key : String) (ttl_s : Option ℕ) (s : S)
        → Available (some (fetch_directly env c key ttl_s s))
    unfolding fetch_directly
    directly-Available c key ttl_s s =
        ((loads s).0, store_document c key ttl_s (env.loader s) ∙ (loads s).1)

    elected-Available :
        (c : BulletinCache) (key : String) (ttl_s : Option ℕ) (s : S)
        → Available (some (fetch_elected env c key ttl_s s))
    unfolding fetch_elected
    elected-Available c key ttl_s s =
        ((loads s).0, store_document c key ttl_s (env.loader s) ∙ (loads s).1)

    turn-Available :
        (c : BulletinCache) (s : S) (cached : Option String) (rest : Option (Fetch env))
        → Available rest
        → Available (elim cached [ some document ↦ some (hit env c s document) | none ↦ rest ])
    turn-Available c s none rest h = h
    turn-Available c s (some document) rest h = (document, refl)

    -- The turns outlast the deadline.
    wait-Available :
        (turns : ℕ) (c : BulletinCache) (key : String) (ttl_s : Option ℕ) (deadline : ℕ) (s : S)
        → deadline ≤ env.monotonic s + turns * 100_000
        → Available (wait env turns c key ttl_s deadline s)
    unfolding wait
    wait-Available zero c key ttl_s deadline s h =
        elim (Bool-cases (ltb (env.monotonic s) deadline)) [
          | inl e ↦ absurd (not_before (env.monotonic s) deadline e (omega (arith, h)))
          | inr e ↦ rw e (directly-Available c key ttl_s s)
        ]
    wait-Available (suc turns) c key ttl_s deadline s h =
        elim (Bool-cases (ltb (env.monotonic s) deadline)) [
          | inl e ↦
              let s' = env.sleep 100_000 s in
              let later =
                wait-Available turns c key ttl_s deadline (get env c key s').1
                  (omega (arith, h, clocked.sleep_forward 100_000 s, get-forward c key s')) in
              rw e (turn-Available c (get env c key s').1 (get env c key s').0 _ later)
          | inr e ↦ rw e (directly-Available c key ttl_s s)
        ]

    after_acquire-Available :
        (turns : ℕ) (c : BulletinCache) (key : String) (ttl_s : Option ℕ) (x : Bool × S)
        → c.wait_timeout ≤ turns * 100_000
        → Available (after_acquire env turns c key ttl_s x)
    after_acquire-Available turns c key ttl_s (true, s) h = elected-Available c key ttl_s s
    after_acquire-Available turns c key ttl_s (false, s) h =
        wait-Available turns _ key ttl_s _ s (omega (arith, h))

    after_get-Available :
        (turns : ℕ) (c : BulletinCache) (key : String) (ttl_s : Option ℕ) (x : Option String × S)
        → c.wait_timeout ≤ turns * 100_000
        → Available (after_get env turns c key ttl_s x)
    after_get-Available turns c key ttl_s (some document, s) h = (document, refl)
    after_get-Available turns c key ttl_s (none, s) h =
        after_acquire-Available turns _ key ttl_s
          (acquire env (record c { misses = suc c.misses }) key s) h

    -- Whatever the Redis client answers, and however often it raises, the call ends with a document after
    -- at most one turn of the waiting loop for each poll interval of the timeout, when the loader returns
    -- and the clock is one that moves on.
    pub get_or_fetch-Available :
        (turns : ℕ) (c : BulletinCache) (key : String) (ttl_s : Option ℕ) (s : S)
        → c.wait_timeout ≤ turns * 100_000
        → Available (get_or_fetch env turns c key ttl_s s)
    unfolding get_or_fetch
    get_or_fetch-Available turns c key ttl_s s h =
        after_get-Available turns c key ttl_s (get env c key s) h
