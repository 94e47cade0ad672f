-- ===== src/Control/Retry.antt =====
-- Requests that repeat one, within the time that the duplicate filter remembers.
use ai_system.Common.{
  ℕ, ◌+◌, ◌<◌, ◌≡◌, refl, sym, subst, String, Bool, true, false, Option, none, some, arith, eq_refl,
  Bool-cases, lookup, has_key, HasUniqueKeys, insert-HasUniqueKeys, remove_all-HasUniqueKeys,
  lookup-insert, keys_where, ◌<>◌, inl, inr,
}
use ai_system.Auth.{AuthContext}
use ai_system.Guards.Idempotency.{IdempotencyCache, is_expired, purge, blocks, allow}
use ai_system.Guards.Idempotency.Window.{lookup-purge}
use ai_system.Guards.Breaker as Breaker
use ai_system.Supervisor.{Supervisor, Outcome, ok, key_error, raised}
use ai_system.Control.{
  App, Request, Reply, done, already, unavailable, locked, unknown, failed, write_audit, Action,
  idempotency_prefix, Host, call, attempted, past_cache, past_agents, past_breaker, past_supervisor,
  control,
}

-- A key that was stored less than `ttl` ago is refused.
pub allow_held :
    (key : String) (ts now : ℕ) (c : IdempotencyCache)
    → HasUniqueKeys c.store
    → lookup key c.store ≡ some ts
    → 0 < ts
    → now < ts + c.ttl_seconds
    → (allow key now c).0 ≡ false
unfolding allow
allow_held key ts now c u held positive soon = ground (arith, lookup-purge now key c u, held)

-- A key that is let in is stored with its time.
pub allow_stores :
    (key : String) (now : ℕ) (c : IdempotencyCache)
    → (allow key now c).0 ≡ true
    → lookup key (allow key now c).1.store ≡ some now
unfolding allow
allow_stores key now c fresh =
    ground (arith, lookup-insert key key now (purge now c).store, eq_refl key)

pub allow-HasUniqueKeys :
    (key : String) (now : ℕ) (c : IdempotencyCache)
    → HasUniqueKeys c.store
    → HasUniqueKeys (allow key now c).1.store
unfolding allow purge
allow-HasUniqueKeys key now c u =
    elim (Bool-cases (blocks c.ttl_seconds now (lookup key (purge now c).store))) [
      | inl b ↦ rw b v
      | inr b ↦ rw b (insert-HasUniqueKeys key now (purge now c).store v)
    ]
  where
    v : HasUniqueKeys (purge now c).store
    v = remove_all-HasUniqueKeys (keys_where (is_expired c.ttl_seconds now) c.store) c.store u

abbrev IsFailed : Reply → Type 0
IsFailed (done running) = ⊥
IsFailed already = ⊥
IsFailed failed = Unit
IsFailed unavailable = ⊥
IsFailed locked = ⊥
IsFailed unknown = ⊥

-- The cache remembers a key.
record Remembers (key : String) (ts ttl : ℕ) (c : IdempotencyCache) : Type 0 where
  unique : HasUniqueKeys c.store
  stored : lookup key c.store ≡ some ts
  same_ttl : c.ttl_seconds ≡ ttl

allow-Remembers :
    (key : String) (now : ℕ) (c : IdempotencyCache)
    → HasUniqueKeys c.store
    → (allow key now c).0 ≡ true
    → Remembers key now c.ttl_seconds (allow key now c).1
unfolding allow purge
allow-Remembers key now c u fresh = record {
  unique = allow-HasUniqueKeys key now c u;
  stored = allow_stores key now c fresh;
  same_ttl = ground arith;
}

module _ (host : Host) (action : Action) (ctx : AuthContext) where
  module _ (req : Request) where
    abbrev cache_key : String
    cache_key = idempotency_prefix action <> req.agent_key

    FailsRemembered : ℕ → Reply × App → Type 0
    FailsRemembered ttl (reply, app) =
        IsFailed reply → Remembers cache_key req.allowed ttl app.cache

    attempted-cache :
        (outcome : Outcome) (app : App)
        → (attempted host action ctx req outcome app).1.cache ≡ app.cache
    unfolding write_audit
    attempted-cache ok app = refl
    attempted-cache key_error app = refl
    attempted-cache (raised e) app = refl

    past_cache-FailsRemembered :
        (ttl : ℕ) (s : Supervisor) (fresh : Bool) (app : App)
        → (fresh ≡ true → Remembers cache_key req.allowed ttl app.cache)
        → FailsRemembered ttl (past_cache host action ctx req s fresh app)
    unfolding FailsRemembered
    past_cache-FailsRemembered ttl s true app h =
        λ _. rw (attempted-cache (call host action ctx req.agent_key s).0 _) (h refl)
    past_cache-FailsRemembered ttl s false app h = λ f. absurd f

    past_agents-FailsRemembered :
        (s : Supervisor) (known : Bool) (app : App)
        → HasUniqueKeys app.cache.store
        → FailsRemembered app.cache.ttl_seconds (past_agents host action ctx req s known app)
    unfolding FailsRemembered
    past_agents-FailsRemembered s true app u =
        past_cache-FailsRemembered app.cache.ttl_seconds s (allow cache_key req.allowed app.cache).0
          _ (allow-Remembers cache_key req.allowed app.cache u)
    past_agents-FailsRemembered s false app u = λ f. absurd f

    past_breaker-FailsRemembered :
        (s : Supervisor) (closed : Bool) (app : App)
        → HasUniqueKeys app.cache.store
        → FailsRemembered app.cache.ttl_seconds (past_breaker host action ctx req s closed app)
    unfolding FailsRemembered
    past_breaker-FailsRemembered s true app u =
        past_agents-FailsRemembered s (has_key req.agent_key s.agents) app u
    past_breaker-FailsRemembered s false app u = λ f. absurd f

    past_supervisor-FailsRemembered :
        (s : Option Supervisor) (app : App)
        → HasUniqueKeys app.cache.store
        → FailsRemembered app.cache.ttl_seconds (past_supervisor host action ctx req s app)
    unfolding FailsRemembered
    past_supervisor-FailsRemembered none app u = λ f. absurd f
    past_supervisor-FailsRemembered (some s) app u =
        past_breaker-FailsRemembered s (Breaker.allow req.checked app.breaker).0 _ u

    control-Remembers :
        (app : App)
        → HasUniqueKeys app.cache.store
        → (control host action ctx req app).0 ≡ failed
        → Remembers cache_key req.allowed app.cache.ttl_seconds
            (control host action ctx req app).1.cache
    unfolding control FailsRemembered
    control-Remembers app u e =
        past_supervisor-FailsRemembered app.supervisor app u (subst IsFailed (sym e) tt)

  IsSkipped : Option Supervisor → Reply × App → Type 0
  IsSkipped s (reply, app) = (reply ≡ already) × (app.supervisor ≡ s)

  -- A request for a key that the cache still holds is not attempted.
  past_supervisor-IsSkipped :
      (req : Request) (app : App) (s : Supervisor)
      → app.supervisor ≡ some s
      → has_key req.agent_key s.agents ≡ true
      → (Breaker.allow req.checked app.breaker).0 ≡ true
      → (allow (cache_key req) req.allowed app.cache).0 ≡ false
      → IsSkipped (some s) (past_supervisor host action ctx req (some s) app)
  unfolding IsSkipped write_audit
  past_supervisor-IsSkipped req app s there known closed held =
      rw (closed, known, held) (refl, there)

  -- A retry of a request that failed, for the same action and agent and before the time of the
  -- duplicate filter is over, is not attempted: if the breaker lets it through and the agent is
  -- still registered, the reply reports a duplicate, as after a success, and the supervisor is as
  -- the failed attempt left it.
  pub control_retry :
      (first retry : Request) (app : App) (s : Supervisor)
      → HasUniqueKeys app.cache.store
      → 0 < first.allowed
      → (control host action ctx first app).0 ≡ failed
      → retry.agent_key ≡ first.agent_key
      → retry.allowed < first.allowed + app.cache.ttl_seconds
      → (control host action ctx first app).1.supervisor ≡ some s
      → has_key retry.agent_key s.agents ≡ true
      → (Breaker.allow retry.checked (control host action ctx first app).1.breaker).0 ≡ true
      → ((control host action ctx retry (control host action ctx first app).1).0 ≡ already)
        × ((control host action ctx retry (control host action ctx first app).1).1.supervisor
            ≡ some s)
  unfolding control IsSkipped
  control_retry first retry app s u positive fell same soon there known closed =
      skipped (control host action ctx first app).1 there closed
        (control-Remembers first app u fell)
    where
      skipped :
          (app' : App)
          → app'.supervisor ≡ some s
          → (Breaker.allow retry.checked app'.breaker).0 ≡ true
          → Remembers (cache_key first) first.allowed app.cache.ttl_seconds app'.cache
          → ((control host action ctx retry app').0 ≡ already)
            × ((control host action ctx retry app').1.supervisor ≡ some s)
      skipped app' there closed r =
          subst (λ o. IsSkipped (some s) (past_supervisor host action ctx retry o app')) (sym there)
            (past_supervisor-IsSkipped retry app' s there known closed (
              rw same (
                allow_held (cache_key first) first.allowed retry.allowed app'.cache r.unique
                  r.stored positive (rw r.same_ttl soon))))
