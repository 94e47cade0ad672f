-- ===== src/Guards/Idempotency.antt =====
-- `IdempotencyCache` of gateway/guards.py. A time is a natural number in any fixed unit, and the
-- reading of `time.time()` is an argument. Differences of times are written as sums.
pub mod Window
use ai_system.Common.{
  ℕ, ◌+◌, String, Bool, true, false, Option, none, some, List, [], ◌∷◌, not, ◌&&◌, leb, ltb, eqb,
  if◌then◌else◌, Dict, lookup, insert, keys_where, remove_all,
}

pub record IdempotencyCache : Type 0 where
  pub ttl_seconds : ℕ
  pub store : Dict ℕ

-- `__init__`
abbrev pub new : ℕ → IdempotencyCache
new ttl_seconds = record { ttl_seconds = ttl_seconds; store = [] }

-- `now - ts >= self.ttl_seconds`
abbrev pub is_expired : ℕ → ℕ → ℕ → Bool
is_expired ttl now ts = leb (ts + ttl) now

-- `_purge`
unfoldable pub purge : ℕ → IdempotencyCache → IdempotencyCache
purge now c = record c {
  store = remove_all (keys_where (is_expired c.ttl_seconds now) c.store) c.store;
}

-- `ts and now - ts < self.ttl_seconds`: a time of zero counts as absent.
abbrev pub blocks : ℕ → ℕ → Option ℕ → Bool
blocks ttl now none = false
blocks ttl now (some ts) = not (eqb ts 0) && ltb now (ts + ttl)

-- `allow`, at the time `now`
unfoldable pub allow : String → ℕ → IdempotencyCache → Bool × IdempotencyCache
allow key now c =
    let purged = purge now c in
    if blocks c.ttl_seconds now (lookup key purged.store)
    then (false, purged)
    else (true, record purged { store = insert key now purged.store })
