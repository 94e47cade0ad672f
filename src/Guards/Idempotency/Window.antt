-- ===== src/Guards/Idempotency/Window.antt =====
-- The duplicate filter against a filter that forgets nothing.
use ai_system.Common.{
  ℕ, ◌+◌, ◌≤◌, ◌<◌, ◌≡◌, refl, ap, ◌∙◌, String, Bool, true, Option, none, some, not, List, [], ◌∷◌,
  arith, leb, ◌==◌, if◌then◌else◌, Bool-cases, lookup, keys_where, HasUniqueKeys,
  insert-HasUniqueKeys, remove_all-HasUniqueKeys, lookup-insert, lookup-remove_all, holds, inl, inr,
  contains-keys_where,
}
use mathlib.Core.Path.{ap₂}
use ai_system.Guards.Idempotency.{IdempotencyCache, new, is_expired, purge, blocks, allow}

-- A request: its key and the time at which it came.
abbrev pub Request : Type 0
Request = String × ℕ

-- The answers of the cache to a sequence of requests.
unfoldable pub answers : List Request → IdempotencyCache → List Bool
answers [] c = []
answers ((key, now) ∷ rest) c = let (a, c') = allow key now c in a ∷ answers rest c'

-- Whether the last admitted time of a key lets a request in.
abbrev pub admits : ℕ → ℕ → Option ℕ → Bool
admits ttl now none = true
admits ttl now (some ts) = leb (ts + ttl) now

-- The specification: a request is admitted unless one with its key was admitted less than `ttl`
-- before it. Admitted times are never dropped.
unfoldable pub spec_answers : ℕ → List Request → (String → Option ℕ) → List Bool
spec_answers ttl [] seen = []
spec_answers ttl ((key, now) ∷ rest) seen =
    let a = admits ttl now (seen key) in
    a ∷ spec_answers ttl rest (λ j. if a then (if key == j then some now else seen j) else seen j)

-- The clock never runs back and never reads zero.
abbrev pub IsClocked : ℕ → List Request → Type 0
IsClocked t [] = Unit
IsClocked t ((key, now) ∷ rest) = (t ≤ now) × (0 < now) × IsClocked now rest

pub lookup-purge :
    (now : ℕ) (j : String) (c : IdempotencyCache)
    → HasUniqueKeys c.store
    → lookup j (purge now c).store
      ≡ (if holds (is_expired c.ttl_seconds now) (lookup j c.store) then none else lookup j c.store)
unfolding purge
lookup-purge now j c u = ground (
  arith,
  lookup-remove_all (keys_where (is_expired c.ttl_seconds now) c.store) j c.store,
  contains-keys_where (is_expired c.ttl_seconds now) j c.store u,
)

-- What the cache holds of a key against the last admitted time of that key.
abbrev Agrees : ℕ → ℕ → Option ℕ → Option ℕ → Type 0
Agrees ttl t none none = Unit
Agrees ttl t none (some s) = s + ttl ≤ t
Agrees ttl t (some r) none = ⊥
Agrees ttl t (some r) (some s) = (r ≡ s) × (0 < s)

record Tracks (t : ℕ) (c : IdempotencyCache) (seen : String → Option ℕ) : Type 0 where
  unique : HasUniqueKeys c.store
  agrees : (j : String) → Agrees c.ttl_seconds t (lookup j c.store) (seen j)

abbrev kept : ℕ → ℕ → Option ℕ → Option ℕ
kept ttl now held = if holds (is_expired ttl now) held then none else held

-- One key, at a later time and after the purge.
Agrees-kept :
    (ttl t now : ℕ) (held seen : Option ℕ)
    → t ≤ now
    → Agrees ttl t held seen
    → Agrees ttl now (kept ttl now held) seen
Agrees-kept ttl t now none none h a = tt
Agrees-kept ttl t now none (some s) h a = omega arith
Agrees-kept ttl t now (some r) none h a = absurd a
Agrees-kept ttl t now (some r) (some s) h a = ground arith

-- The filter blocks what the specification refuses.
blocks-kept :
    (ttl now : ℕ) (held seen : Option ℕ)
    → Agrees ttl now (kept ttl now held) seen
    → blocks ttl now (kept ttl now held) ≡ not (admits ttl now seen)
blocks-kept ttl now none none a = refl
blocks-kept ttl now none (some s) a = ground arith
blocks-kept ttl now (some r) none a = ground arith
blocks-kept ttl now (some r) (some s) a = ground arith

abbrev seen_after : ℕ → String → ℕ → (String → Option ℕ) → String → Option ℕ
seen_after ttl key now seen j =
    if admits ttl now (seen key) then (if key == j then some now else seen j) else seen j

module _ {t : ℕ} {c : IdempotencyCache} {seen : String → Option ℕ} (tracks : Tracks t c seen)
    (key : String) (now : ℕ) (later : t ≤ now) (started : 0 < now) where
  purged-Agrees : (j : String) → Agrees c.ttl_seconds now (lookup j (purge now c).store) (seen j)
  purged-Agrees j =
      rw (lookup-purge now j c tracks.unique)
        (Agrees-kept c.ttl_seconds t now (lookup j c.store) (seen j) later (tracks.agrees j))

  purged_blocks :
      blocks c.ttl_seconds now (lookup key (purge now c).store)
      ≡ not (admits c.ttl_seconds now (seen key))
  purged_blocks = rw (lookup-purge now key c tracks.unique) (
      blocks-kept c.ttl_seconds now (lookup key c.store) (seen key)
        (Agrees-kept c.ttl_seconds t now (lookup key c.store) (seen key) later (tracks.agrees key)))

  allow-admits : (allow key now c).0 ≡ admits c.ttl_seconds now (seen key)
  unfolding allow
  allow-admits = ground (arith, purged_blocks)

  ttl-purge : (purge now c).ttl_seconds ≡ c.ttl_seconds
  unfolding purge
  ttl-purge = refl

  ttl-allow : (allow key now c).1.ttl_seconds ≡ c.ttl_seconds
  unfolding allow
  ttl-allow = ground (arith, ttl-purge)

  purge-HasUniqueKeys : HasUniqueKeys (purge now c).store
  unfolding purge
  purge-HasUniqueKeys = remove_all-HasUniqueKeys _ c.store tracks.unique

  allow-Tracks : Tracks now (allow key now c).1 (seen_after c.ttl_seconds key now seen)
  unfolding allow
  allow-Tracks = elim (Bool-cases (admits c.ttl_seconds now (seen key))) [
    | inl fresh ↦ record {
      unique = rw (purged_blocks, fresh) (insert-HasUniqueKeys key now _ purge-HasUniqueKeys);
      agrees = λ j.
          rw (purged_blocks, fresh, lookup-insert, ttl-purge)
            (elim (Bool-cases (key == j)) [
              | inl same ↦ rw same (refl, started)
              | inr other ↦ rw other (purged-Agrees j)
            ]);
    }
    | inr held ↦ record {
      unique = rw (purged_blocks, held) purge-HasUniqueKeys;
      agrees = λ j. rw (purged_blocks, held, ttl-purge) (purged-Agrees j);
    }
  ]

answers-Tracks :
    (requests : List Request) {t : ℕ} {c : IdempotencyCache} {seen : String → Option ℕ}
    → Tracks t c seen
    → IsClocked t requests
    → answers requests c ≡ spec_answers c.ttl_seconds requests seen
unfolding answers spec_answers
answers-Tracks [] track h = refl
answers-Tracks ((key, now) ∷ rest) {c = c} {seen = seen} track h =
    ap₂ ◌∷◌ (allow-admits track key now h.0 h.1) (
      answers-Tracks rest (allow-Tracks track key now h.0 h.1) h.2
      ∙ ap (λ ttl. spec_answers ttl rest (seen_after c.ttl_seconds key now seen))
          (ttl-allow track key now h.0 h.1))

-- The cache, which forgets expired keys on every call, answers every sequence of requests as the
-- filter that forgets nothing, as long as the clock does not run back and never reads zero.
pub answers-eq-spec_answers :
    (ttl : ℕ) (requests : List Request)
    → IsClocked 0 requests
    → answers requests (new ttl) ≡ spec_answers ttl requests (λ _. none)
unfolding lookup
answers-eq-spec_answers ttl requests h =
    answers-Tracks requests (record { unique = tt; agrees = λ j. tt }) h
