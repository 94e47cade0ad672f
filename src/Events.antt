-- ===== src/Events.antt =====
-- The event log (services/event_store.py, services/event_retention.py, services/canonical_events.py),
-- over a table of `AgentEvent` rows (db/models.py). Payloads are of any type. Timestamps are numbers
-- of seconds, and the reading of the clock is an argument.
pub mod Retention
pub mod Canonical
mod Tests
use ai_system.Common.{
  ℕ, ◌+◌, ◌*◌, ◌≡◌, String, Bool, true, false, Option, none, some, List, [], ◌∷◌, ◌&&◌, not, ltb,
  eqb, min, max, ◌==◌, length, map, keep_if, contains, if◌then◌else◌,
}
use ai_system.Common.Table.{Table}

pub record AgentEvent (P : Type 0) : Type 0 where
  pub ts : ℕ
  pub agent_key : Option String
  pub event_type : String
  pub payload : P

-- `x or default`, for an object that is never falsy
abbrev pub or_else {ℓ} : {A : Type ℓ} → Option A → A → A
or_else none d = d
or_else (some a) d = a

-- Whether a row passes the filter of an optional text: an empty one filters nothing.
abbrev pub passes : Option String → Option String → Bool
passes none field = true
passes (some wanted) none = wanted == ""
passes (some wanted) (some found) = if wanted == "" then true else found == wanted

abbrev pub has_id : ℕ → List ℕ → Bool
has_id k [] = false
has_id k (j ∷ js) = if eqb k j then true else has_id k js

module _ {P : Type 0} (E : Table (AgentEvent P)) where
  open E use {State, rows, add, delete, query}

  -- `record_event`; `empty` is the payload `{}`. The first result is the key of the new row.
  unfoldable pub record_event : P → ℕ → String → Option String → Option P → State → ℕ × State
  record_event empty now event_type agent_key payload = add (record {
    ts = now;
    agent_key = agent_key;
    event_type = event_type;
    payload = or_else payload empty;
  })

  -- `recent_events`
  unfoldable pub recent_events : ℕ → Option String → Option String → State → List (ℕ × AgentEvent P)
  recent_events limit event_type agent_key =
      query (λ e. passes event_type (some e.1.event_type) && passes agent_key e.1.agent_key)
        (λ e. e.ts) (max 1 (min limit 500))

  abbrev pub clamped_days : ℕ → ℕ
  clamped_days keep_days = max 1 (min keep_days 3650)

  -- `AgentEvent.ts < cutoff`, with the cutoff `keep_days` before `now`
  abbrev pub is_old : ℕ → ℕ → ℕ × AgentEvent P → Bool
  is_old days now e = ltb (e.1.ts + days * 86400) now

  -- The keys that the first query of `compact_events` reads.
  abbrev pub old_ids : ℕ → ℕ → State → List ℕ
  old_ids days now s = map (λ e. e.0) (keep_if (is_old days now) (rows s))

  abbrev pub compact : List ℕ → State → ℕ × State
  compact [] s = (0, s)
  compact (k ∷ ks) s = (length (k ∷ ks), delete (λ e. has_id e.0 (k ∷ ks)) s)

  -- `compact_events`, at the time `now`
  unfoldable pub compact_events : ℕ → ℕ → State → ℕ × State
  compact_events keep_days now s = compact (old_ids (clamped_days keep_days) now s) s
