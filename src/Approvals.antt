-- ===== src/Approvals.antt =====
-- The approval workflow (services/approvals.py) over the `Approval` table (db/models.py), and its
-- endpoints (routers/approvals.py). `now` gives the readings of the clock within one call, in order.
pub mod Moves
pub mod Decided
pub mod Claims
pub mod Replies
mod Tests
use ai_system.Common.{
  ℕ, zero, suc, ◌≡◌, String, Bool, true, false, Option, none, some, List, [], ◌∷◌, not, ◌==◌, min,
  max, map, length, if◌then◌else◌,
}
use ai_system.Common.Value.{Fields, or_empty}
use ai_system.Common.Table.{Table, get}
use ai_system.Events.{AgentEvent, record_event}
use ai_system.Policy
use ai_system.Policy.{PolicyEngine, CapabilityPolicy, CapabilityLevel, execute_with_approval}

-- The texts that the program writes into `Approval.status`.
pub data Status : Type 0 where
  pending approved rejected executing executed : Status

abbrev pub is_pending : Status → Bool
is_pending pending = true
is_pending _ = false

abbrev pub is_approved : Status → Bool
is_approved approved = true
is_approved _ = false

abbrev pub is_executing : Status → Bool
is_executing executing = true
is_executing _ = false

-- A row of `Approval`, without its key.
pub record Approval : Type 0 where
  pub created_ts : ℕ
  pub updated_ts : ℕ
  pub capability : String
  pub target : String
  pub requested_by : String
  pub status : Status
  pub reason : Option String
  pub payload : Fields
  pub decided_by : Option String
  pub decision_note : Option String
  pub correlation_id : Option String

-- `_snapshot`: the fields of the object, with its key.
abbrev pub Snapshot : Type 0
Snapshot = ℕ × Approval

pub data Failure : Type 0 where
  lookup_error : String → Failure
  value_error : String → Failure

pub data Result {ℓ} (A : Type ℓ) : Type ℓ where
  ok : A → Result A
  err : Failure → Result A

-- The payload `{"approval": snapshot}` of an event, or the empty one.
pub data EventPayload : Type 0 where
  approval : Snapshot → EventPayload
  empty : EventPayload

abbrev is_execute_with_approval : CapabilityLevel → Bool
is_execute_with_approval execute_with_approval = true
is_execute_with_approval _ = false

-- `policy is None or policy.level != EXECUTE_WITH_APPROVAL`, negated
abbrev pub may_be_requested : Option CapabilityPolicy → Bool
may_be_requested none = false
may_be_requested (some p) = is_execute_with_approval p.level

-- `if note: approval.decision_note = note`
abbrev pub note_or : Option String → Option String → Option String
note_or none old = old
note_or (some note) old = if note == "" then old else some note

module _ (T : Table Approval) (E : Table (AgentEvent EventPayload)) where
  -- What the calls read and write.
  pub record Store : Type 0 where
    pub approvals : T.State
    pub events : E.State

  -- `record_event(event_type, payload={"approval": snapshot})`
  abbrev pub log : ℕ → String → Snapshot → Store → Store
  log now event_type snapshot s = record s {
    events = (record_event E empty now event_type none (some (approval snapshot)) s.events).1;
  }

  -- Commits a changed row and logs its snapshot.
  abbrev pub commit : ℕ → String → ℕ → Approval → Store → Result Snapshot × Store
  commit now event_type id a s =
      (ok (id, a), log now event_type (id, a) (record s { approvals = T.update id a s.approvals }))

  abbrev pub new_approval :
      (ℕ → ℕ) → String → String → String → Option Fields → Option String → Option String → Approval
  new_approval now capability target requested_by payload reason correlation_id = record {
    created_ts = now 0;
    updated_ts = now 1;
    capability = capability;
    target = target;
    requested_by = requested_by;
    status = pending;
    reason = reason;
    payload = or_empty payload;
    decided_by = none;
    decision_note = none;
    correlation_id = correlation_id;
  }

  -- `request_approval`
  unfoldable pub request_approval :
      PolicyEngine
      → (ℕ → ℕ)
      → String
      → String
      → String
      → Option Fields
      → Option String
      → Option String
      → Store
      → Result Snapshot × Store
  request_approval policies now capability target requested_by payload reason correlation_id s =
      if may_be_requested (Policy.get policies capability)
      then (let a = new_approval now capability target requested_by payload reason correlation_id in
          let (id, table) = T.add a s.approvals in
          (ok (id, a), log (now 2) "approval.requested" (id, a) (record s { approvals = table })))
      else (err (value_error "Capability does not require approval or is not permitted"), s)

  -- `list_pending`
  unfoldable pub list_pending : ℕ → Store → List Snapshot
  list_pending limit s =
      T.query (λ e. is_pending e.1.status) (λ a. a.created_ts) (max 1 (min limit 200)) s.approvals

  abbrev pub decided_row : ℕ → Bool → String → Option String → Approval → Approval
  decided_row now ok_ decided_by note a = record a {
    status = if ok_ then approved else rejected;
    decided_by = some decided_by;
    decision_note = note;
    updated_ts = now;
  }

  abbrev pub decide_row :
      (ℕ → ℕ)
      → ℕ
      → Bool
      → String
      → Option String
      → Option Approval
      → Store
      → Result Snapshot × Store
  decide_row now id ok_ decided_by _ none s = (err (lookup_error "Approval not found"), s)
  decide_row now id ok_ decided_by note (some a) s =
      if is_pending a.status
      then commit (now 1) "approval.decided" id (decided_row (now 0) ok_ decided_by note a) s
      else (err (value_error "Approval is already decided"), s)

  -- `decide`
  unfoldable pub decide :
      (ℕ → ℕ) → ℕ → Bool → String → Option String → Store → Result Snapshot × Store
  decide now id approved_ decided_by note s =
      decide_row now id approved_ decided_by note (get T id s.approvals) s

  abbrev pub claimed : ℕ → String → Approval → Approval
  claimed now claimed_by a = record a {
    status = executing;
    updated_ts = now;
    decided_by = some claimed_by;
  }

  -- The `where` of the query in `claim_approval`.
  abbrev pub if_approved : Option Approval → Option Approval
  if_approved none = none
  if_approved (some a) = if is_approved a.status then some a else none

  abbrev pub claim_row : (ℕ → ℕ) → ℕ → String → Option Approval → Store → Result Snapshot × Store
  claim_row now id claimed_by none s = (err (lookup_error "Approval not found or not approved"), s)
  claim_row now id claimed_by (some a) s =
      commit (now 1) "approval.claimed" id (claimed (now 0) claimed_by a) s

  -- `claim_approval`: a query, then a write of what it found.
  unfoldable pub claim_approval : (ℕ → ℕ) → ℕ → String → Store → Result Snapshot × Store
  claim_approval now id claimed_by s =
      claim_row now id claimed_by (if_approved (get T id s.approvals)) s

  abbrev pub finish_event : Bool → String
  finish_event success = if success then "approval.executed" else "approval.execution_failed"

  abbrev pub finished_row : ℕ → Bool → Option String → Approval → Approval
  finished_row now success note a = record a {
    status = if success then executed else approved;
    updated_ts = now;
    decision_note = note_or note a.decision_note;
  }

  abbrev pub finish_row :
      (ℕ → ℕ) → ℕ → Bool → Option String → Option Approval → Store → Result Snapshot × Store
  finish_row now id success _ none s = (err (lookup_error "Approval not found"), s)
  finish_row now id success note (some a) s =
      if is_executing a.status
      then commit (now 1) (finish_event success) id (finished_row (now 0) success note a) s
      else (err (value_error "Approval is not executing"), s)

  -- `finish_approval`; the source does not use its `decided_by` either.
  unfoldable pub finish_approval :
      (ℕ → ℕ) → ℕ → Bool → String → Option String → Store → Result Snapshot × Store
  finish_approval now id success decided_by note s =
      finish_row now id success note (get T id s.approvals) s

  -- A call, with its arguments.
  pub data Call : Type 0 where
    request : String → String → String → Option Fields → Option String → Option String → Call
    decision : ℕ → Bool → String → Option String → Call
    claim : ℕ → String → Call
    finish : ℕ → Bool → String → Option String → Call

  -- The store after a call, whether the call returned or raised.
  unfoldable pub perform : PolicyEngine → (ℕ → ℕ) → Call → Store → Store
  perform policies now (request capability target by payload reason cid) s =
      (request_approval policies now capability target by payload reason cid s).1
  perform policies now (decision id ok_ by note) s = (decide now id ok_ by note s).1
  perform policies now (claim id by) s = (claim_approval now id by s).1
  perform policies now (finish id success by note) s = (finish_approval now id success by note s).1

  -- The store after a sequence of calls, each with its clock.
  unfoldable pub perform_all : PolicyEngine → List ((ℕ → ℕ) × Call) → Store → Store
  perform_all policies [] s = s
  perform_all policies ((now, c) ∷ rest) s = perform_all policies rest (perform policies now c s)
