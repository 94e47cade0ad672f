-- ===== src/Approvals/Moves.antt =====
-- How a call may change a row: the states of an approval.
use ai_system.Common.{
  ℕ, ◌≡◌, refl, String, Bool, true, false, Option, none, some, eqb, arith, if◌then◌else◌,
  Bool-cases, inl, inr, subst, ◌∙◌,
}
use ai_system.Common.Value.{Fields}
use ai_system.Common.Table.{Table, get, get-add, get-update}
use ai_system.Events.{AgentEvent}
use ai_system.Policy
use ai_system.Policy.{PolicyEngine}
use native.Mathlib.Decide.{ℕ_discrete}
use ai_system.Approvals.{
  Status, pending, approved, rejected, executing, executed, is_pending, is_approved, is_executing,
  Approval, EventPayload, Store, commit, new_approval, may_be_requested, request_approval,
  decided_row, finished_row, finish_event, claimed, decide, decide_row, finish_row, claim_row,
  if_approved, claim_approval, finish_approval, Call, request, decision, claim, finish, perform,
}

-- What a call may do to the row that it names.
pub data Action : Type 0 where
  approving rejecting claiming succeeding failing : Action

-- The changes of state that there are, each with the action that makes it.
pub data StatusStep : Action → Status → Status → Type 0 where
  approve : StatusStep approving pending approved
  reject : StatusStep rejecting pending rejected
  start : StatusStep claiming approved executing
  succeed : StatusStep succeeding executing executed
  fail : StatusStep failing executing approved

-- A row before and after a call that does `act` to it.
pub data RowStep (act : Option Action) (before after : Option Approval) : Type 0 where
  same : after ≡ before → RowStep act before after
  created :
      (a : Approval)
      → before ≡ none
      → after ≡ some a
      → a.status ≡ pending
      → RowStep act before after
  moved :
      (x : Action) (a b : Approval)
      → act ≡ some x
      → before ≡ some a
      → after ≡ some b
      → StatusStep x a.status b.status
      → RowStep act before after

abbrev pub aimed : ℕ → ℕ → Action → Option Action
aimed id k x = if eqb id k then some x else none

abbrev pub decision_action : Bool → Action
decision_action v = if v then approving else rejecting

abbrev pub finish_action : Bool → Action
finish_action v = if v then succeeding else failing

pending-eq : (x : Status) → is_pending x ≡ true → x ≡ pending
pending-eq pending h = refl
pending-eq _ h = cc

approved-eq : (x : Status) → is_approved x ≡ true → x ≡ approved
approved-eq approved h = refl
approved-eq _ h = cc

executing-eq : (x : Status) → is_executing x ≡ true → x ≡ executing
executing-eq executing h = refl
executing-eq _ h = cc

decision_step :
    (v : Bool) (x : Status)
    → is_pending x ≡ true
    → StatusStep (decision_action v) x (if v then approved else rejected)
decision_step true x h = rw (pending-eq x h) approve
decision_step false x h = rw (pending-eq x h) reject

finish_step :
    (v : Bool) (x : Status)
    → is_executing x ≡ true
    → StatusStep (finish_action v) x (if v then executed else approved)
finish_step true x h = rw (executing-eq x h) succeed
finish_step false x h = rw (executing-eq x h) fail

claim_step : (x : Status) → is_approved x ≡ true → StatusStep claiming x executing
claim_step x h = rw (approved-eq x h) start

module _ (T : Table Approval) (E : Table (AgentEvent EventPayload)) where
  commit-RowStep :
      (now : ℕ) (event : String) (id : ℕ) (x : Action) (a b : Approval) (s : Store T E) (k : ℕ)
      → get T id s.approvals ≡ some a
      → StatusStep x a.status b.status
      → RowStep
          (aimed id k x)
          (get T k s.approvals)
          (get T k (commit T E now event id b s).1.approvals)
  commit-RowStep now event id x a b s k found step = elim (ℕ_discrete id k) [
    | yes e ↦
        moved x a b (ground arith) (subst (λ i. get T i s.approvals ≡ some a) e found)
          (get-update T id b s.approvals k (ground (arith, found)) ∙ ground arith) step
    | no n ↦ same (get-update T id b s.approvals k (ground (arith, found)) ∙ ground arith)
  ]

  module _ (now : ℕ → ℕ) (id : ℕ) (s : Store T E) (k : ℕ) where
    decide-RowStep :
        (ok_ : Bool) (by : String) (note : Option String)
        → RowStep
            (aimed id k (decision_action ok_))
            (get T k s.approvals)
            (get T k (decide T E now id ok_ by note s).1.approvals)
    unfolding decide
    decide-RowStep ok_ by note = go ok_ (get T id s.approvals) refl
      where
        go :
            (v : Bool) (o : Option Approval)
            → get T id s.approvals ≡ o
            → RowStep
                (aimed id k (decision_action v))
                (get T k s.approvals)
                (get T k (decide_row T E now id v by note o s).1.approvals)
        go v none e = same refl
        go v (some a) e = elim (Bool-cases (is_pending a.status)) [
          | inl open_ ↦ rw open_ (
              commit-RowStep (now 1) "approval.decided" id (decision_action v) a
                (decided_row T E (now 0) v by note a) s k e (decision_step v a.status open_))
          | inr closed ↦ rw closed (same refl)
        ]

    finish-RowStep :
        (success : Bool) (by : String) (note : Option String)
        → RowStep
            (aimed id k (finish_action success))
            (get T k s.approvals)
            (get T k (finish_approval T E now id success by note s).1.approvals)
    unfolding finish_approval
    finish-RowStep success by note = go success (get T id s.approvals) refl
      where
        go :
            (v : Bool) (o : Option Approval)
            → get T id s.approvals ≡ o
            → RowStep
                (aimed id k (finish_action v))
                (get T k s.approvals)
                (get T k (finish_row T E now id v note o s).1.approvals)
        go v none e = same refl
        go v (some a) e = elim (Bool-cases (is_executing a.status)) [
          | inl running ↦ rw running (
              commit-RowStep (now 1) (finish_event T E v) id (finish_action v) a
                (finished_row T E (now 0) v note a) s k e (finish_step v a.status running))
          | inr idle ↦ rw idle (same refl)
        ]

    claim-RowStep :
        (by : String)
        → RowStep
            (aimed id k claiming)
            (get T k s.approvals)
            (get T k (claim_approval T E now id by s).1.approvals)
    unfolding claim_approval
    claim-RowStep by = go (get T id s.approvals) refl
      where
        go :
            (o : Option Approval)
            → get T id s.approvals ≡ o
            → RowStep
                (aimed id k claiming)
                (get T k s.approvals)
                (get T k (claim_row T E now id by (if_approved T E o) s).1.approvals)
        go none e = same refl
        go (some a) e = elim (Bool-cases (is_approved a.status)) [
          | inl free ↦ rw free (
              commit-RowStep (now 1) "approval.claimed" id claiming a (claimed T E (now 0) by a) s k
                e (claim_step a.status free))
          | inr taken ↦ rw taken (same refl)
        ]

  request-RowStep :
      (policies : PolicyEngine) (now : ℕ → ℕ) (capability target by : String)
      (payload : Option Fields) (reason cid : Option String) (s : Store T E) (k : ℕ)
      → RowStep none (get T k s.approvals) (
          get T k
            (request_approval T E policies now capability target by payload reason cid
              s).1.approvals)
  unfolding request_approval
  request-RowStep policies now capability target by payload reason cid s k =
      elim (Bool-cases (may_be_requested (Policy.get policies capability))) [
        | inr refused ↦ rw refused (same refl)
        | inl granted ↦ rw granted (
            let a = new_approval T E now capability target by payload reason cid in
            elim (ℕ_discrete (T.add a s.approvals).0 k) [
              | yes e ↦
                  created a (subst (λ i. get T i s.approvals ≡ none) e (T.add_fresh a s.approvals))
                    (get-add T a s.approvals k ∙ ground arith) refl
              | no n ↦ same (get-add T a s.approvals k ∙ ground arith)
            ])
      ]

  -- What a call does to the row `k`.
  abbrev pub action_of : Call T E → ℕ → Option Action
  action_of (request capability target by payload reason cid) k = none
  action_of (decision id ok_ by _) k = aimed id k (decision_action ok_)
  action_of (claim id by) k = aimed id k claiming
  action_of (finish id success by _) k = aimed id k (finish_action success)

  -- A call leaves each row as it is, creates it in the state pending, or, if it names the row, moves
  -- it: a decision from pending to approved or rejected, a claim from approved to executing, a finish
  -- from executing to executed or back to approved. There is no other change of state, and no row
  -- disappears.
  pub perform-RowStep :
      (policies : PolicyEngine) (now : ℕ → ℕ) (c : Call T E) (s : Store T E) (k : ℕ)
      → RowStep
          (action_of c k)
          (get T k s.approvals)
          (get T k (perform T E policies now c s).approvals)
  unfolding perform
  perform-RowStep policies now (request capability target by payload reason cid) s k =
      request-RowStep policies now capability target by payload reason cid s k
  perform-RowStep policies now (decision id ok_ by note) s k = decide-RowStep now id s k ok_ by note
  perform-RowStep policies now (claim id by) s k = claim-RowStep now id s k by
  perform-RowStep policies now (finish id success by note) s k =
      finish-RowStep now id s k success by note
