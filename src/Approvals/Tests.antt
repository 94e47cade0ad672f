-- ===== src/Approvals/Tests.antt =====
-- The approval workflow on concrete inputs, over tables that are lists.
use ai_system.Common.{
  ℕ, ◌+◌, ◌≡◌, ◌≤◌, refl, true, false, none, some, List, [], ◌∷◌, All, arith, length, if◌then◌else◌,
}
use ai_system.Common.Value.{end}
use ai_system.Common.Table.{Table, get, find}
use ai_system.Common.Table.Listed.{listed, nothing}
use ai_system.Events.{AgentEvent}
use ai_system.Policy.{policy_engine}
use ai_system.Approvals.{
  approval, Status, pending, approved, rejected, is_pending, Approval, EventPayload, lookup_error,
  err, Store, claim_approval, Call, decision, claim, finish, perform, perform_all,
}
use ai_system.Approvals.Moves.{RowStep, action_of, perform-RowStep}
use ai_system.Approvals.Decided.{IsUnapproved, perform_all-IsUnapproved, perform_all-final}
use ai_system.Approvals.Claims.{claim_exclusive}
use ai_system.Approvals.Replies
use ai_system.Approvals.Replies.{
  done, http_error, decision_outcome, pending_items, pending_items_sound,
}

abbrev Rows : Table Approval
Rows = listed

abbrev Log : Table (AgentEvent EventPayload)
Log = listed

abbrev now : ℕ → ℕ
now n = 100 + n

abbrev row : Status → Approval
row status = record {
  created_ts = 1;
  updated_ts = 2;
  capability = "content.publish";
  target = "linkedin";
  requested_by = "ann";
  status = status;
  reason = none;
  payload = end;
  decided_by = none;
  decision_note = none;
  correlation_id = none;
}

-- A store with one approval, of the key 1.
abbrev with_row : Status → Store Rows Log
with_row status = record { approvals = (Rows.add (row status) nothing).1; events = nothing }

abbrev call : Call Rows Log
call = decision 1 true "bob" none

perform-RowStep_example :
    RowStep
      (action_of Rows Log call 1)
      (get Rows 1 (with_row pending).approvals)
      (get Rows 1 (perform Rows Log policy_engine now call (with_row pending)).approvals)
perform-RowStep_example = perform-RowStep Rows Log policy_engine now call (with_row pending) 1

abbrev refusals : List ((ℕ → ℕ) × Call Rows Log)
refusals =
    (now, claim 1 "eve") ∷ (now, decision 1 false "bob" none) ∷ (now, finish 1 true "eve" none) ∷ []

perform_all-IsUnapproved_example :
    IsUnapproved
      (get Rows 1 (perform_all Rows Log policy_engine refusals (with_row pending)).approvals)
unfolding find
perform_all-IsUnapproved_example =
    perform_all-IsUnapproved Rows Log policy_engine refusals (with_row pending) 1 (ground arith) tt

perform_all-final_example :
    get Rows 1
      (perform_all Rows Log policy_engine (((now, call)) ∷ refusals) (with_row rejected)).approvals
    ≡ some (row rejected)
unfolding find
perform_all-final_example =
    perform_all-final Rows Log policy_engine ((now, call) ∷ refusals) (with_row rejected) 1
      (row rejected) refl tt

abbrev store_after_claim : Store Rows Log
store_after_claim = (claim_approval Rows Log now 1 "eve" (with_row approved)).1

abbrev between : List ((ℕ → ℕ) × Call Rows Log)
between = (now, decision 1 true "bob" none) ∷ (now, claim 1 "kim") ∷ []

claim_exclusive_example :
    let s' = perform_all Rows Log policy_engine between store_after_claim in
    claim_approval Rows Log now 1 "joe" s'
    ≡ (err (lookup_error "Approval not found or not approved"), s')
unfolding claim_approval find
claim_exclusive_example =
    claim_exclusive Rows Log policy_engine now now 1 "eve" "joe" (with_row approved) between refl
      (ground arith)

decision_outcome_example :
    let s = with_row pending in
    ((get Rows 1 s.approvals ≡ none)
      → Replies.decision Rows Log now 1 true none "bob" s
        ≡ (http_error 404 "Approval not found", s))
    × ((a : Approval)
        → get Rows 1 s.approvals ≡ some a
        → Replies.decision Rows Log now 1 true none "bob" s ≡ (
            if is_pending a.status
            then (let row = record a {
              status = if true then approved else rejected;
              decided_by = some "bob";
              decision_note = none;
              updated_ts = now 0;
            } in
                (
                  done (1, row),
                  record s {
                    approvals = Rows.update 1 row s.approvals;
                    events =
                        (Log.add
                          (record {
                            ts = now 1;
                            agent_key = none;
                            event_type = "approval.decided";
                            payload = approval (1, row);
                          })
                          s.events).1;
                  },
                ))
            else (http_error 409 "Approval is already decided", s)))
decision_outcome_example = decision_outcome Rows Log now 1 true none "bob" (with_row pending)

pending_items_sound_example :
    let s = with_row pending in
    ((pending_items Rows Log s).0 ≡ length (pending_items Rows Log s).1)
    × ((pending_items Rows Log s).0 ≤ 100)
    × All
        (λ e. (is_pending e.1.status ≡ true) × (get Rows e.0 s.approvals ≡ some e.1))
        (pending_items Rows Log s).1
pending_items_sound_example = pending_items_sound Rows Log (with_row pending)
