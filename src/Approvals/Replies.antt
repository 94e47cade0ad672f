-- ===== src/Approvals/Replies.antt =====
-- The endpoints of routers/approvals.py: what each answers.
use ai_system.Common.{
  ℕ, ◌≡◌, ◌≤◌, refl, String, Bool, true, Option, none, some, List, All, if◌then◌else◌, length, min,
  max, Bool-cases, inl, inr,
}
use ai_system.Common.Value.{Fields}
use ai_system.Common.Table.{Table, get}
use ai_system.Events.{AgentEvent, record_event}
use ai_system.Policy
use ai_system.Policy.{PolicyEngine, CapabilityPolicy, policy_engine}
use ai_system.Approvals.{
  approved, rejected, approval, is_pending, Approval, EventPayload, Snapshot, lookup_error,
  value_error, Result, ok, err, Store, decide, request_approval, list_pending,
}

-- An HTTP reply: an approval, or an error status with its detail.
pub data Reply : Type 0 where
  done : Snapshot → Reply
  http_error : ℕ → String → Reply

-- `except ValueError` of `create`. `request_approval` raises nothing else.
abbrev pub reply_to_request : Result Snapshot → Reply
reply_to_request (ok item) = done item
reply_to_request (err (lookup_error detail)) = http_error 500 detail
reply_to_request (err (value_error detail)) = http_error 400 detail

-- The `except` clauses of `decision`.
abbrev pub reply_to_decision : Result Snapshot → Reply
reply_to_decision (ok item) = done item
reply_to_decision (err (lookup_error detail)) = http_error 404 detail
reply_to_decision (err (value_error detail)) = http_error 409 detail

module _ (T : Table Approval) (E : Table (AgentEvent EventPayload)) where
  -- `pending`: the count and the items
  unfoldable pub pending_items : Store T E → ℕ × List Snapshot
  pending_items s = let items = list_pending T E 100 s in (length items, items)

  -- `create`, by the user `user_id`
  unfoldable pub create :
      (ℕ → ℕ) → String → String → Option String → Fields → String → Store T E → Reply × Store T E
  create now capability target reason payload user_id s =
      let (r, s') =
        request_approval T E policy_engine now capability target user_id (some payload) reason none
          s in
      (reply_to_request r, s')

  -- `decision`, by the user `user_id`
  unfoldable pub decision :
      (ℕ → ℕ) → ℕ → Bool → Option String → String → Store T E → Reply × Store T E
  decision now approval_id approved_ note user_id s =
      let (r, s') = decide T E now approval_id approved_ user_id note s in (reply_to_decision r, s')

  -- The reply to a decision and the store after it, on every branch: an unknown id is answered 404
  -- and a row that is not pending 409, both with the store unchanged; a pending row is rewritten as
  -- approved or rejected, by the user and with the note and the time and nothing else changed, is
  -- logged as one event "approval.decided" that carries it, and is the answer.
  pub decision_outcome :
      (now : ℕ → ℕ) (id : ℕ) (approved_ : Bool) (note : Option String) (user : String)
      (s : Store T E)
      → ((get T id s.approvals ≡ none)
          → decision now id approved_ note user s ≡ (http_error 404 "Approval not found", s))
        × ((a : Approval)
            → get T id s.approvals ≡ some a
            → decision now id approved_ note user s ≡ (
                if is_pending a.status
                then (let row = record a {
                  status = if approved_ then approved else rejected;
                  decided_by = some user;
                  decision_note = note;
                  updated_ts = now 0;
                } in
                    (
                      done (id, row),
                      record s {
                        approvals = T.update id row s.approvals;
                        events =
                            (E.add
                              (record {
                                ts = now 1;
                                agent_key = none;
                                event_type = "approval.decided";
                                payload = approval (id, row);
                              })
                              s.events).1;
                      },
                    ))
                else (http_error 409 "Approval is already decided", s)))
  unfolding decision decide record_event
  decision_outcome now id approved_ remark user s = (
    λ e. rw e,
    λ a e.
        rw e (elim (Bool-cases (is_pending a.status)) [
          | inl open_ ↦ rw open_
          | inr closed ↦ rw closed
        ]),
  )

  -- At most a hundred approvals are listed as pending, the count is their number, and each is in the
  -- table, as listed, in the state pending.
  pub pending_items_sound :
      (s : Store T E)
      → ((pending_items s).0 ≡ length (pending_items s).1)
        × ((pending_items s).0 ≤ 100)
        × All
            (λ e. (is_pending e.1.status ≡ true) × (get T e.0 s.approvals ≡ some e.1))
            (pending_items s).1
  unfolding pending_items list_pending
  pending_items_sound s = (
    refl,
    T.query_limit (λ e. is_pending e.1.status) (λ a. a.created_ts) (max 1 (min 100 200))
        s.approvals,
    T.query_sound (λ e. is_pending e.1.status) (λ a. a.created_ts) (max 1 (min 100 200))
        s.approvals,
  )
