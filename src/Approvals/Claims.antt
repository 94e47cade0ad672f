-- ===== src/Approvals/Claims.antt =====
-- Claims of an approved action, one after the other.
use ai_system.Common.{
  ℕ, ◌≡◌, ◌≢◌, refl, String, Option, none, some, List, [], ◌∷◌, All, arith, ap, ◌∙◌, Bool-cases,
  inl, inr,
}
use ai_system.Common.Table.{Table, get, get-update}
use ai_system.Events.{AgentEvent}
use ai_system.Policy.{PolicyEngine}
use ai_system.Approvals.{
  Status, executing, is_approved, Approval, EventPayload, Snapshot, lookup_error, ok, err, Store,
  claimed, if_approved, claim_row, claim_approval, Call, perform, perform_all,
}
use ai_system.Approvals.Moves.{
  Action, succeeding, failing, StatusStep, approve, reject, start, succeed, fail, RowStep, same,
  created, moved, action_of, perform-RowStep,
}

abbrev IsExecuting : Option Approval → Type 0
IsExecuting none = ⊥
IsExecuting (some a) = a.status ≡ executing

executing_step :
    {x : Action} {old new : Status}
    → StatusStep x old new
    → x ≢ succeeding
    → x ≢ failing
    → old ≡ executing
    → new ≡ executing
executing_step approve n m e = cc
executing_step reject n m e = cc
executing_step start n m e = refl
executing_step succeed n m e = absurd (n refl)
executing_step fail n m e = absurd (m refl)

RowStep-IsExecuting :
    {act : Option Action} {before after : Option Approval}
    → RowStep act before after
    → act ≢ some succeeding
    → act ≢ some failing
    → IsExecuting before
    → IsExecuting after
RowStep-IsExecuting (same e) n m u = rw e u
RowStep-IsExecuting (created a b c p) n m u = absurd (rw b at u)
RowStep-IsExecuting (moved x a b at_ ea eb st) n m u =
    rw eb (executing_step st (λ e. n (at_ ∙ ap some e)) (λ e. m (at_ ∙ ap some e)) (rw ea at u))

module _ (T : Table Approval) (E : Table (AgentEvent EventPayload)) where
  claim_refused :
      (now : ℕ → ℕ) (id : ℕ) (by : String) (s : Store T E)
      → IsExecuting (get T id s.approvals)
      → claim_approval T E now id by s
        ≡ (err (lookup_error "Approval not found or not approved"), s)
  unfolding claim_approval
  claim_refused now id by s h = go (get T id s.approvals) h
    where
      go :
          (o : Option Approval)
          → IsExecuting o
          → claim_row T E now id by (if_approved T E o) s
            ≡ (err (lookup_error "Approval not found or not approved"), s)
      go none h = absurd h
      go (some a) h = rw (ap is_approved h)

  claim_executes :
      (now : ℕ → ℕ) (id : ℕ) (by : String) (s : Store T E) {found : Snapshot}
      → (claim_approval T E now id by s).0 ≡ ok found
      → IsExecuting (get T id (claim_approval T E now id by s).1.approvals)
  unfolding claim_approval
  claim_executes now id by s {found = found} h = go (get T id s.approvals) refl h
    where
      written :
          (a : Approval)
          → get T id s.approvals ≡ some a
          → get T id (T.update id (claimed T E (now 0) by a) s.approvals)
            ≡ some (claimed T E (now 0) by a)
      written a e =
          get-update T id (claimed T E (now 0) by a) s.approvals id (ground (arith, e))
          ∙ ground arith

      go :
          (o : Option Approval)
          → get T id s.approvals ≡ o
          → (claim_row T E now id by (if_approved T E o) s).0 ≡ ok found
          → IsExecuting (get T id (claim_row T E now id by (if_approved T E o) s).1.approvals)
      go none e h = absurd (ground arith)
      go (some a) e h = elim (Bool-cases (is_approved a.status)) [
        | inl free ↦ rw (free, written a e) refl
        | inr taken ↦ absurd (cc (rw taken at h))
      ]

  stays-IsExecuting :
      (policies : PolicyEngine) (calls : List ((ℕ → ℕ) × Call T E)) (s : Store T E) (k : ℕ)
      → All
          (λ e. (action_of T E e.1 k ≢ some succeeding) × (action_of T E e.1 k ≢ some failing))
          calls
      → IsExecuting (get T k s.approvals)
      → IsExecuting (get T k (perform_all T E policies calls s).approvals)
  unfolding perform_all
  stays-IsExecuting policies [] s k n u = u
  stays-IsExecuting policies ((now, c) ∷ rest) s k n u =
      stays-IsExecuting policies rest (perform T E policies now c s) k n.1
        (RowStep-IsExecuting (perform-RowStep T E policies now c s k) n.0.0 n.0.1 u)

  -- Claims made one after the other are exclusive: after a claim that succeeded, and any sequence of
  -- calls that do not finish that approval, a further claim of it raises and changes nothing.
  pub claim_exclusive :
      (policies : PolicyEngine) (now now' : ℕ → ℕ) (id : ℕ) (by by' : String) (s : Store T E)
      (calls : List ((ℕ → ℕ) × Call T E)) {found : Snapshot}
      → (claim_approval T E now id by s).0 ≡ ok found
      → All
          (λ e. (action_of T E e.1 id ≢ some succeeding) × (action_of T E e.1 id ≢ some failing))
          calls
      → let s' = perform_all T E policies calls (claim_approval T E now id by s).1 in
        claim_approval T E now' id by' s'
        ≡ (err (lookup_error "Approval not found or not approved"), s')
  claim_exclusive policies now now' id by by' s calls h n = claim_refused now' id by' _ (
      stays-IsExecuting policies calls (claim_approval T E now id by s).1 id n
        (claim_executes now id by s h))
