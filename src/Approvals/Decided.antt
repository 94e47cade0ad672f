-- ===== src/Approvals/Decided.antt =====
-- What holds of a row over a whole history of calls.
use ai_system.Common.{ℕ, ◌≡◌, ◌≢◌, refl, Option, none, some, List, [], ◌∷◌, All, ap, ◌∙◌, subst}
use ai_system.Common.Table.{Table, get}
use ai_system.Events.{AgentEvent}
use ai_system.Policy.{PolicyEngine}
use ai_system.Approvals.{
  Status, pending, rejected, executed, Approval, EventPayload, Store, Call, perform, perform_all,
}
use ai_system.Approvals.Moves.{
  Action, approving, StatusStep, approve, reject, start, succeed, fail, RowStep, same, created,
  moved, action_of, perform-RowStep,
}

-- No operator has said yes to a row in one of these states.
abbrev pub IsUnapprovedStatus : Status → Type 0
IsUnapprovedStatus pending = Unit
IsUnapprovedStatus rejected = Unit
IsUnapprovedStatus _ = ⊥

abbrev pub IsUnapproved : Option Approval → Type 0
IsUnapproved none = Unit
IsUnapproved (some a) = IsUnapprovedStatus a.status

unapproved_step :
    {x : Action} {old new : Status}
    → StatusStep x old new
    → x ≢ approving
    → IsUnapprovedStatus old
    → IsUnapprovedStatus new
unapproved_step approve n u = absurd (n refl)
unapproved_step reject n u = tt
unapproved_step start n u = absurd u
unapproved_step succeed n u = absurd u
unapproved_step fail n u = absurd u

RowStep-IsUnapproved :
    {act : Option Action} {before after : Option Approval}
    → RowStep act before after
    → act ≢ some approving
    → IsUnapproved before
    → IsUnapproved after
RowStep-IsUnapproved (same e) n u = rw e u
RowStep-IsUnapproved (created a b c p) n u = rw (c, p) tt
RowStep-IsUnapproved (moved x a b at_ ea eb st) n u =
    rw eb (unapproved_step st (λ e. n (at_ ∙ ap some e)) (rw ea at u))

-- A row that is rejected or executed.
abbrev pub IsFinal : Status → Type 0
IsFinal rejected = Unit
IsFinal executed = Unit
IsFinal _ = ⊥

final_step : {x : Action} {old new : Status} → StatusStep x old new → IsFinal old → ⊥
final_step approve f = f
final_step reject f = f
final_step start f = f
final_step succeed f = f
final_step fail f = f

RowStep-final :
    {act : Option Action} {before after : Option Approval} (a : Approval)
    → RowStep act before after
    → before ≡ some a
    → IsFinal a.status
    → after ≡ some a
RowStep-final a (same e) h f = e ∙ h
RowStep-final a (created b e c p) h f = absurd (cc (e, h))
RowStep-final a (moved x c d at_ ea eb st) h f =
    let e : a ≡ c = cc (h, ea) in
    absurd (final_step st (subst IsFinal (ap (λ (r : Approval). r.status) e) f))

module _ (T : Table Approval) (E : Table (AgentEvent EventPayload)) (policies : PolicyEngine) where
  -- A row that no operator had approved stays so through every sequence of calls without an
  -- approving decision on it: only such a decision leads to approved, executing or executed.
  pub perform_all-IsUnapproved :
      (calls : List ((ℕ → ℕ) × Call T E)) (s : Store T E) (k : ℕ)
      → All (λ e. action_of T E e.1 k ≢ some approving) calls
      → IsUnapproved (get T k s.approvals)
      → IsUnapproved (get T k (perform_all T E policies calls s).approvals)
  unfolding perform_all
  perform_all-IsUnapproved [] s k n u = u
  perform_all-IsUnapproved ((now, c) ∷ rest) s k n u =
      perform_all-IsUnapproved rest (perform T E policies now c s) k n.1
        (RowStep-IsUnapproved (perform-RowStep T E policies now c s k) n.0 u)

  -- A rejected or executed approval is never changed again, by any sequence of calls.
  pub perform_all-final :
      (calls : List ((ℕ → ℕ) × Call T E)) (s : Store T E) (k : ℕ) (a : Approval)
      → get T k s.approvals ≡ some a
      → IsFinal a.status
      → get T k (perform_all T E policies calls s).approvals ≡ some a
  unfolding perform_all
  perform_all-final [] s k a h f = h
  perform_all-final ((now, c) ∷ rest) s k a h f =
      perform_all-final rest (perform T E policies now c s) k a
        (RowStep-final a (perform-RowStep T E policies now c s k) h f) f
