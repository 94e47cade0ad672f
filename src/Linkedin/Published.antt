-- ===== src/Linkedin/Published.antt =====
-- What the publishing endpoint does to its approval, on every branch.
use ai_system.Common.{
  ℕ, ◌≢◌, ◌≡◌, eq_iff, refl, ap, ◌∙◌, String, Bool, true, false, Option, none, some, arith,
  if◌then◌else◌, is_some, Bool-cases, inl, inr,
}
use ai_system.Common.Value.{Value}
use ai_system.Common.Table.{Table, get, get-update}
use ai_system.Events.{AgentEvent}
use ai_system.Approvals as Approvals
use ai_system.Approvals.{
  Status, Approval, EventPayload, Snapshot, Failure, Result, approved, executing, executed,
  is_approved, is_executing, if_approved, claim_row, claim_approval, claimed, finish_row,
  finished_row, finish_approval, finish_event, commit,
}
use ai_system.Linkedin.Storage.{TokenBundle}
use ai_system.Linkedin.Service.{Answer, returned, raised, Api, LinkedinService, Clock}
use ai_system.Linkedin.Publish.{
  Reply, published, not_found, not_approved, other_capability, not_claimed, failed, uncaught, Host,
  World, post_payload, fail, after_post, after_claim, is_publication, publish_found,
  publish_approved,
}

approved_status : (x : Status) → is_approved x ≡ true → x ≡ approved
approved_status x e = ground (arith, e)

open_status : (x : Status) → is_approved x ≡ false → x ≢ approved
open_status x e h = ground (arith, e, ap is_approved h)

content_of :
    (a : Approval)
    → is_publication a ≡ true
    → (a.capability ≡ "content.publish") × (a.target ≡ "linkedin")
content_of a e = (
  (eq_iff a.capability "content.publish").0 (ground (arith, e)),
  (eq_iff a.target "linkedin").0 (ground (arith, e)),
)

other_content :
    (a : Approval)
    → is_publication a ≡ false
    → ¬ ((a.capability ≡ "content.publish") × (a.target ≡ "linkedin"))
other_content a e (c, t) =
    ground (arith, e, (eq_iff a.capability "content.publish").1 c, (eq_iff a.target "linkedin").1 t)

module _ (T : Table Approval) (E : Table (AgentEvent EventPayload)) where
  commit_row :
      (now id : ℕ) (event : String) (a : Approval) (s : Approvals.Store T E)
      → is_some (get T id s.approvals) ≡ true
      → get T id (commit T E now event id a s).1.approvals ≡ some a
  commit_row now id event a s there = get-update T id a s.approvals id there ∙ ground arith

  finish_executing :
      (now : ℕ → ℕ) (id : ℕ) (success : Bool) (by : String) (words : Option String)
      (s : Approvals.Store T E) (b : Approval)
      → get T id s.approvals ≡ some b
      → b.status ≡ executing
      → finish_approval T E now id success by words s
        ≡ commit T E
            (now 1)
            (finish_event T E success)
            id
            (finished_row T E (now 0) success words b)
            s
  unfolding finish_approval
  finish_executing now id success by words s b there running =
      ap (λ o. finish_row T E now id success words o s) there ∙ chosen
    where
      chosen :
          finish_row T E now id success words (some b) s
          ≡ commit T E
              (now 1)
              (finish_event T E success)
              id
              (finished_row T E (now 0) success words b)
              s
      chosen = rw (ap is_executing running) refl

  claim_approved :
      (now : ℕ → ℕ) (id : ℕ) (by : String) (s : Approvals.Store T E) (a : Approval)
      → get T id s.approvals ≡ some a
      → is_approved a.status ≡ true
      → claim_approval T E now id by s
        ≡ commit T E (now 1) "approval.claimed" id (claimed T E (now 0) by a) s
  unfolding claim_approval
  claim_approved now id by s a there free =
      ap (λ o. claim_row T E now id by (if_approved T E o) s) there
      ∙ ap (λ t. claim_row T E now id by (if t then some a else none) s) free

module _ (T : Table Approval) (E : Table (AgentEvent EventPayload)) (host : Host) (api : Api)
    (limit : ℕ) where
  abbrev pub HasStatus : Status → Option Approval → Type 0
  HasStatus x none = ⊥
  HasStatus x (some a) = a.status ≡ x

  abbrev pub IsContent : Approval → Type 0
  IsContent a = (a.capability ≡ "content.publish") × (a.target ≡ "linkedin")

  -- An approved publication of content on LinkedIn
  abbrev pub IsDue : Option Approval → Type 0
  IsDue none = ⊥
  IsDue (some a) = (a.status ≡ approved) × IsContent a

  -- A row that is there and not approved
  abbrev pub IsOpen : Option Approval → Type 0
  IsOpen none = ⊥
  IsOpen (some a) = ¬ (a.status ≡ approved)

  -- An approved row of another capability or target
  abbrev pub IsOther : Option Approval → Type 0
  IsOther none = ⊥
  IsOther (some a) = (a.status ≡ approved) × ¬ IsContent a

  -- What a reply says of the row before and after.
  abbrev pub IsOutcome : Reply → Option Approval → Option Approval → Type 0
  IsOutcome (published r) before after = IsDue before × HasStatus executed after
  IsOutcome failed before after = IsDue before × HasStatus approved after
  IsOutcome not_found before after = (before ≡ none) × (after ≡ none)
  IsOutcome not_approved before after = IsOpen before × (after ≡ before)
  IsOutcome other_capability before after = IsOther before × (after ≡ before)
  IsOutcome not_claimed before after = ⊥
  IsOutcome (uncaught e) before after = ⊥

  module _ (now later : ℕ → ℕ) (clock : Clock) (tokens : Option TokenBundle) (id : ℕ)
      (user : String) where
    abbrev Ends : Option Approval → Reply × World T E host api limit → Type 0
    Ends before (reply, w) = IsOutcome reply before (get T id w.approvals.approvals)

    -- The claimed row
    module _ (s : Approvals.Store T E) (b : Approval) (there : get T id s.approvals ≡ some b)
        (running : b.status ≡ executing) where
      fail-Ends :
          (before : Option Approval) (e : String) (v : LinkedinService)
          → IsDue before
          → Ends before (fail T E host api limit now later clock tokens id user e s v)
      fail-Ends before e v h = rw (finish_executing T E later id false user _ s b there running) (
        h,
        rw
            (commit_row T E (later 1) id (finish_event T E false)
              (finished_row T E (later 0) false _ b) s (ground (arith, there)))
            refl,
      )

      after_post-Ends :
          (before : Option Approval) (answer : Answer {0} Value) (v : LinkedinService)
          → IsDue before
          → Ends before (after_post T E host api limit now later clock tokens id user (answer, v) s)
      after_post-Ends before (raised e) v h = fail-Ends before e v h
      after_post-Ends before (returned r) v h =
          rw (finish_executing T E later id true user none s b there running) (
            h,
            rw
                (commit_row T E (later 1) id (finish_event T E true)
                  (finished_row T E (later 0) true none b) s (ground (arith, there)))
                refl,
          )

    claimed-Ends :
        (w : World T E host api limit) (a : Approval)
        → get T id w.approvals.approvals ≡ some a
        → is_approved a.status ≡ true
        → IsContent a
        → Ends (some a) (
            after_claim T E host api limit now later clock tokens id user
              (claim_approval T E now id user w.approvals)
              w.service)
    claimed-Ends w a there free content =
        rw (claim_approved T E now id user w.approvals a there free) (
          after_post-Ends (commit T E (now 1) "approval.claimed" id row w.approvals).1 row
            (commit_row T E (now 1) id "approval.claimed" row w.approvals (ground (arith, there)))
            refl (some a) posting.0 posting.1 (approved_status a.status free, content))
      where
        row : Approval
        row = claimed T E (now 0) user a

        posting : Answer {0} Value × LinkedinService
        posting = post_payload T E host api limit clock tokens a.payload w.service

    publish_found-Ends :
        (w : World T E host api limit) (o : Option Approval)
        → get T id w.approvals.approvals ≡ o
        → Ends o (publish_found T E host api limit now later clock tokens id user o w)
    publish_found-Ends w none there = (refl, there)
    publish_found-Ends w (some a) there = elim (Bool-cases (is_approved a.status)) [
      | inr no_ ↦ rw no_ (λ e. absurd (open_status a.status no_ e), there)
      | inl free ↦ elim (Bool-cases (is_publication a)) [
        | inr other ↦
            rw (free, other) ((approved_status a.status free, other_content a other), there)
        | inl this ↦ rw (free, this) (claimed-Ends w a there free (content_of a this))
      ]
    ]

    -- The endpoint that publishes an approval answers one of five ways. It has published: then the
    -- row was an approved one of the capability "content.publish" and the target "linkedin", and is
    -- executed after. It has failed: then the row was such a one and is approved after, so that it
    -- can be tried again. There is no such row, before and after. The row was not approved, or it
    -- was approved and of another capability or target: then it has not changed. Neither the claim nor
    -- the finish can fail here, whatever LinkedIn answers.
    pub publish_approved-IsOutcome :
        (w : World T E host api limit)
        → IsOutcome
            (publish_approved T E host api limit now later clock tokens id user w).0
            (get T id w.approvals.approvals)
            (get T id
              (publish_approved T E host api limit now later clock tokens id user
                w).1.approvals.approvals)
    unfolding publish_approved
    publish_approved-IsOutcome w = publish_found-Ends w (get T id w.approvals.approvals) refl
