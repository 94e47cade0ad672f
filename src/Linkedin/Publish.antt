-- ===== src/Linkedin/Publish.antt =====
-- The endpoint that publishes an approved post (`publish_approved` in agents/linkedin_agent/router.py).
use ai_system.Common.{
  ℕ, String, Bool, true, false, not, ◌&&◌, Option, none, some, eqb, ◌==◌, ◌<>◌, if◌then◌else◌,
}
use ai_system.Common.Value.{Fields, end, entry, Value, absent, text, flag, whole, mapping, sequence}
use ai_system.Common.Value as Value
use ai_system.Common.Table.{Table, get}
use ai_system.Events.{AgentEvent}
use ai_system.Approvals as Approvals
use ai_system.Approvals.{
  Approval, EventPayload, Snapshot, Failure, Result, approved, executing, executed, is_approved,
  is_executing, if_approved, claim_row, claim_approval, claimed, finish_row, finished_row,
  finish_approval, finish_event, commit,
}
use ai_system.Linkedin.Storage.{TokenBundle, PostRequest}
use ai_system.Linkedin.Service.{
  Answer, returned, raised, Api, LinkedinService, Clock, post_text, post_document,
}

-- `payload.get(key)`
abbrev pub field : String → Fields → Option Value
field key end = none
field key (entry k v rest) = if k == key then some v else field key rest

-- Python's truth of a value
abbrev pub truth : Option Value → Bool
truth none = false
truth (some absent) = false
truth (some (text s)) = not (s == "")
truth (some (flag b)) = b
truth (some (whole n)) = not (eqb n 0)
truth (some (mapping end)) = false
truth (some (mapping (entry k v rest))) = true
truth (some (sequence Value.done)) = false
truth (some (sequence (Value.element v rest))) = true

-- `str(payload.get(key, default))`
abbrev pub text_or : (Value → String) → String → Option Value → String
text_or str default none = default
text_or str default (some v) = str v

pub data Reply : Type 0 where
  published : Value → Reply
  not_found not_approved other_capability not_claimed failed : Reply
  uncaught : Failure → Reply

-- `str` of a value, and `PostRequest(**payload)`, which raises for a payload of another shape.
pub record Host : Type 0 where
  pub str : Value → String
  pub post_request : Fields → Answer {0} PostRequest

-- `content.publish` of LinkedIn
abbrev pub is_publication : Approval → Bool
is_publication a = a.capability == "content.publish" && a.target == "linkedin"

module _ (T : Table Approval) (E : Table (AgentEvent EventPayload)) (host : Host) (api : Api)
    (limit : ℕ) where
  pub record World : Type 0 where
    pub approvals : Approvals.Store T E
    pub service : LinkedinService

  -- The posting of a claimed payload
  abbrev pub post_parsed :
      Clock
      → Option TokenBundle
      → Answer {0} PostRequest
      → LinkedinService
      → Answer {0} Value × LinkedinService
  post_parsed clock tokens (raised e) v = (raised e, v)
  post_parsed clock tokens (returned r) v = post_document api limit clock tokens r v

  abbrev pub post_payload :
      Clock → Option TokenBundle → Fields → LinkedinService → Answer {0} Value × LinkedinService
  post_payload clock tokens payload v =
      if truth (field "doc_path" payload)
      then post_parsed clock tokens (host.post_request payload) v
      else (let words = text_or host.str "" (field "text" payload) in
          if words == ""
          then (raised "Approval payload contains no text", v)
          else post_text api limit clock tokens words
              (text_or host.str "PUBLIC" (field "visibility" payload)) v)

  abbrev pub exception_text : Failure → String
  exception_text (Approvals.lookup_error e) = e
  exception_text (Approvals.value_error e) = e

  -- The handler: `finish_approval` with `success=False`, which may raise itself
  abbrev pub failed_with :
      Result {0} Snapshot × Approvals.Store T E → LinkedinService → Reply × World
  failed_with (Approvals.ok a, s) v = (failed, record { approvals = s; service = v })
  failed_with (Approvals.err e, s) v = (uncaught e, record { approvals = s; service = v })

  module _ (now later : ℕ → ℕ) (clock : Clock) (tokens : Option TokenBundle) (id : ℕ)
      (user : String) where
    abbrev pub fail : String → Approvals.Store T E → LinkedinService → Reply × World
    fail e s v =
        failed_with (finish_approval T E later id false user (some ("Execution failed: " <> e)) s) v

    -- After the call of `finish_approval` with `success=True`
    abbrev pub finished_with :
        Value → Result {0} Snapshot × Approvals.Store T E → LinkedinService → Reply × World
    finished_with r (Approvals.ok a, s) v = (published r, record { approvals = s; service = v })
    finished_with r (Approvals.err e, s) v = fail (exception_text e) s v

    abbrev pub after_post : Answer {0} Value × LinkedinService → Approvals.Store T E → Reply × World
    after_post (raised e, v) s = fail e s v
    after_post (returned r, v) s = finished_with r (finish_approval T E later id true user none s) v

    abbrev pub after_claim :
        Result {0} Snapshot × Approvals.Store T E → LinkedinService → Reply × World
    after_claim (Approvals.err e, s) v = (not_claimed, record { approvals = s; service = v })
    after_claim (Approvals.ok a, s) v = after_post (post_payload clock tokens a.1.payload v) s

    abbrev pub publish_found : Option Approval → World → Reply × World
    publish_found none w = (not_found, w)
    publish_found (some a) w =
        if is_approved a.status
        then (if is_publication a
            then after_claim (claim_approval T E now id user w.approvals) w.service
            else (other_capability, w))
        else (not_approved, w)

    -- `publish_approved`
    unfoldable pub publish_approved : World → Reply × World
    publish_approved w = publish_found (get T id w.approvals.approvals) w
