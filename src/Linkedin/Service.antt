-- ===== src/Linkedin/Service.antt =====
-- `LinkedInService` (agents/linkedin_agent/service.py) and `LinkedInScheduler`
-- (agents/linkedin_agent/scheduler.py). The calls of LinkedIn over the network are the parameter
-- `Api`; a date is a number of days, and the readings of the clock are arguments.
use ai_system.Common.{
  ℕ, suc, String, Bool, true, false, not, Option, none, some, List, [], ◌∷◌, leb, eqb, ◌==◌,
  if◌then◌else◌,
}
use ai_system.Common.Value.{Fields, Value}
use ai_system.Common.Table.{Table}
use ai_system.Policy.{PolicyEngine}
use ai_system.Events.{AgentEvent}
use ai_system.Approvals as Approvals
use ai_system.Approvals.{Approval, EventPayload, request_approval}
use ai_system.Linkedin.Storage.{
  TokenBundle, is_expired, PostRequest, ScheduleRequest, PostStatus, approval_requested,
  approval_failed, ScheduledPost, Codec, Store, upsert_scheduled_post, due_posts, mark_done,
}

-- A call that returns or raises; the text is the message of the exception.
pub data Answer {ℓ} (A : Type ℓ) : Type ℓ where
  returned : A → Answer A
  raised : String → Answer A

-- `oauth.get_userinfo` (the subject in its answer) and the two calls of `LinkedInClient`.
pub record Api : Type 0 where
  pub get_userinfo : String → Answer {0} (Option String)
  pub create_text_post : String → String → String → String → Answer {0} Value
  pub create_document_post : String → String → PostRequest → Answer {0} Value

pub record LinkedinService : Type 0 where
  pub daily_reset : ℕ
  pub daily_posts : ℕ

-- `__init__`
abbrev pub new : ℕ → LinkedinService
new today = record { daily_reset = today; daily_posts = 0 }

-- `_reset_daily_if_needed`
abbrev pub reset_daily_if_needed : ℕ → LinkedinService → LinkedinService
reset_daily_if_needed today v =
    if eqb today v.daily_reset then v else record { daily_reset = today; daily_posts = 0 }

-- The readings of the clock in a call: the date, and `utcnow().timestamp()`.
pub record Clock : Type 0 where
  pub today : ℕ
  pub naive : ℕ

-- `_load_tokens`
abbrev pub load_tokens : ℕ → Option TokenBundle → Answer {0} TokenBundle
load_tokens naive none = raised "LinkedIn tokens not initialised; authenticate first"
load_tokens naive (some t) =
    if is_expired none naive t
    then raised "LinkedIn token expired; refresh required"
    else returned t

-- `_owner_urn`, after `get_userinfo`
abbrev pub owner_urn : Answer {0} (Option String) → Answer {0} String
owner_urn (raised e) = raised e
owner_urn (returned none) = raised "Unable to determine LinkedIn owner URN"
owner_urn (returned (some owner)) =
    if owner == "" then raised "Unable to determine LinkedIn owner URN" else returned owner

abbrev pub and_then {ℓ} : {A B : Type ℓ} → Answer A → (A → Answer B) → Answer B
and_then (raised e) f = raised e
and_then (returned a) f = f a

-- `self._daily_posts += 1` after a call that returned
abbrev pub count_post : Answer {0} Value → LinkedinService → Answer {0} Value × LinkedinService
count_post (returned r) v = (returned r, record v { daily_posts = suc v.daily_posts })
count_post (raised e) v = (raised e, v)

module _ (api : Api) (limit : ℕ) where
  -- What `post_text` and `post_document` share: `create` gets the access token and the owner.
  abbrev pub post_checked :
      Clock
      → Option TokenBundle
      → (String → String → Answer {0} Value)
      → LinkedinService
      → Answer {0} Value × LinkedinService
  post_checked clock tokens create v =
      if leb limit v.daily_posts
      then (raised "Daily LinkedIn post limit reached", v)
      else count_post
          (and_then (load_tokens clock.naive tokens) (λ t.
            and_then (owner_urn (api.get_userinfo t.access_token))
              (λ owner. create t.access_token owner)))
          v

  unfoldable pub post :
      Clock
      → Option TokenBundle
      → (String → String → Answer {0} Value)
      → LinkedinService
      → Answer {0} Value × LinkedinService
  post clock tokens create v =
      post_checked clock tokens create (reset_daily_if_needed clock.today v)

  -- `post_text`
  abbrev pub post_text :
      Clock
      → Option TokenBundle
      → String
      → String
      → LinkedinService
      → Answer {0} Value × LinkedinService
  post_text clock tokens text visibility =
      post clock tokens (λ token owner. api.create_text_post token owner text visibility)

  -- `post_document`
  abbrev pub post_document :
      Clock
      → Option TokenBundle
      → PostRequest
      → LinkedinService
      → Answer {0} Value × LinkedinService
  post_document clock tokens request =
      post clock tokens (λ token owner. api.create_document_post token owner request)

module _ (P : Table ScheduledPost) (codec : Codec) where
  abbrev pub schedule_at :
      ℕ → ScheduleRequest → Option ℕ → Store P codec → Answer {0} ℕ × Store P codec
  schedule_at naive request none s = (raised "run_at is required for scheduling", s)
  schedule_at naive request (some run_at) s =
      let (id, s') = upsert_scheduled_post P codec naive request run_at s in (returned id, s')

  -- `schedule_post`
  abbrev pub schedule_post : ℕ → ScheduleRequest → Store P codec → Answer {0} ℕ × Store P codec
  schedule_post naive request s = schedule_at naive request request.run_at s

  -- `health`: whether there is a token that has not expired
  abbrev pub has_token : ℕ → Option TokenBundle → Bool
  has_token naive none = false
  has_token naive (some t) = not (is_expired none naive t)

  module _ (T : Table Approval) (E : Table (AgentEvent EventPayload)) where
    pub record World : Type 0 where
      pub linkedin : Store P codec
      pub approvals : Approvals.Store T E

    abbrev pub message : Approvals.Failure → String
    message (Approvals.lookup_error e) = e
    message (Approvals.value_error e) = e

    -- The status that `publish_due` writes for the answer of `request_approval`.
    abbrev pub status_after : Approvals.Result {0} Approvals.Snapshot → PostStatus
    status_after (Approvals.ok a) = approval_requested a.0
    status_after (Approvals.err e) = approval_failed (message e)

    abbrev pub is_requested : Approvals.Result {0} Approvals.Snapshot → Bool
    is_requested (Approvals.ok a) = true
    is_requested (Approvals.err e) = false

    -- `model_dump` of a request, with "scheduled_id"
    module _ (policies : PolicyEngine) (dump : ℕ → ScheduleRequest → Fields) (now : ℕ → ℕ → ℕ) where
      abbrev pub request_post : ℕ → ScheduleRequest → World → Bool × World
      request_post id r w =
          let (a, approvals) =
            request_approval T E policies (now id) "content.publish" "linkedin" "linkedin_scheduler"
              (some (dump id r)) (some "Scheduled LinkedIn post reached its execution time") none
              w.approvals in
          (
            is_requested a,
            record {
              linkedin = mark_done P codec id (status_after a) w.linkedin;
              approvals = approvals;
            },
          )

      -- The loop of `publish_due`, with the keys whose approval was requested
      unfoldable pub request_posts : List (ℕ × ScheduleRequest) → World → List ℕ × World
      request_posts [] w = ([], w)
      request_posts ((id, r) ∷ rest) w =
          let (requested, w') = request_post id r w in
          let (ids, w'') = request_posts rest w' in (if requested then id ∷ ids else ids, w'')

      abbrev pub publish_parsed :
          Option (List (ℕ × ScheduleRequest)) → World → Answer {0} (List ℕ) × World
      publish_parsed none w = (raised "payload", w)
      publish_parsed (some due) w = let (ids, w') = request_posts due w in (returned ids, w')

      -- `publish_due`
      unfoldable pub publish_due : Option ℕ → ℕ → World → Answer {0} (List ℕ) × World
      unfolding request_posts
      publish_due at naive w = publish_parsed (due_posts P codec at naive w.linkedin) w
