-- ===== src/Linkedin/Storage.antt =====
-- The store of tokens and scheduled posts (agents/linkedin_agent/storage.py, models.py). The
-- database is a parameter, and so are the JSON texts of the payloads. Times are numbers of seconds;
-- `naive` is a reading of `utcnow().timestamp()`.
use ai_system.Common.{
  ℕ, ◌≡◌, String, Bool, false, Option, none, some, List, [], ◌∷◌, ◌&&◌, leb, ◌==◌,
}
use ai_system.Common.Table.{Table, get}

pub data Visibility : Type 0 where
  public connections : Visibility

pub record TokenBundle : Type 0 where
  pub access_token : String
  pub expires_at : ℕ
  pub refresh_token : Option String
  pub scope : Option String

-- `now if now is not None else utcnow().timestamp()`
abbrev pub reference : Option ℕ → ℕ → ℕ
reference none naive = naive
reference (some now) naive = now

-- `TokenBundle.is_expired`
abbrev pub is_expired : Option ℕ → ℕ → TokenBundle → Bool
is_expired now naive t = leb t.expires_at (reference now naive)

pub record PostRequest : Type 0 where
  pub text : String
  pub visibility : Visibility
  pub doc_path : Option String
  pub doc_title : Option String

-- `ScheduleRequest`; `run_at` is its timestamp.
pub record ScheduleRequest : Type 0 where
  pub post : PostRequest
  pub run_at : Option ℕ
  pub cron : Option String
  pub state : String

-- What stands in the column `status`: the state of a request, or one of the two texts of
-- `publish_due`, "approval_requested:<id>" and "approval_failed:<exception>".
pub data PostStatus : Type 0 where
  written : String → PostStatus
  approval_requested : ℕ → PostStatus
  approval_failed : String → PostStatus

abbrev pub is_pending : PostStatus → Bool
is_pending (written s) = s == "pending"
is_pending (approval_requested k) = false
is_pending (approval_failed e) = false

-- A row of `scheduled_posts`, without its key
pub record ScheduledPost : Type 0 where
  pub run_at : ℕ
  pub payload : String
  pub status : PostStatus
  pub created_at : ℕ

-- `json.dumps(request.model_dump())`, and its inverse, which raises for other texts.
pub record Codec : Type 0 where
  pub dumps : ScheduleRequest → String
  pub loads : String → Option ScheduleRequest
  pub loads-dumps : (r : ScheduleRequest) → loads (dumps r) ≡ some r

module _ (T : Table ScheduledPost) (codec : Codec) where
  pub record Store : Type 0 where
    pub tokens : Option TokenBundle
    pub posts : T.State

  -- `save_tokens`
  abbrev pub save_tokens : TokenBundle → Store → Store
  save_tokens t s = record s { tokens = some t }

  -- `get_tokens`
  abbrev pub get_tokens : Store → Option TokenBundle
  get_tokens s = s.tokens

  -- `upsert_scheduled_post`, for the time `run_at` of the request
  unfoldable pub upsert_scheduled_post : ℕ → ScheduleRequest → ℕ → Store → ℕ × Store
  upsert_scheduled_post naive request run_at s =
      let (id, posts) =
        T.add
          (record {
            run_at = run_at;
            payload = codec.dumps request;
            status = written request.state;
            created_at = naive;
          })
          s.posts in
      (id, record s { posts = posts })

  -- The `WHERE` of `due_posts`
  abbrev pub is_due : ℕ → ℕ × ScheduledPost → Bool
  is_due now e = is_pending e.1.status && leb e.1.run_at now

  abbrev pub parse_row :
      ℕ × ScheduledPost
      → Option ScheduleRequest
      → Option (List (ℕ × ScheduleRequest))
      → Option (List (ℕ × ScheduleRequest))
  parse_row e none rest = none
  parse_row e (some r) none = none
  parse_row e (some r) (some rs) = some ((e.0, r) ∷ rs)

  -- The loop of `due_posts`: none stands for a payload that is refused.
  abbrev pub parse_rows : List (ℕ × ScheduledPost) → Option (List (ℕ × ScheduleRequest))
  parse_rows [] = some []
  parse_rows (e ∷ es) = parse_row e (codec.loads e.1.payload) (parse_rows es)

  -- `due_posts`
  unfoldable pub due_posts : Option ℕ → ℕ → Store → Option (List (ℕ × ScheduleRequest))
  due_posts now naive s =
      parse_rows (T.query_all (is_due (reference now naive)) (λ r. r.run_at) s.posts)

  abbrev pub mark : ℕ → PostStatus → Option ScheduledPost → Store → Store
  mark id status none s = s
  mark id status (some r) s = record s {
    posts = T.update id (record r { status = status }) s.posts;
  }

  -- `mark_done`, which changes nothing where no row has the key
  unfoldable pub mark_done : ℕ → PostStatus → Store → Store
  mark_done id status s = mark id status (get T id s.posts) s

  -- `list_scheduled`
  abbrev pub list_scheduled : Store → List (ℕ × ScheduledPost)
  list_scheduled s = T.query_all (λ e. is_pending e.1.status) (λ r. r.run_at) s.posts
