-- ===== src/Linkedin/Tests.antt =====
-- Runs of the LinkedIn agent, over tables that are lists and an API that accepts every post.
use ai_system.Common.{ℕ, ◌≤◌, true, none, some, [], ◌∷◌}
use ai_system.Common.Value.{end, entry, text, flag}
use ai_system.Common.Table.{get}
use ai_system.Common.Table.Listed.{listed, nothing}
use ai_system.Policy.{policy_engine}
use ai_system.Approvals as Approvals
use ai_system.Approvals.{Approval, request_approval, decide}
use ai_system.Linkedin.Service.{returned, raised, Api, new, Clock}
use ai_system.Linkedin.Quota.{Attempt, posted, posted_limit}
use ai_system.Linkedin.Publish.{Host, World, publish_approved}
use ai_system.Linkedin.Published.{IsOutcome, publish_approved-IsOutcome}

abbrev api : Api
api = record {
  get_userinfo = λ t. returned (some "urn:li:ann");
  create_text_post = λ t o s v. returned (flag true);
  create_document_post = λ t o r. raised "no document";
}

abbrev attempt : Attempt
attempt = record {
  naive = 5;
  tokens = some (record { access_token = "t"; expires_at = 9; refresh_token = none; scope = none });
  create = λ t o. api.create_text_post t o "hello" "PUBLIC";
}

posted_limit_example : posted api 2 7 (attempt ∷ attempt ∷ attempt ∷ []) (new 6) ≤ 2
posted_limit_example = posted_limit api 2 7 (attempt ∷ attempt ∷ attempt ∷ []) (new 6)

abbrev host : Host
host = record { str = λ v. "hello"; post_request = λ d. raised "no document" }

abbrev clock : ℕ → ℕ
clock n = n

abbrev empty_store : Approvals.Store listed listed
empty_store = record { approvals = nothing; events = nothing }

abbrev requested : Approvals.Store listed listed
requested =
    (request_approval listed listed policy_engine clock "content.publish" "linkedin" "ann"
      (some (entry "text" (text "hello") end)) none none empty_store).1

abbrev world : World listed listed host api 2
world = record {
  approvals = (decide listed listed clock 1 true "bob" none requested).1;
  service = new 7;
}

abbrev today : Clock
today = record { today = 7; naive = 5 }

publish_approved-IsOutcome_example :
    IsOutcome listed listed host api 2
      (publish_approved listed listed host api 2 clock clock today attempt.tokens 1 "ann" world).0
      (get listed 1 world.approvals.approvals)
      (get listed 1
        (publish_approved listed listed host api 2 clock clock today attempt.tokens 1 "ann"
          world).1.approvals.approvals)
publish_approved-IsOutcome_example =
    publish_approved-IsOutcome listed listed host api 2 clock clock today attempt.tokens 1 "ann"
      world
