-- ===== src/Executive/Endpoints.antt =====
-- The endpoints of routers/executive.py, past the guard of the role and the schema of the request.
use ai_system.Common.{ℕ, String, not, Option, none, some, List, [], ◌∷◌, length, keep_if, contains}
use ai_system.Executive.{
  Order, Decision, MotherAgent, MotherStatus, Failure, permission_error, Result, ok, err, decide,
  approve, enqueue, in_history_of, mother_status,
}

-- `app.state.agents`: the keys, and the one of "mother" if it is a `MotherAgent`.
pub record App : Type 0 where
  pub agents : List String
  pub mother : Option MotherAgent

pub data Reply {ℓ} (A : Type ℓ) : Type ℓ where
  done : A → Reply A
  unavailable : Reply A
  unknown_agents : List String → Reply A
  unknown_decision : Reply A
  conflict : Reply A
  uncaught : Failure → Reply A

-- `executive_status`
abbrev pub executive_status : App → Reply MotherStatus
executive_status app = elim app.mother [ none ↦ unavailable | some m ↦ done (mother_status m) ]

abbrev pub with_mother : {A : Type 0} → Reply A × MotherAgent → App → Reply A × App
with_mother (r, m) app = (r, record app { mother = some m })

abbrev pub uncaught_or : {A : Type 0} → Result A × MotherAgent → Reply A × MotherAgent
uncaught_or (ok a, m) = (done a, m)
uncaught_or (err e, m) = (uncaught e, m)

abbrev pub unknown_of : List String → List String → List String
unknown_of targets agents = keep_if (λ key. not (contains key agents)) targets

abbrev pub decide_known : Order → List String → MotherAgent → Reply ℕ × MotherAgent
decide_known o [] m = uncaught_or (decide o m)
decide_known o (key ∷ keys) m = (unknown_agents (key ∷ keys), m)

abbrev pub create_decision_with : Order → Option MotherAgent → App → Reply ℕ × App
create_decision_with o none app = (unavailable, app)
create_decision_with o (some m) app =
    with_mother (decide_known o (unknown_of o.target_agents app.agents) m) app

-- `create_decision`
unfoldable pub create_decision : Order → App → Reply ℕ × App
create_decision o app = create_decision_with o app.mother app

abbrev pub approve_reply : Result ℕ × MotherAgent → Reply ℕ × MotherAgent
approve_reply (ok k, m) = (done k, m)
approve_reply (err e, m) = (unknown_decision, m)

abbrev pub approve_decision_with : String → ℕ → Option MotherAgent → App → Reply ℕ × App
approve_decision_with now k none app = (unavailable, app)
approve_decision_with now k (some m) app = with_mother (approve_reply (approve now k m)) app

-- `approve_decision`
unfoldable pub approve_decision : String → ℕ → App → Reply ℕ × App
approve_decision now k app = approve_decision_with now k app.mother app

-- The answer is the depth of the queue.
abbrev pub dispatch_reply : Result {0} Unit × MotherAgent → Reply ℕ × MotherAgent
dispatch_reply (ok u, m) = (done (length m.queue), m)
dispatch_reply (err permission_error, m) = (conflict, m)
dispatch_reply (err e, m) = (uncaught e, m)

abbrev pub dispatch_found : ℕ → Option Decision → MotherAgent → Reply ℕ × MotherAgent
dispatch_found k none m = (unknown_decision, m)
dispatch_found k (some d) m = dispatch_reply (enqueue k d m)

abbrev pub dispatch_with : ℕ → Option MotherAgent → App → Reply ℕ × App
dispatch_with k none app = (unavailable, app)
dispatch_with k (some m) app = with_mother (dispatch_found k (in_history_of k m) m) app

-- `dispatch_decision`
unfoldable pub dispatch_decision : ℕ → App → Reply ℕ × App
dispatch_decision k app = dispatch_with k app.mother app
