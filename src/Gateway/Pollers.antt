-- ===== src/Gateway/Pollers.antt =====
-- `LinkedInScheduler` (agents/linkedin_agent/scheduler.py) and `ControlScheduler`
-- (services/scheduler.py). What `publish_due` of a service does, and how the library's `shutdown`
-- ends, are parameters; an iteration of the poller's loop is a step between the other calls.
use ai_system.Common.{
  String, Bool, true, false, Option, none, some, [], if◌then◌else◌, Dict, insert,
}
use ai_system.Common.Effects.{
  Ended, returned, raised, Call, pure, raise, ◌>>=◌, ◌>>◌, attempt, catch, get, modify,
}

-- A task of the poller, which lives or has ended with an exception
pub data PollTask : Type 0 where
  alive : PollTask
  broken : String → PollTask

-- `LinkedInScheduler`, with the state `W` of its service
pub record LinkedinScheduler (W : Type 0) : Type 0 where
  pub service : W
  pub task : Option PollTask
  pub running : Bool

module _ {W : Type 0} where
  -- `__init__`
  abbrev pub new_poller : W → LinkedinScheduler W
  new_poller w = record { service = w; task = none; running = false }

  -- `start`
  unfoldable pub start_poller : Call (LinkedinScheduler W) (Unit {0})
  start_poller =
      modify (λ p. if p.running then p else record p { running = true; task = some alive })

  -- `await self._task` after its cancellation: only `CancelledError` is dropped.
  abbrev pub await_task : Option PollTask → Call (LinkedinScheduler W) (Unit {0})
  await_task none = pure tt
  await_task (some alive) = modify (λ p. record p { task = none })
  await_task (some (broken e)) = raise e

  -- `stop`
  unfoldable pub stop_poller : Call (LinkedinScheduler W) (Unit {0})
  stop_poller = do
    p ← get
    if p.running
        then (do modify (λ p. record p { running = false }); await_task p.task)
        else pure tt

  module _ (publish_due : Call W (Unit {0})) where
    abbrev pub serviced :
        LinkedinScheduler W → Ended (Unit {0}) × W → Ended (Unit {0}) × LinkedinScheduler W
    serviced p (answer, w) = (answer, record p { service = w })

    -- `run_once`
    unfoldable pub run_once : Call (LinkedinScheduler W) (Unit {0})
    run_once p = serviced p (publish_due p.service)

    abbrev pub after_round : Ended (Unit {0}) → Call (LinkedinScheduler W) (Unit {0})
    after_round (returned u) = pure tt
    after_round (raised e) = modify (λ p. record p { task = some (broken e) })

    abbrev pub round_of : Option PollTask → Bool → Call (LinkedinScheduler W) (Unit {0})
    round_of none running = pure tt
    round_of (some (broken e)) running = pure tt
    round_of (some alive) false = modify (λ p. record p { task = none })
    round_of (some alive) true = do answer ← attempt run_once; after_round answer

    -- An iteration of `_run`; an exception ends the task, and nobody takes notice.
    unfoldable pub poll : Call (LinkedinScheduler W) (Unit {0})
    unfolding run_once
    poll = do p ← get; round_of p.task p.running

-- `ControlScheduler`: its jobs, by their id, and whether it has started
pub record ControlScheduler : Type 0 where
  pub jobs : Dict String
  pub started : Bool

-- `__init__`
abbrev pub new_scheduler : ControlScheduler
new_scheduler = record { jobs = []; started = false }

-- The three calls of `add_job`, with `replace_existing`
abbrev pub with_jobs : ControlScheduler → ControlScheduler
with_jobs c = record c {
  jobs = insert "mother-weekly-audit" "_weekly_compaction" (
      insert "mother-daily-summary" "_daily_summary"
        (insert "mother-self-check" "_self_check" c.jobs));
  started = true;
}

-- `start`
unfoldable pub start_scheduler : Call ControlScheduler (Unit {0})
start_scheduler = modify (λ c. if c.started then c else with_jobs c)

-- How the library's `shutdown` ends: an exception says whether its text has "Event loop is closed".
pub data Closing : Type 0 where
  closed loop_closed : Closing
  refused : String → Closing

abbrev pub after_closing : Closing → Call ControlScheduler (Unit {0})
after_closing closed = pure tt
after_closing loop_closed = pure tt
after_closing (refused e) = raise e

-- `stop`, where `finally` comes before the exception is passed on
unfoldable pub stop_scheduler : Closing → Call ControlScheduler (Unit {0})
stop_scheduler closing = do
  c ← get
  if c.started
      then (do modify (λ c. record c { started = false }); after_closing closing)
      else pure tt

-- `_self_check`, `_daily_summary` and, with `compact_events` for the status, `_weekly_compaction`
unfoldable pub run_job :
    {S P : Type 0} → (status : Call S P) → (notify : P → Call S (Unit {0})) → Call S (Unit {0})
run_job status notify = catch (status >>= notify) (λ e. pure tt)
