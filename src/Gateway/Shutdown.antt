-- ===== src/Gateway/Shutdown.antt =====
-- What `on_shutdown` of gateway.py leaves behind, and what keeps it from its end.
use ai_system.Common.{
  arith, sym, subst, ◌≡◌, refl, ap, ◌∙◌, String, Bool, true, false, Option, none, some, [], ◌∷◌,
  ◌++◌, if◌then◌else◌, Dict, has_key,
}
use ai_system.Common.Effects.{returned, raised, continue, pure, raise, ◌>>=◌, ◌>>◌, get, modify}
use ai_system.Supervisor.{Supervisor, Lifecycle, TaskState, stopped, task_state}
use ai_system.Supervisor.Stopped.{stop_all-task_state}
use ai_system.Gateway.Pollers.{
  PollTask, alive, broken, LinkedinScheduler, stop_poller, ControlScheduler, stop_scheduler,
  Closing, closed, loop_closed, refused,
}
use ai_system.Gateway.Process.{
  App, put_linkedin, put_scheduler, stop_linkedin_of, stop_linkedin, stop_control_of, stop_control,
  stopped_agents, on_shutdown,
}

abbrev pub is_broken_task : Option PollTask → Bool
is_broken_task none = false
is_broken_task (some alive) = false
is_broken_task (some (broken e)) = true

module _ {W : Type 0} where
  -- The poller's loop has not ended with an exception.
  abbrev pub is_sound : Option (LinkedinScheduler W) → Bool
  is_sound none = true
  is_sound (some p) = if p.running then (if is_broken_task p.task then false else true) else true

  abbrev pub is_polling : Option (LinkedinScheduler W) → Bool
  is_polling none = false
  is_polling (some p) = p.running

abbrev pub is_started : Option ControlScheduler → Bool
is_started none = false
is_started (some c) = c.started

abbrev pub is_closing : Closing → Bool
is_closing closed = true
is_closing loop_closed = true
is_closing (refused e) = false

abbrev pub has_agent : String → Option Supervisor → Bool
has_agent key none = false
has_agent key (some s) = has_key key s.agents

abbrev pub state_in : String → Option Supervisor → TaskState
state_in key none = stopped
state_in key (some s) = task_state s key

abbrev rested_control : Option ControlScheduler → Option ControlScheduler
rested_control none = none
rested_control (some c) = some (record c { started = false })

stop_scheduler-rested :
    (closing : Closing) (jobs : Dict String) (started : Bool)
    → is_closing closing ≡ true
    → stop_scheduler closing (record { jobs = jobs; started = started })
      ≡ (returned tt, record { jobs = jobs; started = false })
unfolding stop_scheduler pure raise ◌>>=◌ ◌>>◌ get modify
stop_scheduler-rested closed jobs true h = refl
stop_scheduler-rested loop_closed jobs true h = refl
stop_scheduler-rested (refused e) jobs true h = absurd (ground arith)
stop_scheduler-rested closing jobs false h = refl

rested-is_started : (o : Option ControlScheduler) → is_started (rested_control o) ≡ false
rested-is_started none = refl
rested-is_started (some c) = refl

stopped_agents-state_in :
    (life : Lifecycle) (key : String) (o : Option Supervisor)
    → has_agent key o ≡ true
    → state_in key (stopped_agents life o) ≡ stopped
stopped_agents-state_in life key none h = refl
stopped_agents-state_in life key (some s) h = stop_all-task_state life s key h

module _ {W : Type 0} where
  abbrev rested : LinkedinScheduler W → LinkedinScheduler W
  rested p = record p { task = if p.running then none else p.task; running = false }

  abbrev rested_linkedin : Option (LinkedinScheduler W) → Option (LinkedinScheduler W)
  rested_linkedin none = none
  rested_linkedin (some p) = some (rested p)

  stop_poller-rested :
      (w : W) (task : Option PollTask) (running : Bool)
      → is_sound (some (record { service = w; task = task; running = running })) ≡ true
      → stop_poller (record { service = w; task = task; running = running })
        ≡ (returned tt, rested (record { service = w; task = task; running = running }))
  unfolding stop_poller pure raise ◌>>=◌ ◌>>◌ get modify
  stop_poller-rested w none true h = refl
  stop_poller-rested w (some alive) true h = refl
  stop_poller-rested w (some (broken e)) true h = absurd (ground arith)
  stop_poller-rested w task false h = refl

  stop_linkedin_of-rested :
      (o : Option (LinkedinScheduler W)) (a : App W)
      → a.linkedin ≡ o
      → is_sound o ≡ true
      → stop_linkedin_of o a ≡ (returned tt, record a { linkedin = rested_linkedin o })
  stop_linkedin_of-rested none a e h = ap (λ o. (returned tt, record a { linkedin = o })) e
  stop_linkedin_of-rested (some p) a e h =
      ap (λ r. put_linkedin a r) (stop_poller-rested p.service p.task p.running h)

  stop_control_of-rested :
      (closing : Closing) (o : Option ControlScheduler) (a : App W)
      → a.scheduler ≡ o
      → is_closing closing ≡ true
      → stop_control_of closing o a ≡ (returned tt, record a { scheduler = rested_control o })
  stop_control_of-rested closing none a e h = ap (λ o. (returned tt, record a { scheduler = o })) e
  stop_control_of-rested closing (some c) a e h =
      ap (λ r. put_scheduler a r) (stop_scheduler-rested closing c.jobs c.started h)

  abbrev shut_down : Lifecycle → App W → App W
  shut_down life a = record a {
    ready = false;
    supervisor = stopped_agents life a.supervisor;
    linkedin = rested_linkedin a.linkedin;
    scheduler = rested_control a.scheduler;
    events = a.events ++ ("system.shutdown_requested", none) ∷ [];
  }

  on_shutdown-shut_down :
      (life : Lifecycle) (closing : Closing) (a : App W)
      → is_sound a.linkedin ≡ true
      → is_closing closing ≡ true
      → on_shutdown life closing a ≡ (returned tt, shut_down life a)
  unfolding on_shutdown stop_linkedin stop_control pure raise ◌>>=◌ ◌>>◌ get modify
  on_shutdown-shut_down life closing a h k =
      ap (continue (λ _. stop_control closing)) (stop_linkedin_of-rested a.linkedin _ refl h)
      ∙ stop_control_of-rested closing a.scheduler _ refl k

  rested-is_polling : (o : Option (LinkedinScheduler W)) → is_polling (rested_linkedin o) ≡ false
  rested-is_polling none = refl
  rested-is_polling (some p) = refl

  -- A shutdown ends without an exception when the loop of the LinkedIn poller has not ended with
  -- one and the library lets its scheduler be shut down. Then the gateway is not ready, no agent
  -- has a task, and neither of the schedulers runs.
  pub on_shutdown_ends :
      (life : Lifecycle) (closing : Closing) (a : App W)
      → is_sound a.linkedin ≡ true
      → is_closing closing ≡ true
      → ((on_shutdown life closing a).0 ≡ returned tt)
        × ((on_shutdown life closing a).1.ready ≡ false)
        × ((key : String)
            → has_agent key a.supervisor ≡ true
            → state_in key (on_shutdown life closing a).1.supervisor ≡ stopped)
        × (is_polling (on_shutdown life closing a).1.linkedin ≡ false)
        × (is_started (on_shutdown life closing a).1.scheduler ≡ false)
  on_shutdown_ends life closing a h k = rw (on_shutdown-shut_down life closing a h k) (
    refl,
    refl,
    λ key e. stopped_agents-state_in life key a.supervisor e,
    rested-is_polling a.linkedin,
    rested-is_started a.scheduler,
  )

  -- When the loop of the poller has ended with an exception (that of a scheduled post, say), a
  -- shutdown raises this exception, and the control scheduler is left as it was.
  pub on_shutdown_raises :
      (life : Lifecycle) (closing : Closing) (a : App W) (w : W) (e : String)
      → a.linkedin ≡ some (record { service = w; task = some (broken e); running = true })
      → ((on_shutdown life closing a).0 ≡ raised e)
        × ((on_shutdown life closing a).1.scheduler ≡ a.scheduler)
  unfolding on_shutdown stop_linkedin stop_poller pure raise ◌>>=◌ ◌>>◌ get modify
  on_shutdown_raises life closing a w e h = go a.linkedin _ h
    where
      go :
          (o : Option (LinkedinScheduler W)) (b : App W)
          → o ≡ some (record { service = w; task = some (broken e); running = true })
          → ((continue (λ _. stop_control closing) (stop_linkedin_of o b)).0 ≡ raised e)
            × ((continue (λ _. stop_control closing) (stop_linkedin_of o b)).1.scheduler
                ≡ b.scheduler)
      go o b h =
          subst
            (λ o.
              ((continue (λ _. stop_control closing) (stop_linkedin_of o b)).0 ≡ raised e)
              × ((continue (λ _. stop_control closing) (stop_linkedin_of o b)).1.scheduler
                  ≡ b.scheduler))
            (sym h) (refl, refl)
