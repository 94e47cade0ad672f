-- ===== src/Supervisor/Tests.antt =====
-- Runs of the supervisor, with an agent whose methods never raise.
use ai_system.Common.{
  ℕ, refl, lookup, insert, remove, ◌≡◌, ◌⊎◌, String, Option, true, false, none, some, [], ◌∷◌,
}
use ai_system.Common.Effects.{Ended, returned, raised}
use ai_system.Common.Value.{Value, whole, text}
use ai_system.Supervisor as Supervisor
use ai_system.Supervisor.{
  Lifecycle, Agent, Supervisor, new, stopped, running, failed, task_state, start, stop, tick,
  begin_loop, interval,
}
use ai_system.Supervisor.Tasks.{starting, beginning, here, next, Reach-task_state}

abbrev calm : Lifecycle
calm = record {
  start = λ key a. (none, record a { running = true });
  stop = λ key a. (none, record a { running = false });
}

abbrev idle : Agent
idle = record { running = false; last_error = none }

abbrev failing : Agent → Option String × Agent
failing a = (some "boom", a)

abbrev started : Supervisor
started = (start calm "crypto" (new (("crypto", idle) ∷ []))).1

abbrev fallen : Supervisor
fallen = tick "crypto" 0 failing started

-- A number is one of seconds, and all else is no number.
abbrev to_int : Value → Ended ℕ
to_int (whole n) = returned n
to_int v = raised "invalid literal for int()"

abbrev configured : String → Option Value
configured key = some (text "soon")

abbrev unbegun : Supervisor
unbegun = begin_loop "crypto" 0 (interval to_int (configured "crypto")) started

Reach-task_state_example :
    (task_state unbegun "crypto" ≡ stopped)
    ⊎ ((task_state unbegun "crypto" ≡ running)
        ⊎ ((task_state unbegun "crypto" ≡ failed)
            × ((e : String) × (interval to_int (configured "crypto") ≡ raised e))))
Reach-task_state_example =
    Reach-task_state calm to_int configured (("crypto", idle) ∷ []) "crypto" (
      next (next here (starting "crypto" (new (("crypto", idle) ∷ []))))
        (beginning "crypto" 0 started))

-- A task that ended so is reported as failed, and a stop of its agent raises its exception, takes it
-- out and leaves the agent running.
stops_after_failure :
    (task_state unbegun "crypto" ≡ failed)
    × ((stop calm "crypto" unbegun).0 ≡ Supervisor.raised "invalid literal for int()")
    × (task_state (stop calm "crypto" unbegun).1 "crypto" ≡ stopped)
    × (lookup "crypto" (stop calm "crypto" unbegun).1.agents
        ≡ some (record { running = true; last_error = none }))
unfolding start stop task_state begin_loop interval lookup insert remove
stops_after_failure = (refl, refl, refl, refl)

-- A tick that raises leaves the agent reported as stopped.
falls : task_state fallen "crypto" ≡ stopped
unfolding start tick task_state lookup insert remove
falls = refl
