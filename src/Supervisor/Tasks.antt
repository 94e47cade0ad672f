-- ===== src/Supervisor/Tasks.antt =====
-- The tasks of the supervisor, and the states that it reports them in.
use ai_system.Common.Effects.{Ended, returned, raised}
use ai_system.Common.Value.{Value}
use ai_system.Common.{
  subst, eq_iff, ℕ, ◌≡◌, ◌⊎◌, refl, String, Bool, true, false, Option, none, some, ◌==◌,
  if◌then◌else◌, Dict, lookup, insert, remove, lookup-insert, lookup-remove, Bool-cases, inl, inr,
}
use ai_system.Supervisor.{
  finished, failed, failure_of, awaited, begin_loop, interval, Agent, Raised, Lifecycle, live, Task,
  Supervisor, new, stopped, running, task_state, is_live, ok, launch, launched, start_known,
  stopped_with, stop_known, ticked, tick_known, state_of, start, stop, is_current, tick,
}

module _ (life : Lifecycle) (to_int : Value → Ended ℕ) (configured : String → Option Value) where
  -- The steps of the supervisor and of the loops that it started. `configured` is the value of
  -- "tick_seconds" of each agent.
  pub data Step : Supervisor → Supervisor → Type 0 where
    starting : (key : String) (s : Supervisor) → Step s (start life key s).1
    halting : (key : String) (s : Supervisor) → Step s (stop life key s).1
    ticking :
        (key : String) (task : ℕ) (on_tick : Agent → Raised × Agent) (s : Supervisor)
        → Step s (tick key task on_tick s)
    beginning :
        (key : String) (task : ℕ) (s : Supervisor)
        → Step s (begin_loop key task (interval to_int (configured key)) s)

  pub data Reach (s : Supervisor) : Supervisor → Type 0 where
    here : Reach s s
    next : {t u : Supervisor} → Reach s t → Step t u → Reach s u

  -- A task is live, or its loop ended with the exception that the configured interval raises.
  abbrev IsTaskOf : String → Option Task → Type 0
  IsTaskOf key none = Unit
  IsTaskOf key (some t) =
      (t.condition ≡ live)
      ⊎ ((e : String) × (t.condition ≡ finished e) × (interval to_int (configured key) ≡ raised e))

  record IsTidy (s : Supervisor) : Type 0 where
    at : (key : String) → IsTaskOf key (lookup key s.tasks)

  remove-IsTidy :
      (key : String) (s : Supervisor) (agents : Dict Agent)
      → IsTidy s
      → IsTidy (record s { agents = agents; tasks = remove key s.tasks })
  remove-IsTidy key s agents h = record {
    at = λ j.
        rw (lookup-remove key j s.tasks)
          (elim (Bool-cases (key == j)) [ inl e ↦ rw e tt | inr n ↦ rw n (h.at j) ]);
  }

  launch-IsTidy : (key : String) (s : Supervisor) → IsTidy s → IsTidy (launch key s)
  launch-IsTidy key s h = record {
    at = λ j.
        rw (lookup-insert key j _ s.tasks)
          (elim (Bool-cases (key == j)) [ inl e ↦ rw e (inl refl) | inr n ↦ rw n (h.at j) ]);
  }

  agents-IsTidy :
      (s : Supervisor) (agents : Dict Agent) → IsTidy s → IsTidy (record s { agents = agents })
  agents-IsTidy s agents h = record { at = h.at }

  module _ (key : String) where
    start-IsTidy : (s : Supervisor) → IsTidy s → IsTidy (start life key s).1
    unfolding start
    start-IsTidy s h = known (lookup key s.agents)
      where
        s' : Supervisor
        s' = record s { tasks = remove key s.tasks }

        h' : IsTidy s'
        h' = remove-IsTidy key s s.agents h

        begun : (r : Raised × Agent) → IsTidy (launched life key r s').1
        begun (none, a) =
            launch-IsTidy key (record s' { agents = insert key a s.agents }) (agents-IsTidy s' _ h')
        begun (some e, a) = agents-IsTidy s' (insert key a s.agents) h'

        entered :
            (up : Bool) (a : Agent)
            → IsTidy (if up then (ok, launch key s') else launched life key (life.start key a) s').1
        entered true a = launch-IsTidy key s' h'
        entered false a = begun (life.start key a)

        known : (o : Option Agent) → IsTidy (start_known life key o s).1
        known none = h
        known (some a) = elim (Bool-cases (is_live (lookup key s.tasks))) [
          | inl on ↦ rw on h
          | inr off ↦ rw off (entered a.running a)
        ]

    stop-IsTidy : (s : Supervisor) → IsTidy s → IsTidy (stop life key s).1
    unfolding stop
    stop-IsTidy s h = known (lookup key s.agents)
      where
        s' : Supervisor
        s' = record s { tasks = remove key s.tasks }

        ended : (r : Raised × Agent) → IsTidy (stopped_with life key r s').1
        ended (none, a) = remove-IsTidy key s (insert key a s.agents) h
        ended (some e, a) = remove-IsTidy key s (insert key a s.agents) h

        after : (failure : Raised) (a : Agent) → IsTidy (awaited life key failure a s').1
        after none a = ended (life.stop key a)
        after (some e) a = remove-IsTidy key s s.agents h

        known : (o : Option Agent) → IsTidy (stop_known life key o s).1
        known none = h
        known (some a) = after (failure_of (lookup key s.tasks)) a

  tick-IsTidy :
      (key : String) (task : ℕ) (on_tick : Agent → Raised × Agent) (s : Supervisor)
      → IsTidy s
      → IsTidy (tick key task on_tick s)
  unfolding tick
  tick-IsTidy key task on_tick s h = known (lookup key s.agents)
    where
      done : (r : Raised × Agent) → IsTidy (ticked key task r s)
      done (none, a) = agents-IsTidy s (insert key a s.agents) h
      done (some e, a) = elim (Bool-cases (is_current task (lookup key s.tasks))) [
        | inl own ↦ rw own (remove-IsTidy key s _ h)
        | inr other ↦ rw other (agents-IsTidy s _ h)
      ]

      entered : (up : Bool) (r : Raised × Agent) → IsTidy (if up then ticked key task r s else s)
      entered true r = done r
      entered false r = h

      known : (o : Option Agent) → IsTidy (tick_known key task on_tick o s)
      known none = h
      known (some a) = entered a.running (on_tick a)

  begin_loop-IsTidy :
      (key : String) (task : ℕ) (answer : Ended ℕ) (s : Supervisor)
      → interval to_int (configured key) ≡ answer
      → IsTidy s
      → IsTidy (begin_loop key task answer s)
  unfolding begin_loop
  begin_loop-IsTidy key task (returned n) s e h = h
  begin_loop-IsTidy key task (raised x) s e h =
      elim (Bool-cases (is_current task (lookup key s.tasks))) [
        | inr not_own ↦ rw not_own h
        | inl own ↦ rw own (record {
          at = λ j. rw (lookup-insert key j _ s.tasks) (elim (Bool-cases (key == j)) [
            | inl same ↦ rw same (
                inr (
                  x,
                  refl,
                  subst (λ k. interval to_int (configured k) ≡ raised x) ((eq_iff key j).0 same) e,
                ))
            | inr n ↦ rw n (h.at j)
          ]);
        })
      ]

  Reach-IsTidy : (agents : Dict Agent) {s : Supervisor} → Reach (new agents) s → IsTidy s
  unfolding lookup
  Reach-IsTidy agents here = record { at = λ j. tt }
  Reach-IsTidy agents (next r (starting key s)) = start-IsTidy key s (Reach-IsTidy agents r)
  Reach-IsTidy agents (next r (halting key s)) = stop-IsTidy key s (Reach-IsTidy agents r)
  Reach-IsTidy agents (next r (ticking key task on_tick s)) =
      tick-IsTidy key task on_tick s (Reach-IsTidy agents r)
  Reach-IsTidy agents (next r (beginning key task s)) =
      begin_loop-IsTidy key task _ s refl (Reach-IsTidy agents r)

  -- Whatever starts, stops, first statements and ticks of loops follow one another, failing ones
  -- included, `task_state` never answers "stopping", and it answers "failed" only for an agent for
  -- which reading the interval from its configuration raises.
  pub Reach-task_state :
      (agents : Dict Agent) (key : String) {s : Supervisor}
      → Reach (new agents) s
      → (task_state s key ≡ stopped)
        ⊎ ((task_state s key ≡ running)
            ⊎ ((task_state s key ≡ failed)
                × ((e : String) × (interval to_int (configured key) ≡ raised e))))
  unfolding task_state
  Reach-task_state agents key {s = s} r =
      classify (lookup key s.tasks) ((Reach-IsTidy agents r).at key)
    where
      classify :
          (o : Option Task)
          → IsTaskOf key o
          → (state_of o ≡ stopped)
            ⊎ ((state_of o ≡ running)
                ⊎ ((state_of o ≡ failed)
                    × ((e : String) × (interval to_int (configured key) ≡ raised e))))
      classify none h = inl refl
      classify (some t) (inl h) = inr (inl (rw h))
      classify (some t) (inr (e, h, i)) = inr (inr (rw h, (e, i)))
