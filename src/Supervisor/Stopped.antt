-- ===== src/Supervisor/Stopped.antt =====
-- What `stop_all` of ai/supervisor.py leaves behind.
use ai_system.Common.{
  is_some, ap, ◌∙◌, sym, subst, eq→beq, Bool-cases, inl, inr, arith, ◌≡◌, refl, String, Bool, true,
  false, Option, none, some, List, [], ◌∷◌, ◌==◌, eq_iff, if◌then◌else◌, Dict, lookup, has_key,
  keys, lookup-insert, lookup-remove, contains,
}
use ai_system.Supervisor.{
  Agent, Raised, Lifecycle, Task, Supervisor, stopped_with, failure_of, awaited, stop_known, stop,
  stop_each, stop_all, task_state, state_of, stopped,
}

module _ (life : Lifecycle) where
  -- A stop of a known agent takes its task out, and leaves no task where there was none.
  stopped_with-tasks :
      (key : String) (answer : Raised × Agent) (s : Supervisor)
      → (stopped_with life key answer s).1.tasks ≡ s.tasks
  stopped_with-tasks key (none, a) s = refl
  stopped_with-tasks key (some e, a) s = refl

  stopped_with-has_key :
      (key j : String) (answer : Raised × Agent) (s : Supervisor)
      → has_key j s.agents ≡ true
      → has_key j (stopped_with life key answer s).1.agents ≡ true
  stopped_with-has_key key j (none, a) s h =
      ground (arith, lookup-insert key j a s.agents, eq_iff key j)
  stopped_with-has_key key j (some e, a) s h =
      ground (arith, lookup-insert key j a s.agents, eq_iff key j)

  awaited-tasks :
      (key : String) (failure : Raised) (a : Agent) (s : Supervisor)
      → (awaited life key failure a s).1.tasks ≡ s.tasks
  awaited-tasks key none a s = stopped_with-tasks key (life.stop key a) s
  awaited-tasks key (some e) a s = refl

  awaited-has_key :
      (key j : String) (failure : Raised) (a : Agent) (s : Supervisor)
      → has_key j s.agents ≡ true
      → has_key j (awaited life key failure a s).1.agents ≡ true
  awaited-has_key key j none a s h = stopped_with-has_key key j (life.stop key a) s h
  awaited-has_key key j (some e) a s h = h

  stop_known-none :
      (key j : String) (o : Option Agent) (s : Supervisor)
      → lookup j s.tasks ≡ none
      → lookup j (stop_known life key o s).1.tasks ≡ none
  stop_known-none key j none s h = h
  stop_known-none key j (some a) s h =
      ap (lookup j) (awaited-tasks key (failure_of (lookup key s.tasks)) a _)
      ∙ lookup-remove key j s.tasks
      ∙ either (key == j) (lookup j s.tasks) h
    where
      either : (b : Bool) (o : Option Task) → o ≡ none → (if b then none else o) ≡ none
      either true o h = refl
      either false o h = h

  stop_known-own :
      (key : String) (o : Option Agent) (s : Supervisor)
      → is_some o ≡ true
      → lookup key (stop_known life key o s).1.tasks ≡ none
  stop_known-own key none s h = absurd (ground arith)
  stop_known-own key (some a) s h =
      ap (lookup key) (awaited-tasks key (failure_of (lookup key s.tasks)) a _)
      ∙ lookup-remove key key s.tasks
      ∙ ap (λ b. if b then none else lookup key s.tasks) (eq→beq key key refl)

  stop_known-has_key :
      (key j : String) (o : Option Agent) (s : Supervisor)
      → has_key j s.agents ≡ true
      → has_key j (stop_known life key o s).1.agents ≡ true
  stop_known-has_key key j none s h = h
  stop_known-has_key key j (some a) s h =
      awaited-has_key key j (failure_of (lookup key s.tasks)) a _ h

  stop_each-none :
      (ks : List String) (j : String) (s : Supervisor)
      → lookup j s.tasks ≡ none
      → lookup j (stop_each life ks s).tasks ≡ none
  unfolding stop_each stop
  stop_each-none [] j s h = h
  stop_each-none (key ∷ rest) j s h =
      stop_each-none rest j _ (stop_known-none key j (lookup key s.agents) s h)

  stop_each-tasks :
      (ks : List String) (j : String) (s : Supervisor)
      → contains j ks ≡ true
      → has_key j s.agents ≡ true
      → lookup j (stop_each life ks s).tasks ≡ none
  unfolding stop_each stop
  stop_each-tasks [] j s m h = absurd (ground arith)
  stop_each-tasks (key ∷ rest) j s m h = elim (Bool-cases (j == key)) [
    | inl e ↦
        (let eq = (eq_iff j key).0 e in
          stop_each-none rest j _ (
            subst (λ k. lookup k (stop life key s).1.tasks ≡ none) (sym eq)
              (stop_known-own key (lookup key s.agents) s
                (subst (λ k. is_some (lookup k s.agents) ≡ true) eq h))))
    | inr e ↦
        stop_each-tasks rest j _ (ground arith) (stop_known-has_key key j (lookup key s.agents) s h)
  ]

  contains-keys : (j : String) (d : Dict Agent) → contains j (keys d) ≡ has_key j d
  unfolding lookup
  contains-keys j [] = refl
  contains-keys j ((k, a) ∷ d) = ground (arith, contains-keys j d, eq_iff j k, eq_iff k j)

  -- After `stop_all` no agent of the supervisor has a task, whatever its `stop` does.
  pub stop_all-task_state :
      (s : Supervisor) (key : String)
      → has_key key s.agents ≡ true
      → task_state (stop_all life s) key ≡ stopped
  unfolding stop_all task_state
  stop_all-task_state s key h =
      ap state_of (stop_each-tasks (keys s.agents) key s (contains-keys key s.agents ∙ h) h)
