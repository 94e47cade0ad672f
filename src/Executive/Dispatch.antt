-- ===== src/Executive/Dispatch.antt =====
-- What reaches the queue of the executive agent.
use ai_system.Common.{
  ℕ, zero, suc, ◌-◌, ◌≡◌, refl, String, Bool, true, false, Option, none, some, List, [], ◌∷◌, ◌++◌,
  arith, ltb, eqb, ◌==◌, length, Bool-cases, is_some, All, All-append, sym, subst, ◌/◌, inl, inr,
}
use ai_system.Common.Table.{find, replace, find-replace}
use ai_system.Executive.{
  Decision, MotherAgent, Order, decide, enqueue, may_dispatch, put_result, approve, approve_found,
  in_history_of, new,
}
use ai_system.Executive.Queue.{
  Entry, Heap, Put, siftdown, compared, turn, is_before, item, set_item, heappush,
}

-- The calls on the agent; a dispatch is of a decision that its history holds.
pub data Call : Type 0 where
  deciding : Order → Call
  approving : String → ℕ → Call
  dispatching : ℕ → Call

abbrev pub dispatch : ℕ → Option Decision → MotherAgent → MotherAgent
dispatch k none m = m
dispatch k (some d) m = (enqueue k d m).1

unfoldable pub perform : Call → MotherAgent → MotherAgent
perform (deciding o) m = (decide o m).1
perform (approving now k) m = (approve now k m).1
perform (dispatching k) m = dispatch k (in_history_of k m) m

unfoldable pub perform_all : List Call → MotherAgent → MotherAgent
perform_all [] m = m
perform_all (c ∷ cs) m = perform_all cs (perform c m)

set_item-All :
    (P : Entry → Type 0) (n : ℕ) (e : Entry) (h : Heap) → P e → All P h → All P (set_item n e h)
set_item-All P n e [] p a = tt
set_item-All P zero e (x ∷ h) p a = (p, a.1)
set_item-All P (suc n) e (x ∷ h) p a = (a.0, set_item-All P n e h p a.1)

some-inj : {A : Type 0} {x y : A} → some x ≡ some y → x ≡ y
some-inj e = cc e

item-All : (P : Entry → Type 0) (n : ℕ) (x : Entry) (h : Heap) → item n h ≡ some x → All P h → P x
item-All P n x [] e a = ground (arith, e)
item-All P zero x (y ∷ h) e a = subst P (some-inj e) a.0
item-All P (suc n) x (y ∷ h) e a = item-All P n x h e a.1

abbrev pub heap_of : Put → Heap
heap_of (Put.stored h) = h
heap_of (Put.raised h) = h

compared-All :
    (P : Entry → Type 0) (b : Option Bool) (moved : Put) (h : Heap) (settled : Put)
    → All P (heap_of moved)
    → All P h
    → All P (heap_of settled)
    → All P (heap_of (compared b moved h settled))
compared-All P none moved h settled m a s = a
compared-All P (some true) moved h settled m a s = m
compared-All P (some false) moved h settled m a s = s

turn-All :
    (P : Entry → Type 0) (o : Option Entry) (e : Entry) (moved : Entry → Put) (h : Heap)
    (settled : Put)
    → ((x : Entry) → o ≡ some x → All P (heap_of (moved x)))
    → All P h
    → All P (heap_of settled)
    → All P (heap_of (turn o e moved h settled))
turn-All P none e moved h settled m a s = s
turn-All P (some x) e moved h settled m a s =
    compared-All P (is_before e x) (moved x) h settled (m x refl) a s

siftdown-All :
    (P : Entry → Type 0) (fuel pos : ℕ) (e : Entry) (h : Heap)
    → P e
    → All P h
    → All P (heap_of (siftdown fuel pos e h))
unfolding siftdown
siftdown-All P zero pos e h p a = set_item-All P pos e h p a
siftdown-All P (suc fuel) zero e h p a = set_item-All P zero e h p a
siftdown-All P (suc fuel) (suc n) e h p a =
    turn-All P (item (n / 2) h) e _ h _
      (λ x there.
        siftdown-All P fuel (n / 2) e (set_item (suc n) x h) p
          (set_item-All P (suc n) x h (item-All P (n / 2) x h there a) a))
      a (set_item-All P (suc n) e h p a)

abbrev pub IsReleased : List (ℕ × Decision) → Entry → Type 0
IsReleased objects e = (d : Decision) × (find e.decision objects ≡ some d) × (may_dispatch d ≡ true)

find_append_some :
    (k : ℕ) (d : Decision) (xs ys : List (ℕ × Decision))
    → find k xs ≡ some d
    → find k (xs ++ ys) ≡ some d
unfolding find
find_append_some k d [] ys h = ground (arith, h)
find_append_some k d ((j, x) ∷ xs) ys h = ground (arith, find_append_some k d xs ys)

record IsSound (m : MotherAgent) : Type 0 where
  queued : All (IsReleased m.objects) m.queue

All-map :
    {A : Type 0} (P Q : A → Type 0) (xs : List A) → ((a : A) → P a → Q a) → All P xs → All Q xs
All-map P Q [] f a = tt
All-map P Q (x ∷ xs) f a = (f x a.0, All-map P Q xs f a.1)

decide-IsSound : (o : Order) (m : MotherAgent) → IsSound m → IsSound (decide o m).1
unfolding decide
decide-IsSound o m s = elim (Bool-cases (o.objective == "")) [
  | inl empty ↦ rw empty s
  | inr full ↦ elim (Bool-cases (ltb 100 o.priority)) [
    | inl high ↦ rw (full, high) s
    | inr fits ↦
        rw (full, fits)
          (record {
            queued =
                All-map (IsReleased m.objects) _ m.queue
                  (λ e r. (r.0, find_append_some e.decision r.0 m.objects _ r.1, r.2)) s.queued;
          })
  ]
]

approved-IsReleased :
    (k : ℕ) (d : Decision) (objects : List (ℕ × Decision)) (e : Entry)
    → is_some (find k objects) ≡ true
    → may_dispatch d ≡ true
    → IsReleased objects e
    → IsReleased (replace k d objects) e
approved-IsReleased k d objects e there may r = elim (Bool-cases (eqb k e.decision)) [
  | inl same ↦ (d, rw (find-replace k e.decision d objects there, same) refl, may)
  | inr other ↦ (r.0, rw (find-replace k e.decision d objects there, other) r.1, r.2)
]

may_dispatch-approved :
    (now : String) (d : Decision)
    → may_dispatch (record d { approved = true; approved_at = some now }) ≡ true
may_dispatch-approved now d = ground arith

found :
    (k : ℕ) (m : MotherAgent) (d : Decision)
    → in_history_of k m ≡ some d
    → find k m.objects ≡ some d
found k m d h = ground (arith, h)

approve_found-IsSound :
    (now : String) (k : ℕ) (o : Option Decision) (m : MotherAgent)
    → ((d : Decision) → o ≡ some d → find k m.objects ≡ some d)
    → IsSound m
    → IsSound (approve_found now k o m).1
approve_found-IsSound now k none m h s = s
approve_found-IsSound now k (some d) m h s = record {
  queued =
      All-map (IsReleased m.objects) _ m.queue
        (λ e r.
          approved-IsReleased k _ m.objects e (rw (h d refl) refl) (may_dispatch-approved now d) r)
        s.queued;
}

pub put_result-queue :
    (p : Put) (m : MotherAgent) → (put_result p m).1 ≡ record m { queue = heap_of p }
put_result-queue (Put.stored h) m = refl
put_result-queue (Put.raised h) m = refl

enqueue-IsSound :
    (k : ℕ) (d : Decision) (m : MotherAgent)
    → find k m.objects ≡ some d
    → IsSound m
    → IsSound (enqueue k d m).1
unfolding enqueue heappush
enqueue-IsSound k d m h s = elim (Bool-cases (may_dispatch d)) [
  | inl may ↦ rw may (
      subst IsSound (sym (put_result-queue (heappush entry m.queue) m)) (record {
        queued =
            siftdown-All (IsReleased m.objects) (suc (length m.queue)) (length m.queue) entry _
              (d, h, may)
              (All-append (IsReleased m.objects) m.queue (entry ∷ []) s.queued ((d, h, may), tt));
      }))
  | inr cannot ↦ rw cannot s
]
  where
    entry : Entry
    entry = record { rank = 100 - d.priority; sequence = m.sequence; decision = k }

dispatch-IsSound :
    (k : ℕ) (o : Option Decision) (m : MotherAgent)
    → ((d : Decision) → o ≡ some d → find k m.objects ≡ some d)
    → IsSound m
    → IsSound (dispatch k o m)
dispatch-IsSound k none m h s = s
dispatch-IsSound k (some d) m h s = enqueue-IsSound k d m (h d refl) s

perform-IsSound : (c : Call) (m : MotherAgent) → IsSound m → IsSound (perform c m)
unfolding perform approve
perform-IsSound (deciding o) m s = decide-IsSound o m s
perform-IsSound (approving now k) m s =
    approve_found-IsSound now k (in_history_of k m) m (found k m) s
perform-IsSound (dispatching k) m s = dispatch-IsSound k (in_history_of k m) m (found k m) s

perform_all-IsSound :
    (calls : List Call) (m : MotherAgent) → IsSound m → IsSound (perform_all calls m)
unfolding perform_all
perform_all-IsSound [] m s = s
perform_all-IsSound (c ∷ cs) m s = perform_all-IsSound cs (perform c m) (perform-IsSound c m s)

-- Whatever decisions, approvals and dispatches follow one another, from a new agent on, every entry
-- of the queue is a decision that needs no approval or has been approved; this also holds after the
-- comparisons of the queue have raised.
pub perform_all-queue :
    (calls : List Call) (max_history : ℕ) (policy : List String)
    → All
        (IsReleased (perform_all calls (new max_history policy)).objects)
        (perform_all calls (new max_history policy)).queue
perform_all-queue calls max_history policy =
    (perform_all-IsSound calls (new max_history policy) (record { queued = tt })).queued
