-- ===== src/Runtime/Bus.antt =====
-- `InMemoryEventBus` (ai/event_bus.py). A queue is the list of the events put into it, and a
-- subscriber knows its queue by the place among those of its topic.
use ai_system.Common.{
  ℕ, zero, suc, ◌+◌, ◌≡◌, refl, sym, ap, subst, ◌∙◌, String, true, Option, none, some, List, [],
  ◌∷◌, ◌++◌, map, length, ◌==◌, eq_iff, eq_refl, arith, if◌then◌else◌, Dict, lookup, insert,
  lookup-insert, Bool-cases, inl, inr,
}
use ai_system.Common.Value.{Fields}
use mathlib.Core.List.{append-nil, append_assoc}

pub record Event : Type 0 where
  pub topic : String
  pub payload : Fields
  pub source : String
  pub created_at : String

abbrev pub Queue : Type 0
Queue = List Event

pub record InMemoryEventBus : Type 0 where
  pub queues : Dict (List Queue)

abbrev pub or_none : Option (List Queue) → List Queue
or_none none = []
or_none (some qs) = qs

-- `self._queues.get(topic, [])`
abbrev pub queues_of : String → InMemoryEventBus → List Queue
queues_of topic b = or_none (lookup topic b.queues)

-- `subscribe`, with the place of the new queue
unfoldable pub subscribe : String → InMemoryEventBus → ℕ × InMemoryEventBus
subscribe topic b = (
  length (queues_of topic b),
  record { queues = insert topic (queues_of topic b ++ [] ∷ []) b.queues },
)

-- The loop of `publish` puts the event into every queue of its topic.
abbrev pub delivered : Event → Option (List Queue) → InMemoryEventBus → ℕ × InMemoryEventBus
delivered e none b = (0, b)
delivered e (some qs) b =
    (length qs, record { queues = insert e.topic (map (λ q. q ++ e ∷ []) qs) b.queues })

-- `publish`
unfoldable pub publish : Event → InMemoryEventBus → ℕ × InMemoryEventBus
publish e b = delivered e (lookup e.topic b.queues) b

abbrev sum_lengths : Dict (List Queue) → ℕ
sum_lengths [] = 0
sum_lengths ((topic, qs) ∷ rest) = length qs + sum_lengths rest

-- `subscriber_count`
abbrev pub subscriber_count : Option String → InMemoryEventBus → ℕ
subscriber_count none b = sum_lengths b.queues
subscriber_count (some topic) b = length (queues_of topic b)

pub data Call : Type 0 where
  subscribing : String → Call
  publishing : Event → Call

unfoldable pub perform_all : List Call → InMemoryEventBus → InMemoryEventBus
perform_all [] b = b
perform_all (subscribing topic ∷ cs) b = perform_all cs (subscribe topic b).1
perform_all (publishing e ∷ cs) b = perform_all cs (publish e b).1

-- The events of a topic that a sequence of calls publishes
abbrev pub published : String → List Call → List Event
published topic [] = []
published topic (subscribing t ∷ cs) = published topic cs
published topic (publishing e ∷ cs) =
    if e.topic == topic then e ∷ published topic cs else published topic cs

abbrev pub place : ℕ → List Queue → Option Queue
place n [] = none
place zero (q ∷ qs) = some q
place (suc n) (q ∷ qs) = place n qs

place_append :
    (n : ℕ) (q : Queue) (qs more : List Queue) → place n qs ≡ some q → place n (qs ++ more) ≡ some q
place_append n q [] more h = ground (arith, h)
place_append zero q (x ∷ qs) more h = h
place_append (suc n) q (x ∷ qs) more h = place_append n q qs more h

place_last : (qs : List Queue) → place (length qs) (qs ++ [] ∷ []) ≡ some []
place_last [] = refl
place_last (q ∷ qs) = place_last qs

abbrev extended : Event → Option Queue → Option Queue
extended e none = none
extended e (some q) = some (q ++ e ∷ [])

place-map :
    (n : ℕ) (e : Event) (qs : List Queue)
    → place n (map (λ q. q ++ e ∷ []) qs) ≡ extended e (place n qs)
place-map n e [] = refl
place-map zero e (q ∷ qs) = refl
place-map (suc n) e (q ∷ qs) = place-map n e qs

subscribe-place :
    (topic t : String) (n : ℕ) (q : Queue) (b : InMemoryEventBus)
    → place n (queues_of topic b) ≡ some q
    → place n (queues_of topic (subscribe t b).1) ≡ some q
unfolding subscribe
subscribe-place topic t n q b h = elim (Bool-cases (t == topic)) [
  | inr other ↦ rw (lookup-insert t topic (queues_of t b ++ [] ∷ []) b.queues, other) h
  | inl same ↦
      rw (lookup-insert t topic (queues_of t b ++ [] ∷ []) b.queues, same)
        (place_append n q (queues_of t b) ([] ∷ []) (rw ((eq_iff t topic).0 same) h))
]

publish-place :
    (topic : String) (e : Event) (n : ℕ) (q : Queue) (b : InMemoryEventBus)
    → place n (queues_of topic b) ≡ some q
    → place n (queues_of topic (publish e b).1) ≡ some (if e.topic == topic then q ++ e ∷ [] else q)
unfolding publish
publish-place topic e n q b h = found (lookup e.topic b.queues) refl
  where
    here :
        {o : Option (List Queue)}
        → lookup e.topic b.queues ≡ o
        → (e.topic == topic) ≡ true
        → lookup topic b.queues ≡ o
    here {o} at same = subst (λ t. lookup t b.queues ≡ o) ((eq_iff e.topic topic).0 same) at

    nothing : none ≡ some q → ⊥
    nothing f = ground (arith, f)

    found :
        (o : Option (List Queue))
        → lookup e.topic b.queues ≡ o
        → place n (queues_of topic (delivered e o b).1)
          ≡ some (if e.topic == topic then q ++ e ∷ [] else q)
    found none at = elim (Bool-cases (e.topic == topic)) [
      | inr other ↦ rw other h
      | inl same ↦ absurd (nothing (rw (here at same) at h))
    ]
    found (some qs) at = elim (Bool-cases (e.topic == topic)) [
      | inr other ↦ rw (lookup-insert e.topic topic (map (λ x. x ++ e ∷ []) qs) b.queues, other) h
      | inl same ↦
          rw (lookup-insert e.topic topic (map (λ x. x ++ e ∷ []) qs) b.queues, same)
            (place-map n e qs ∙ ap (extended e) (rw (here at same) at h))
    ]

receives_more :
    (topic : String) (n : ℕ) (calls : List Call) (q : Queue) (b : InMemoryEventBus)
    → place n (queues_of topic b) ≡ some q
    → place n (queues_of topic (perform_all calls b)) ≡ some (q ++ published topic calls)
unfolding perform_all
receives_more topic n [] q b h = h ∙ ap some (sym (append-nil q))
receives_more topic n (subscribing t ∷ cs) q b h =
    receives_more topic n cs q (subscribe t b).1 (subscribe-place topic t n q b h)
receives_more topic n (publishing e ∷ cs) q b h = elim (Bool-cases (e.topic == topic)) [
  | inl same ↦ rw same (
      receives_more topic n cs (q ++ e ∷ []) (publish e b).1
        (publish-place topic e n q b h ∙ rw same refl)
      ∙ ap some (append_assoc q (e ∷ []) (published topic cs)))
  | inr other ↦
      rw other
        (receives_more topic n cs q (publish e b).1 (publish-place topic e n q b h ∙ rw other refl))
]

subscribed :
    (topic : String) (b : InMemoryEventBus)
    → place (subscribe topic b).0 (queues_of topic (subscribe topic b).1) ≡ some []
unfolding subscribe
subscribed topic b =
    rw (lookup-insert topic topic (queues_of topic b ++ [] ∷ []) b.queues, eq_refl topic)
      (place_last (queues_of topic b))

-- A subscriber receives exactly the events that are published to its topic after it subscribed, in
-- their order, whoever else subscribes or publishes in between.
pub subscribe-receives :
    (topic : String) (calls : List Call) (b : InMemoryEventBus)
    → place (subscribe topic b).0 (queues_of topic (perform_all calls (subscribe topic b).1))
      ≡ some (published topic calls)
subscribe-receives topic calls b =
    receives_more topic (subscribe topic b).0 calls [] (subscribe topic b).1 (subscribed topic b)
