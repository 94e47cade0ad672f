-- ===== src/Events/Canonical.antt =====
-- `emit` of services/canonical_events.py: events with a category and a correlation id.
use ai_system.Common.{
  ℕ, ◌≡◌, refl, String, Option, none, some, List, [], ◌∷◌, ◌++◌, ◌==◌, if◌then◌else◌, Dict, lookup,
  insert, lookup-insert, contains, Bool-cases, inl, inr,
}
use ai_system.Common.Value.{Value, text, mapping, end, entry}
use ai_system.Common.Table.{Table}
use ai_system.Events.{AgentEvent, or_else, record_event}

-- `EVENT_CATEGORIES`
abbrev pub event_categories : List String
event_categories =
    "system" ∷ "agent" ∷ "integration" ∷ "decision" ∷ "approval" ∷ "action" ∷ "error" ∷ []

-- `correlation_id or str(uuid.uuid4())`
abbrev pub correlation : Option String → String → String
correlation none uuid = uuid
correlation (some cid) uuid = if cid == "" then uuid else cid

-- The value of `data["_meta"]`
abbrev pub meta : String → String → String → Value
meta category source cid = mapping (
    entry "category" (text category) (
      entry "source" (text source)
        (entry "correlation_id" (text cid) (entry "schema_version" (text "1.0") end))))

module _ (E : Table (AgentEvent (Dict Value))) where
  -- `emit`, at the time `now`, with the identifier `uuid` if it needs one; `none` is the
  -- `ValueError` of an unsupported category.
  unfoldable pub emit :
      ℕ
      → String
      → String
      → String
      → String
      → Option String
      → Option String
      → Option (Dict Value)
      → E.State
      → Option String × E.State
  unfolding record_event
  emit now uuid event_type category source agent_key correlation_id payload s =
      if contains category event_categories
      then (let cid = correlation correlation_id uuid in
          let row = insert "_meta" (meta category source cid) (or_else payload []) in
          (some cid, (record_event E [] now event_type agent_key (some row) s).1))
      else (none, s)

  -- With the correlation id that the call ends up with
  recorded :
      (now : ℕ) (uuid event_type category source cid : String)
      (agent_key correlation_id : Option String) (payload : Option (Dict Value)) (s : E.State)
      → correlation correlation_id uuid ≡ cid
      → let (returned, s') =
          emit now uuid event_type category source agent_key correlation_id payload s in
        if contains category event_categories
        then ((k : ℕ) × (row : AgentEvent (Dict Value)) × (E.rows s' ≡ E.rows s ++ (k, row) ∷ [])
            × (returned ≡ some cid)
            × (row.ts ≡ now)
            × (row.agent_key ≡ agent_key)
            × (row.event_type ≡ event_type)
            × ((key : String)
                → lookup key row.payload ≡ (
                    if "_meta" == key
                    then some (
                        mapping (
                          entry "category" (text category) (
                            entry "source" (text source) (
                              entry "correlation_id"
                                (text cid)
                                (entry "schema_version" (text "1.0") end)))))
                    else lookup key (or_else payload []))))
        else (returned ≡ none) × (s' ≡ s)
  unfolding emit record_event
  recorded now uuid event_type category source cid agent_key correlation_id payload s e =
      elim (Bool-cases (contains category event_categories)) [
        | inl known ↦
            rw (known, e)
              (let row = insert "_meta" (meta category source cid) (or_else payload []) in
                let event : AgentEvent (Dict Value) = record {
                  ts = now;
                  agent_key = agent_key;
                  event_type = event_type;
                  payload = row;
                } in
                (
                  (E.add event s).0,
                  event,
                  E.rows-add event s,
                  refl,
                  refl,
                  refl,
                  refl,
                  λ key. lookup-insert "_meta" key _ (or_else payload []),
                ))
        | inr unknown ↦ rw unknown (refl, refl)
      ]

  -- An event of a supported category is recorded as one new row, with the time, the agent and
  -- the type of the call. Its payload has the given entries but for "_meta", which names the category,
  -- the source, the returned correlation id and the schema version "1.0"; the returned id is the given
  -- one unless it is absent or empty, and then the fresh one. An event of any other category is refused, and
  -- nothing is recorded.
  pub emit_records :
      (now : ℕ) (uuid event_type category source : String)
      (agent_key correlation_id : Option String) (payload : Option (Dict Value)) (s : E.State)
      → let (returned, s') =
          emit now uuid event_type category source agent_key correlation_id payload s in
        let cid : String = elim correlation_id [
          | none ↦ uuid
          | some given ↦ if given == "" then uuid else given
        ] in
        if contains category event_categories
        then ((k : ℕ) × (row : AgentEvent (Dict Value)) × (E.rows s' ≡ E.rows s ++ (k, row) ∷ [])
            × (returned ≡ some cid)
            × (row.ts ≡ now)
            × (row.agent_key ≡ agent_key)
            × (row.event_type ≡ event_type)
            × ((key : String)
                → lookup key row.payload ≡ (
                    if "_meta" == key
                    then some (
                        mapping (
                          entry "category" (text category) (
                            entry "source" (text source) (
                              entry "correlation_id"
                                (text cid)
                                (entry "schema_version" (text "1.0") end)))))
                    else lookup key (or_else payload []))))
        else (returned ≡ none) × (s' ≡ s)
  emit_records now uuid event_type category source agent_key none payload s =
      recorded now uuid event_type category source _ agent_key none payload s refl
  emit_records now uuid event_type category source agent_key (some cid) payload s =
      recorded now uuid event_type category source _ agent_key (some cid) payload s refl
