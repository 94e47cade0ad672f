-- ===== src/Events/Tests.antt =====
-- The event log on concrete inputs, over a table that is a list.
use ai_system.Common.{
  ℕ, ◌+◌, ◌*◌, ◌≡◌, String, not, ltb, min, max, Option, none, some, [], ◌∷◌, ◌++◌, refl, length,
  keep_if, if◌then◌else◌, Dict, lookup, contains, ◌==◌,
}
use ai_system.Common.Value.{Value, whole, text, mapping, entry, end}
use ai_system.Common.Table.{Table}
use ai_system.Common.Table.Listed.{listed, nothing}
use ai_system.Events.{AgentEvent, or_else, compact_events}
use ai_system.Events.Retention.{compact_events_keeps}
use ai_system.Events.Canonical.{event_categories, emit, emit_records}

abbrev Log : Table (AgentEvent (Dict Value))
Log = listed

abbrev event : ℕ → AgentEvent (Dict Value)
event ts = record { ts = ts; agent_key = none; event_type = "tick"; payload = [] }

abbrev log : Log.State
log = (Log.add (event 90000) (Log.add (event 100) nothing).1).1

compact_events_keeps_example :
    let (removed, s') = compact_events Log 0 100000 log in
    (Log.rows s'
      ≡ keep_if (λ e. not (ltb (e.1.ts + max 1 (min 0 3650) * 86400) 100000)) (Log.rows log))
    × (removed + length (Log.rows s') ≡ length (Log.rows log))
compact_events_keeps_example = compact_events_keeps Log 0 100000 log

compact_events-removes : (compact_events Log 0 100000 log).0 ≡ 1
unfolding compact_events
compact_events-removes = refl

abbrev payload : Option (Dict Value)
payload = some (("n", whole 1) ∷ [])

emit_records_example :
    let (returned, s') =
      emit Log 5 "u-1" "agent.started" "agent" "gateway" none (some "") payload log in
    if contains "agent" event_categories
    then ((k : ℕ) × (row : AgentEvent (Dict Value)) × (Log.rows s' ≡ Log.rows log ++ (k, row) ∷ [])
        × (returned ≡ some "u-1")
        × (row.ts ≡ 5)
        × (row.agent_key ≡ none)
        × (row.event_type ≡ "agent.started")
        × ((key : String)
            → lookup key row.payload ≡ (
                if "_meta" == key
                then some (
                    mapping (
                      entry "category" (text "agent") (
                        entry "source" (text "gateway") (
                          entry "correlation_id"
                            (text "u-1")
                            (entry "schema_version" (text "1.0") end)))))
                else lookup key (or_else payload []))))
    else (returned ≡ none) × (s' ≡ log)
emit_records_example =
    emit_records Log 5 "u-1" "agent.started" "agent" "gateway" none (some "") payload log
