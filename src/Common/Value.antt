-- ===== src/Common/Value.antt =====
-- The values that the handlers pass on without reading: JSON payloads, contexts, configurations.
use Prim.Native.Nat.{ℕ}
use Prim.Native.String.{String}
use mathlib.Core.Bool.{Bool}
use mathlib.Core.Option.{Option, none, some}

mutual
  -- A mapping, entry by entry.
  pub data Fields : Type 0 where
    end : Fields
    entry : String → Value → Fields → Fields

  -- A sequence, element by element.
  pub data Elements : Type 0 where
    done : Elements
    element : Value → Elements → Elements

  pub data Value : Type 0 where
    absent : Value
    text : String → Value
    flag : Bool → Value
    whole : ℕ → Value
    mapping : Fields → Value
    sequence : Elements → Value

-- `payload or {}`
abbrev pub or_empty : Option Fields → Fields
or_empty none = end
or_empty (some d) = d
