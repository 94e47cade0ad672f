-- ===== src/Common/Texts.antt =====
-- Text, as Python writes it: `s + t` is `s <> t`.
use Prim.Native.String as Native
use Prim.Native.String.{String}

infixr 65 ◌<>◌
abbrev pub ◌<>◌ : String → String → String
s <> t = Native.◌++◌ s t
