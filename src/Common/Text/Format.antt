-- ===== src/Common/Text/Format.antt =====
-- `template.format(**fields)`, where a replacement field is a name in braces: conversions, format
-- specifications, attributes and positions raise here. `none` is the exception.
use Prim.Native.Char.{Char, code}
use Prim.Native.String
use Prim.Native.String.{String}
use mathlib.Core.Bool.{true, false}
use mathlib.Core.Option.{Option, none, some}
use pretext_plus_build_full.Common.Tests.{eqb}
use pretext_plus_build_full.Common.Dict
use pretext_plus_build_full.Common.Dict.{Dict}

-- In literal text, behind an opening or a closing brace, or in a field with the name so far.
pub data Mode : Type 0 where
  literal : Mode
  opened : Mode
  closed : Mode
  field : String → Mode

-- Text before what the rest of the template gives.
abbrev before : String → Option String → Option String
before s none = none
before s (some t) = some (String.◌++◌ s t)

abbrev after : Char → Option String → Option String
after c none = none
after c (some t) = some (String.◌∷◌ c t)

format_from : Dict String → Mode → String → Option String
unfolding Dict.lookup
format_from fields literal String.[] = some ""
format_from fields opened String.[] = none
format_from fields closed String.[] = none
format_from fields (field name) String.[] = none
format_from fields literal (String.◌∷◌ c s) = elim (eqb (code c) b'{') [
  | true ↦ format_from fields opened s
  | false ↦ elim (eqb (code c) b'}') [
    | true ↦ format_from fields closed s
    | false ↦ after c (format_from fields literal s)
  ]
]
format_from fields opened (String.◌∷◌ c s) = elim (eqb (code c) b'{') [
  | true ↦ after "{" (format_from fields literal s)
  | false ↦ elim (eqb (code c) b'}') [
    | true ↦ none
    | false ↦ format_from fields (field (String.◌∷◌ c "")) s
  ]
]
format_from fields closed (String.◌∷◌ c s) = elim (eqb (code c) b'}') [
  | true ↦ after "}" (format_from fields literal s)
  | false ↦ none
]
format_from fields (field name) (String.◌∷◌ c s) = elim (eqb (code c) b'}') [
  | true ↦ elim (Dict.lookup name fields) [
    | none ↦ none
    | some v ↦ before v (format_from fields literal s)
  ]
  | false ↦ format_from fields (field (String.◌++◌ name (String.◌∷◌ c ""))) s
]

unfoldable pub format : Dict String → String → Option String
unfolding format_from
format fields template = format_from fields literal template
