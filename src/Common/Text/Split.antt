-- ===== src/Common/Text/Split.antt =====
-- `str.split`, with and without a separator, and `re.split` at runs of a class.
pub mod Clear
use Prim.Native.Nat.{ℕ}
use Prim.Native.Char.{Char, code}
use Prim.Native.String
use Prim.Native.String.{String}
use mathlib.Core.Bool.{Bool, true, false}
use mathlib.Core.List.{List, [], ◌∷◌}
use pretext_plus_build_full.Common.Tests.{eqb}
use pretext_plus_build_full.Common.Text.{is_truthy, is_space}

abbrev push : String → Char → String
push s c = String.◌++◌ s (String.◌∷◌ c String.[])

-- The pieces before and after each run of the class; the flag is set inside a run.
cut_runs : (ℕ → Bool) → String → Bool → String → List String
cut_runs p cur run String.[] = cur ∷ []
cut_runs p cur run (String.◌∷◌ c s) = elim (p (code c)) [
  | true ↦ elim run [ true ↦ cut_runs p cur true s | false ↦ cur ∷ cut_runs p "" true s ]
  | false ↦ cut_runs p (push cur c) false s
]

-- `re.split(r"[class]+", s)`
unfoldable pub split_runs : (ℕ → Bool) → String → List String
unfolding cut_runs
split_runs p s = cut_runs p "" false s

cut_at : ℕ → String → String → List String
cut_at sep cur String.[] = cur ∷ []
cut_at sep cur (String.◌∷◌ c s) = elim (eqb (code c) sep) [
  | true ↦ cur ∷ cut_at sep "" s
  | false ↦ cut_at sep (push cur c) s
]

-- `s.split(sep)` for a separator of one character
unfoldable pub split_at : ℕ → String → List String
unfolding cut_at
split_at sep s = cut_at sep "" s

-- `[x for x in parts if x]`
unfoldable pub truthy_only : List String → List String
truthy_only [] = []
truthy_only (x ∷ xs) = elim (is_truthy x) [ true ↦ x ∷ truthy_only xs | false ↦ truthy_only xs ]

-- `s.split()`: the pieces between runs of space, without the empty ones.
unfoldable pub split : String → List String
unfolding split_runs truthy_only is_space
split s = truthy_only (split_runs is_space s)
