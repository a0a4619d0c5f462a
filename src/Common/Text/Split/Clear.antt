-- ===== src/Common/Text/Split/Clear.antt =====
-- What is left of a text that is split at runs of a class.
use Prim.Native.Char.{Char, code}
use Prim.Native.String
use pretext_plus_build_full.Common.{
  ℕ, String, Bool, true, false, List, [], ◌∷◌, not, all, ◌≡◌, refl, Bool-cases, inl, inr,
  and-true_left, and-true_right,
}
use pretext_plus_build_full.Common.Text.{codes, is_truthy}
use pretext_plus_build_full.Common.Text.Split.{push, cut_runs, split_runs, truthy_only}

-- No character of the text is in the class.
abbrev pub clear : (ℕ → Bool) → String → Bool
clear p s = all (λ c. not (p c)) (codes s)

clear-push :
    (p : ℕ → Bool) (s : String) (c : Char)
    → clear p s ≡ true
    → p (code c) ≡ false
    → clear p (push s c) ≡ true
clear-push p String.[] c h k =
    let last : all (λ d. not (p d)) (code c ∷ []) ≡ true = rw k refl in
    rw (String.append.nil (String.◌∷◌ c String.[])) last
clear-push p (String.◌∷◌ d s) c h k =
    let first = and-true_left (not (p (code d))) (clear p s) h in
    let rest = clear-push p s c (and-true_right (not (p (code d))) (clear p s) h) k in
    let both : clear p (String.◌∷◌ d (push s c)) ≡ true = rw (first, rest) in
    rw (String.append.cons d s (String.◌∷◌ c String.[])) both

clear-cut_runs :
    (p : ℕ → Bool) (cur : String) (run : Bool) (s : String)
    → clear p cur ≡ true
    → all (clear p) (cut_runs p cur run s) ≡ true
unfolding cut_runs
clear-cut_runs p cur run String.[] h = rw h refl
clear-cut_runs p cur run (String.◌∷◌ c s) h = elim (Bool-cases (p (code c))) [
  | inr other ↦
      rw (cut_runs, other) (clear-cut_runs p (push cur c) false s (clear-push p cur c h other))
  | inl same ↦ elim (Bool-cases run) [
    | inl t ↦ rw (cut_runs, same, t) (clear-cut_runs p cur true s h)
    | inr f ↦ rw (cut_runs, same, f, h) (clear-cut_runs p "" true s refl)
  ]
]

all-truthy_only :
    (q : String → Bool) (l : List String) → all q l ≡ true → all q (truthy_only l) ≡ true
unfolding truthy_only
all-truthy_only q [] h = refl
all-truthy_only q (x ∷ l) h =
    let rest = all-truthy_only q l (and-true_right (q x) (all q l) h) in
    elim (Bool-cases (is_truthy x)) [
      | inl t ↦ rw (truthy_only, t, and-true_left (q x) (all q l) h) rest
      | inr f ↦ rw (truthy_only, f) rest
    ]

pub clear-truthy_only-split_runs :
    (p : ℕ → Bool) (s : String) → all (clear p) (truthy_only (split_runs p s)) ≡ true
unfolding split_runs
clear-truthy_only-split_runs p s =
    all-truthy_only (clear p) (cut_runs p "" false s) (clear-cut_runs p "" false s refl)
