-- ===== src/Api/Assets.antt =====
-- The names of asset types that a request to generate brings into a shell command.
use pretext_plus_build_full.Common.{
  ℕ, String, Bool, true, false, List, [], ◌∷◌, ◌&&◌, ◌||◌, not, eqb, all, all-append, ◌≡◌, refl,
  Bool-cases, inl, inr, and-true_left, and-true_right, arith,
}
use pretext_plus_build_full.Common.Text.{codes, is_letter, is_alnum, is_space, at_end, star_end}
use pretext_plus_build_full.Common.Text.Split.{truthy_only, split_runs}
use pretext_plus_build_full.Common.Text.Split.Clear.{clear, clear-truthy_only-split_runs}
use pretext_plus_build_full.Api.{is_separator, asset_names, asset_name_match}

abbrev pub is_name_char : ℕ → Bool
is_name_char d = is_alnum d || eqb d b'-'

-- `^[A-Za-z][A-Za-z0-9-]*$` on code points
abbrev named : List ℕ → Bool
named [] = false
named (c ∷ s) = is_letter c && star_end is_name_char s

-- A letter, and letters, digits and dashes behind it.
abbrev pub is_plain_name : List ℕ → Bool
is_plain_name [] = false
is_plain_name (c ∷ s) = is_letter c && all is_name_char s

asset_names-Clear : (items : List String) → all (clear is_separator) (asset_names items) ≡ true
unfolding asset_names
asset_names-Clear [] = refl
asset_names-Clear (item ∷ items) =
    all-append (clear is_separator) (truthy_only (split_runs is_separator item)) (asset_names items)
      (clear-truthy_only-split_runs is_separator item) (asset_names-Clear items)

inner_char :
    (s : List ℕ) (c : ℕ)
    → all (λ c. not (is_separator c)) (c ∷ s) ≡ true
    → at_end (c ∷ s) ≡ true
    → ⊥
unfolding is_separator is_space
inner_char [] c h k = let newline : c ≡ 10 = ground arith in cc (rw newline at h)
inner_char (d ∷ s) c h k = cc

-- Without a newline, `$` is only the end of the text.
star_end-all :
    (p : ℕ → Bool) (s : List ℕ)
    → all (λ c. not (is_separator c)) s ≡ true
    → star_end p s ≡ true
    → all p s ≡ true
unfolding star_end
star_end-all p [] h k = refl
star_end-all p (c ∷ s) h k = elim (Bool-cases (p c)) [
  | inl t ↦
      let rest = and-true_right (not (is_separator c)) (all (λ d. not (is_separator d)) s) h in
      rw (t, star_end-all p s rest (rw t at k)) refl
  | inr f ↦ absurd (inner_char s c h (rw f at k))
]

is_plain_name-star :
    (s : List ℕ)
    → all (λ c. not (is_separator c)) s ≡ true
    → named s ≡ true
    → is_plain_name s ≡ true
is_plain_name-star [] h k = k
is_plain_name-star (c ∷ s) h k = rw (
  and-true_left (is_letter c) (star_end is_name_char s) k,
  star_end-all is_name_char s (and-true_right (not (is_separator c)) _ h)
      (and-true_right (is_letter c) (star_end is_name_char s) k),
)

plain_names :
    (names : List String)
    → all (clear is_separator) names ≡ true
    → all asset_name_match names ≡ true
    → all (λ s. is_plain_name (codes s)) names ≡ true
unfolding asset_name_match
plain_names [] h k = refl
plain_names (s ∷ names) h k = rw (
  is_plain_name-star (codes s)
      (and-true_left (clear is_separator s) (all (clear is_separator) names) h)
      (and-true_left (asset_name_match s) (all asset_name_match names) k),
  plain_names names (and-true_right (clear is_separator s) (all (clear is_separator) names) h)
      (and-true_right (asset_name_match s) (all asset_name_match names) k),
)

-- If no asset name of a request is rejected, each of them is a letter followed by letters, digits
-- and dashes only: it is not empty, no option, and has no character that a shell treats specially,
-- not even the newline that `$` would let through.
pub asset_names_plain :
    (items : List String)
    → all asset_name_match (asset_names items) ≡ true
    → all (λ s. is_plain_name (codes s)) (asset_names items) ≡ true
asset_names_plain items = plain_names (asset_names items) (asset_names-Clear items)
