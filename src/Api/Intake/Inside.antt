-- ===== src/Api/Intake/Inside.antt =====
-- The test for a path in an archive that leads out of the job's directory: on paths that
-- `realpath` gives, it compares whole components.
use Prim.Native.Char.{code}
use text.Mathlib.TextEquality.{Char-path}
use mathlib.Core.List.{append_assoc, append-nil}
use pretext_plus_build_full.Common.{
  ℕ, String, Bool, true, false, List, [], ◌∷◌, ◌++◌, not, eqb, all, ◌==◌, ◌≡◌, ◌↔◌, ◌⊎◌, inl, inr,
  refl, sym, ap, ◌∙◌, arith, Bool-cases, eq_iff, and-true_left, and-true_right,
}
use pretext_plus_build_full.Common.Text.{codes, starts_with}
use pretext_plus_build_full.Api.Intake.{is_inside}

-- A component of a path.
abbrev pub is_name : List ℕ → Bool
is_name [] = false
is_name (c ∷ s) = all (λ d. not (eqb d b'/')) (c ∷ s)

abbrev slashed : List (List ℕ) → List ℕ
slashed [] = []
slashed (c ∷ cs) = b'/' ∷ (c ++ slashed cs)

abbrev path_codes : List (List ℕ) → List ℕ
path_codes [] = codes "/"
path_codes (c ∷ cs) = slashed (c ∷ cs)

-- The text is the absolute path with these components, written the shortest way.
abbrev pub IsPath : String → List (List ℕ) → Type 0
IsPath s cs = (codes s ≡ path_codes cs) × (all is_name cs ≡ true)

-- Nothing, or a slash and what follows it.
abbrev Cut : List ℕ → Type 0
Cut s = (s ≡ []) ⊎ ((r : List ℕ) × (s ≡ b'/' ∷ r))

Cut-slashed : (cs : List (List ℕ)) → Cut (slashed cs)
Cut-slashed [] = inl refl
Cut-slashed (c ∷ cs) = inr (c ++ slashed cs, refl)

starts_with→append : (s p : List ℕ) → starts_with s p ≡ true → (r : List ℕ) × (s ≡ p ++ r)
unfolding starts_with
starts_with→append s [] h = (s, refl)
starts_with→append [] (c ∷ p) h = cc
starts_with→append (d ∷ s) (c ∷ p) h =
    let (r, e) = starts_with→append s p (and-true_right (eqb d c) (starts_with s p) h) in
    let same : d ≡ c = ground arith in (r, ap (◌∷◌ d) e ∙ ap (λ x. x ∷ (p ++ r)) same)

append→starts_with : (p r : List ℕ) → starts_with (p ++ r) p ≡ true
unfolding starts_with
append→starts_with [] r = refl
append→starts_with (c ∷ p) r = ground (arith, append→starts_with p r)

codes_injective : (s t : String) → codes s ≡ codes t → s ≡ t
codes_injective String.[] String.[] e = refl
codes_injective String.[] (String.◌∷◌ d t) e = cc
codes_injective (String.◌∷◌ c s) String.[] e = cc
codes_injective (String.◌∷◌ c s) (String.◌∷◌ d t) e =
    let first : code c ≡ code d = cc in
    let rest : codes s ≡ codes t = cc in
    ap (λ k. String.◌∷◌ k s) (Char-path c d first) ∙ ap (String.◌∷◌ d) (codes_injective s t rest)

-- Two names before cuts are the same name.
name_unique :
    (c d x y : List ℕ)
    → all (λ k. not (eqb k b'/')) c ≡ true
    → all (λ k. not (eqb k b'/')) d ≡ true
    → Cut x
    → Cut y
    → c ++ x ≡ d ++ y
    → (c ≡ d) × (x ≡ y)
name_unique [] [] x y hc hd cx cy e = (refl, e)
name_unique [] (k ∷ d) x y hc hd cx cy e = ground arith
name_unique (k ∷ c) [] x y hc hd cx cy e = ground arith
name_unique (k ∷ c) (l ∷ d) x y hc hd cx cy e =
    let same : k ≡ l = cc in
    let rest : c ++ x ≡ d ++ y = cc in
    let (p, q) =
      name_unique c d x y (and-true_right _ (all (λ k. not (eqb k b'/')) c) hc)
        (and-true_right _ (all (λ k. not (eqb k b'/')) d) hd) cx cy rest in
    (cc, q)

is_name→all : (c : List ℕ) → is_name c ≡ true → all (λ k. not (eqb k b'/')) c ≡ true
is_name→all [] h = refl
is_name→all (k ∷ c) h = h

Cut-append : (cs : List (List ℕ)) (x : List ℕ) → Cut x → Cut (slashed cs ++ x)
Cut-append [] x h = h
Cut-append (c ∷ cs) x h = inr ((c ++ slashed cs) ++ x, refl)

-- A path that goes on behind another one has its components and more.
slashed_prefix :
    (ds ts : List (List ℕ)) (x : List ℕ)
    → all is_name ds ≡ true
    → all is_name ts ≡ true
    → Cut x
    → slashed ts ≡ slashed ds ++ x
    → (rest : List (List ℕ)) × (ts ≡ ds ++ rest)
slashed_prefix [] ts x hd ht cx e = (ts, refl)
slashed_prefix (d ∷ ds) [] x hd ht cx e = cc
slashed_prefix (d ∷ ds) (t ∷ ts) x hd ht cx e =
    let name_t = is_name→all t (and-true_left (is_name t) (all is_name ts) ht) in
    let name_d = is_name→all d (and-true_left (is_name d) (all is_name ds) hd) in
    let tails : t ++ slashed ts ≡ (d ++ slashed ds) ++ x = cc in
    let (same, later) =
      name_unique t d (slashed ts) (slashed ds ++ x) name_t name_d (Cut-slashed ts)
        (Cut-append ds x cx) (tails ∙ append_assoc d (slashed ds) x) in
    let (rest, e') =
      slashed_prefix ds ts x (and-true_right (is_name d) (all is_name ds) hd)
        (and-true_right (is_name t) (all is_name ts) ht) cx later in
    (rest, cc)

slashed-append : (ds rest : List (List ℕ)) → slashed (ds ++ rest) ≡ slashed ds ++ slashed rest
slashed-append [] rest = refl
slashed-append (d ∷ ds) rest =
    ap (λ l. b'/' ∷ (d ++ l)) (slashed-append ds rest)
    ∙ ap (◌∷◌ b'/') (sym (append_assoc d (slashed ds) (slashed rest)))

abbrev Extends : List (List ℕ) → List (List ℕ) → Type 0
Extends ds ts = (rest : List (List ℕ)) × (ts ≡ ds ++ rest)

not_root :
    (ts : List (List ℕ)) (d y : List ℕ)
    → is_name d ≡ true
    → path_codes ts ≡ b'/' ∷ (d ++ y)
    → slashed ts ≡ b'/' ∷ (d ++ y)
not_root [] [] y h e = cc
not_root [] (k ∷ d) y h e = cc
not_root (c ∷ cs) d y h e = e

module _ (root target : String) (d : List ℕ) (ds : List (List ℕ)) where
  continues→Extends :
      (ts : List (List ℕ)) (x : List ℕ)
      → IsPath root (d ∷ ds)
      → IsPath target ts
      → Cut x
      → codes target ≡ codes root ++ x
      → Extends (d ∷ ds) ts
  continues→Extends ts x r t cx e =
      let whole : path_codes ts ≡ slashed (d ∷ ds) ++ x = sym t.0 ∙ e ∙ ap (λ l. l ++ x) r.0 in
      let shape : slashed (d ∷ ds) ++ x ≡ b'/' ∷ (d ++ (slashed ds ++ x)) =
        ap (◌∷◌ b'/') (append_assoc d (slashed ds) x) in
      let name = and-true_left (is_name d) (all is_name ds) r.1 in
      slashed_prefix (d ∷ ds) ts x r.1 t.1 cx
        (not_root ts d (slashed ds ++ x) name (whole ∙ shape) ∙ sym shape)

  inside→Extends :
      (ts : List (List ℕ))
      → IsPath root (d ∷ ds)
      → IsPath target ts
      → is_inside root target ≡ true
      → Extends (d ∷ ds) ts
  unfolding is_inside
  inside→Extends ts r t h = elim (Bool-cases (target == root)) [
    | inl same ↦
        continues→Extends ts [] r t (inl refl)
          (ap codes ((eq_iff target root).0 same) ∙ sym (append-nil (codes root)))
    | inr other ↦
        let (x, e) = starts_with→append (codes target) (codes root ++ codes "/") (rw other at h) in
        continues→Extends ts (b'/' ∷ x) r t (inr (x, refl))
          (e ∙ append_assoc (codes root) (codes "/") x)
  ]

  Extends→inside :
      (rest : List (List ℕ))
      → IsPath root (d ∷ ds)
      → IsPath target ((d ∷ ds) ++ rest)
      → is_inside root target ≡ true
  unfolding is_inside
  Extends→inside [] r t =
      let same : target ≡ root =
        codes_injective target root (t.0 ∙ ap path_codes (append-nil (d ∷ ds)) ∙ sym r.0) in
      rw ((eq_iff target root).1 same) refl
  Extends→inside (c ∷ rest) r t =
      let e : codes target ≡ (codes root ++ codes "/") ++ (c ++ slashed rest) =
        t.0
        ∙ slashed-append (d ∷ ds) (c ∷ rest)
        ∙ ap (λ l. l ++ (b'/' ∷ (c ++ slashed rest))) (sym r.0)
        ∙ sym (append_assoc (codes root) (codes "/") (c ++ slashed rest)) in
      let begins : starts_with (codes target) (codes root ++ codes "/") ≡ true =
        rw e (append→starts_with (codes root ++ codes "/") (c ++ slashed rest)) in
      elim (Bool-cases (target == root)) [ inl same ↦ rw same refl | inr other ↦ rw other begins ]

-- Where `realpath` has given both paths, and the destination is not the root of the file system,
-- the test on texts lets a target through exactly if its components are those of the destination,
-- or those and more.
pub is_inside_iff :
    (root target : String) (d : List ℕ) (ds ts : List (List ℕ))
    → IsPath root (d ∷ ds)
    → IsPath target ts
    → (is_inside root target ≡ true) ↔ ((rest : List (List ℕ)) × (ts ≡ (d ∷ ds) ++ rest))
is_inside_iff root target d ds ts r t = (
  inside→Extends root target d ds ts r t,
  λ (rest, e). Extends→inside root target d ds rest r (rw e at t),
)
