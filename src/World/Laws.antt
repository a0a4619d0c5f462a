-- ===== src/World/Laws.antt =====
-- How an action ends: a case analysis, and what holds where it returns, rule by rule for the ways
-- in which the worker's code is put together.
use pretext_plus_build_full.Common.{◌≡◌, refl, ◌⊎◌, inl, inr}
use mathlib.Core.Path.{subst}
use pretext_plus_build_full.Docker.{Exception, Outcome, returned, raised, hangs}
use pretext_plus_build_full.World.{
  World, Action, pure, raise, ◌>>=◌, catch, finally, continue, handle, conclude,
}

pub Result-cases {ℓ} :
    {A : Type ℓ} (r : Outcome A × World)
    → ((a : A) × (w : World) × (r ≡ (returned a, w)))
      ⊎ ((e : Exception) × (w : World) × (r ≡ (raised e, w)))
      ⊎ ((w : World) × (r ≡ (hangs, w)))
Result-cases (returned a, w) = inl (a, w, refl)
Result-cases (raised e, w) = inr (inl (e, w, refl))
Result-cases (hangs, w) = inr (inr (w, refl))

-- Where the action returned, its value and the world are in a relation.
abbrev pub Ends {ℓ κ} : {A : Type ℓ} → (A → World → Type κ) → Outcome A × World → Type κ
Ends Q (returned a, w) = Q a w
Ends Q (raised e, w) = Unit
Ends Q (hangs, w) = Unit

pub Ends-trivial {ℓ} : {A : Type ℓ} (r : Outcome A × World) → Ends (λ _ _. Unit {0}) r
Ends-trivial (returned a, w) = tt
Ends-trivial (raised e, w) = tt
Ends-trivial (hangs, w) = tt

module _ {ℓ κ μ ν} {A : Type ℓ} {B : Type κ} (P : A → World → Type μ) (Q : B → World → Type ν) where
  Ends-continue :
      (r : Outcome A × World) (f : A → Action B)
      → Ends P r
      → ((a : A) (w : World) → P a w → Ends Q (f a w))
      → Ends Q (continue r.0 f r.1)
  Ends-continue (returned a, w) f h k = k a w h
  Ends-continue (raised e, w) f h k = tt
  Ends-continue (hangs, w) f h k = tt

  pub Ends-bind :
      (m : Action A) (f : A → Action B) (w : World)
      → Ends P (m w)
      → ((a : A) (w' : World) → P a w' → Ends Q (f a w'))
      → Ends Q ((m >>= f) w)
  Ends-bind m f w = Ends-continue (m w) f

module _ {ℓ ν} {A : Type ℓ} (Q : A → World → Type ν) where
  Ends-handle :
      (r : Outcome A × World) (h : Exception → Action A)
      → Ends Q r
      → ((e : Exception) (w : World) → Ends Q (h e w))
      → Ends Q (handle r.0 h r.1)
  Ends-handle (returned a, w) h q k = q
  Ends-handle (raised e, w) h q k = k e w
  Ends-handle (hangs, w) h q k = tt

  pub Ends-catch :
      (m : Action A) (h : Exception → Action A) (w : World)
      → Ends Q (m w)
      → ((e : Exception) (w' : World) → Ends Q (h e w'))
      → Ends Q (catch m h w)
  Ends-catch m h w = Ends-handle (m w) h

  Ends-conclude :
      (r : Outcome A × World) (last : Action (Unit {0}))
      → Ends Q r
      → ((a : A) (w : World) → Q a w → Ends (λ _. Q a) (last w))
      → Ends Q (conclude r.0 last r.1)
  Ends-conclude (returned a, w) last q k =
      Ends-continue (λ _. Q a) Q (last w) (λ _. pure a) (k a w q) (λ _ w' x. x)
  Ends-conclude (raised e, w) last q k =
      Ends-continue (λ _ _. Unit {0}) Q (last w) (λ _. raise e) (Ends-trivial (last w))
        (λ _ w' x. tt)
  Ends-conclude (hangs, w) last q k = tt

  pub Ends-finally :
      (m : Action A) (last : Action (Unit {0})) (w : World)
      → Ends Q (m w)
      → ((a : A) (w' : World) → Q a w' → Ends (λ _. Q a) (last w'))
      → Ends Q (finally m last w)
  Ends-finally m last w = Ends-conclude (m w) last

  pub Ends_returned :
      (r : Outcome A × World) (a : A) (w : World) → Ends Q r → r ≡ (returned a, w) → Q a w
  Ends_returned r a w q e = subst (Ends Q) e q

-- What holds of the world at the end holds where the action returned.
pub keep_end {ℓ κ} :
    {A : Type ℓ} (Q : World → Type κ) (r : Outcome A × World) → Q r.1 → Ends (λ _. Q) r
keep_end Q (returned a, w) q = q
keep_end Q (raised e, w) q = tt
keep_end Q (hangs, w) q = tt
