-- ===== src/World/Total.antt =====
-- Actions that return, and actions that end: what holds then, rule by rule.
use pretext_plus_build_full.Common.{◌≡◌, refl}
use pretext_plus_build_full.Docker.{Exception, Outcome, returned, raised, hangs}
use pretext_plus_build_full.World.{
  World, Action, pure, ◌>>=◌, catch, finally, continue, handle, conclude,
}

-- The action returned, and its value and the world are in a relation.
abbrev pub Returns {ℓ} : {A : Type ℓ} → (A → World → Type 0) → Outcome A × World → Type 0
Returns Q (returned a, w) = Q a w
Returns Q (raised e, w) = ⊥
Returns Q (hangs, w) = ⊥

-- The action returned or raised, and the world has a property.
abbrev pub Stops {ℓ} : {A : Type ℓ} → (World → Type 0) → Outcome A × World → Type 0
Stops P (returned a, w) = P w
Stops P (raised e, w) = P w
Stops P (hangs, w) = ⊥

module _ {ℓ κ} {A : Type ℓ} {B : Type κ} (P : A → World → Type 0) (Q : B → World → Type 0) where
  Returns-continue :
      (r : Outcome A × World) (f : A → Action B)
      → Returns P r
      → ((a : A) (w : World) → P a w → Returns Q (f a w))
      → Returns Q (continue r.0 f r.1)
  Returns-continue (returned a, w) f h k = k a w h
  Returns-continue (raised e, w) f h k = h
  Returns-continue (hangs, w) f h k = h

  pub Returns-bind :
      (m : Action A) (f : A → Action B) (w : World)
      → Returns P (m w)
      → ((a : A) (w' : World) → P a w' → Returns Q (f a w'))
      → Returns Q ((m >>= f) w)
  Returns-bind m f w = Returns-continue (m w) f

module _ {ℓ κ} {A : Type ℓ} {B : Type κ} (P : World → Type 0) where
  Stops-continue :
      (r : Outcome A × World) (f : A → Action B)
      → Stops P r
      → ((a : A) (w : World) → P w → Stops P (f a w))
      → Stops P (continue r.0 f r.1)
  Stops-continue (returned a, w) f h k = k a w h
  Stops-continue (raised e, w) f h k = h
  Stops-continue (hangs, w) f h k = h

  pub Stops-bind :
      (m : Action A) (f : A → Action B) (w : World)
      → Stops P (m w)
      → ((a : A) (w' : World) → P w' → Stops P (f a w'))
      → Stops P ((m >>= f) w)
  Stops-bind m f w = Stops-continue (m w) f

module _ {ℓ} {A : Type ℓ} where
  -- An exception handler that returns turns an action that ends into one that returns.
  Returns-handle :
      (P : World → Type 0) (r : Outcome A × World) (h : Exception → Action A)
      → Stops P r
      → ((e : Exception) (w : World) → P w → Returns (λ _. P) (h e w))
      → Returns (λ _. P) (handle r.0 h r.1)
  Returns-handle P (returned a, w) h q k = q
  Returns-handle P (raised e, w) h q k = k e w q
  Returns-handle P (hangs, w) h q k = q

  pub Returns-catch :
      (P : World → Type 0) (m : Action A) (h : Exception → Action A) (w : World)
      → Stops P (m w)
      → ((e : Exception) (w' : World) → P w' → Returns (λ _. P) (h e w'))
      → Returns (λ _. P) (catch m h w)
  Returns-catch P m h w = Returns-handle P (m w) h

  Returns-handle_idle :
      (Q : A → World → Type 0) (r : Outcome A × World) (h : Exception → Action A)
      → Returns Q r
      → Returns Q (handle r.0 h r.1)
  Returns-handle_idle Q (returned a, w) h q = q
  Returns-handle_idle Q (raised e, w) h q = absurd q
  Returns-handle_idle Q (hangs, w) h q = absurd q

  pub Returns-catch_idle :
      (Q : A → World → Type 0) (m : Action A) (h : Exception → Action A) (w : World)
      → Returns Q (m w)
      → Returns Q (catch m h w)
  Returns-catch_idle Q m h w = Returns-handle_idle Q (m w) h

  Returns-conclude :
      (Q R : A → World → Type 0) (r : Outcome A × World) (last : Action (Unit {0}))
      → Returns Q r
      → ((a : A) (w : World) → Q a w → Returns (λ _. R a) (last w))
      → Returns R (conclude r.0 last r.1)
  Returns-conclude Q R (returned a, w) last q k =
      Returns-continue (λ _. R a) R (last w) (λ _. pure a) (k a w q) (λ _ w' x. x)
  Returns-conclude Q R (raised e, w) last q k = absurd q
  Returns-conclude Q R (hangs, w) last q k = absurd q

  pub Returns-finally :
      (Q R : A → World → Type 0) (m : Action A) (last : Action (Unit {0})) (w : World)
      → Returns Q (m w)
      → ((a : A) (w' : World) → Q a w' → Returns (λ _. R a) (last w'))
      → Returns R (finally m last w)
  Returns-finally Q R m last w = Returns-conclude Q R (m w) last

  -- A relation that always holds, for actions of which only the end matters.
  pub Returns-mono :
      (Q R : A → World → Type 0) (r : Outcome A × World)
      → ((a : A) (w : World) → Q a w → R a w)
      → Returns Q r
      → Returns R r
  Returns-mono Q R (returned a, w) k q = k a w q
  Returns-mono Q R (raised e, w) k q = q
  Returns-mono Q R (hangs, w) k q = q

  pub returned_of_Returns :
      (Q : A → World → Type 0) (r : Outcome A × World)
      → Returns Q r
      → (a : A) × (w : World) × (r ≡ (returned a, w)) × Q a w
  returned_of_Returns Q (returned a, w) q = (a, w, refl, q)
  returned_of_Returns Q (raised e, w) q = absurd q
  returned_of_Returns Q (hangs, w) q = absurd q
