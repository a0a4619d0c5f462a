-- ===== src/World/Final.antt =====
-- What holds of the world when an action is over, however it ends.
use pretext_plus_build_full.Docker.{Exception, Outcome, returned, raised, hangs}
use pretext_plus_build_full.World.{World, Action, ◌>>=◌, catch, continue, handle}
use pretext_plus_build_full.World.Laws.{Ends}

module _ {ℓ κ} {A : Type ℓ} {B : Type κ} (P : World → Type 0) where
  Final-continue :
      (r : Outcome A × World) (f : A → Action B)
      → P r.1
      → ((a : A) (w : World) → P w → P (f a w).1)
      → P (continue r.0 f r.1).1
  Final-continue (returned a, w) f h k = k a w h
  Final-continue (raised e, w) f h k = h
  Final-continue (hangs, w) f h k = h

  pub Final-bind :
      (m : Action A) (f : A → Action B) (w : World)
      → P (m w).1
      → ((a : A) (w' : World) → P w' → P (f a w').1)
      → P ((m >>= f) w).1
  Final-bind m f w = Final-continue (m w) f

module _ {ℓ} {A : Type ℓ} (P : World → Type 0) where
  Final-handle :
      (r : Outcome A × World) (h : Exception → Action A)
      → P r.1
      → ((e : Exception) (w : World) → P w → P (h e w).1)
      → P (handle r.0 h r.1).1
  Final-handle (returned a, w) h p k = p
  Final-handle (raised e, w) h p k = k e w p
  Final-handle (hangs, w) h p k = p

  pub Final-catch :
      (m : Action A) (h : Exception → Action A) (w : World)
      → P (m w).1
      → ((e : Exception) (w' : World) → P w' → P (h e w').1)
      → P (catch m h w).1
  Final-catch m h w = Final-handle (m w) h

-- The relations of the value or the exception and the world, where the action returned or raised.
abbrev pub Leads {ℓ} :
    {A : Type ℓ} → (A → World → Type 0) → (Exception → World → Type 0) → Outcome A × World → Type 0
Leads Q R (returned a, w) = Q a w
Leads Q R (raised e, w) = R e w
Leads Q R (hangs, w) = Unit

module _ {ℓ} {A : Type ℓ} (Q : A → World → Type 0) (R : Exception → World → Type 0) where
  pub Leads-Ends : (r : Outcome A × World) → Leads Q R r → Ends Q r
  Leads-Ends (returned a, w) q = q
  Leads-Ends (raised e, w) q = tt
  Leads-Ends (hangs, w) q = tt

  Ends-handled :
      (r : Outcome A × World) (h : Exception → Action A)
      → Leads Q R r
      → ((e : Exception) (w : World) → R e w → Ends Q (h e w))
      → Ends Q (handle r.0 h r.1)
  Ends-handled (returned a, w) h q k = q
  Ends-handled (raised e, w) h q k = k e w q
  Ends-handled (hangs, w) h q k = tt

  pub Ends-caught :
      (m : Action A) (h : Exception → Action A) (w : World)
      → Leads Q R (m w)
      → ((e : Exception) (w' : World) → R e w' → Ends Q (h e w'))
      → Ends Q (catch m h w)
  Ends-caught m h w = Ends-handled (m w) h

module _ {ℓ κ} {A : Type ℓ} {B : Type κ} (P : A → World → Type 0) (Q : B → World → Type 0)
    (R : Exception → World → Type 0) where
  Leads-continue :
      (r : Outcome A × World) (f : A → Action B)
      → Leads P R r
      → ((a : A) (w : World) → P a w → Leads Q R (f a w))
      → Leads Q R (continue r.0 f r.1)
  Leads-continue (returned a, w) f h k = k a w h
  Leads-continue (raised e, w) f h k = h
  Leads-continue (hangs, w) f h k = tt

  pub Leads-bind :
      (m : Action A) (f : A → Action B) (w : World)
      → Leads P R (m w)
      → ((a : A) (w' : World) → P a w' → Leads Q R (f a w'))
      → Leads Q R ((m >>= f) w)
  Leads-bind m f w = Leads-continue (m w) f

pub Ends-both {ℓ} :
    {A : Type ℓ} (P Q : A → World → Type 0) (r : Outcome A × World)
    → Ends P r
    → Ends Q r
    → Ends (λ a w. P a w × Q a w) r
Ends-both P Q (returned a, w) p q = (p, q)
Ends-both P Q (raised e, w) p q = tt
Ends-both P Q (hangs, w) p q = tt
