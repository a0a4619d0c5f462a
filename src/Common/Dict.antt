-- ===== src/Common/Dict.antt =====
-- A Python `dict` (and a Redis hash) with text keys: an association list in insertion order.
use mathlib.Core.Path.{◌≡◌, refl}
use mathlib.Core.Option.{Option, none, some}
use mathlib.Core.List.{List, [], ◌∷◌}
use mathlib.Core.Logic.{inl, inr, ◌≢◌}
use Prim.Native.String.{String}
use native.Mathlib.Omega.{arith}
use text.Mathlib.Text.{◌==◌}
use text.Mathlib.TextEquality.{eq_iff}
use pretext_plus_build_full.Common.Tests.{if◌then◌else◌, Bool-cases}

abbrev pub Dict {ℓ} : Type ℓ → Type ℓ
Dict V = List (String × V)

module _ {ℓ} {V : Type ℓ} where
  -- d.get(k)
  unfoldable pub lookup : String → Dict V → Option V
  lookup k [] = none
  lookup k ((j, v) ∷ d) = if j == k then some v else lookup k d

  -- d[k] = v, which keeps the place of a key that is there
  unfoldable pub insert : String → V → Dict V → Dict V
  insert k v [] = (k, v) ∷ []
  insert k v ((j, w) ∷ d) = if j == k then (j, v) ∷ d else (j, w) ∷ insert k v d

  -- d.setdefault(k, v)
  unfoldable pub set_default : String → V → Dict V → Dict V
  unfolding lookup insert
  set_default k v d = elim (lookup k d) [ none ↦ insert k v d | some w ↦ d ]

  -- d.update(e)
  unfoldable pub update : Dict V → Dict V → Dict V
  unfolding insert
  update d [] = d
  update d ((k, v) ∷ e) = update (insert k v d) e

  -- d.pop(k, None)
  unfoldable pub remove : String → Dict V → Dict V
  remove k [] = []
  remove k ((j, w) ∷ d) = let rest = remove k d in if j == k then rest else (j, w) ∷ rest

  pub lookup-insert :
      (k j : String) (v : V) (d : Dict V)
      → lookup j (insert k v d) ≡ (if k == j then some v else lookup j d)
  unfolding lookup insert
  lookup-insert k j v [] = refl
  lookup-insert k j v ((i, w) ∷ d) =
      ground (arith, eq_iff k j, eq_iff i k, eq_iff i j, lookup-insert k j v d)

  pub lookup-remove :
      (k j : String) (d : Dict V) → lookup j (remove k d) ≡ (if k == j then none else lookup j d)
  unfolding lookup remove
  lookup-remove k j [] = ground arith
  lookup-remove k j ((i, w) ∷ d) =
      ground (arith, eq_iff k j, eq_iff i k, eq_iff i j, lookup-remove k j d)

  -- `last k e o`: the value of `k` after the pairs of `e` are written over the old value `o`.
  abbrev pub last : String → Dict V → Option V → Option V
  last k [] o = o
  last k ((j, v) ∷ e) o = last k e (if j == k then some v else o)

  pub lookup-update : (d e : Dict V) (k : String) → lookup k (update d e) ≡ last k e (lookup k d)
  unfolding update
  lookup-update d [] k = refl
  lookup-update d ((j, v) ∷ e) k =
      ground (arith, lookup-update (insert j v d) e k, lookup-insert j k v d)

  pub lookup-set_default :
      (k j : String) (v : V) (d : Dict V)
      → lookup j (set_default k v d)
        ≡ elim (lookup j d) [ none ↦ if k == j then some v else none | some w ↦ some w ]
  unfolding set_default
  lookup-set_default k j v d = ground (arith, lookup-insert k j v d, eq_iff k j)

  -- No key stands twice.
  abbrev pub NodupKeys : Dict V → Type ℓ
  NodupKeys [] = Unit
  NodupKeys ((k, v) ∷ d) = (lookup k d ≡ none) × NodupKeys d

  abbrev pub over : Option V → Option V → Option V
  over none o = o
  over (some v) o = some v

  pub last_of_Nodup :
      (e : Dict V) (k : String) (o : Option V) → NodupKeys e → last k e o ≡ over (lookup k e) o
  unfolding lookup
  last_of_Nodup [] k o h = refl
  last_of_Nodup ((j, v) ∷ e) k o h =
      ground (arith, eq_iff j k, last_of_Nodup e k (if j == k then some v else o) h.1)

  pub NodupKeys-insert : (k : String) (v : V) (d : Dict V) → NodupKeys d → NodupKeys (insert k v d)
  unfolding insert lookup
  NodupKeys-insert k v [] h = (refl, tt)
  NodupKeys-insert k v ((j, w) ∷ d) h = elim (Bool-cases (j == k)) [
    | inl t ↦ rw t (h.0, h.1)
    | inr f ↦ rw f (
      ground (arith, lookup-insert k j v d, eq_iff k j, eq_iff j k, h.0),
      NodupKeys-insert k v d h.1,
    )
  ]

  pub NodupKeys-set_default :
      (k : String) (v : V) (d : Dict V) → NodupKeys d → NodupKeys (set_default k v d)
  unfolding set_default
  NodupKeys-set_default k v d h = go (lookup k d)
    where
      go : (o : Option V) → NodupKeys (elim o as (λ _. Dict V) [ none ↦ insert k v d | some w ↦ d ])
      go none = NodupKeys-insert k v d h
      go (some w) = h

  -- A dict written into an empty one.
  pub lookup-update_nil :
      (e : Dict V) (k : String) → NodupKeys e → lookup k (update [] e) ≡ lookup k e
  unfolding lookup
  lookup-update_nil e k h = rw (lookup-update, last_of_Nodup e k none h) (go (lookup k e))
    where
      go : (o : Option V) → over o none ≡ o
      go none = refl
      go (some v) = refl

  insert-ne-nil : (k : String) (v : V) (d : Dict V) → insert k v d ≢ []
  unfolding insert
  insert-ne-nil k v [] e = cc
  insert-ne-nil k v ((j, w) ∷ d) e = ground arith

  pub update-ne-nil : (d e : Dict V) → d ≢ [] → update d e ≢ []
  unfolding update
  update-ne-nil d [] h = h
  update-ne-nil d ((k, v) ∷ e) h = update-ne-nil (insert k v d) e (insert-ne-nil k v d)

  pub set_default-ne-nil : (k : String) (v : V) (d : Dict V) → set_default k v d ≢ []
  unfolding set_default
  set_default-ne-nil k v [] = insert-ne-nil k v []
  set_default-ne-nil k v ((j, w) ∷ d) = go (lookup k ((j, w) ∷ d))
    where
      go :
          (o : Option V)
          → elim o as (λ _. Dict V) [ none ↦ insert k v ((j, w) ∷ d) | some u ↦ (j, w) ∷ d ] ≢ []
      go none e = insert-ne-nil k v ((j, w) ∷ d) e
      go (some u) e = cc

  pub update_nil-ne-nil : (e : Dict V) → e ≢ [] → update [] e ≢ []
  unfolding update
  update_nil-ne-nil [] h = h
  update_nil-ne-nil ((k, v) ∷ e) h = update-ne-nil (insert k v []) e (insert-ne-nil k v [])
