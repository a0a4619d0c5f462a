-- ===== src/AssetCache/Prune/Sums.antt =====
-- What the victims of the size cap leave, in bytes.
use pretext_plus_build_full.Common.{
  ℕ, Bool, true, List, [], ◌∷◌, ◌++◌, leb, if◌then◌else◌, ◌==◌, ◌+◌, ◌-◌, ◌≤◌, ◌&&◌, ◌||◌, ◌≡◌,
  refl, arith, eq_refl, any, All, Bool-cases, inl, inr, ◌⊎◌, ap, not, leb→le,
}
use pretext_plus_build_full.Config.{Settings}
use pretext_plus_build_full.AssetCache.{Project, size, is_stale, insert, sort, sum_sizes}
use pretext_plus_build_full.AssetCache.Prune.{survivors, named}
use pretext_plus_build_full.AssetCache.Prune.Left.{without, stale_name}

pub sum_by : (Project → ℕ) → List Project → ℕ
sum_by g [] = 0
sum_by g (p ∷ ps) = g p + sum_by g ps

sum_by-insert :
    (g : Project → ℕ) (p : Project) (ps : List Project) → sum_by g (insert p ps) ≡ g p + sum_by g ps
unfolding insert sum_by
sum_by-insert g p [] = refl
sum_by-insert g p (q ∷ qs) = ground (arith, sum_by-insert g p qs)

pub sum_by-sort : (g : Project → ℕ) (ps : List Project) → sum_by g (sort ps) ≡ sum_by g ps
unfolding sort sum_by
sum_by-sort g [] = refl
sum_by-sort g (p ∷ ps) = rw (sum_by-insert, sum_by-sort g ps)

pub sum_by-append :
    (g : Project → ℕ) (ps qs : List Project) → sum_by g (ps ++ qs) ≡ sum_by g ps + sum_by g qs
unfolding sum_by
sum_by-append g [] qs = omega arith
sum_by-append g (p ∷ ps) qs = omega (arith, sum_by-append g ps qs)

pub sum_by-size : (ps : List Project) → sum_by size ps ≡ sum_sizes ps
unfolding sum_by sum_sizes
sum_by-size [] = refl
sum_by-size (p ∷ ps) = ap (λ n. size p + n) (sum_by-size ps)

-- The size of a project that is not among the named ones.
abbrev pub spared : List Project → Project → ℕ
spared vs p = if named p.name vs then 0 else size p

pub sum_by-spared-le : (vs ps : List Project) → sum_by (spared vs) ps ≤ sum_sizes ps
unfolding sum_by sum_sizes
sum_by-spared-le vs [] = omega arith
sum_by-spared-le vs (p ∷ ps) = ground (arith, sum_by-spared-le vs ps)

pub sum_by-spared_self :
    (vs ps : List Project) → All (λ p. named p.name vs ≡ true) ps → sum_by (spared vs) ps ≡ 0
unfolding sum_by
sum_by-spared_self vs [] h = refl
sum_by-spared_self vs (p ∷ ps) h = ground (arith, sum_by-spared_self vs ps h.1, h.0)

pub All-mono {ℓ κ} :
    {P : Project → Type ℓ} {Q : Project → Type κ} (ps : List Project)
    → ((p : Project) → P p → Q p)
    → All P ps
    → All Q ps
All-mono [] f h = tt
All-mono (p ∷ ps) f h = (f p h.0, All-mono ps f h.1)

-- A project of a list that passes the test is found by its name among those that do.
pub found_by_name :
    (f : Project → Bool) (ps : List Project)
    → All (λ p. f p ≡ true → any (λ q. f q && (q.name == p.name)) ps ≡ true) ps
found_by_name f [] = tt
found_by_name f (p ∷ ps) =
    (λ h. rw (h, eq_refl), All-mono ps (λ q k h. ground (arith, k h)) (found_by_name f ps))

pub named_self : (ps : List Project) → All (λ p. named p.name ps ≡ true) ps
named_self ps = All-mono ps (λ p h. h refl) (found_by_name (λ p. true) ps)

pub sum_without_le :
    (settings : Settings) (now : ℕ) (all : List Project) (vs ps : List Project)
    → All
        (λ p.
          is_stale settings.asset_cache_max_age now p ≡ true
          → stale_name settings.asset_cache_max_age now all p ≡ true)
        ps
    → sum_sizes
        (without (λ p. stale_name settings.asset_cache_max_age now all p || named p.name vs) ps)
      ≤ sum_by (spared vs) (without (is_stale settings.asset_cache_max_age now) ps)
unfolding sum_sizes sum_by
sum_without_le settings now all vs [] h = omega arith
sum_without_le settings now all vs (p ∷ ps) h =
    ground (arith, sum_without_le settings now all vs ps h.1, h.0)

-- The loop stops when the total is within the budget, or when no project is left.
pub victims_fit :
    (budget total k : ℕ) (ps : List Project)
    → total ≡ sum_sizes ps + k
    → (sum_sizes (survivors budget total ps) + k ≤ budget) ⊎ (survivors budget total ps ≡ [])
unfolding survivors sum_sizes
victims_fit budget total k [] e = inr refl
victims_fit budget total k (p ∷ ps) e = elim (Bool-cases (leb total budget)) [
  | inl t ↦ rw (t, survivors) (inl (let le = leb→le _ _ t in omega arith))
  | inr f ↦ rw (f, survivors) (victims_fit budget (total - size p) k ps (omega arith))
]

-- With every project stale or named, none is left.
pub without-All :
    (f g h : Project → Bool) (ps : List Project)
    → All (λ p. f p ≡ true → g p ≡ true) ps
    → All (λ p. not (f p) ≡ true → h p ≡ true) ps
    → without (λ p. g p || h p) ps ≡ []
without-All f g h [] a b = refl
without-All f g h (p ∷ ps) a b = ground (arith, without-All f g h ps a.1 b.1, a.0, b.0)
