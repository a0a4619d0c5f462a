-- ===== src/AssetCache/Prune.antt =====
-- What `prune` removes: the victims of the age limit and of the size cap.
pub mod Left
pub mod Sums
pub mod Budget
pub mod Ascending
pub mod Lru
use pretext_plus_build_full.Common.{
  ℕ, zero, suc, String, Bool, true, false, Option, none, some, List, [], ◌∷◌, ◌++◌, ltb, leb,
  if◌then◌else◌, ◌==◌, ◌+◌, ◌-◌, ◌≤◌, ◌<◌, ◌&&◌, ◌||◌, ◌≡◌, refl, arith, eq_iff, any, Bool-cases,
  inl, inr, ap, ◌∙◌, not, lt→ltb,
}
use pretext_plus_build_full.Common.Dict
use pretext_plus_build_full.Common.Dict.{Dict}
use pretext_plus_build_full.Config.{Settings}
use pretext_plus_build_full.Files.{Entries}
use pretext_plus_build_full.AssetCache.{
  Item, project, stray, Cache, Project, size, is_kept, scan, is_stale, sweep, before, insert, sort,
  evict, sum_sizes, kept_size, shrink, prune_root,
}

-- The projects that the size cap evicts, and those that it leaves.
pub victims : ℕ → ℕ → List Project → List Project
victims budget total [] = []
victims budget total (p ∷ ps) = elim (leb total budget) [
  | true ↦ []
  | false ↦ p ∷ victims budget (total - size p) ps
]

pub survivors : ℕ → ℕ → List Project → List Project
survivors budget total [] = []
survivors budget total (p ∷ ps) = elim (leb total budget) [
  | true ↦ p ∷ ps
  | false ↦ survivors budget (total - size p) ps
]

pub victims-append-survivors :
    (budget total : ℕ) (ps : List Project)
    → victims budget total ps ++ survivors budget total ps ≡ ps
unfolding victims survivors
victims-append-survivors budget total [] = refl
victims-append-survivors budget total (p ∷ ps) = elim (Bool-cases (leb total budget)) [
  | inl t ↦ rw (t, victims, survivors)
  | inr f ↦
      rw (f, victims, survivors) (ap (◌∷◌ p) (victims-append-survivors budget (total - size p) ps))
]

-- Is the name that of one of the projects?
abbrev pub named : String → List Project → Bool
named k = any (λ p. p.name == k)

lookup-evict :
    (budget total : ℕ) (ps : List Project) (cache : Cache) (k : String)
    → Dict.lookup k (evict budget total ps cache)
      ≡ (if named k (victims budget total ps) then none else Dict.lookup k cache)
unfolding evict victims
lookup-evict budget total [] cache k = refl
lookup-evict budget total (p ∷ ps) cache k = elim (Bool-cases (leb total budget)) [
  | inl t ↦ rw (t, evict, victims)
  | inr f ↦
      rw (f, evict, victims)
        (lookup-evict budget (total - size p) ps (Dict.remove p.name cache) k
          ∙ rw Dict.lookup-remove (ground arith))
]

-- The swept cache lacks the stale projects.
lookup-sweep :
    (max_age now : ℕ) (ps : List Project) (cache : Cache) (k : String)
    → Dict.lookup k (sweep max_age now ps cache).1 ≡ (
        if any (λ p. is_stale max_age now p && (p.name == k)) ps then none else Dict.lookup k cache)
unfolding sweep
lookup-sweep max_age now [] cache k = refl
lookup-sweep max_age now (p ∷ ps) cache k = elim (Bool-cases (is_stale max_age now p)) [
  | inl t ↦
      rw (t, sweep)
        (lookup-sweep max_age now ps (Dict.remove p.name cache) k
          ∙ rw Dict.lookup-remove (ground arith))
  | inr f ↦ rw (f, sweep) (lookup-sweep max_age now ps cache k)
]

-- What the size cap evicts; a cap of 0 is none.
pub cap_victims : ℕ → Option String → List Project → Cache → List Project
cap_victims zero keep live cache = []
cap_victims (suc cap) keep live cache =
    victims (suc cap) (sum_sizes live + kept_size keep cache) (sort live)

lookup-shrink :
    (cap : ℕ) (keep : Option String) (live : List Project) (cache : Cache) (k : String)
    → Dict.lookup k (shrink cap keep live cache)
      ≡ (if named k (cap_victims cap keep live cache) then none else Dict.lookup k cache)
unfolding shrink cap_victims
lookup-shrink zero keep live cache k = refl
lookup-shrink (suc cap) keep live cache k = lookup-evict _ _ (sort live) cache k

abbrev pub swept : Settings → Option String → ℕ → Cache → List Project × Cache
swept settings keep now cache = sweep settings.asset_cache_max_age now (scan keep cache) cache

-- `prune` changes nothing of an entry, and removes those of stale projects and of the victims of
-- the size cap.
pub lookup-prune_root :
    (settings : Settings) (keep : Option String) (now : ℕ) (cache : Cache) (k : String)
    → Dict.lookup k (prune_root settings keep now cache) ≡ (
        if named k (
          cap_victims settings.asset_cache_max_bytes keep
            (swept settings keep now cache).0
            (swept settings keep now cache).1)
        then none
        else if any
            (λ p. is_stale settings.asset_cache_max_age now p && (p.name == k))
            (scan keep cache)
        then none
        else Dict.lookup k cache)
unfolding prune_root
lookup-prune_root settings keep now cache k =
    lookup-shrink settings.asset_cache_max_bytes keep _ _ k
    ∙ rw (lookup-sweep settings.asset_cache_max_age now (scan keep cache) cache k)

any-insert :
    (f : Project → Bool) (p : Project) (ps : List Project) → any f (insert p ps) ≡ (f p || any f ps)
unfolding insert
any-insert f p [] = refl
any-insert f p (q ∷ qs) = ground (arith, any-insert f p qs)

-- Sorting changes no membership.
pub any-sort : (f : Project → Bool) (ps : List Project) → any f (sort ps) ≡ any f ps
unfolding sort
any-sort f [] = refl
any-sort f (p ∷ ps) = rw (any-insert, any-sort f ps)

pub any-sweep :
    (f : Project → Bool) (max_age now : ℕ) (ps : List Project) (cache : Cache)
    → any f (sweep max_age now ps cache).0 ≡ any (λ p. not (is_stale max_age now p) && f p) ps
unfolding sweep
any-sweep f max_age now [] cache = refl
any-sweep f max_age now (p ∷ ps) cache = elim (Bool-cases (is_stale max_age now p)) [
  | inl t ↦ rw (t, sweep) (any-sweep f max_age now ps (Dict.remove p.name cache))
  | inr e ↦ rw (e, sweep) (ap (λ b. f p || b) (any-sweep f max_age now ps cache))
]

any-victims :
    (f : Project → Bool) (budget total : ℕ) (ps : List Project)
    → any f ps ≡ false
    → any f (victims budget total ps) ≡ false
unfolding victims
any-victims f budget total [] h = refl
any-victims f budget total (p ∷ ps) h = ground (arith, any-victims f budget (total - size p) ps)

any-and :
    (f g : Project → Bool) (ps : List Project) → any g ps ≡ false → any (λ p. f p && g p) ps ≡ false
any-and f g [] h = refl
any-and f g (p ∷ ps) h = ground (arith, any-and f g ps)

any-cap_victims :
    (f : Project → Bool) (cap : ℕ) (keep : Option String) (live : List Project) (cache : Cache)
    → any f live ≡ false
    → any f (cap_victims cap keep live cache) ≡ false
unfolding cap_victims
any-cap_victims f zero keep live cache h = refl
any-cap_victims f (suc cap) keep live cache h = any-victims f _ _ (sort live) (any-sort f live ∙ h)

named-scan : (keep : String) (cache : Cache) → named keep (scan (some keep) cache) ≡ false
unfolding scan
named-scan keep [] = refl
named-scan keep ((name, stray) ∷ cache) = named-scan keep cache
named-scan keep ((name, project mtime tree) ∷ cache) =
    ground (arith, named-scan keep cache, eq_iff name keep)

-- The project of the job that has just run is never evicted, however old or large it is.
pub prune_root_keeps :
    (settings : Settings) (keep : String) (now : ℕ) (cache : Cache)
    → Dict.lookup keep (prune_root settings (some keep) now cache) ≡ Dict.lookup keep cache
prune_root_keeps settings keep now cache =
    let alone = named-scan keep cache in
    rw (
      lookup-prune_root,
      any-cap_victims (λ p. p.name == keep) settings.asset_cache_max_bytes (some keep)
          (swept settings (some keep) now cache).0 (swept settings (some keep) now cache).1
          (any-sweep (λ p. p.name == keep) settings.asset_cache_max_age now (scan (some keep) cache)
              cache
            ∙ any-and (λ p. not (is_stale settings.asset_cache_max_age now p)) (λ p. p.name == keep)
                (scan (some keep) cache) alone),
      any-and (is_stale settings.asset_cache_max_age now) (λ p. p.name == keep)
          (scan (some keep) cache) alone,
    )

pub lookup-swept :
    (settings : Settings) (keep : String) (now : ℕ) (cache : Cache)
    → Dict.lookup keep (swept settings (some keep) now cache).1 ≡ Dict.lookup keep cache
lookup-swept settings keep now cache = rw (
  lookup-sweep,
  any-and (is_stale settings.asset_cache_max_age now) (λ p. p.name == keep) (scan (some keep) cache)
      (named-scan keep cache),
)

pub named_of_lookup :
    (f : Project → Bool) (keep : Option String) (cache : Cache) (k : String) (mtime : ℕ)
    (tree : Entries)
    → Dict.lookup k cache ≡ some (project mtime tree)
    → is_kept keep k ≡ false
    → f (record { mtime = mtime; name = k; tree = tree }) ≡ true
    → any (λ p. f p && (p.name == k)) (scan keep cache) ≡ true
unfolding Dict.lookup scan
named_of_lookup f keep [] k mtime tree e h holds = cc
named_of_lookup f keep ((name, stray) ∷ cache) k mtime tree e h holds =
    ground (arith, named_of_lookup f keep cache k mtime tree)
named_of_lookup f keep ((name, project m t) ∷ cache) k mtime tree e h holds =
    ground (arith, eq_iff name k, named_of_lookup f keep cache k mtime tree)

if_same {ℓ} : {A : Type ℓ} (b : Bool) (a : A) → (if b then a else a) ≡ a
if_same true a = refl
if_same false a = refl

-- A project that no job has used for longer than the maximal age is evicted, whatever its size,
-- unless it is the kept one.
pub prune_root_stale :
    (settings : Settings) (keep : Option String) (now : ℕ) (cache : Cache) (k : String) (mtime : ℕ)
    (tree : Entries)
    → Dict.lookup k cache ≡ some (project mtime tree)
    → is_kept keep k ≡ false
    → mtime + settings.asset_cache_max_age < now
    → Dict.lookup k (prune_root settings keep now cache) ≡ none
prune_root_stale settings keep now cache k mtime tree e h old =
    rw
      (
        lookup-prune_root,
        named_of_lookup (is_stale settings.asset_cache_max_age now) keep cache k mtime tree e h
            (unfold is_stale in lt→ltb _ _ old),
      )
      (if_same _ none)
