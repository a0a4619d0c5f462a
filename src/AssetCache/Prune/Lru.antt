-- ===== src/AssetCache/Prune/Lru.antt =====
-- Which projects the size cap of `prune` evicts.
use pretext_plus_build_full.Common.{
  ℕ, zero, suc, String, Bool, true, false, Option, none, some, List, [], ◌∷◌, ◌++◌, leb,
  if◌then◌else◌, ◌==◌, ◌+◌, ◌≤◌, ◌<◌, ◌&&◌, ◌≡◌, ◌≢◌, refl, arith, any, All, Bool-cases, inl, inr,
  ◌⊎◌, not,
}
use pretext_plus_build_full.Common.Dict
use pretext_plus_build_full.Common.Dict.{NodupKeys}
use pretext_plus_build_full.Config.{Settings}
use pretext_plus_build_full.Files.{Entries}
use pretext_plus_build_full.AssetCache.{
  project, Cache, Project, is_kept, scan, is_stale, sort, sum_sizes, kept_size, prune_root,
}
use pretext_plus_build_full.AssetCache.Prune.{
  victims, survivors, victims-append-survivors, named, cap_victims, swept, any-sort, any-sweep,
  lookup-prune_root, named_of_lookup,
}
use pretext_plus_build_full.AssetCache.Prune.Left.{without, live-sweep}
use pretext_plus_build_full.AssetCache.Prune.Budget.{cap_victims_pos}
use pretext_plus_build_full.AssetCache.Prune.Ascending.{
  Ascending, All-sort, sort-Ascending, Used, Used-scan,
}

Used-without :
    (f : Project → Bool) (k : String) (m : ℕ) (ps : List Project)
    → Used k m ps
    → Used k m (without f ps)
Used-without f k m [] h = tt
Used-without f k m (p ∷ ps) h = elim (Bool-cases (f p)) [
  | inl t ↦ rw t (Used-without f k m ps h.1)
  | inr e ↦ rw e (h.0, Used-without f k m ps h.1)
]

named-le :
    (n m : ℕ) (k : String) (ps : List Project)
    → All (λ q. n ≤ q.mtime) ps
    → Used k m ps
    → named k ps ≡ true
    → n ≤ m
named-le n m k [] h u e = cc
named-le n m k (p ∷ ps) h u e = elim (Bool-cases (p.name == k)) [
  | inl t ↦ omega (arith, h.0, u.0 t)
  | inr f ↦ named-le n m k ps h.1 u.1 (rw f at e)
]

-- In an ascending list, what stands in the first part was used no later than what follows it.
parts_le :
    (a b : String) (m n : ℕ) (vs rest : List Project)
    → Ascending (vs ++ rest)
    → Used a m (vs ++ rest)
    → Used b n (vs ++ rest)
    → named a vs ≡ true
    → named b vs ≡ false
    → named b (vs ++ rest) ≡ true
    → m ≤ n
parts_le a b m n [] rest asc ua ub ha hb h = cc
parts_le a b m n (p ∷ vs) rest asc ua ub ha hb h = elim (Bool-cases (p.name == a)) [
  | inl t ↦
      let first = ua.0 t in
      let le = named-le p.mtime n b (vs ++ rest) asc.0 ub.1 (ground arith) in omega arith
  | inr f ↦ parts_le a b m n vs rest asc.1 ua.1 ub.1 (ground arith) (ground arith) (ground arith)
]

no_stale_name :
    (max_age now : ℕ) (k : String) (m : ℕ) (ps : List Project)
    → Used k m ps
    → now ≤ m + max_age
    → any (λ p. is_stale max_age now p && (p.name == k)) ps ≡ false
unfolding is_stale
no_stale_name max_age now k m [] u h = refl
no_stale_name max_age now k m (p ∷ ps) u h =
    ground (arith, no_stale_name max_age now k m ps u.1 h, u.0)

module _ (settings : Settings) (keep : Option String) (now : ℕ) (cache : Cache)
    (capped : 0 < settings.asset_cache_max_bytes) (distinct : NodupKeys cache) where
  abbrev live_now : List Project
  live_now = (swept settings keep now cache).0

  abbrev total_now : ℕ
  total_now = sum_sizes live_now + kept_size keep (swept settings keep now cache).1

  abbrev stale_now : Project → Bool
  stale_now = is_stale settings.asset_cache_max_age now

  Used-live :
      (k : String) (m : ℕ) (tree : Entries)
      → Dict.lookup k cache ≡ some (project m tree)
      → Used k m (sort live_now)
  Used-live k m tree e = All-sort _ live_now (
      rw live-sweep
        (Used-without stale_now k m (scan keep cache) (Used-scan keep cache k m tree distinct e)))

  -- A project that is not stale goes exactly if it is a victim of the size cap.
  lookup_fresh :
      (k : String) (m : ℕ) (tree : Entries)
      → Dict.lookup k cache ≡ some (project m tree)
      → now ≤ m + settings.asset_cache_max_age
      → Dict.lookup k (prune_root settings keep now cache) ≡ (
          if named k (victims settings.asset_cache_max_bytes total_now (sort live_now))
          then none
          else some (project m tree))
  lookup_fresh k m tree e fresh = rw (
    lookup-prune_root,
    cap_victims_pos settings.asset_cache_max_bytes keep live_now _ capped,
    no_stale_name settings.asset_cache_max_age now k m (scan keep cache)
        (Used-scan keep cache k m tree distinct e) fresh,
    e,
  )

  -- With a size cap and a cache root without repeated names, of two projects that are neither kept
  -- nor stale, one that is evicted was used no later than one that stays.
  pub prune_root_lru :
      (a b : String) (m n : ℕ) (s t : Entries)
      → Dict.lookup a cache ≡ some (project m s)
      → Dict.lookup b cache ≡ some (project n t)
      → is_kept keep a ≡ false
      → is_kept keep b ≡ false
      → now ≤ m + settings.asset_cache_max_age
      → now ≤ n + settings.asset_cache_max_age
      → Dict.lookup a (prune_root settings keep now cache) ≡ none
      → Dict.lookup b (prune_root settings keep now cache) ≢ none
      → m ≤ n
  prune_root_lru a b m n s t ea eb ka kb fa fb gone left =
      parts_le a b m n (victims settings.asset_cache_max_bytes total_now (sort live_now))
        (survivors settings.asset_cache_max_bytes total_now (sort live_now))
        (rw victims-append-survivors (sort-Ascending live_now))
        (rw victims-append-survivors (Used-live a m s ea))
        (rw victims-append-survivors (Used-live b n t eb))
        (let h = lookup_fresh a m s ea fa in ground arith)
        (let h = lookup_fresh b n t eb fb in ground arith)
        (rw (victims-append-survivors, any-sort, any-sweep)
          (named_of_lookup (λ p. not (stale_now p)) keep cache b n t eb kb
            (unfold is_stale in ground arith)))

victims_none :
    (budget total : ℕ) (ps : List Project) → total ≤ budget → victims budget total ps ≡ []
unfolding victims
victims_none budget total [] h = refl
victims_none budget total (p ∷ ps) h =
    let t : leb total budget ≡ true = ground arith in rw (t, victims)

cap_victims_none :
    (cap : ℕ) (keep : Option String) (live : List Project) (cache : Cache)
    → (cap ≡ 0) ⊎ (sum_sizes live + kept_size keep cache ≤ cap)
    → cap_victims cap keep live cache ≡ []
unfolding cap_victims
cap_victims_none zero keep live cache h = refl
cap_victims_none (suc cap) keep live cache (inl e) = absurd (omega arith)
cap_victims_none (suc cap) keep live cache (inr fits) = victims_none (suc cap) _ (sort live) fits

-- In a cache root without repeated names, a project that is not stale is not evicted if there is no
-- cap, or if all that is not stale fits the cap.
pub prune_root_spares :
    (settings : Settings) (keep : Option String) (now : ℕ) (cache : Cache) (k : String) (m : ℕ)
    (tree : Entries)
    → NodupKeys cache
    → Dict.lookup k cache ≡ some (project m tree)
    → now ≤ m + settings.asset_cache_max_age
    → (settings.asset_cache_max_bytes ≡ 0)
      ⊎ (sum_sizes (swept settings keep now cache).0
            + kept_size keep (swept settings keep now cache).1
          ≤ settings.asset_cache_max_bytes)
    → Dict.lookup k (prune_root settings keep now cache) ≡ some (project m tree)
prune_root_spares settings keep now cache k m tree distinct e fresh fits = rw (
  lookup-prune_root,
  cap_victims_none settings.asset_cache_max_bytes keep _ _ fits,
  no_stale_name settings.asset_cache_max_age now k m (scan keep cache)
      (Used-scan keep cache k m tree distinct e) fresh,
  e,
)
