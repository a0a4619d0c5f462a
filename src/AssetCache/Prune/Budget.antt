-- ===== src/AssetCache/Prune/Budget.antt =====
-- What `prune` leaves, in bytes.
use pretext_plus_build_full.Common.{
  ℕ, zero, suc, String, Option, none, some, List, [], ◌++◌, ◌==◌, ◌+◌, ◌≤◌, ◌<◌, ◌≡◌, refl, arith,
  inl, inr, ◌⊎◌, sym, ◌∙◌, not,
}
use mathlib.Core.List.{append-nil}
use pretext_plus_build_full.Config.{Settings}
use pretext_plus_build_full.AssetCache.{
  Cache, Project, size, scan, is_stale, sort, sum_sizes, kept_size, prune_root,
}
use pretext_plus_build_full.AssetCache.Prune.{
  victims, survivors, victims-append-survivors, cap_victims, swept, any-sort, any-sweep,
  prune_root_keeps, lookup-swept,
}
use pretext_plus_build_full.AssetCache.Prune.Left.{without, live-sweep, scan-prune_root}
use pretext_plus_build_full.AssetCache.Prune.Sums.{
  sum_by, sum_by-sort, sum_by-append, sum_by-size, spared, sum_by-spared-le, sum_by-spared_self,
  All-mono, found_by_name, named_self, sum_without_le, victims_fit, without-All,
}

pub cap_victims_pos :
    (cap : ℕ) (keep : Option String) (live : List Project) (cache : Cache)
    → 0 < cap
    → cap_victims cap keep live cache
      ≡ victims cap (sum_sizes live + kept_size keep cache) (sort live)
unfolding cap_victims
cap_victims_pos zero keep live cache h = absurd (omega arith)
cap_victims_pos (suc cap) keep live cache h = refl

module _ (settings : Settings) (keep : Option String) (now : ℕ) (cache : Cache) where
  abbrev live_now : List Project
  live_now = (swept settings keep now cache).0

  abbrev swept_now : Cache
  swept_now = (swept settings keep now cache).1

  -- What is left, in size, is at most what the survivors of the size cap hold.
  left_le :
      (vs rest : List Project)
      → cap_victims settings.asset_cache_max_bytes keep live_now swept_now ≡ vs
      → vs ++ rest ≡ sort live_now
      → sum_sizes (scan keep (prune_root settings keep now cache)) ≤ sum_sizes rest
  left_le vs rest ev e =
      let stale = is_stale settings.asset_cache_max_age now in
      let known = found_by_name stale (scan keep cache) in
      let h1 = sum_without_le settings now (scan keep cache) vs (scan keep cache) known in
      let h2 : sum_by (spared vs) (without stale (scan keep cache))
          ≡ sum_by (spared vs) (vs ++ rest) =
        rw (e, sum_by-sort, live-sweep) in
      let h3 = sum_by-append (spared vs) vs rest in
      let h4 = sum_by-spared_self vs vs (named_self vs) in
      let h5 = sum_by-spared-le vs rest in rw (scan-prune_root, ev) (omega arith)

  none_left :
      cap_victims settings.asset_cache_max_bytes keep live_now swept_now ≡ sort live_now
      → scan keep (prune_root settings keep now cache) ≡ []
  none_left e =
      let stale = is_stale settings.asset_cache_max_age now in
      rw (scan-prune_root, e)
        (without-All stale _ _ (scan keep cache) (found_by_name stale (scan keep cache)) (
          All-mono (scan keep cache)
            (λ p k h.
              any-sort (λ q. q.name == p.name) live_now
              ∙ any-sweep (λ q. q.name == p.name) settings.asset_cache_max_age now (scan keep cache)
                  cache
              ∙ k h)
            (found_by_name (λ q. not (stale q)) (scan keep cache))))

kept_size_same :
    (settings : Settings) (keep : Option String) (now : ℕ) (cache : Cache)
    → kept_size keep (prune_root settings keep now cache)
      ≡ kept_size keep (swept settings keep now cache).1
unfolding kept_size
kept_size_same settings none now cache = refl
kept_size_same settings (some k) now cache = rw (prune_root_keeps, lookup-swept)

-- After `prune`, with a size cap, the caches on the host, the kept project's too, hold at most
-- that many bytes together, or no project but the kept one is left.
pub prune_root_fits :
    (settings : Settings) (keep : Option String) (now : ℕ) (cache : Cache)
    → 0 < settings.asset_cache_max_bytes
    → let pruned = prune_root settings keep now cache in
      (sum_sizes (scan keep pruned) + kept_size keep pruned ≤ settings.asset_cache_max_bytes)
      ⊎ (scan keep pruned ≡ [])
prune_root_fits settings keep now cache capped =
    let live = (swept settings keep now cache).0 in
    let rest = (swept settings keep now cache).1 in
    let cap = settings.asset_cache_max_bytes in
    let total = sum_sizes live + kept_size keep rest in
    let chosen = cap_victims_pos cap keep live rest capped in
    let same = kept_size_same settings keep now cache in
    let sums : sum_sizes live ≡ sum_sizes (sort live) =
      rw (← sum_by-size (sort live), ← sum_by-size live) (sym (sum_by-sort size live)) in
    let all = victims-append-survivors cap total (sort live) in
    elim (victims_fit cap total (kept_size keep rest) (sort live) (omega arith)) [
      | inl fits ↦ inl (
          omega
            (arith, left_le settings keep now cache _ (survivors cap total (sort live)) chosen all))
      | inr gone ↦ inr (
          none_left settings keep now cache
            (chosen ∙ sym (append-nil (victims cap total (sort live))) ∙ (rw gone at all)))
    ]
