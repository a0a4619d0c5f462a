-- ===== src/AssetCache/Prune/Left.antt =====
-- What a scan of the cache root finds after `prune`.
use pretext_plus_build_full.Common.{
  ℕ, zero, suc, String, Bool, false, Option, List, [], ◌∷◌, leb, if◌then◌else◌, ◌==◌, ◌-◌, ◌&&◌,
  ◌||◌, ◌≡◌, refl, arith, eq_iff, any, Bool-cases, inl, inr, ap, ◌∙◌,
}
use mathlib.Core.Path.{fun_ext}
use pretext_plus_build_full.Common.Dict
use pretext_plus_build_full.Config.{Settings}
use pretext_plus_build_full.AssetCache.{
  project, stray, Cache, Project, size, scan, is_stale, sweep, sort, evict, shrink, prune_root,
}
use pretext_plus_build_full.AssetCache.Prune.{victims, named, cap_victims, swept}

-- The projects for which the test fails.
abbrev pub without : (Project → Bool) → List Project → List Project
without f [] = []
without f (p ∷ ps) = let rest = without f ps in if f p then rest else p ∷ rest

without-without :
    (f g : Project → Bool) (ps : List Project)
    → without f (without g ps) ≡ without (λ p. g p || f p) ps
without-without f g [] = refl
without-without f g (p ∷ ps) = ground (arith, without-without f g ps)

without_none : (ps : List Project) → without (λ p. false) ps ≡ ps
without_none [] = refl
without_none (p ∷ ps) = ap (◌∷◌ p) (without_none ps)

scan-remove :
    (keep : Option String) (n : String) (cache : Cache)
    → scan keep (Dict.remove n cache) ≡ without (λ p. n == p.name) (scan keep cache)
unfolding scan Dict.remove
scan-remove keep n [] = refl
scan-remove keep n ((name, stray) ∷ cache) = ground (arith, scan-remove keep n cache)
scan-remove keep n ((name, project m t) ∷ cache) =
    ground (arith, scan-remove keep n cache, eq_iff name n, eq_iff n name)

scan-evict :
    (keep : Option String) (budget total : ℕ) (ps : List Project) (cache : Cache)
    → scan keep (evict budget total ps cache)
      ≡ without (λ p. named p.name (victims budget total ps)) (scan keep cache)
unfolding evict victims
scan-evict keep budget total [] cache = rw without_none
scan-evict keep budget total (p ∷ ps) cache = elim (Bool-cases (leb total budget)) [
  | inl t ↦ rw (t, evict, victims) (rw without_none)
  | inr f ↦
      rw (f, evict, victims)
        (scan-evict keep budget (total - size p) ps (Dict.remove p.name cache)
          ∙ rw (scan-remove, without-without))
]

abbrev pub stale_name : ℕ → ℕ → List Project → Project → Bool
stale_name max_age now ps p = any (λ q. is_stale max_age now q && (q.name == p.name)) ps

scan-sweep :
    (keep : Option String) (max_age now : ℕ) (ps : List Project) (cache : Cache)
    → scan keep (sweep max_age now ps cache).1
      ≡ without (stale_name max_age now ps) (scan keep cache)
unfolding sweep
scan-sweep keep max_age now [] cache = rw without_none
scan-sweep keep max_age now (p ∷ ps) cache = elim (Bool-cases (is_stale max_age now p)) [
  | inl t ↦
      rw (t, sweep)
        (scan-sweep keep max_age now ps (Dict.remove p.name cache)
          ∙ rw (scan-remove, without-without)
              (ap (λ g. without g (scan keep cache)) (fun_ext (λ q. rw t))))
  | inr f ↦
      rw (f, sweep)
        (scan-sweep keep max_age now ps cache
          ∙ ap (λ g. without g (scan keep cache)) (fun_ext (λ q. rw f)))
]

pub live-sweep :
    (max_age now : ℕ) (ps : List Project) (cache : Cache)
    → (sweep max_age now ps cache).0 ≡ without (is_stale max_age now) ps
unfolding sweep
live-sweep max_age now [] cache = refl
live-sweep max_age now (p ∷ ps) cache = elim (Bool-cases (is_stale max_age now p)) [
  | inl t ↦ rw (t, sweep) (live-sweep max_age now ps (Dict.remove p.name cache))
  | inr f ↦ rw (f, sweep) (ap (◌∷◌ p) (live-sweep max_age now ps cache))
]

scan-shrink :
    (cap : ℕ) (keep : Option String) (live : List Project) (cache : Cache)
    → scan keep (shrink cap keep live cache)
      ≡ without (λ p. named p.name (cap_victims cap keep live cache)) (scan keep cache)
unfolding shrink cap_victims
scan-shrink zero keep live cache = rw without_none
scan-shrink (suc cap) keep live cache = scan-evict keep (suc cap) _ (sort live) cache

-- What `prune` leaves: the projects whose name is neither a stale one's nor a victim's.
pub scan-prune_root :
    (settings : Settings) (keep : Option String) (now : ℕ) (cache : Cache)
    → let (live, rest) = swept settings keep now cache in
      scan keep (prune_root settings keep now cache)
      ≡ without
          (λ p.
            stale_name settings.asset_cache_max_age now (scan keep cache) p
            || named p.name (cap_victims settings.asset_cache_max_bytes keep live rest))
          (scan keep cache)
unfolding prune_root
scan-prune_root settings keep now cache =
    scan-shrink settings.asset_cache_max_bytes keep _ _ ∙ rw (scan-sweep, without-without)
