-- ===== src/Tests/Assets.antt =====
-- The asset cache, on concrete input.
use pretext_plus_build_full.Common.{
  ℕ, String, true, none, some, List, [], ◌∷◌, ◌≡◌, ◌⊎◌, ◌↔◌, ◌≤◌, ◌+◌, refl, arith, inr,
}
use pretext_plus_build_full.Common.Dict
use pretext_plus_build_full.Common.Text.{codes, is_alnum, up_to}
use pretext_plus_build_full.Files.{is_dir, Entries, file, dir, entry, end, lookup}
use pretext_plus_build_full.Files.Walk.{dir_size, sizes, walk, visit, plain, lstat_size}
use pretext_plus_build_full.AssetCache.{
  Cache, project, prune_root, scan, sweep, is_stale, shrink, sort, insert, before, evict, size,
  sum_sizes, kept_size, is_kept,
}
use pretext_plus_build_full.AssetCache.Prune.{prune_root_keeps, prune_root_stale}
use pretext_plus_build_full.AssetCache.Prune.Budget.{prune_root_fits}
use pretext_plus_build_full.AssetCache.Prune.Lru.{prune_root_lru, prune_root_spares}
use pretext_plus_build_full.Files.Placing.{file_at}
use pretext_plus_build_full.AssetCache.Harvest.{harvest}
use pretext_plus_build_full.AssetCache.Harvest.Keeps.{harvest_keeps_files}
use pretext_plus_build_full.AssetCache.Harvest.Reported.{Each, IsCachePath, harvest-Each}
use pretext_plus_build_full.AssetCache.Names.{is_word, project_id_match}
use pretext_plus_build_full.AssetCache.Names.Slugs.{
  project_id_match_iff, accepted-is_component, is_slug, is_component, Ends,
}
use pretext_plus_build_full.Tests.Fixtures.{settings, cache}

abbrev four : Entries
four = entry "a" (file (1 ∷ 2 ∷ 3 ∷ 4 ∷ [])) end

abbrev cache_of_one : Cache
cache_of_one = ("new", project 990 four) ∷ []

prune_root_keeps_example :
    Dict.lookup "old" (prune_root settings (some "old") 1000 cache) ≡ Dict.lookup "old" cache
prune_root_keeps_example = prune_root_keeps settings "old" 1000 cache

prune_root_stale_example : Dict.lookup "stale" (prune_root settings (some "new") 1000 cache) ≡ none
unfolding Dict.lookup is_kept
prune_root_stale_example =
    prune_root_stale settings (some "new") 1000 cache "stale" 10 (entry "c" (file (1 ∷ 2 ∷ [])) end)
      refl refl (omega arith)

prune_root_fits_example :
    let pruned = prune_root settings none 1000 cache in
    (sum_sizes (scan none pruned) + kept_size none pruned ≤ 5) ⊎ (scan none pruned ≡ [])
prune_root_fits_example = prune_root_fits settings none 1000 cache (omega arith)

prune_root_lru_example : 900 ≤ 990
unfolding Dict.lookup Dict.remove is_kept prune_root scan sweep is_stale shrink sum_sizes kept_size
    sort insert before evict size dir_size sizes walk visit plain lstat_size is_dir
prune_root_lru_example =
    prune_root_lru settings none 1000 cache (omega arith) (refl, (refl, (refl, tt))) "old" "new" 900
      990 four (entry "b" (file (1 ∷ 2 ∷ 3 ∷ 4 ∷ [])) end) refl refl refl refl (omega arith)
      (omega arith) refl (λ e. cc)

prune_root_spares_example :
    Dict.lookup "new" (prune_root settings (some "new") 1000 cache_of_one) ≡ some (project 990 four)
unfolding Dict.lookup kept_size sum_sizes sweep scan
prune_root_spares_example =
    prune_root_spares settings (some "new") 1000 cache_of_one "new" 990 four (refl, tt) refl
      (omega arith) (inr (omega arith))

project_id_match_iff_example :
    (project_id_match "my-book_2" ≡ true)
    ↔ ((body : List ℕ) × (is_slug body ≡ true) × Ends (codes "my-book_2") body)
project_id_match_iff_example = project_id_match_iff "my-book_2"

accepted-is_component_example : is_component (codes "my-book_2") ≡ true
unfolding project_id_match is_alnum up_to is_word
accepted-is_component_example = accepted-is_component "my-book_2" refl

-- A cache and a job that both have a file of one name, with different contents.
abbrev svg_name : String
svg_name = "0123456789abcdef0123456789abcdef.svg"

abbrev cached_tree : Entries
cached_tree = entry "latex-image" (dir (entry svg_name (file (1 ∷ [])) end)) end

abbrev job_dir : Entries
job_dir =
    entry ".cache" (dir (entry "latex-image" (dir (entry svg_name (file (2 ∷ [])) end)) end)) end

harvest_keeps_files_example :
    file_at
      ("latex-image" ∷ svg_name ∷ [])
      (dir (harvest (λ path. true) settings "book" cached_tree job_dir).tree)
    ≡ some (1 ∷ [])
unfolding file_at lookup
harvest_keeps_files_example =
    harvest_keeps_files (λ path. true) settings "book" cached_tree job_dir
      ("latex-image" ∷ svg_name ∷ []) (1 ∷ []) refl

-- Into an empty cache, the job's file is added.
harvest-Each_example :
    Each
      (IsCachePath ("latex-image" ∷ []))
      (harvest (λ path. true) settings "book" end job_dir).added
harvest-Each_example = harvest-Each (λ path. true) settings "book" end job_dir
