-- ===== src/AssetCache.antt =====
-- src/asset_cache.py: the per-project cache of generated assets. The cache root on the host holds
-- one directory per project, whose modification time is its last use, and perhaps other things.
pub mod Names
pub mod Prune
pub mod Harvest
use pretext_plus_build_full.Common.{
  ℕ, zero, suc, String, Bool, true, false, Option, none, some, List, [], ◌∷◌, ltb, leb,
  if◌then◌else◌, ◌==◌, ◌+◌, ◌-◌, ◌&&◌, ◌||◌, eqb,
}
use pretext_plus_build_full.Common.Dict
use pretext_plus_build_full.Common.Dict.{Dict}
use pretext_plus_build_full.Common.Text.{is_truthy}
use Prim.Native.String.{compare}
use text.Mathlib.Text.{is_le}
use pretext_plus_build_full.Config.{Settings}
use pretext_plus_build_full.Files.{Entries}
use pretext_plus_build_full.Files.Walk.{dir_size}

-- An entry of the cache root: a directory with its last use, or something that is no directory.
pub data Item : Type 0 where
  project : ℕ → Entries → Item
  stray : Item

abbrev pub Cache : Type 0
Cache = Dict Item

-- What `prune` remembers of a project; the path that Python keeps beside the name orders as it.
pub record Project : Type 0 where
  pub mtime : ℕ
  pub name : String
  pub tree : Entries

unfoldable pub size : Project → ℕ
unfolding dir_size
size p = dir_size p.tree

-- `entry.name == keep_project_id`, where `None` equals no name
unfoldable pub is_kept : Option String → String → Bool
is_kept none name = false
is_kept (some keep) name = name == keep

-- The loop over `os.scandir(root)`.
unfoldable pub scan : Option String → Cache → List Project
unfolding is_kept
scan keep [] = []
scan keep ((name, stray) ∷ cache) = scan keep cache
scan keep ((name, project mtime tree) ∷ cache) =
    let rest = scan keep cache in
    if is_kept keep name then rest else record { mtime = mtime; name = name; tree = tree } ∷ rest

-- `now - mtime > max_age`
unfoldable pub is_stale : ℕ → ℕ → Project → Bool
is_stale max_age now p = ltb (p.mtime + max_age) now

-- The loop that evicts what is stale and fills `live`.
unfoldable pub sweep : ℕ → ℕ → List Project → Cache → List Project × Cache
sweep max_age now [] cache = ([], cache)
sweep max_age now (p ∷ ps) cache = elim (is_stale max_age now p) [
  | true ↦ sweep max_age now ps (Dict.remove p.name cache)
  | false ↦ let (live, swept) = sweep max_age now ps cache in (p ∷ live, swept)
]

-- `sorted(live)`: by last use, then by path.
unfoldable pub before : Project → Project → Bool
before p q = ltb p.mtime q.mtime || (eqb p.mtime q.mtime && is_le (compare p.name q.name))

unfoldable pub insert : Project → List Project → List Project
unfolding before
insert p [] = p ∷ []
insert p (q ∷ qs) = if before p q then p ∷ q ∷ qs else q ∷ insert p qs

unfoldable pub sort : List Project → List Project
unfolding insert
sort [] = []
sort (p ∷ ps) = insert p (sort ps)

-- The loop that evicts, oldest first, until the total is within the budget.
unfoldable pub evict : ℕ → ℕ → List Project → Cache → Cache
evict budget total [] cache = cache
evict budget total (p ∷ ps) cache = elim (leb total budget) [
  | true ↦ cache
  | false ↦ evict budget (total - size p) ps (Dict.remove p.name cache)
]

unfoldable pub sum_sizes : List Project → ℕ
unfolding size
sum_sizes [] = 0
sum_sizes (p ∷ ps) = size p + sum_sizes ps

item_size : Option Item → ℕ
unfolding dir_size
item_size none = 0
item_size (some stray) = 0
item_size (some (project mtime tree)) = dir_size tree

-- What the kept project adds to the total.
unfoldable pub kept_size : Option String → Cache → ℕ
unfolding item_size Dict.lookup
kept_size none cache = 0
kept_size (some keep) cache = if is_truthy keep then item_size (Dict.lookup keep cache) else 0

-- The part of `prune` after the first sweep.
unfoldable pub shrink : ℕ → Option String → List Project → Cache → Cache
unfolding kept_size sum_sizes sort evict
shrink zero keep live cache = cache
shrink (suc cap) keep live cache =
    evict (suc cap) (sum_sizes live + kept_size keep cache) (sort live) cache

-- `prune` of a cache root that is there. Removing a tree succeeds.
unfoldable pub prune_root : Settings → Option String → ℕ → Cache → Cache
unfolding scan sweep shrink
prune_root settings keep now cache =
    let (live, swept) = sweep settings.asset_cache_max_age now (scan keep cache) cache in
    shrink settings.asset_cache_max_bytes keep live swept

-- `prune`, where `none` is a cache root that is no directory.
unfoldable pub prune : Settings → Option String → ℕ → Option Cache → Option Cache
unfolding prune_root
prune settings keep now none = none
prune settings keep now (some cache) = some (prune_root settings keep now cache)
