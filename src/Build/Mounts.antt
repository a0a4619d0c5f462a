-- ===== src/Build/Mounts.antt =====
-- How a job meets its directories and its project's cache: the parts of `_run_sandboxed` that call
-- `asset_cache`.
pub mod Present
pub mod Store
use pretext_plus_build_full.Common.{
  ℕ, String, Bool, Option, none, some, List, [], if◌then◌else◌, ◌==◌,
}
use pretext_plus_build_full.Common.Dict
use pretext_plus_build_full.Common.Dict.{Dict}
use pretext_plus_build_full.Common.Text.{is_truthy}
use pretext_plus_build_full.Config.{Settings}
use pretext_plus_build_full.Docker.{os_error, other_error, returned, raised}
use pretext_plus_build_full.Files.{Entries}
use pretext_plus_build_full.Jobs.{Record}
use pretext_plus_build_full.AssetCache.{Cache, Item, project, stray}
use pretext_plus_build_full.AssetCache.Harvest.{touch, mounts, Harvest, harvest, tree_of}
use pretext_plus_build_full.World.{World, JobDir, Archive, Action, pure, raise, ◌>>=◌, ◌>>◌, catch}

-- `data.get("project_id") or None`
unfoldable pub project_of : Record → Option String
unfolding Dict.lookup
project_of fields = elim (Dict.lookup "project_id" fields) [
  | none ↦ none
  | some p ↦ if is_truthy p then some p else none
]

-- The job's directories, or the `FileNotFoundError` of `os.chmod`.
unfoldable pub job_dir : String → Action JobDir
unfolding Dict.lookup
job_dir job_id w = elim (Dict.lookup job_id w.jobs) [
  | none ↦ (raised os_error, w)
  | some d ↦ (returned d, w)
]

unfoldable pub set_work : String → Entries → Action (Unit {0})
unfolding Dict.lookup Dict.insert
set_work job_id work w = elim (Dict.lookup job_id w.jobs) [
  | none ↦ (raised os_error, w)
  | some d ↦ (returned tt, record w { jobs = Dict.insert job_id (record d { work = work }) w.jobs })
]

unfoldable pub set_zip : String → Archive → Action (Unit {0})
unfolding Dict.lookup Dict.insert
set_zip job_id z w = elim (Dict.lookup job_id w.jobs) [
  | none ↦ (raised os_error, w)
  | some d ↦ (
    returned tt,
    record w { jobs = Dict.insert job_id (record d { output_zip = some z }) w.jobs },
  )
]

unfoldable pub cache_of : World → Cache
cache_of w = elim w.cache [ none ↦ [] | some cache ↦ cache ]

-- what a harvest leaves of a cache root: the project's tree, its last use as it was
unfoldable pub replace : ℕ → String → Harvest → Option Item → Cache → Cache
unfolding Dict.insert
replace clock project_id h none cache = Dict.insert project_id (project clock h.tree) cache
replace clock project_id h (some stray) cache = cache
replace clock project_id h (some (project mtime tree)) cache =
    Dict.insert project_id (project mtime h.tree) cache

module _ (settings : Settings) (copies : String → Bool) where
  unfoldable pub touch_project : String → Action (Unit {0})
  unfolding touch cache_of
  touch_project project_id w = elim (touch settings w.redis.clock project_id (cache_of w)) [
    | none ↦ (raised other_error, w)
    | some cache ↦ (returned tt, record w { cache = some cache })
  ]

  -- `asset_cache.harvest(project_id, work_dir)` on the shared state
  unfoldable pub harvest_project : String → String → Action (List String)
  unfolding harvest tree_of replace cache_of job_dir Dict.lookup
  harvest_project job_id project_id w =
      let item = Dict.lookup project_id (cache_of w) in
      elim (tree_of item) [
        | none ↦ (raised os_error, w)
        | some tree ↦ elim (Dict.lookup job_id w.jobs) [
          | none ↦ (returned [], w)
          | some d ↦
              let h = harvest copies settings project_id tree d.work in
              let w' = record w {
                cache = some (replace w.redis.clock project_id h item (cache_of w));
              } in
              if h.raised then (raised os_error, w') else (returned h.added, w')
        ]
      ]

  -- What `mounts` gave goes into the volumes and the project directory.
  unfoldable pub mounted :
      String → Dict String → Option (Dict String × Entries) → Action (Dict String)
  unfolding set_work Dict.update
  mounted job_id base none = raise os_error
  mounted job_id base (some (volumes, work)) = do
    set_work job_id work
    pure (Dict.update base volumes)

  -- `volumes.update(asset_cache.mounts(project_id, work_dir))`
  unfoldable pub mount_project : String → String → Dict String → Action (Dict String)
  unfolding mounts job_dir mounted
  mount_project job_id project_id base = do
    d ← job_dir job_id
    mounted job_id base (mounts settings project_id d.work)

  -- The `try` block: a build has its archive harvested and the cache mounted.
  unfoldable pub use_cache : String → String → String → Dict String → Action (Dict String)
  unfolding touch_project harvest_project mount_project
  use_cache job_id kind project_id base = do
    touch_project project_id
    if kind == "build"
        then (do harvest_project job_id project_id; mount_project job_id project_id base)
        else pure base

  -- The volumes of the container. The cache is an optimization: an exception of its code leaves the
  -- job's own mount alone.
  unfoldable pub attach_cache : String → String → Option String → Dict String → Action (Dict String)
  unfolding use_cache
  attach_cache job_id kind none base = pure base
  attach_cache job_id kind (some project_id) base =
      catch (use_cache job_id kind project_id base) (λ e. pure base)
