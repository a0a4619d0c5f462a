-- ===== src/Build/Mounts/Present.antt =====
-- What the worker does with the directories of a job that are there, and with the cache.
use pretext_plus_build_full.Common.{
  String, Bool, Option, none, some, ◌≡◌, refl, Bool-cases, Option-cases, inl, inr, eq_refl, ◌==◌,
}
use pretext_plus_build_full.Common.Dict
use pretext_plus_build_full.Common.Dict.{Dict}
use pretext_plus_build_full.Config.{Settings}
use pretext_plus_build_full.Docker.{returned}
use pretext_plus_build_full.Files.{Entries}
use pretext_plus_build_full.AssetCache.Harvest.{touch, tree_of, harvest, mounts}
use pretext_plus_build_full.World.{World, JobDir, Archive, pure}
use pretext_plus_build_full.World.Total.{Returns, Stops, Returns-catch, Stops-bind}
use pretext_plus_build_full.Build.Mounts.{
  job_dir, set_work, set_zip, cache_of, touch_project, harvest_project, mounted, mount_project,
  use_cache, attach_cache,
}

abbrev pub Present : String → World → Type 0
Present job_id w = (d : JobDir) × (Dict.lookup job_id w.jobs ≡ some d)

found_inserted :
    (job_id : String) (d : JobDir) (jobs : Dict JobDir)
    → (d' : JobDir) × (Dict.lookup job_id (Dict.insert job_id d jobs) ≡ some d')
found_inserted job_id d jobs = (d, rw (Dict.lookup-insert, eq_refl) refl)

module _ (job_id : String) where
  pub job_dir_found :
      (w : World) (d : JobDir)
      → Dict.lookup job_id w.jobs ≡ some d
      → job_dir job_id w ≡ (returned d, w)
  unfolding job_dir
  job_dir_found w d e = rw (e, job_dir) refl

  set_work-Present :
      (es : Entries) (w : World) → Present job_id w → Stops (Present job_id) (set_work job_id es w)
  unfolding set_work
  set_work-Present es w (d, e) = rw (e, set_work) (found_inserted job_id _ w.jobs)

  pub set_zip-Present :
      (z : Archive) (w : World)
      → Present job_id w
      → Returns (λ _. Present job_id) (set_zip job_id z w)
  unfolding set_zip
  set_zip-Present z w (d, e) = rw (e, set_zip) (found_inserted job_id _ w.jobs)

  module _ (settings : Settings) (copies : String → Bool) where
    touch-Present :
        (project_id : String) (w : World)
        → Present job_id w
        → Stops (Present job_id) (touch_project settings copies project_id w)
    unfolding touch_project
    touch-Present project_id w present =
        elim (Option-cases (touch settings w.redis.clock project_id (cache_of w))) [
          | inl e ↦ rw (e, touch_project) present
          | inr (cache, e) ↦ rw (e, touch_project) present
        ]

    pub harvest-Present :
        (project_id : String) (w : World)
        → Present job_id w
        → Stops (Present job_id) (harvest_project settings copies job_id project_id w)
    unfolding harvest_project
    harvest-Present project_id w present =
        elim (Option-cases (tree_of (Dict.lookup project_id (cache_of w)))) [
          | inl e ↦ rw (e, harvest_project) present
          | inr (tree, e) ↦
              let (d, found) = present in
              elim (Bool-cases (harvest copies settings project_id tree d.work).raised) [
                | inl t ↦ rw (e, harvest_project, found, t) present
                | inr f ↦ rw (e, harvest_project, found, f) present
              ]
        ]

    mounted-Present :
        (base : Dict String) (mount : Option (Dict String × Entries)) (w : World)
        → Present job_id w
        → Stops (Present job_id) (mounted settings copies job_id base mount w)
    unfolding mounted
    mounted-Present base none w present = present
    mounted-Present base (some (volumes, work)) w present =
        Stops-bind (Present job_id) (set_work job_id work) _ w (set_work-Present work w present)
          (λ _ v present'. present')

    mount-Present :
        (project_id : String) (base : Dict String) (w : World)
        → Present job_id w
        → Stops (Present job_id) (mount_project settings copies job_id project_id base w)
    unfolding mount_project
    mount-Present project_id base w (d, found) =
        Stops-bind (Present job_id) (job_dir job_id) _ w (rw (job_dir_found w d found) (d, found))
          (λ d' v present'. mounted-Present base (mounts settings project_id d'.work) v present')

    use_cache-Present :
        (kind project_id : String) (base : Dict String) (w : World)
        → Present job_id w
        → Stops (Present job_id) (use_cache settings copies job_id kind project_id base w)
    unfolding use_cache
    use_cache-Present kind project_id base w present =
        Stops-bind (Present job_id) (touch_project settings copies project_id) _ w
          (touch-Present project_id w present)
          (λ _ v present'. elim (Bool-cases (kind == "build")) [
            | inr f ↦ rw f present'
            | inl t ↦ rw t (
                Stops-bind (Present job_id) (harvest_project settings copies job_id project_id) _ v
                  (harvest-Present project_id v present')
                  (λ _ u present''. mount-Present project_id base u present''))
          ])

    -- Whatever becomes of the cache, the container gets its volumes.
    pub attach_cache-Present :
        (kind : String) (project_id : Option String) (base : Dict String) (w : World)
        → Present job_id w
        → Returns (λ _. Present job_id) (attach_cache settings copies job_id kind project_id base w)
    unfolding attach_cache
    attach_cache-Present kind none base w present = present
    attach_cache-Present kind (some project_id) base w present =
        Returns-catch (Present job_id) (use_cache settings copies job_id kind project_id base)
          (λ e. pure base) w (use_cache-Present kind project_id base w present)
          (λ e v present'. present')
