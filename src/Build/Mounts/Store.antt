-- ===== src/Build/Mounts/Store.antt =====
-- What the worker does with directories and the cache leaves the job store as it is.
use pretext_plus_build_full.Common.{
  String, Option, none, some, ◌≡◌, Bool, Bool-cases, Option-cases, inl, inr, ◌==◌,
}
use pretext_plus_build_full.Common.Dict
use pretext_plus_build_full.Common.Dict.{Dict}
use pretext_plus_build_full.Config.{Settings}
use pretext_plus_build_full.Files.{Entries}
use pretext_plus_build_full.Jobs.{Redis}
use pretext_plus_build_full.AssetCache.Harvest.{touch, tree_of, harvest}
use pretext_plus_build_full.World.{World, Archive, pure}
use pretext_plus_build_full.World.Final.{Final-bind, Final-catch}
use pretext_plus_build_full.Build.Mounts.{
  job_dir, set_work, set_zip, cache_of, touch_project, harvest_project, mounted, mount_project,
  use_cache, attach_cache,
}

-- The job store is this one.
abbrev pub Holds : Redis → World → Type 0
Holds r w = w.redis ≡ r

module _ (r : Redis) (job_id : String) where
  pub job_dir-Holds : (w : World) → Holds r w → Holds r (job_dir job_id w).1
  unfolding job_dir
  job_dir-Holds w h = elim (Option-cases (Dict.lookup job_id w.jobs)) [
    | inl gone ↦ rw (job_dir, gone) h
    | inr (d, found) ↦ rw (job_dir, found) h
  ]

  set_work-Holds : (es : Entries) (w : World) → Holds r w → Holds r (set_work job_id es w).1
  unfolding set_work
  set_work-Holds es w h = elim (Option-cases (Dict.lookup job_id w.jobs)) [
    | inl gone ↦ rw (set_work, gone) h
    | inr (d, found) ↦ rw (set_work, found) h
  ]

  pub set_zip-Holds : (z : Archive) (w : World) → Holds r w → Holds r (set_zip job_id z w).1
  unfolding set_zip
  set_zip-Holds z w h = elim (Option-cases (Dict.lookup job_id w.jobs)) [
    | inl gone ↦ rw (set_zip, gone) h
    | inr (d, found) ↦ rw (set_zip, found) h
  ]

  module _ (settings : Settings) (copies : String → Bool) where
    touch-Holds :
        (project_id : String) (w : World)
        → Holds r w
        → Holds r (touch_project settings copies project_id w).1
    unfolding touch_project
    touch-Holds project_id w h =
        elim (Option-cases (touch settings w.redis.clock project_id (cache_of w))) [
          | inl e ↦ rw (touch_project, e) h
          | inr (cache, e) ↦ rw (touch_project, e) h
        ]

    pub harvest-Holds :
        (project_id : String) (w : World)
        → Holds r w
        → Holds r (harvest_project settings copies job_id project_id w).1
    unfolding harvest_project
    harvest-Holds project_id w h =
        elim (Option-cases (tree_of (Dict.lookup project_id (cache_of w)))) [
          | inl e ↦ rw (harvest_project, e) h
          | inr (tree, e) ↦ elim (Option-cases (Dict.lookup job_id w.jobs)) [
            | inl gone ↦ rw (harvest_project, e, gone) h
            | inr (d, found) ↦
                elim (Bool-cases (harvest copies settings project_id tree d.work).raised) [
                  | inl t ↦ rw (harvest_project, e, found, t) h
                  | inr f ↦ rw (harvest_project, e, found, f) h
                ]
          ]
        ]

    mounted-Holds :
        (base : Dict String) (mount : Option (Dict String × Entries)) (w : World)
        → Holds r w
        → Holds r (mounted settings copies job_id base mount w).1
    unfolding mounted
    mounted-Holds base none w h = h
    mounted-Holds base (some (volumes, work)) w h =
        Final-bind (Holds r) (set_work job_id work) _ w (set_work-Holds work w h) (λ _ v k. k)

    mount-Holds :
        (project_id : String) (base : Dict String) (w : World)
        → Holds r w
        → Holds r (mount_project settings copies job_id project_id base w).1
    unfolding mount_project
    mount-Holds project_id base w h =
        Final-bind (Holds r) (job_dir job_id) _ w (job_dir-Holds w h)
          (λ d v k. mounted-Holds base _ v k)

    use_cache-Holds :
        (kind project_id : String) (base : Dict String) (w : World)
        → Holds r w
        → Holds r (use_cache settings copies job_id kind project_id base w).1
    unfolding use_cache
    use_cache-Holds kind project_id base w h =
        Final-bind (Holds r) (touch_project settings copies project_id) _ w
          (touch-Holds project_id w h)
          (λ _ v k. elim (Bool-cases (kind == "build")) [
            | inr other ↦ rw other k
            | inl build ↦ rw build (
                Final-bind (Holds r) (harvest_project settings copies job_id project_id) _ v
                  (harvest-Holds project_id v k) (λ _ u l. mount-Holds project_id base u l))
          ])

    pub attach_cache-Holds :
        (kind : String) (project_id : Option String) (base : Dict String) (w : World)
        → Holds r w
        → Holds r (attach_cache settings copies job_id kind project_id base w).1
    unfolding attach_cache
    attach_cache-Holds kind none base w h = h
    attach_cache-Holds kind (some project_id) base w h =
        Final-catch (Holds r) (use_cache settings copies job_id kind project_id base)
          (λ e. pure base) w (use_cache-Holds kind project_id base w h) (λ e v k. k)
