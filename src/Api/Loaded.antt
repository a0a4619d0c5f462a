-- ===== src/Api/Loaded.antt =====
-- The record that `_load` gives is the one in the job store.
use pretext_plus_build_full.Common.{String, ◌==◌, ◌≡◌, ap, Bool-cases, Option-cases, inl, inr}
use pretext_plus_build_full.Common.Dict
use pretext_plus_build_full.Jobs
use pretext_plus_build_full.Jobs.{Record}
use pretext_plus_build_full.Jobs.Laws.{field}
use pretext_plus_build_full.World.{World}
use pretext_plus_build_full.Notify.Callback.{kind_of}
use pretext_plus_build_full.Api.{answered, load_job}

answered-inj : {x y : Record} → answered x ≡ answered y → x ≡ y
answered-inj e = cc

pub field-load_job :
    (job_id kind key : String) (fields : Record) (w : World)
    → load_job w job_id kind ≡ answered fields
    → field w.redis job_id key ≡ Dict.lookup key fields
unfolding load_job
field-load_job job_id kind key fields w e = elim (Option-cases (Jobs.get w.redis job_id)) [
  | inl gone ↦ (let h = rw (load_job, gone) at e in cc)
  | inr (found, known) ↦ elim (Bool-cases (kind_of found == kind)) [
    | inl same ↦
        (let h = rw (load_job, known, same) at e in
          rw (Jobs.get_or_empty, known) (ap (Dict.lookup key) (answered-inj h)))
    | inr other ↦ (let h = rw (load_job, known, other) at e in cc)
  ]
]
