-- ===== src/Api/Isolation.antt =====
-- What the addresses of one kind of job tell of the other kind.
use pretext_plus_build_full.Common.{
  String, some, ◌==◌, ◌≡◌, ◌≢◌, refl, Bool-cases, Option-cases, inl, inr, eq_iff,
}
use pretext_plus_build_full.Jobs
use pretext_plus_build_full.Jobs.{Record}
use pretext_plus_build_full.World.{World}
use pretext_plus_build_full.Notify.Callback.{kind_of}
use pretext_plus_build_full.Api.{http_error, load_job, log_of, artifact, Queue, cancel_job}

load_job_foreign :
    (w : World) (job_id kind : String)
    → ((fields : Record) → Jobs.get w.redis job_id ≡ some fields → kind_of fields ≢ kind)
    → load_job w job_id kind ≡ http_error 404 "Unknown job"
unfolding load_job
load_job_foreign w job_id kind foreign = elim (Option-cases (Jobs.get w.redis job_id)) [
  | inl gone ↦ rw (load_job, gone) refl
  | inr (fields, found) ↦ elim (Bool-cases (kind_of fields == kind)) [
    | inl same ↦ absurd (foreign fields found ((eq_iff (kind_of fields) kind).0 same))
    | inr other ↦ rw (load_job, found, other) refl
  ]
]

-- A job that is not there and a job of the other kind look the same: the log, the artifact and the
-- cancellation answer 404 with one text, and the cancellation changes nothing.
pub foreign_job_unknown :
    (queue : Queue) (w : World) (job_id kind : String)
    → ((fields : Record) → Jobs.get w.redis job_id ≡ some fields → kind_of fields ≢ kind)
    → (log_of w job_id kind ≡ http_error 404 "Unknown job")
      × (artifact w job_id kind ≡ http_error 404 "Unknown job")
      × (cancel_job queue job_id kind w ≡ (http_error 404 "Unknown job", w))
unfolding log_of artifact cancel_job
foreign_job_unknown queue w job_id kind foreign =
    let unknown = load_job_foreign w job_id kind foreign in
    (rw (log_of, unknown) refl, rw (artifact, unknown) refl, rw (cancel_job, unknown) refl)
