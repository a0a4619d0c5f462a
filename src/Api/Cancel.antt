-- ===== src/Api/Cancel.antt =====
-- What a cancel request does to a job.
use pretext_plus_build_full.Common.{
  String, Bool, true, false, Option, some, List, [], ◌∷◌, ◌==◌, ◌≡◌, ◌⊎◌, inl, inr, refl, ap, ◌∙◌,
  Bool-cases, eq_refl,
}
use pretext_plus_build_full.Common.Dict
use pretext_plus_build_full.Common.Text.{is_truthy}
use pretext_plus_build_full.Config.{Settings}
use pretext_plus_build_full.Docker.{Daemon}
use pretext_plus_build_full.Jobs
use pretext_plus_build_full.Jobs.{Record, Redis, word, now, strs, str}
use pretext_plus_build_full.Jobs.Laws.{field, field-update}
use pretext_plus_build_full.World.{World}
use pretext_plus_build_full.Build.{Sandbox}
use pretext_plus_build_full.Build.Wait.{cancel_requested}
use pretext_plus_build_full.Build.Sandboxed.{run_sandboxed}
use pretext_plus_build_full.Build.Sandboxed.Settled.{status_of}
use pretext_plus_build_full.Build.Sandboxed.Unstarted.{run_sandboxed_unstarted}
use pretext_plus_build_full.Api.{
  answered, shown, is_finished, load_job, Queue, cancel_unfinished, cancel_job,
}

module _ (queue : Queue) (job_id : String)
    (keeps : (i : String) (w : World) → (queue.cancel i w).1.redis ≡ w.redis) where
  -- The flag is set, and the status is "cancelled" if that is the answer, and as it was if not.
  abbrev pub Flagged : World → String × World → Type 0
  Flagged w (answer, w') =
      (field w'.redis job_id "cancel_requested" ≡ some "1")
      × (((answer ≡ "cancelled") × (status_of job_id w' ≡ some "cancelled"))
          ⊎ ((answer ≡ "cancel_requested") × (status_of job_id w' ≡ status_of job_id w)))

  flag_set :
      (r : Redis)
      → field (Jobs.update r job_id (("cancel_requested", word "1") ∷ [])) job_id "cancel_requested"
        ≡ some "1"
  unfolding strs str
  flag_set r = rw (field-update, eq_refl) refl

  flag_keeps :
      (r : Redis)
      → field (Jobs.update r job_id (("cancel_requested", word "1") ∷ [])) job_id "status"
        ≡ field r job_id "status"
  unfolding strs
  flag_keeps r = rw (field-update, eq_refl) refl

  taken :
      (r : Redis) (at_ : String)
      → field
          (Jobs.update r job_id (("status", word "cancelled") ∷ ("finished_at", word at_) ∷ []))
          job_id
          "status"
        ≡ some "cancelled"
  unfolding strs str
  taken r at_ = rw (field-update, eq_refl) refl

  cancel_unfinished-Flagged :
      (status : Option String) (w : World) → Flagged w (cancel_unfinished queue job_id status w)
  unfolding cancel_unfinished strs str
  cancel_unfinished-Flagged status w =
      let flagged : World = record w {
        redis = Jobs.update w.redis job_id (("cancel_requested", word "1") ∷ []);
      } in
      elim (Bool-cases (shown status == "queued")) [
        | inr other ↦ rw other (flag_set w.redis, inr (refl, flag_keeps w.redis))
        | inl queued ↦ elim (Bool-cases ((queue.cancel job_id flagged).0)) [
          | inr late ↦ rw (queued, late, keeps) (flag_set w.redis, inr (refl, flag_keeps w.redis))
          | inl removed ↦
              rw (queued, removed, field-update, eq_refl, keeps)
                (flag_set w.redis, inl (refl, taken _ _))
        ]
      ]

  flag_seen :
      (w : World)
      → field w.redis job_id "cancel_requested" ≡ some "1"
      → cancel_requested job_id w ≡ true
  unfolding cancel_requested
  flag_seen w e = rw (cancel_requested, e) refl

  module _ (kind : String) (fields : Record) (w : World)
      (loaded : load_job w job_id kind ≡ answered fields)
      (going : is_finished (Dict.lookup "status" fields) ≡ false) where
    abbrev outcome : String × World
    outcome = cancel_unfinished queue job_id (Dict.lookup "status" fields) w

    cancel_job_going : cancel_job queue job_id kind w ≡ (answered outcome.0, outcome.1)
    unfolding cancel_job
    cancel_job_going = rw (cancel_job, loaded, going) refl

    -- A cancel request for a job of its kind that is not finished sets the flag that the worker
    -- looks at, provided that RQ leaves the job store alone. The answer is "cancelled", and then the
    -- status is, or "cancel_requested", and then the status is as it was.
    pub cancel_job_flags :
        (answer : String) × (w' : World) × (cancel_job queue job_id kind w ≡ (answered answer, w'))
        × (cancel_requested job_id w' ≡ true)
        × (((answer ≡ "cancelled") × (status_of job_id w' ≡ some "cancelled"))
            ⊎ ((answer ≡ "cancel_requested") × (status_of job_id w' ≡ status_of job_id w)))
    cancel_job_flags =
        let (flag, status) = cancel_unfinished-Flagged (Dict.lookup "status" fields) w in
        (outcome.0, outcome.1, cancel_job_going, flag_seen outcome.1 flag, status)

    -- Where a job of its kind that is not finished has been cancelled, RQ leaving the job store
    -- alone, a worker that starts on it with HOST_DATA_DIR set ends it without Docker: any two
    -- daemons give the same outcome and the same world, and the status is "cancelled".
    pub cancel_job_before_start :
        (settings : Settings) (copies : String → Bool) (dump_names : List String → String)
        (job : String) (sandbox : Sandbox) (list_files : Bool) (daemon other : Daemon World)
        (command : String)
        → is_truthy settings.host_data_dir ≡ true
        → let w' = (cancel_job queue job_id kind w).1 in
          (run_sandboxed settings daemon copies dump_names job_id job sandbox list_files command w'
            ≡ run_sandboxed settings other copies dump_names job_id job sandbox list_files command
                w')
          × (status_of job_id (
                (run_sandboxed settings daemon copies dump_names job_id job sandbox list_files
                  command w').1)
              ≡ some "cancelled")
    cancel_job_before_start settings copies dump_names job sandbox list_files daemon other command
          host =
        let w' = (cancel_job queue job_id kind w).1 in
        let (flag, status) = cancel_unfinished-Flagged (Dict.lookup "status" fields) w in
        let seen : cancel_requested job_id w' ≡ true =
          ap (λ r. cancel_requested job_id r.1) cancel_job_going ∙ flag_seen outcome.1 flag in
        let (same, ended) =
          run_sandboxed_unstarted settings copies dump_names job_id job sandbox list_files daemon
            other command w' (rw (host, seen) refl) in
        (same, rw host at ended)
