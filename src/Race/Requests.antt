-- ===== src/Race/Requests.antt =====
-- `_cancel` of src/api.py, run alone, as steps of the race.
use pretext_plus_build_full.Common.{
  String, Bool, true, false, Option, List, [], ◌∷◌, ◌==◌, ◌≡◌, refl, sym, Bool-cases, inl, inr,
}
use pretext_plus_build_full.Jobs
use pretext_plus_build_full.Jobs.{Redis, Record, word, now}
use pretext_plus_build_full.World.{World}
use pretext_plus_build_full.Api.{
  Answer, answered, http_error, shown, is_finished, load_job, Queue, cancel_unfinished, cancel_job,
}
use pretext_plus_build_full.Api.Loaded.{field-load_job}
use pretext_plus_build_full.Race.{
  Caller, idle, loaded, flagged, refused, requested, cancelled, Worker, System, system, flag_fields,
  status, load, refuse, set_flag, pass_by, take_out, miss, close, by_caller, Run, here, next,
}

-- The answer of a request that has come to its end.
abbrev pub Tells : Caller → Answer String → Type 0
Tells refused answer = (detail : String) × (answer ≡ http_error 409 detail)
Tells requested answer = answer ≡ answered "cancel_requested"
Tells cancelled answer = answer ≡ answered "cancelled"
Tells c answer = ⊥

module _ (job_id : String) (q : Bool) (worker : Worker) (w : World) where
  -- From the store of `w` on, the request has gone by its own steps to this answer and store.
  abbrev pub Reached : Answer String × World → Type 0
  Reached (answer, w') =
      (c : Caller) × (q' : Bool) × (path : List System) × Run job_id (system w.redis q idle worker)
        path (system w'.redis q' c worker)
      × Tells c answer

  refuses :
      (detail : String)
      → is_finished (status job_id w.redis) ≡ true
      → Reached (http_error 409 detail, w)
  refuses detail done =
      (refused, q, _, next here (by_caller (refuse w.redis q worker done)), (detail, refl))

  module _ (queue : Queue) (keeps : (i : String) (v : World) → (queue.cancel i v).1.redis ≡ v.redis)
      (going : is_finished (status job_id w.redis) ≡ false) where
    abbrev before : Option String
    before = status job_id w.redis

    abbrev set : World
    set = record w { redis = Jobs.update w.redis job_id flag_fields }

    abbrev path : List System
    path = system w.redis q (loaded before) worker ∷ system w.redis q idle worker ∷ []

    sets :
        Run job_id (system w.redis q idle worker) path (system set.redis q (flagged before) worker)
    sets =
        next (next here (by_caller (load w.redis q worker going)))
          (by_caller (set_flag w.redis q before worker))

    unfinished :
        (let (answer, w') = cancel_unfinished queue job_id before w in
          Reached (answered answer, w'))
    unfolding cancel_unfinished
    unfinished = elim (Bool-cases (shown before == "queued")) [
      | inr other ↦
          rw other
            (requested, q, _, next sets (by_caller (pass_by set.redis q before worker other)), refl)
      | inl queued ↦ elim (Bool-cases ((queue.cancel job_id set).0)) [
        | inr late ↦
            rw (queued, late, keeps)
              (requested, q, _, next sets (by_caller (miss set.redis q before worker queued)), refl)
        | inl out ↦
            rw (queued, out, keeps)
              (
                cancelled,
                false,
                _,
                next (next sets (by_caller (take_out set.redis q before worker queued)))
                    (by_caller (close set.redis false worker)),
                refl,
              )
      ]
    ]

-- A cancel request for a job of its kind, RQ leaving the job store alone, does to the store what
-- some steps of the request in the race do, from any state of the task and the worker on; the
-- steps end in the state of its answer: refused with 409, "cancel_requested" or "cancelled".
pub cancel_job_steps :
    (queue : Queue) (keeps : (i : String) (v : World) → (queue.cancel i v).1.redis ≡ v.redis)
    (job_id kind : String) (q : Bool) (worker : Worker) (fields : Record) (w : World)
    → load_job w job_id kind ≡ answered fields
    → Reached job_id q worker w (cancel_job queue job_id kind w)
unfolding cancel_job
cancel_job_steps queue keeps job_id kind q worker fields w known =
    let same = sym (field-load_job job_id kind "status" fields w known) in
    elim (Bool-cases (is_finished (status job_id w.redis))) [
      | inl done ↦ rw (cancel_job, known, same, done) (refuses job_id q worker w _ done)
      | inr going ↦
          rw (cancel_job, known, same, going) (unfinished job_id q worker w queue keeps going)
    ]
