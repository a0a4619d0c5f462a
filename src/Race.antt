-- ===== src/Race.antt =====
-- A cancel request and the worker, interleaved: `_cancel` of src/api.py and `_run_sandboxed` of
-- src/build.py cut at each access to the job store and to the queue. RQ may cancel a task, or raise,
-- wherever the task is; a worker takes a task that is in the queue, once.
pub mod Invariant
pub mod Ends
pub mod Flagged
pub mod Requests
pub mod Turns
use pretext_plus_build_full.Common.{
  String, Bool, true, false, Option, none, some, List, [], ◌∷◌, ◌==◌, ◌≡◌, ◌≢◌,
}
use pretext_plus_build_full.Jobs
use pretext_plus_build_full.Jobs.{Redis, Fields, word, now}
use pretext_plus_build_full.Jobs.Laws.{field}
use pretext_plus_build_full.Build.Sandboxed.Settled.{Lacks}
use pretext_plus_build_full.Api.{is_finished, shown}

-- Where the request stands: not begun, with the status that it read, the flag set too, the task
-- taken out of the queue, and its three answers.
pub data Caller : Type 0 where
  idle : Caller
  loaded : Option String → Caller
  flagged : Option String → Caller
  removed : Caller
  refused : Caller
  requested : Caller
  cancelled : Caller

-- Where the worker stands: the task not taken, taken, found not to be cancelled, recorded as
-- running, found to be cancelled, done with, and left by an exception that nothing handles.
pub data Worker : Type 0 where
  waiting : Worker
  taken : Worker
  starting : Worker
  running : Worker
  stopping : Worker
  ended : Worker
  dead : Worker

-- The job store, whether the task is in the queue, and the two processes.
pub data System : Type 0 where
  system : Redis → Bool → Caller → Worker → System

abbrev pub flag_fields : Fields
flag_fields = ("cancel_requested", word "1") ∷ []

module _ (job_id : String) where
  abbrev pub status : Redis → Option String
  status r = field r job_id "status"

  abbrev pub flag : Redis → Option String
  flag r = field r job_id "cancel_requested"

  -- Fields beside the status, none of which is the status or the flag.
  abbrev pub Plain : Fields → Type 0
  Plain more = Lacks "status" more × Lacks "cancel_requested" more

  -- `store.update(job_id, status=..., **more)`
  abbrev pub write_status : Redis → String → Fields → Redis
  write_status r s more = Jobs.update r job_id (("status", word s) ∷ more)

  pub data CallerStep : System → System → Type 0 where
    load :
        (r : Redis) (q : Bool) (w : Worker)
        → is_finished (status r) ≡ false
        → CallerStep (system r q idle w) (system r q (loaded (status r)) w)
    refuse :
        (r : Redis) (q : Bool) (w : Worker)
        → is_finished (status r) ≡ true
        → CallerStep (system r q idle w) (system r q refused w)
    set_flag :
        (r : Redis) (q : Bool) (s : Option String) (w : Worker)
        → CallerStep
            (system r q (loaded s) w)
            (system (Jobs.update r job_id flag_fields) q (flagged s) w)
    pass_by :
        (r : Redis) (q : Bool) (s : Option String) (w : Worker)
        → (shown s == "queued") ≡ false
        → CallerStep (system r q (flagged s) w) (system r q requested w)
    take_out :
        (r : Redis) (q : Bool) (s : Option String) (w : Worker)
        → (shown s == "queued") ≡ true
        → CallerStep (system r q (flagged s) w) (system r false removed w)
    miss :
        (r : Redis) (q : Bool) (s : Option String) (w : Worker)
        → (shown s == "queued") ≡ true
        → CallerStep (system r q (flagged s) w) (system r q requested w)
    close :
        (r : Redis) (q : Bool) (w : Worker)
        → CallerStep
            (system r q removed w)
            (system (write_status r "cancelled" (("finished_at", word (now r)) ∷ [])) q cancelled w)

  pub data WorkerStep : System → System → Type 0 where
    take : (r : Redis) (c : Caller) → WorkerStep (system r true c waiting) (system r false c taken)
    misconfigured :
        (r : Redis) (q : Bool) (c : Caller) (more : Fields)
        → Plain more
        → WorkerStep (system r q c taken) (system (write_status r "failed" more) q c ended)
    turn_back :
        (r : Redis) (q : Bool) (c : Caller)
        → flag r ≡ some "1"
        → WorkerStep (system r q c taken) (system r q c stopping)
    go_on :
        (r : Redis) (q : Bool) (c : Caller)
        → flag r ≢ some "1"
        → WorkerStep (system r q c taken) (system r q c starting)
    begin_run :
        (r : Redis) (q : Bool) (c : Caller)
        → WorkerStep
            (system r q c starting)
            (system (write_status r "running" (("started_at", word (now r)) ∷ [])) q c running)
    interrupt :
        (r : Redis) (q : Bool) (c : Caller)
        → flag r ≡ some "1"
        → WorkerStep (system r q c running) (system r q c stopping)
    stop :
        (r : Redis) (q : Bool) (c : Caller) (more : Fields)
        → Plain more
        → WorkerStep (system r q c stopping) (system (write_status r "cancelled" more) q c ended)
    give_up :
        (r : Redis) (q : Bool) (c : Caller) (more : Fields)
        → Plain more
        → WorkerStep (system r q c stopping) (system (write_status r "failed" more) q c ended)
    crash :
        (r : Redis) (q : Bool) (c : Caller) → WorkerStep (system r q c running) (system r q c dead)
    crash_stopping :
        (r : Redis) (q : Bool) (c : Caller) → WorkerStep (system r q c stopping) (system r q c dead)
    fail :
        (r : Redis) (q : Bool) (c : Caller) (more : Fields)
        → Plain more
        → WorkerStep (system r q c running) (system (write_status r "failed" more) q c ended)
    succeed :
        (r : Redis) (q : Bool) (c : Caller) (more : Fields)
        → Plain more
        → WorkerStep (system r q c running) (system (write_status r "success" more) q c ended)

  pub data Step (s t : System) : Type 0 where
    by_caller : CallerStep s t → Step s t
    by_worker : WorkerStep s t → Step s t

  -- A number of steps, the last one last.
  pub data Run (s : System) : List System → System → Type 0 where
    here : Run s [] s
    next : {path : List System} {t u : System} → Run s path t → Step t u → Run s (t ∷ path) u
