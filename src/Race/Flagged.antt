-- ===== src/Race/Flagged.antt =====
-- A job whose flag is set before the worker looks for it.
use pretext_plus_build_full.Common.{String, Bool, some, List, ◌≡◌, ◌∙◌, refl}
use pretext_plus_build_full.Jobs.{Redis}
use pretext_plus_build_full.Race.{
  Caller, Worker, waiting, taken, starting, running, stopping, ended, dead, System, system, flag,
  CallerStep, load, refuse, set_flag, pass_by, take_out, miss, close, WorkerStep, take,
  misconfigured, turn_back, go_on, begin_run, interrupt, stop, give_up, crash, crash_stopping, fail,
  succeed, by_caller, by_worker, Run, here, next,
}
use pretext_plus_build_full.Race.Invariant.{flag-flagged, flag-written}

-- The worker has not come to its check of the flag.
abbrev pub Unchecked : Worker → Type 0
Unchecked waiting = Unit
Unchecked taken = Unit
Unchecked w = ⊥

-- No container is started or about to be.
abbrev pub Off : Worker → Type 0
Off stopping = Unit
Off ended = Unit
Off dead = Unit
Off w = Unchecked w

Unchecked-Off : (w : Worker) → Unchecked w → Off w
Unchecked-Off waiting h = tt
Unchecked-Off taken h = tt
Unchecked-Off starting h = h
Unchecked-Off running h = h
Unchecked-Off stopping h = tt
Unchecked-Off ended h = tt
Unchecked-Off dead h = tt

abbrev pub Stopped : System → Type 0
Stopped (system r q c w) = Off w

module _ (job_id : String) where
  abbrev Held : System → Type 0
  Held (system r q c w) = (flag job_id r ≡ some "1") × Off w

  caller-Held : {s t : System} → CallerStep job_id s t → Held s → Held t
  caller-Held (load r q w h) i = i
  caller-Held (refuse r q w h) i = i
  caller-Held (set_flag r q x w) i = (flag-flagged job_id r, i.1)
  caller-Held (pass_by r q x w h) i = i
  caller-Held (take_out r q x w h) i = i
  caller-Held (miss r q x w h) i = i
  caller-Held (close r q w) i =
      (flag-written job_id r "cancelled" _ ((refl, tt), (refl, tt)) ∙ i.0, i.1)

  worker-Held : {s t : System} → WorkerStep job_id s t → Held s → Held t
  worker-Held (take r c) i = i
  worker-Held (misconfigured r q c more p) i = (flag-written job_id r "failed" more p ∙ i.0, tt)
  worker-Held (turn_back r q c h) i = i
  worker-Held (go_on r q c h) i = absurd (h i.0)
  worker-Held (begin_run r q c) i = absurd i.1
  worker-Held (interrupt r q c h) i = absurd i.1
  worker-Held (stop r q c more p) i = (flag-written job_id r "cancelled" more p ∙ i.0, tt)
  worker-Held (give_up r q c more p) i = (flag-written job_id r "failed" more p ∙ i.0, tt)
  worker-Held (crash r q c) i = absurd i.1
  worker-Held (crash_stopping r q c) i = i
  worker-Held (fail r q c more p) i = absurd i.1
  worker-Held (succeed r q c more p) i = absurd i.1

  Run-Held : {s t : System} {path : List System} → Held s → Run job_id s path t → Held t
  Run-Held i here = i
  Run-Held i (next run (by_caller step)) = caller-Held step (Run-Held i run)
  Run-Held i (next run (by_worker step)) = worker-Held step (Run-Held i run)

Held-Stopped : (job_id : String) (s : System) → Held job_id s → Stopped s
Held-Stopped job_id (system r q c w) i = i.1

-- If the flag is set while the worker has not come to its check, wherever the request and the queue
-- are, then however the two go on, no container is ever started for the job, or about to be.
pub flagged_never_runs :
    (job_id : String) (r : Redis) (q : Bool) (c : Caller) (w : Worker) (path : List System)
    (s : System)
    → flag job_id r ≡ some "1"
    → Unchecked w
    → Run job_id (system r q c w) path s
    → Stopped s
flagged_never_runs job_id r q c w path s set unchecked run =
    Held-Stopped job_id s (Run-Held job_id (set, Unchecked-Off w unchecked) run)
