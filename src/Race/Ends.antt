-- ===== src/Race/Ends.antt =====
-- How the race ends.
use pretext_plus_build_full.Common.{
  ℕ, String, Bool, true, false, Option, some, List, [], ◌==◌, ◌+◌, ◌≤◌, ◌<◌, ◌≡◌, ◌⊎◌, inl, inr,
  refl, ap, ◌∙◌, arith, eq_iff, Bool-cases, Option-cases, length,
}
use pretext_plus_build_full.Jobs.{Redis}
use pretext_plus_build_full.Build.Sandboxed.Settled.{is_terminal}
use pretext_plus_build_full.Race.{
  Caller, idle, loaded, flagged, removed, refused, requested, cancelled, Worker, waiting, taken,
  starting, running, stopping, ended, dead, System, system, status, flag, CallerStep, load, refuse,
  set_flag, pass_by, take_out, miss, close, WorkerStep, take, misconfigured, turn_back, go_on,
  begin_run, interrupt, stop, give_up, crash, crash_stopping, fail, succeed, Step, by_caller,
  by_worker, Run, here, next,
}
use pretext_plus_build_full.Race.Invariant.{At, Inv, Run-Inv}

abbrev caller_rank : Caller → ℕ
caller_rank idle = 4
caller_rank (loaded s) = 3
caller_rank (flagged s) = 2
caller_rank removed = 1
caller_rank refused = 0
caller_rank requested = 0
caller_rank cancelled = 0

abbrev worker_rank : Worker → ℕ
worker_rank waiting = 5
worker_rank taken = 4
worker_rank starting = 3
worker_rank running = 2
worker_rank stopping = 1
worker_rank ended = 0
worker_rank dead = 0

-- At most so many steps are left.
abbrev rank : System → ℕ
rank (system r q c w) = caller_rank c + worker_rank w

-- The task of a job that is cancelled, as long as the worker has not got it.
abbrev pub Unclaimed : Worker → Bool → Option String → Type 0
Unclaimed waiting q s = (q ≡ false) × (s ≡ some "cancelled")
Unclaimed w q s = Unit

-- What an answer to the request promises.
abbrev pub Promise : String → System → Type 0
Promise job_id (system r q cancelled w) =
    (flag job_id r ≡ some "1") × Unclaimed w q (status job_id r)
Promise job_id (system r q requested w) = flag job_id r ≡ some "1"
Promise job_id (system r q c w) = Unit

-- The status is one in which a job stays.
abbrev pub Over : String → System → Type 0
Over job_id (system r q c w) = is_terminal (status job_id r) ≡ true

-- An exception has left the job.
abbrev pub Dead : System → Type 0
Dead (system r q c dead) = Unit
Dead s = ⊥

module _ (job_id : String) where
  caller_step_down : {s t : System} → CallerStep job_id s t → rank t < rank s
  caller_step_down (load r q w h) = omega arith
  caller_step_down (refuse r q w h) = omega arith
  caller_step_down (set_flag r q s w) = omega arith
  caller_step_down (pass_by r q s w h) = omega arith
  caller_step_down (take_out r q s w h) = omega arith
  caller_step_down (miss r q s w h) = omega arith
  caller_step_down (close r q w) = omega arith

  worker_step_down : {s t : System} → WorkerStep job_id s t → rank t < rank s
  worker_step_down (take r c) = omega arith
  worker_step_down (misconfigured r q c more p) = omega arith
  worker_step_down (turn_back r q c h) = omega arith
  worker_step_down (go_on r q c h) = omega arith
  worker_step_down (begin_run r q c) = omega arith
  worker_step_down (interrupt r q c h) = omega arith
  worker_step_down (stop r q c more p) = omega arith
  worker_step_down (give_up r q c more p) = omega arith
  worker_step_down (crash r q c) = omega arith
  worker_step_down (crash_stopping r q c) = omega arith
  worker_step_down (fail r q c more p) = omega arith
  worker_step_down (succeed r q c more p) = omega arith

  length-rank :
      {s t : System} {path : List System} → Run job_id s path t → length path + rank t ≤ rank s
  length-rank here = omega arith
  length-rank (next run (by_caller step)) = omega (arith, length-rank run, caller_step_down step)
  length-rank (next run (by_worker step)) = omega (arith, length-rank run, worker_step_down step)

  -- Some process can go on.
  abbrev pub Goes : System → Type 0
  Goes s = (t : System) × Step job_id s t

  taken-Goes : (r : Redis) (q : Bool) (c : Caller) → Goes (system r q c taken)
  taken-Goes r q c = elim (Option-cases (flag job_id r)) [
    | inl none_set ↦ (system r q c starting, by_worker (go_on r q c (λ e. cc)))
    | inr (f, e) ↦ elim (Bool-cases (f == "1")) [
      | inl same ↦
          let set : flag job_id r ≡ some "1" = e ∙ ap some ((eq_iff f "1").0 same) in
          (_, by_worker (turn_back r q c set))
      | inr other ↦ (
        system r q c starting,
        by_worker (go_on r q c (λ e'. let same : f ≡ "1" = cc in cc ((eq_iff f "1").1 same))),
      )
    ]
  ]

  abbrev Next : System → Type 0
  Next s = Over job_id s ⊎ Goes s ⊎ Dead s

  queued-Next :
      (r : Redis) (q : Bool) (c : Caller)
      → (q ≡ true) × (status job_id r ≡ some "queued")
      → Next (system r q c waiting)
  queued-Next r q c h = inr (inl (system r false c taken, by_worker (rw h.0 (take r c))))

  Inv-Next : (s : System) → Inv job_id s → Next s
  Inv-Next (system r q c taken) i = inr (inl (taken-Goes r q c))
  Inv-Next (system r q c starting) i = inr (inl (_, by_worker (begin_run r q c)))
  Inv-Next (system r q c running) i = inr (inl (_, by_worker (fail r q c [] (tt, tt))))
  Inv-Next (system r q c stopping) i = inr (inl (_, by_worker (stop r q c [] (tt, tt))))
  Inv-Next (system r q c ended) i = inl i.0
  Inv-Next (system r q c dead) i = inr (inr tt)
  Inv-Next (system r q removed waiting) i = inr (inl (_, by_caller (close r q waiting)))
  Inv-Next (system r q cancelled waiting) i = inl (ap is_terminal i.0.1)
  Inv-Next (system r q idle waiting) i = queued-Next r q idle i.0
  Inv-Next (system r q refused waiting) i = queued-Next r q refused i.0
  Inv-Next (system r q (loaded x) waiting) i = queued-Next r q (loaded x) i.0
  Inv-Next (system r q (flagged x) waiting) i = queued-Next r q (flagged x) i.0
  Inv-Next (system r q requested waiting) i = queued-Next r q requested i.0

  At-Unclaimed :
      (w : Worker) (q : Bool) (s : Option String) → At job_id w cancelled q s → Unclaimed w q s
  At-Unclaimed waiting q s h = h
  At-Unclaimed w q s h = tt

  Inv-Promise : (s : System) → Inv job_id s → Promise job_id s
  Inv-Promise (system r q cancelled w) i = (i.1, At-Unclaimed w q _ i.0)
  Inv-Promise (system r q requested w) i = i.1
  Inv-Promise (system r q c w) i = tt

-- However a cancel request and the worker are interleaved, from a queued job on, once the request is
-- answered, "cancelled" or "cancel_requested", the flag that the worker looks for is set, and stays
-- set; and after "cancelled", if the worker has not taken the task by then, it never can, and the
-- status is, and stays, "cancelled". RQ may cancel or raise wherever the task is.
pub race_keeps_word :
    (job_id : String) (r : Redis) (path : List System) (s : System)
    → status job_id r ≡ some "queued"
    → Run job_id (system r true idle waiting) path s
    → Promise job_id s
race_keeps_word job_id r path s queued run =
    Inv-Promise job_id s (Run-Inv job_id ((refl, queued), tt) run)

-- However a cancel request and the worker are interleaved, from a queued job on, there are at most
-- nine steps, and then the status is one in which a job stays, unless an exception that nothing
-- handles has left the job: until then one of the two can go on.
pub race_ends :
    (job_id : String) (r : Redis) (path : List System) (s : System)
    → status job_id r ≡ some "queued"
    → Run job_id (system r true idle waiting) path s
    → (length path ≤ 9) × (Over job_id s ⊎ Goes job_id s ⊎ Dead s)
race_ends job_id r path s queued run = (
  omega (arith, length-rank job_id run),
  Inv-Next job_id s (Run-Inv job_id ((refl, queued), tt) run),
)
