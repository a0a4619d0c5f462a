-- ===== src/Race/Turns.antt =====
-- The worker's share of the race, `_run_sandboxed` of src/build.py, with others that use the job
-- store while the daemon is waited for.
pub mod Container
pub mod Refines
use pretext_plus_build_full.Common.{
  ℕ, String, Bool, Option, List, [], ◌∷◌, ◌==◌, ◌≡◌, ◌≢◌, refl, some,
}
use pretext_plus_build_full.Docker.{
  Exception, cancelled, Outcome, returned, raised, hangs, RunArgs, Daemon,
}
use pretext_plus_build_full.Jobs.{Redis, Fields, word, now}
use pretext_plus_build_full.World.{World, update_job}
use pretext_plus_build_full.World.Final.{Leads}
use pretext_plus_build_full.Build.Sandboxed.{finish}
use pretext_plus_build_full.Race.{
  Caller, Worker, taken, ended, system, Plain, write_status, WorkerStep,
}

-- Each call of the daemon changes the store as others may, in its time. The worker's own exception
-- is not among those of `wait`.
pub record Meanwhile (Others : Redis → Redis → Type 0) (daemon : Daemon World) : Type 0 where
  pub run : (args : RunArgs) (w : World) → Others w.redis (daemon.run args w).1.redis
  pub wait :
      (container seconds : ℕ) (w : World) → Others w.redis (daemon.wait container seconds w).1.redis
  pub kill : (container : ℕ) (w : World) → Others w.redis (daemon.kill container w).1.redis
  pub logs : (container : ℕ) (w : World) → Others w.redis (daemon.logs container w).1.redis
  pub remove : (container : ℕ) (w : World) → Others w.redis (daemon.remove container w).1.redis
  pub own_class :
      (container seconds : ℕ) (w : World) → (daemon.wait container seconds w).0 ≢ raised cancelled

module _ (job_id : String) (Others : Redis → Redis → Type 0) (q : Bool) (c : Caller) where
  -- Steps of the worker, with what others do in between.
  pub data Turns (r : Redis) (w : Worker) : Redis → Worker → Type 0 where
    still : Turns r w r w
    own :
        {r' r'' : Redis} {w' w'' : Worker}
        → Turns r w r' w'
        → WorkerStep job_id (system r' q c w') (system r'' q c w'')
        → Turns r w r'' w''
    others : {r' r'' : Redis} {w' : Worker} → Turns r w r' w' → Others r' r'' → Turns r w r'' w'

  module _ (r : Redis) where
    -- From the store `r` and the task taken, the worker has come to this place.
    abbrev pub Come : Worker → World → Type 0
    Come x w = Turns r taken w.redis x

    -- A worker at this place may write this status and be done.
    abbrev pub Ending : Worker → String → Type 0
    Ending x s =
        (r' : Redis) (more : Fields)
        → Plain job_id more
        → WorkerStep job_id (system r' q c x) (system (write_status job_id r' s more) q c ended)

    -- An exception found the worker where it may fail.
    abbrev pub Alive : World → Type 0
    Alive w = (x : Worker) × Come x w × Ending x "failed"

    pub call-Come :
        {A : Type 0} (x : Worker) (result : Outcome A × World) (w : World)
        → Come x w
        → Others w.redis result.1.redis
        → Leads (λ _. Come x) (λ _. Come x) result
    call-Come x (returned a, v) w t m = others t m
    call-Come x (raised e, v) w t m = others t m
    call-Come x (hangs, v) w t m = tt

    pub call-Alive :
        {A : Type 0} (x : Worker) (result : Outcome A × World) (w : World)
        → Come x w
        → Ending x "failed"
        → Others w.redis result.1.redis
        → Leads (λ _. Come x) (λ _. Alive) result
    call-Alive x (returned a, v) w t k m = others t m
    call-Alive x (raised e, v) w t k m = (x, others t m, k)
    call-Alive x (hangs, v) w t k m = tt

    pub finish-Come :
        (x : Worker) (s log : String) (more : Fields) (w : World)
        → Come x w
        → Ending x s
        → Plain job_id more
        → Come ended (finish job_id s log more w).1
    unfolding finish update_job
    finish-Come x s log more w t step plain =
        own t (step w.redis _ ((refl, (refl, plain.0)), (refl, (refl, plain.1))))
