-- ===== src/Tests/Races.antt =====
-- A cancel request and the worker on job `b`, which waits: the request sets the flag, the worker takes
-- the task and turns back.
use pretext_plus_build_full.Common.{
  true, false, some, List, [], ◌∷◌, ◌≡◌, ◌≤◌, ◌⊎◌, refl, length, inl, inr,
}
use pretext_plus_build_full.Common.Dict
use pretext_plus_build_full.Jobs
use pretext_plus_build_full.Jobs.{Redis, Fields, word}
use pretext_plus_build_full.Config.Load.{member}
use pretext_plus_build_full.Api.{Queue, cancel_job, load_job, is_finished, shown}
use pretext_plus_build_full.Race.{
  System, system, idle, loaded, flagged, requested, waiting, taken, stopping, ended, flag_fields,
  write_status, load, set_flag, miss, take, turn_back, stop, by_caller, by_worker, Run, here, next,
}
use pretext_plus_build_full.Race.Ends.{Promise, Over, Goes, Dead, race_keeps_word, race_ends}
use pretext_plus_build_full.Race.Flagged.{Stopped, flagged_never_runs}
use pretext_plus_build_full.Race.Requests.{Reached, cancel_job_steps}
use pretext_plus_build_full.World.{World}
use pretext_plus_build_full.Docker.{returned, raised, read_timeout, Daemon}
use pretext_plus_build_full.Build.{build_sandbox}
use pretext_plus_build_full.Build.Sandboxed.{run_sandboxed}
use pretext_plus_build_full.Race.Turns.{Meanwhile, Turns}
use pretext_plus_build_full.Race.Turns.Refines.{run_sandboxed-Turns}
use pretext_plus_build_full.Tests.Fixtures.{redis, world, settings}

-- The store with the flag of job `b` set.
abbrev after_flag : Redis
after_flag = Jobs.update redis "b" flag_fields

abbrev after_task : Redis
after_task = write_status "b" after_flag "cancelled" []

abbrev requested_first : List System
requested_first =
    system after_flag true (flagged (some "queued")) waiting
    ∷ system redis true (loaded (some "queued")) waiting
    ∷ system redis true idle waiting
    ∷ []

-- RQ raises for a task that a worker has taken.
abbrev requested_run : List System
requested_run = system after_flag false (flagged (some "queued")) taken ∷ requested_first

abbrev whole : List System
whole =
    system after_flag false requested stopping
    ∷ system after_flag false requested taken
    ∷ requested_run

requested_then_taken :
    Run "b" (system redis true idle waiting) whole (system after_task false requested ended)
unfolding Jobs.get Jobs.hgetall Jobs.find Jobs.key is_finished member Dict.lookup Jobs.strs
    Jobs.hset Jobs.update Jobs.write Dict.update Dict.insert shown
requested_then_taken =
    next
      (next
        (next
          (next
            (next (next here (by_caller (load redis true waiting refl)))
              (by_caller (set_flag redis true (some "queued") waiting)))
            (by_worker (take after_flag (flagged (some "queued")))))
          (by_caller (miss after_flag false (some "queued") taken refl)))
        (by_worker (turn_back after_flag false requested refl)))
      (by_worker (stop after_flag false requested [] (tt, tt)))

race_keeps_word_example : Promise "b" (system after_task false requested ended)
unfolding Jobs.get Jobs.hgetall Jobs.find Jobs.key Dict.lookup
race_keeps_word_example =
    race_keeps_word "b" redis whole (system after_task false requested ended) refl
      requested_then_taken

race_ends_example :
    (length whole ≤ 9)
    × (Over "b" (system after_task false requested ended)
        ⊎ Goes "b" (system after_task false requested ended)
        ⊎ Dead (system after_task false requested ended))
unfolding Jobs.get Jobs.hgetall Jobs.find Jobs.key Dict.lookup
race_ends_example =
    race_ends "b" redis whole (system after_task false requested ended) refl requested_then_taken

abbrev back : List System
back = system after_flag false requested stopping ∷ system after_flag false requested taken ∷ []

turned_back :
    Run "b" (system after_flag false requested taken) back (system after_task false requested ended)
unfolding Jobs.get Jobs.hgetall Jobs.find Jobs.key Dict.lookup Jobs.strs Jobs.hset Jobs.update
    Jobs.write Dict.update Dict.insert
turned_back =
    next (next here (by_worker (turn_back after_flag false requested refl)))
      (by_worker (stop after_flag false requested [] (tt, tt)))

flagged_never_runs_example : Stopped (system after_task false requested ended)
unfolding Jobs.get Jobs.hgetall Jobs.find Jobs.key Dict.lookup Jobs.strs Jobs.hset Jobs.update
    Jobs.write Dict.update Dict.insert
flagged_never_runs_example =
    flagged_never_runs "b" after_flag false requested taken back
      (system after_task false requested ended) refl tt turned_back

-- RQ finds the job and takes it out of the queue.
abbrev queue : Queue
queue = record { cancel = λ job_id w. (true, w) }

cancel_job_steps_example : Reached "b" true waiting world (cancel_job queue "b" "build" world)
unfolding load_job Jobs.get Jobs.hgetall Jobs.find Jobs.key
cancel_job_steps_example =
    cancel_job_steps queue (λ i v. refl) "b" "build" true waiting
      (Jobs.get_or_empty world.redis "b") world refl

-- A cancel request comes while the container runs.
abbrev FlagSet : Redis → Redis → Type 0
FlagSet r r' = (r' ≡ r) ⊎ (r' ≡ Jobs.update r "b" flag_fields)

abbrev interrupted : Daemon World
interrupted = record {
  run = λ args w. (returned 1, w);
  wait = λ container seconds w.
      (raised read_timeout, record w { redis = Jobs.update w.redis "b" flag_fields });
  kill = λ container w. (returned tt, w);
  logs = λ container w. (returned "log", w);
  remove = λ container w. (returned tt, w);
}

interrupted-Meanwhile : Meanwhile FlagSet interrupted
interrupted-Meanwhile = record {
  run = λ args w. inl refl;
  wait = λ container seconds w. inr refl;
  kill = λ container w. inl refl;
  logs = λ container w. inl refl;
  remove = λ container w. inl refl;
  own_class = λ container seconds w e. cc;
}

abbrev stopped : World
stopped =
    (run_sandboxed settings interrupted (λ name. true) (λ names. "") "b" "build"
      (build_sandbox settings) false "true" world).1

run_sandboxed-Turns_example : Turns "b" FlagSet false requested redis taken stopped.redis ended
unfolding run_sandboxed Jobs.get Jobs.hgetall Jobs.find Jobs.key build_sandbox Jobs.update
    Jobs.write Jobs.hset Jobs.strs
run_sandboxed-Turns_example =
    run_sandboxed-Turns FlagSet interrupted interrupted-Meanwhile settings (λ name. true)
      (λ names. "") "b" "build" (build_sandbox settings) false false requested "true" world stopped
      refl
