-- ===== src/Race/Turns/Refines.antt =====
-- A whole run of the worker, as turns.
use pretext_plus_build_full.Common.{
  ℕ, String, Bool, Option, List, [], ◌∷◌, ◌≡◌, eqb, refl, sym, Bool-cases, inl, inr,
}
use pretext_plus_build_full.Common.Text.{is_truthy}
use mathlib.Core.Path.{subst}
use pretext_plus_build_full.Config.{Settings}
use pretext_plus_build_full.Docker.{returned, Outcome, Daemon}
use pretext_plus_build_full.Files.{Entries}
use pretext_plus_build_full.Jobs.{Redis, Fields, word, now}
use pretext_plus_build_full.World.{World, update_job}
use pretext_plus_build_full.World.Laws.{Ends, Ends-bind, Ends_returned, keep_end}
use pretext_plus_build_full.World.Final.{Ends-both}
use pretext_plus_build_full.Build.{Sandbox, run_args}
use pretext_plus_build_full.Build.Wait.{cancel_requested}
use pretext_plus_build_full.Build.Mounts.{job_dir, attach_cache}
use pretext_plus_build_full.Build.Mounts.Store.{Holds, job_dir-Holds, attach_cache-Holds}
use pretext_plus_build_full.Build.Sandboxed.{
  finish, Ended, exited, recorded, supervise, output_of, own_volume, pack_output, keep_assets,
  conclude, after_exit, after_container, start, run_sandboxed,
}
use pretext_plus_build_full.Build.Sandboxed.Store.{pack_output-Holds, keep_assets-Holds}
use pretext_plus_build_full.Build.Sandboxed.Outcomes.{pack_output-Lacks, keep_assets-Lacks}
use pretext_plus_build_full.Build.Sandboxed.Settled.{Lacks}
use pretext_plus_build_full.Race.{
  Caller, Worker, taken, starting, running, stopping, ended, Plain, go_on, begin_run, turn_back,
  misconfigured, stop, fail, succeed,
}
use pretext_plus_build_full.Race.Turns.{Meanwhile, Turns, still, own, Come, Ending, finish-Come}
use pretext_plus_build_full.Race.Turns.Container.{cancel_requested-flag, Over, supervise-Ends}

module _ (Others : Redis → Redis → Type 0) (daemon : Daemon World)
    (meanwhile : Meanwhile Others daemon) (settings : Settings) (copies : String → Bool)
    (dump_names : List String → String) (job_id kind : String) (sandbox : Sandbox)
    (list_files : Bool) (q : Bool) (c : Caller) (r : Redis) where
  abbrev At : Worker → World → Type 0
  At x w = Come job_id Others q c r x w

  conclude-At :
      (code : ℕ) (logs : String) (has_output : Bool) (extra : Fields) (w : World)
      → At running w
      → Plain job_id extra
      → At ended
          (conclude settings daemon copies dump_names job_id kind sandbox list_files code logs
            has_output extra w).1
  unfolding conclude
  conclude-At code logs has_output extra w t plain =
      let fails : Ending job_id Others q c r running "failed" = λ r' more k. fail r' q c more k in
      let done = finish-Come job_id Others q c r running in
      elim (Bool-cases (eqb code 0)) [
        | inr f ↦ rw f (done "failed" _ _ w t fails ((refl, plain.0), (refl, plain.1)))
        | inl zero_code ↦ elim (Bool-cases has_output) [
          | inr without ↦
              rw (zero_code, without) (done "failed" _ _ w t fails ((refl, tt), (refl, tt)))
          | inl made ↦
              rw (zero_code, made)
                (done "success" _ _ w t (λ r' more k. succeed r' q c more k)
                  ((refl, plain.0), (refl, plain.1)))
        ]
      ]

  -- The worker at its place, in a store that a call has left as it was.
  keep-At :
      {A : Type 0} (result : Outcome A × World) (w : World)
      → At running w
      → Holds w.redis result.1
      → Ends (λ _. At running) result
  keep-At result w t h =
      keep_end (At running) result
        (subst (λ r'. Turns job_id Others q c r taken r' running) (sym h) t)

  abbrev Good : Fields → World → Type 0
  Good more w = Plain job_id more × At running w

  packed :
      (output : Option Entries) (w : World)
      → At running w
      → Ends Good
          (pack_output settings daemon copies dump_names job_id kind sandbox list_files output w)
  packed output w t =
      let result =
        pack_output settings daemon copies dump_names job_id kind sandbox list_files output w in
      let lacks = λ (key : String).
        pack_output-Lacks settings daemon copies dump_names job_id kind sandbox list_files key
          output w in
      Ends-both (λ more _. Plain job_id more) (λ _. At running) result
        (Ends-both (λ more _. Lacks "status" more) (λ more _. Lacks "cancel_requested" more) result
          (lacks "status" refl) (lacks "cancel_requested" refl))
        (keep-At result w t (
          pack_output-Holds w.redis settings daemon copies dump_names job_id kind sandbox list_files
            output w refl))

  kept :
      (project_id : Option String) (code : ℕ) (extra : Fields) (w : World)
      → Good extra w
      → Ends Good (
          keep_assets settings daemon copies dump_names job_id kind sandbox list_files project_id
            code extra w)
  kept project_id code extra w (plain, t) =
      let result =
        keep_assets settings daemon copies dump_names job_id kind sandbox list_files project_id code
          extra w in
      let lacks = λ (key : String).
        keep_assets-Lacks settings daemon copies dump_names job_id kind sandbox list_files key
          project_id code extra w in
      Ends-both (λ more _. Plain job_id more) (λ _. At running) result
        (Ends-both (λ more _. Lacks "status" more) (λ more _. Lacks "cancel_requested" more) result
          (lacks "status" refl plain.0) (lacks "cancel_requested" refl plain.1))
        (keep-At result w t (
          keep_assets-Holds w.redis settings daemon copies dump_names job_id kind sandbox list_files
            project_id code extra w refl))

  after_exit-Ends :
      (project_id : Option String) (code : ℕ) (logs : String) (w : World)
      → At running w
      → Ends
          (λ _. At ended)
          (after_exit settings daemon copies dump_names job_id kind sandbox list_files project_id
            code logs w)
  unfolding after_exit
  after_exit-Ends project_id code logs w t =
      let pack = pack_output settings daemon copies dump_names job_id kind sandbox list_files in
      let keep = keep_assets settings daemon copies dump_names job_id kind sandbox list_files in
      Ends-bind (λ _. At running) (λ _. At ended) (job_dir job_id) _ w
        (keep-At (job_dir job_id w) w t (job_dir-Holds w.redis job_id w refl))
        (λ d v t'.
          let output = output_of sandbox.output_subdir d.work in
          Ends-bind Good (λ _. At ended) (pack output) _ v (packed output v t')
            (λ extra u k.
              Ends-bind Good (λ _. At ended) (keep project_id code extra) _ u
                (kept project_id code extra u k)
                (λ extra' x k'.
                  keep_end (At ended) _ (conclude-At code logs _ extra' x k'.1 k'.0))))

  after_container-Ends :
      (project_id : Option String) (how : Ended) (w : World)
      → Over Others daemon meanwhile settings job_id kind sandbox q c r how w
      → Ends
          (λ _. At ended)
          (after_container settings daemon copies dump_names job_id kind sandbox list_files
            project_id how w)
  unfolding after_container
  after_container-Ends project_id recorded w t = t
  after_container-Ends project_id (exited code logs) w t = after_exit-Ends project_id code logs w t

  start-Ends :
      (command : String) (project_id : Option String) (w : World)
      → At starting w
      → Ends
          (λ _. At ended)
          (start settings daemon copies dump_names job_id kind sandbox list_files command project_id
            w)
  unfolding start update_job
  start-Ends command project_id w t =
      let base = own_volume settings daemon copies dump_names job_id kind sandbox list_files in
      let over = Over Others daemon meanwhile settings job_id kind sandbox q c r in
      let fields = ("status", word "running") ∷ ("started_at", word (now w.redis)) ∷ [] in
      let w' = (update_job job_id fields w).1 in
      let begun = own t (begin_run w.redis q c) in
      Ends-bind (λ _. At running) (λ _. At ended) (job_dir job_id) _ w'
        (keep-At (job_dir job_id w') w' begun (job_dir-Holds w'.redis job_id w' refl))
        (λ d v t'.
          Ends-bind (λ _. At running) (λ _. At ended)
            (attach_cache settings copies job_id kind project_id base) _ v
            (keep-At (attach_cache settings copies job_id kind project_id base v) v t'
              (attach_cache-Holds v.redis job_id settings copies kind project_id base v refl))
            (λ volumes u t''.
              Ends-bind over (λ _. At ended)
                (supervise settings daemon job_id kind sandbox
                  (run_args settings sandbox command volumes))
                _ u
                (supervise-Ends Others daemon meanwhile settings job_id kind sandbox q c r
                  (run_args settings sandbox command volumes) u t'')
                (λ how x. after_container-Ends project_id how x)))

  run_sandboxed-At :
      (command : String) (w : World)
      → At taken w
      → Ends
          (λ _. At ended)
          (run_sandboxed settings daemon copies dump_names job_id kind sandbox list_files command w)
  unfolding run_sandboxed finish update_job
  run_sandboxed-At command w t = elim (Bool-cases (is_truthy settings.host_data_dir)) [
    | inr unset ↦ rw unset (
        finish-Come job_id Others q c r taken "failed" _ [] w t
          (λ r' more k. misconfigured r' q c more k) (tt, tt))
    | inl set ↦ elim (Bool-cases (cancel_requested job_id w)) [
      | inl seen ↦
          rw (set, seen)
            (finish-Come job_id Others q c r stopping "cancelled" _ [] w
              (own t (turn_back w.redis q c ((cancel_requested-flag job_id w).0 seen)))
              (λ r' more k. stop r' q c more k) (tt, tt))
      | inr unseen ↦
          rw (set, unseen)
            (start-Ends command _ w (
              own t
                (go_on w.redis q c (λ e. let seen = (cancel_requested-flag job_id w).1 e in cc))))
    ]
  ]

-- Where each call of the daemon changes the job store as others may in its time, and its wait does
-- not raise the worker's own exception, a run of the worker that returns has gone by the worker's
-- steps of the race, others having their turn in between, from the task taken to its end: it writes
-- the status only where those steps do, and "cancelled" only after it has seen the flag.
pub run_sandboxed-Turns :
    (Others : Redis → Redis → Type 0) (daemon : Daemon World) (meanwhile : Meanwhile Others daemon)
    (settings : Settings) (copies : String → Bool) (dump_names : List String → String)
    (job_id kind : String) (sandbox : Sandbox) (list_files q : Bool) (c : Caller) (command : String)
    (w w' : World)
    → run_sandboxed settings daemon copies dump_names job_id kind sandbox list_files command w
      ≡ (returned tt, w')
    → Turns job_id Others q c w.redis taken w'.redis ended
run_sandboxed-Turns Others daemon meanwhile settings copies dump_names job_id kind sandbox
      list_files q c command w w' e =
    Ends_returned (λ _ v. Turns job_id Others q c w.redis taken v.redis ended)
      (run_sandboxed settings daemon copies dump_names job_id kind sandbox list_files command w) tt
      w'
      (run_sandboxed-At Others daemon meanwhile settings copies dump_names job_id kind sandbox
        list_files q c w.redis command w still)
      e
