-- ===== src/Build/Run/Reports.antt =====
-- What a job leaves, once its callback and the pruning after it are done.
use pretext_plus_build_full.Common.{ℕ, String, Bool, true, ◌≡◌, refl, ap, ◌∙◌}
use pretext_plus_build_full.Config.{Settings}
use pretext_plus_build_full.Docker.{returned, Daemon}
use pretext_plus_build_full.World.{World}
use pretext_plus_build_full.World.Laws.{Ends, Ends-bind, Ends-finally, Ends_returned, keep_end}
use pretext_plus_build_full.Notify.{Network, Codec}
use pretext_plus_build_full.Notify.Callback.{send_callback}
use pretext_plus_build_full.Notify.Callback.Untouched.{field-send_callback}
use pretext_plus_build_full.Build.{Sandbox}
use pretext_plus_build_full.Build.Sandboxed.{run_sandboxed}
use pretext_plus_build_full.Build.Sandboxed.Settled.{is_terminal, status_of, Terminal}
use pretext_plus_build_full.Build.Sandboxed.Outcomes.{run_sandboxed-Ends}
use pretext_plus_build_full.Build.Run.{prune_expired_jobs, prune_assets, afterwards, run_job}

module _ (settings : Settings) (daemon : Daemon World) (net : Network) (codec : Codec)
    (copies : String → Bool) (job_id : String) where
  callback-Terminal :
      (w : World)
      → Terminal job_id w
      → Ends (λ _. Terminal job_id) (send_callback settings net codec job_id w)
  callback-Terminal w h = keep_end (Terminal job_id) (send_callback settings net codec job_id w) (
      ap is_terminal (field-send_callback job_id job_id "status" refl refl settings net codec w)
      ∙ h)

  afterwards-Terminal :
      (w : World)
      → Terminal job_id w
      → Ends (λ _. Terminal job_id) (afterwards settings daemon net codec copies job_id w)
  unfolding afterwards prune_expired_jobs prune_assets
  afterwards-Terminal w h =
      Ends-bind (λ _. Terminal job_id) (λ _. Terminal job_id)
        (send_callback settings net codec job_id) _ w (callback-Terminal w h) (λ _ v h'. h')

  -- Where a job returns, after its callback and the pruning, its status is "success", "failed" or
  -- "cancelled", as long as removing a container leaves the job's status alone.
  pub run_job_terminal :
      ((c : ℕ) (w : World) → status_of job_id ((daemon.remove c w).1) ≡ status_of job_id w)
      → (kind command : String) (sandbox : Sandbox) (list_files : Bool) (w w' : World)
      → run_job settings daemon net codec copies job_id kind command sandbox list_files w
        ≡ (returned tt, w')
      → is_terminal (status_of job_id w') ≡ true
  unfolding run_job
  run_job_terminal quiet kind command sandbox list_files w w' e =
      let job =
        run_sandboxed settings daemon copies codec.dump_names job_id kind sandbox list_files
          command in
      let after = afterwards settings daemon net codec copies job_id in
      Ends_returned (λ _. Terminal job_id)
        (run_job settings daemon net codec copies job_id kind command sandbox list_files w) tt w'
        (Ends-finally (λ _. Terminal job_id) job after w
          (run_sandboxed-Ends settings daemon copies codec.dump_names job_id kind sandbox list_files
            quiet command w)
          (λ _ v h. afterwards-Terminal v h))
        e
