-- ===== src/Build/Sandboxed/Unstarted.antt =====
-- The jobs that end before their container starts.
use pretext_plus_build_full.Common.{
  String, Bool, true, false, List, [], some, if◌then◌else◌, ◌&&◌, not, ◌≡◌, refl, arith, Bool-cases,
  inl, inr,
}
use pretext_plus_build_full.Common.Text.{is_truthy}
use pretext_plus_build_full.Config.{Settings}
use pretext_plus_build_full.Docker.{Daemon}
use pretext_plus_build_full.World.{World}
use pretext_plus_build_full.Build.{Sandbox}
use pretext_plus_build_full.Build.Wait.{cancel_requested}
use pretext_plus_build_full.Build.Sandboxed.{run_sandboxed}
use pretext_plus_build_full.Build.Sandboxed.Settled.{status_of, status-finish}

module _ (settings : Settings) (copies : String → Bool) (dump_names : List String → String)
    (job_id kind : String) (sandbox : Sandbox) (list_files : Bool) where
  -- Where HOST_DATA_DIR is unset or a cancel request is there already, a job ends without Docker:
  -- any two daemons leave the same world and the same outcome, and the status is "failed" in the
  -- first case and "cancelled" in the second.
  pub run_sandboxed_unstarted :
      (daemon other : Daemon World) (command : String) (w : World)
      → (is_truthy settings.host_data_dir && not (cancel_requested job_id w)) ≡ false
      → (run_sandboxed settings daemon copies dump_names job_id kind sandbox list_files command w
          ≡ run_sandboxed settings other copies dump_names job_id kind sandbox list_files command w)
        × (status_of job_id (
              (run_sandboxed settings daemon copies dump_names job_id kind sandbox list_files
                command w).1)
            ≡ some (if is_truthy settings.host_data_dir then "cancelled" else "failed"))
  unfolding run_sandboxed
  run_sandboxed_unstarted daemon other command w h =
      elim (Bool-cases (is_truthy settings.host_data_dir)) [
        | inr unset ↦ rw (unset) (refl, status-finish job_id "failed" _ [] w tt)
        | inl set ↦
            let seen : cancel_requested job_id w ≡ true = ground arith in
            rw (set, seen) (refl, status-finish job_id "cancelled" _ [] w tt)
      ]
