-- ===== src/Build/Run.antt =====
-- `_prune_expired_jobs` and `_run_job`: a job, and what follows it. Listing and
-- removing directories succeed, as `ignore_errors` has it.
pub mod Reports
use pretext_plus_build_full.Common.{
  ℕ, String, Bool, Option, [], ◌∷◌, ◌+◌, ◌||◌, ltb, not, if◌then◌else◌, ◌==◌,
}
use pretext_plus_build_full.Common.Dict.{Dict}
use pretext_plus_build_full.Config.{Settings}
use pretext_plus_build_full.Docker.{returned, Daemon}
use pretext_plus_build_full.Jobs
use pretext_plus_build_full.AssetCache
use pretext_plus_build_full.World.{World, JobDir, Action, pure, gets, ◌>>=◌, ◌>>◌, catch, finally}
use pretext_plus_build_full.Notify.{Network, Codec}
use pretext_plus_build_full.Notify.Callback.{send_callback}
use pretext_plus_build_full.Build.{Sandbox}
use pretext_plus_build_full.Build.Mounts.{project_of}
use pretext_plus_build_full.Build.Sandboxed.{run_sandboxed}

-- `st_mtime < time.time() - settings.job_ttl`
unfoldable pub is_expired : ℕ → ℕ → JobDir → Bool
is_expired job_ttl now d = ltb (d.mtime + job_ttl) now

unfoldable pub without_expired : ℕ → ℕ → String → Dict JobDir → Dict JobDir
unfolding is_expired
without_expired job_ttl now current [] = []
without_expired job_ttl now current ((name, d) ∷ jobs) =
    let rest = without_expired job_ttl now current jobs in
    if name == current || not (is_expired job_ttl now d) then (name, d) ∷ rest else rest

unfoldable pub prune_expired_jobs : ℕ → String → Action (Unit {0})
unfolding without_expired
prune_expired_jobs job_ttl current w =
    (returned tt, record w { jobs = without_expired job_ttl w.redis.clock current w.jobs })

unfoldable pub prune_assets : Settings → Option String → Action (Unit {0})
unfolding AssetCache.prune
prune_assets settings keep w =
    (returned tt, record w { cache = AssetCache.prune settings keep w.redis.clock w.cache })

module _ (settings : Settings) (daemon : Daemon World) (net : Network) (codec : Codec)
    (copies : String → Bool) (job_id : String) where
  -- The `finally` of `_run_job`.
  unfoldable pub afterwards : Action (Unit {0})
  unfolding send_callback prune_expired_jobs prune_assets project_of
  afterwards = do
    data_ ← gets (λ w. Jobs.get_or_empty w.redis job_id)
    send_callback settings net codec job_id
    prune_expired_jobs settings.job_ttl job_id
    catch (prune_assets settings (project_of data_)) (λ e. pure tt)

  unfoldable pub run_job : String → String → Sandbox → Bool → Action (Unit {0})
  unfolding run_sandboxed afterwards
  run_job kind command sandbox list_files =
      finally
        (run_sandboxed settings daemon copies codec.dump_names job_id kind sandbox list_files
          command)
        afterwards
