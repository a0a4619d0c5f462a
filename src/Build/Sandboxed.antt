-- ===== src/Build/Sandboxed.antt =====
-- `_run_sandboxed`: the checks before a job, its container, and the outcome in the job store.
pub mod Settled
pub mod Outcomes
pub mod Store
pub mod Unstarted
pub mod Calm
pub mod Watched
pub mod Completes
use pretext_plus_build_full.Common.{
  ℕ, String, ◌<>◌, Bool, true, false, Option, none, some, List, [], ◌∷◌, ◌++◌, ◌&&◌, if◌then◌else◌,
  ◌==◌, eqb, not,
}
use pretext_plus_build_full.Common.Dict
use pretext_plus_build_full.Common.Dict.{Dict}
use pretext_plus_build_full.Common.Decimal.{show}
use pretext_plus_build_full.Common.Text.{is_truthy}
use pretext_plus_build_full.Config.{Settings}
use pretext_plus_build_full.Docker.{
  Exception, image_not_found, api_error, read_timeout, connection_error, cancelled, os_error,
  other_error, Outcome, returned, raised, hangs, RunArgs, Daemon,
}
use pretext_plus_build_full.Files.{Node, dir, Entries, lookup}
use pretext_plus_build_full.Jobs
use pretext_plus_build_full.Jobs.{Fields, Record, Value, word, number, now}
use pretext_plus_build_full.World.{
  World, JobDir, Archive, Action, pure, raise, gets, ◌>>=◌, ◌>>◌, catch, finally, update_job,
  forever,
}
use pretext_plus_build_full.Build.{Sandbox, run_args}
use pretext_plus_build_full.Build.Zip.{zip_dir}
use pretext_plus_build_full.Build.Wait.{cancel_requested, wait_for_container, is_timeout}
use pretext_plus_build_full.Build.Mounts.{
  project_of, job_dir, set_zip, harvest_project, attach_cache,
}

-- `store.update(job_id, status=..., finished_at=_now(), log=..., **more)`
unfoldable pub finish : String → String → String → Fields → Action (Unit {0})
unfolding update_job now
finish job_id status log more w =
    update_job job_id
      (("status", word status) ∷ ("finished_at", word (now w.redis)) ∷ ("log", word log) ∷ more) w

-- How the supervised container ended: it exited, or the record is written already.
pub data Ended : Type 0 where
  exited : ℕ → String → Ended
  recorded : Ended

-- `int(result.get("StatusCode", 1))`
abbrev pub code_of : Option ℕ → ℕ
code_of none = 1
code_of (some n) = n

unfoldable pub pass_api_error : Exception → Action (Unit {0})
pass_api_error api_error = pure tt
pass_api_error e = raise e

module _ (settings : Settings) (daemon : Daemon World) (job_id kind : String)
    (sandbox : Sandbox) where
  -- A container that is stopped early: killed, and the record finished.
  unfoldable pub stop : ℕ → String → String → Action Ended
  unfolding finish
  stop container status note = do
    daemon.kill container
    logs ← daemon.logs container
    finish job_id status (logs <> note) []
    pure recorded

  cancel_note : String
  cancel_note = "\n\n[" <> kind <> " cancelled by request]"

  timeout_note : String
  unfolding show
  timeout_note = "\n\n[" <> kind <> " exceeded " <> show sandbox.timeout <> "s and was killed]"

  -- What follows the wait, by how it ended.
  unfoldable pub settle : ℕ → Outcome (Option ℕ) → Action Ended
  unfolding stop cancel_note timeout_note
  settle container (returned code) = do
    logs ← daemon.logs container
    pure (exited (code_of code) logs)
  settle container (raised cancelled) = stop container "cancelled" cancel_note
  settle container (raised read_timeout) = stop container "failed" timeout_note
  settle container (raised connection_error) = stop container "failed" timeout_note
  settle container (raised e) = raise e
  settle container hangs = forever

  -- `except ImageNotFound` around the container.
  unfoldable pub no_image : Exception → Action Ended
  unfolding finish
  no_image image_not_found = do
    finish job_id "failed"
        ("Build image not found locally: " <> settings.build_image <> ". Run `docker pull "
          <> settings.build_image <> "`.")
        []
    pure recorded
  no_image e = raise e

  -- `container.remove(force=True)`, whose `APIError` is passed over.
  unfoldable pub remove : ℕ → Action (Unit {0})
  unfolding pass_api_error
  remove container = catch (daemon.remove container) pass_api_error

  -- The inner `try`, with the logs that are read after it.
  unfoldable pub watch : ℕ → Action Ended
  unfolding wait_for_container settle
  watch container w =
      let (outcome, w') =
        wait_for_container daemon job_id container settings.build_poll_interval sandbox.timeout w in
      settle container outcome w'

  -- The container's life: with no container there is nothing to remove.
  unfoldable pub supervise : RunArgs → Action Ended
  unfolding watch no_image remove
  supervise args w =
      let (outcome, w') = daemon.run args w in
      elim outcome [
        | raised e ↦ no_image e w'
        | hangs ↦ (hangs, w')
        | returned container ↦ finally (catch (watch container) no_image) (remove container) w'
      ]

-- `os.path.isdir(output_dir) and not os.path.islink(output_dir)`, with what is in it.
unfoldable pub output_of : String → Entries → Option Entries
unfolding lookup
output_of subdir work = elim (lookup subdir work) [ some (dir es) ↦ some es | _ ↦ none ]

module _ (settings : Settings) (daemon : Daemon World) (copies : String → Bool)
    (dump_names : List String → String) (job_id kind : String) (sandbox : Sandbox)
    (list_files : Bool) where
  -- `_zip_dir` into `output.zip`, which holds what was written also where zipping raises.
  unfoldable pub zip_output : Entries → Action (List String)
  unfolding zip_dir set_zip
  zip_output es w =
      let (outcome, z) = zip_dir es sandbox.skip_top_level_dotfiles in
      let (done, w') = set_zip job_id z w in
      elim done [ returned u ↦ (outcome, w') | raised e ↦ (raised e, w') | hangs ↦ (hangs, w') ]

  -- The field `files` of a job that lists them.
  unfoldable pub pack_output : Option Entries → Action Fields
  unfolding zip_output
  pack_output none = pure []
  pack_output (some es) = do
    names ← zip_output es
    pure (if list_files then ("files", word (dump_names names)) ∷ [] else [])

  -- `extra["cached_files"] = json.dumps(asset_cache.harvest(project_id, work_dir))`
  unfoldable pub add_cached : String → Fields → Action Fields
  unfolding harvest_project Dict.insert
  add_cached project_id extra = do
    cached ← harvest_project settings copies job_id project_id
    pure (Dict.insert "cached_files" (word (dump_names cached)) extra)

  -- The field `cached_files` of a generate job that exited cleanly and names a project.
  unfoldable pub keep_assets : Option String → ℕ → Fields → Action Fields
  unfolding add_cached
  keep_assets none code extra = pure extra
  keep_assets (some project_id) code extra =
      if kind == "generate" && eqb code 0
      then catch (add_cached project_id extra) (λ e. pure extra)
      else pure extra

  is_some : Option Entries → Bool
  is_some none = false
  is_some (some es) = true

  failed_log : ℕ → String → Bool → String
  unfolding show
  failed_log code logs has_output =
      if has_output
      then logs
        <> "\n\n["
        <> kind
        <> " exited with code "
        <> show code
        <> ", but produced output in '"
        <> sandbox.output_subdir
        <> "/' -- see artifact_url]"
      else logs

  empty_log : String → String
  empty_log logs =
      logs <> "\n\n[" <> kind <> " succeeded but produced no '" <> sandbox.output_subdir
      <> "/' directory]"

  -- The final record of a container that exited.
  unfoldable pub conclude : ℕ → String → Bool → Fields → Action (Unit {0})
  unfolding finish failed_log empty_log
  conclude code logs has_output extra =
      if not (eqb code 0)
      then finish job_id "failed" (failed_log code logs has_output)
          (("exit_code", number code) ∷ extra)
      else if not has_output
      then finish job_id "failed" (empty_log logs) (("exit_code", number code) ∷ [])
      else finish job_id "success" logs (("exit_code", number code) ∷ extra)

  unfoldable pub after_exit : Option String → ℕ → String → Action (Unit {0})
  unfolding output_of pack_output keep_assets is_some conclude job_dir
  after_exit project_id code logs = do
    d ← job_dir job_id
    let output = output_of sandbox.output_subdir d.work
    extra ← pack_output output
    extra' ← keep_assets project_id code extra
    conclude code logs (is_some output) extra'

  unfoldable pub after_container : Option String → Ended → Action (Unit {0})
  unfolding after_exit
  after_container project_id recorded = pure tt
  after_container project_id (exited code logs) = after_exit project_id code logs

  -- The bind mount of the project: its path on the host, and /work in the container.
  pub own_volume : Dict String
  own_volume = (settings.host_data_dir <> "/jobs/" <> job_id <> "/work", "/work") ∷ []

  -- From the start of the job on.
  unfoldable pub start : String → Option String → Action (Unit {0})
  unfolding now job_dir attach_cache own_volume run_args supervise after_container update_job
  start command project_id = do
    clock ← gets (λ w. now w.redis)
    update_job job_id (("status", word "running") ∷ ("started_at", word clock) ∷ [])
    job_dir job_id
    volumes ← attach_cache settings copies job_id kind project_id own_volume
    ended ←
        supervise settings daemon job_id kind sandbox (run_args settings sandbox command volumes)
    after_container project_id ended

  -- `_run_sandboxed`
  unfoldable pub run_sandboxed : String → Action (Unit {0})
  unfolding finish cancel_requested project_of start
  run_sandboxed command w =
      if not (is_truthy settings.host_data_dir)
      then finish job_id "failed"
          ("Server misconfigured: HOST_DATA_DIR is unset, so job dirs "
            <> "cannot be mounted into build containers. See README.")
          [] w
      else if cancel_requested job_id w
      then finish job_id "cancelled" (kind <> " cancelled before it started.") [] w
      else start command (project_of (Jobs.get_or_empty w.redis job_id)) w
