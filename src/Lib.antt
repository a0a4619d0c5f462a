-- ===== src/Lib.antt =====
-- The build server for PreTeXt projects: an HTTP API queues jobs, a worker runs each job's command in
-- a sandboxed container and packages what it wrote, and a signed callback reports the outcome. This
-- library models the settings, the job store, the asset cache, the container run and the callback, and
-- the handlers of the API.
--
-- Which module models what (paths are from the root of the repository):
-- - Config, src/config.py: `Settings` and `load`, which reads it from the environment.
-- - Jobs, src/jobs.py: `Store` over a table of Redis hashes with deadlines and a clock.
-- - Files: directory trees with links, FIFOs and sockets, `os.walk`, and placing a file by rename.
-- - AssetCache, src/asset_cache.py: `prune` in AssetCache itself, the expressions that names must
--   match in Names, and `touch`, `mounts` and `harvest` in Harvest.
-- - Docker: the daemon as a record of operations over the world, and the exceptions.
-- - World: the state that processes share (job store, job directories, cache root, requests sent) and
--   actions on it, which may raise or not return.
-- - Notify, src/notify.py: the test of callback URLs; Notify.Callback: payload and delivery.
-- - Build, src/build.py: limits and container arguments in Build, `_zip_dir` in Zip,
--   `_wait_for_container` in Wait, the meeting with the asset cache in Mounts, `_run_sandboxed` in
--   Sandboxed, `_run_job` and `_prune_expired_jobs` in Run, and the entry points `run_build` and
--   `run_generate` with their commands in Command.
-- - Api, src/api.py: the checks on a request, `_load`, `_log`, `_artifact` and `_cancel`; `_safe_extract`
--   and `_intake` in Api.Intake, the handlers that create a job in Api.Create, `_status` and
--   `get_generated_file` in Api.Status, and which request goes to which of them in Api.Routes.
-- - Race: a cancel request (`_cancel`) and the worker (`_run_sandboxed`) on one job as interleaved
--   steps on the job store and the queue.
-- - Prefetch, build-image/prefetch_latex_packages.py: the loop over the journals and its report.
-- - Common: Python's text, dicts, `str` and `int` as the program uses them, and shared lemmas.
-- - Tests: runs on a small system.
--
-- How the parts meet: the API's `create_build` and `create_generate` unpack the upload into a job's
-- directory, make its record and put a task in a queue; the worker takes it as `run_build` or
-- `run_generate`, which make the command and call `run_job`. `run_job` runs `run_sandboxed` and then,
-- whatever its outcome, `send_callback` and the two prunings. All of them act on one `World`. The
-- daemon's calls give back a changed world, since a container writes into its mounts and the API writes
-- cancel requests meanwhile. Race cuts the two at their accesses to the job store: Race.Requests and
-- Race.Turns relate its steps to `cancel_job` and `run_sandboxed`. There RQ may cancel a task or raise
-- wherever the task is, and the record does not expire.
--
-- Bounds and fuel: the only loop with fuel is the wait for a container, which gets one round more than
-- the timeout has seconds; each round waits a second at least, so the fuel is enough, and a run that
-- spends it counts as one that does not return. Times are whole seconds, sizes whole bytes.
--
-- What is a parameter: `zipfile` and `tarfile`, `realpath`, `uuid4`, `mimetypes`; the Docker daemon; URL
-- parsing, name resolution and the POST; JSON and HMAC; whether copying a file into the cache succeeds;
-- what RQ does with a task, and whether it takes a job out of its queue; PreTeXt's download of packages.
--
-- What is not modelled: conversions and format specifications in command
-- templates; permissions; logging; deployment.
pub mod Common
pub mod Config
pub mod Jobs
pub mod Files
pub mod AssetCache
pub mod Docker
pub mod World
pub mod Notify
pub mod Build
pub mod Api
pub mod Race
pub mod Prefetch
pub mod Tests
