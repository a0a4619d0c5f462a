-- ===== src/Build/Command.antt =====
-- `run_build` and `run_generate`, the entry points of the two queues: the command that a job runs,
-- from the template of the settings and the words of the request.
pub mod Words
use pretext_plus_build_full.Common.{
  String, Bool, true, false, Option, none, some, List, [], ◌∷◌, map,
}
use pretext_plus_build_full.Common.Dict.{Dict}
use pretext_plus_build_full.Common.Text.{join}
use pretext_plus_build_full.Common.Text.Quote.{quote}
use pretext_plus_build_full.Common.Text.Format.{format}
use pretext_plus_build_full.Config.{Settings}
use pretext_plus_build_full.Docker.{Daemon, other_error}
use pretext_plus_build_full.World.{World, Action, raise}
use pretext_plus_build_full.Notify.{Network, Codec}
use pretext_plus_build_full.Build.{build_sandbox, generate_sandbox}
use pretext_plus_build_full.Build.Run.{run_job}

unfoldable pub build_command : Settings → String → Option String
unfolding format quote
build_command settings target = format (("target", quote target) ∷ []) settings.build_command

unfoldable pub generate_command : Settings → String → List String → Option String
unfolding format quote join
generate_command settings target assets =
    format (("target", quote target) ∷ ("assets", join " " (map quote assets)) ∷ [])
      settings.generate_command

module _ (settings : Settings) (daemon : Daemon World) (net : Network) (codec : Codec)
    (copies : String → Bool) (job_id : String) where
  unfoldable pub run_build : String → Action (Unit {0})
  unfolding build_command run_job
  run_build target = elim (build_command settings target) [
    | none ↦ raise other_error
    | some command ↦
        run_job settings daemon net codec copies job_id "build" command (build_sandbox settings)
          false
  ]

  unfoldable pub run_generate : String → List String → Action (Unit {0})
  unfolding generate_command run_job
  run_generate target assets = elim (generate_command settings target assets) [
    | none ↦ raise other_error
    | some command ↦
        run_job settings daemon net codec copies job_id "generate" command
          (generate_sandbox settings) true
  ]
