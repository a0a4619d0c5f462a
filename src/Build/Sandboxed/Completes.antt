-- ===== src/Build/Sandboxed/Completes.antt =====
-- The run of a job with a calm daemon.
use pretext_plus_build_full.Common.{String, Bool, List}
use pretext_plus_build_full.Common.Dict
use pretext_plus_build_full.Common.Dict.{Dict}
use pretext_plus_build_full.Config.{Settings}
use pretext_plus_build_full.Docker.{Daemon}
use pretext_plus_build_full.World.{World}
use pretext_plus_build_full.Build.{Sandbox}
use pretext_plus_build_full.Build.Mounts.Present.{Present}
use pretext_plus_build_full.Build.Sandboxed.Calm.{Calm}

module _ (settings : Settings) (daemon : Daemon World) (copies : String → Bool)
    (dump_names : List String → String) (job_id kind : String) (sandbox : Sandbox)
    (list_files : Bool) where
  abbrev Done : Unit {0} → World → Type 0
  Done u w = Unit
