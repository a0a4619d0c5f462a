-- ===== src/Build.antt =====
-- src/build.py: the worker. One job runs one command in a container and leaves its outcome in the
-- job store; the callback is sent after it.
pub mod Zip
pub mod Wait
pub mod Mounts
pub mod Sandboxed
pub mod Run
pub mod Command
use pretext_plus_build_full.Common.{
  ℕ, String, ◌<>◌, Bool, true, false, Option, none, some, List, [], ◌∷◌, ◌++◌, if◌then◌else◌, ◌==◌,
}
use pretext_plus_build_full.Common.Dict
use pretext_plus_build_full.Common.Dict.{Dict}
use pretext_plus_build_full.Common.Text.{is_truthy}
use pretext_plus_build_full.Config.{Settings}
use pretext_plus_build_full.Docker.{RunArgs}

pub record Sandbox : Type 0 where
  pub mem_limit : String
  pub cpus : ℕ
  pub pids_limit : ℕ
  pub timeout : ℕ
  pub output_subdir : String
  pub skip_top_level_dotfiles : Bool

unfoldable pub build_sandbox : Settings → Sandbox
build_sandbox settings = record {
  mem_limit = settings.build_mem_limit;
  cpus = settings.build_cpus;
  pids_limit = settings.build_pids_limit;
  timeout = settings.build_timeout;
  output_subdir = settings.output_subdir;
  skip_top_level_dotfiles = false;
}

unfoldable pub generate_sandbox : Settings → Sandbox
generate_sandbox settings = record {
  mem_limit = settings.generate_mem_limit;
  cpus = settings.generate_cpus;
  pids_limit = settings.generate_pids_limit;
  timeout = settings.generate_timeout;
  output_subdir = settings.generate_output_subdir;
  skip_top_level_dotfiles = true;
}

set_all : List String → String → Dict String → Dict String
unfolding Dict.insert
set_all [] v env = env
set_all (name ∷ names) v env = set_all names v (Dict.insert name v env)

-- `_container_environment`
unfoldable pub container_environment : Settings → Dict String
unfolding set_all Dict.insert
container_environment settings =
    let home : Dict String =
      if is_truthy settings.build_home then Dict.insert "HOME" settings.build_home [] else [] in
    if is_truthy settings.build_proxy
    then set_all ("NO_PROXY" ∷ "no_proxy" ∷ []) "localhost,127.0.0.1" (
        set_all ("HTTP_PROXY" ∷ "HTTPS_PROXY" ∷ "http_proxy" ∷ "https_proxy" ∷ [])
          settings.build_proxy home)
    else home

given : Dict String → Option (Dict String)
given [] = none
given (v ∷ env) = some (v ∷ env)

-- The keyword arguments of `containers.run` that depend on something; it also detaches, and works
-- in /work.
unfoldable pub run_args : Settings → Sandbox → String → Dict String → RunArgs
unfolding container_environment given
run_args settings sandbox command volumes = record {
  image = settings.build_image;
  command = "sh" ∷ "-c" ∷ command ∷ [];
  volumes = volumes;
  network_mode = settings.build_network;
  mem_limit = sandbox.mem_limit;
  nano_cpus = sandbox.cpus;
  pids_limit = sandbox.pids_limit;
  cap_drop = "ALL" ∷ [];
  security_opt = "no-new-privileges" ∷ [];
  user = if is_truthy settings.build_user then some settings.build_user else none;
  environment = given (container_environment settings);
}
