-- ===== src/Docker.antt =====
-- The Docker daemon, which the worker calls and does not implement, and the exceptions that its
-- calls raise. While a container runs, it writes into its mounts and others use the job store, so
-- each call that waits gives back a changed world. `hangs` is a call that does not return.
use pretext_plus_build_full.Common.{ℕ, String, Option, List}

pub data Exception : Type 0 where
  image_not_found : Exception
  api_error : Exception
  read_timeout : Exception
  connection_error : Exception
  cancelled : Exception
  os_error : Exception
  other_error : Exception

pub data Outcome {ℓ} (A : Type ℓ) : Type ℓ where
  returned : A → Outcome A
  raised : Exception → Outcome A
  hangs : Outcome A

-- The arguments of `containers.run`; `none` is an argument that is not passed.
pub record RunArgs : Type 0 where
  pub image : String
  pub command : List String
  pub volumes : List (String × String)
  pub network_mode : String
  pub mem_limit : String
  pub nano_cpus : ℕ
  pub pids_limit : ℕ
  pub cap_drop : List String
  pub security_opt : List String
  pub user : Option String
  pub environment : Option (List (String × String))

-- One daemon, over the worlds that its containers and the rest of the system change. A container
-- is known by a number; `StatusCode` may be missing from what `wait` returns. Decoding a log with
-- `errors="replace"` never fails.
pub record Daemon (World : Type 0) : Type 0 where
  pub run : RunArgs → World → Outcome ℕ × World
  pub wait : ℕ → ℕ → World → Outcome (Option ℕ) × World
  pub kill : ℕ → World → Outcome (Unit {0}) × World
  pub logs : ℕ → World → Outcome String × World
  pub remove : ℕ → World → Outcome (Unit {0}) × World
