-- ===== src/Config.antt =====
-- src/config.py: the settings and how they are read from the environment. A decimal number that
-- the program reads by `float` is held as the whole number that the program makes of it: CPUs in
-- billionths, ages in seconds, sizes in bytes.
pub mod Load
mod Tests
use pretext_plus_build_full.Common.{ℕ, String, Bool, List}

pub record Settings : Type 0 where
  pub build_token : String
  pub redis_url : String
  pub build_image : String
  pub build_command : String
  pub build_network : String
  pub build_proxy : String
  pub build_mem_limit : String
  pub build_cpus : ℕ
  pub build_pids_limit : ℕ
  pub build_timeout : ℕ
  pub build_poll_interval : ℕ
  pub build_user : String
  pub build_home : String
  pub output_subdir : String
  pub generate_command : String
  pub generate_mem_limit : String
  pub generate_cpus : ℕ
  pub generate_pids_limit : ℕ
  pub generate_timeout : ℕ
  pub generate_output_subdir : String
  pub asset_cache_subdir : String
  pub asset_cache_types : List String
  pub asset_cache_max_age : ℕ
  pub asset_cache_max_bytes : ℕ
  pub callback_timeout : ℕ
  pub callback_retries : ℕ
  pub callback_log_tail_chars : ℕ
  pub callback_allowed_hosts : List String
  pub callback_allow_private_ips : Bool
  pub callback_secret : String
  pub data_dir : String
  pub host_data_dir : String
  pub job_ttl : ℕ
