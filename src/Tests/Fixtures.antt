-- ===== src/Tests/Fixtures.antt =====
-- A small system for tests: its settings, a job store with two jobs, a network and three daemons.
use pretext_plus_build_full.Common.{◌<>◌, false, none, some, [], ◌∷◌, if◌then◌else◌, ◌==◌}
use pretext_plus_build_full.Common.Dict
use pretext_plus_build_full.Common.Text.{join}
use pretext_plus_build_full.Config.{Settings}
use pretext_plus_build_full.Docker.{returned, raised, read_timeout, Daemon}
use pretext_plus_build_full.Files.{dir, file, link, end, entry, to_file}
use pretext_plus_build_full.Jobs.{Redis}
use pretext_plus_build_full.AssetCache.{Cache, project}
use pretext_plus_build_full.World.{World, JobDir}
use pretext_plus_build_full.Notify.{Network, Codec, Address, response}

abbrev pub settings : Settings
settings = record {
  build_token = "secret";
  redis_url = "redis://redis:6379/0";
  build_image = "pretextbook/pretext-full";
  build_command = "pretext build {target}";
  build_network = "none";
  build_proxy = "";
  build_mem_limit = "2g";
  build_cpus = 2000000000;
  build_pids_limit = 512;
  build_timeout = 5;
  build_poll_interval = 2;
  build_user = "";
  build_home = "";
  output_subdir = "output";
  generate_command = "pretext generate {assets} -t {target}";
  generate_mem_limit = "1g";
  generate_cpus = 1000000000;
  generate_pids_limit = 256;
  generate_timeout = 3;
  generate_output_subdir = ".cache";
  asset_cache_subdir = "asset-cache";
  asset_cache_types = "latex-image" ∷ [];
  asset_cache_max_age = 100;
  asset_cache_max_bytes = 5;
  callback_timeout = 10;
  callback_retries = 3;
  callback_log_tail_chars = 4;
  callback_allowed_hosts = "pretext.plus" ∷ [];
  callback_allow_private_ips = false;
  callback_secret = "secret";
  data_dir = "/data";
  host_data_dir = "/srv/data";
  job_ttl = 60;
}

-- Job `b` waits; a cancel request for job `c` has come.
abbrev pub redis : Redis
redis = record {
  hashes =
      (
        "job:b",
        record {
          fields =
              ("status", "queued")
              ∷ ("kind", "build")
              ∷ ("callback_url", "https://pretext.plus/done")
              ∷ [];
          expires_at = some 1060;
        },
      )
      ∷ (
        "job:c",
        record {
          fields = ("status", "queued") ∷ ("cancel_requested", "1") ∷ [];
          expires_at = some 1060;
        },
      )
      ∷ [];
  clock = 1000;
}

abbrev pub world : World
world = record {
  redis = redis;
  jobs =
      (
        "b",
        record {
          mtime = 1000;
          work =
              entry "output"
                (dir (
                  entry "index.html" (file (1 ∷ 2 ∷ []))
                    (entry "leak" (link 9 (to_file (7 ∷ []))) end)))
                end;
          output_zip = none;
        },
      )
      ∷ [];
  cache = some [];
  sent = [];
}

-- Two projects of 4 bytes and one of 2, last used at different times, and a stray file's name.
abbrev pub cache : Cache
cache =
    ("old", project 900 (entry "a" (file (1 ∷ 2 ∷ 3 ∷ 4 ∷ [])) end))
    ∷ ("new", project 990 (entry "b" (file (1 ∷ 2 ∷ 3 ∷ 4 ∷ [])) end))
    ∷ ("stale", project 10 (entry "c" (file (1 ∷ 2 ∷ [])) end))
    ∷ []

abbrev pub public_address : Address
public_address = record {
  is_loopback = false;
  is_private = false;
  is_link_local = false;
  is_reserved = false;
  is_unspecified = false;
  is_multicast = false;
}

-- One name resolves, and every POST is answered by 503.
abbrev pub network : Network
network = record {
  urlparse = λ url.
      if url == "https://pretext.plus/done"
      then some (record { scheme = "https"; hostname = some "PreTeXt.plus." })
      else none;
  getaddrinfo = λ host w. if host == "pretext.plus" then some (public_address ∷ []) else none;
  post = λ request w. response 503;
  status_error = λ code. "503 Server Error";
}

abbrev pub codec : Codec
codec = record {
  dump_names = λ names. join "," names;
  load_names = λ s. some [];
  dump_payload = λ p. p.log_tail;
  sign = λ key body. key <> body;
}

-- A container that exits at once.
abbrev pub prompt : Daemon World
prompt = record {
  run = λ args w. (returned 1, w);
  wait = λ container timeout w. (returned (some 0), w);
  kill = λ container w. (returned tt, w);
  logs = λ container w. (returned "done", w);
  remove = λ container w. (returned tt, w);
}

-- A container that never exits.
abbrev pub endless : Daemon World
endless = record {
  run = λ args w. (returned 1, w);
  wait = λ container timeout w. (raised read_timeout, w);
  kill = λ container w. (returned tt, w);
  logs = λ container w. (returned "busy", w);
  remove = λ container w. (returned tt, w);
}

abbrev pub written : JobDir
written = record {
  mtime = 1001;
  work = entry "output" (dir (entry "index.html" (file (1 ∷ 2 ∷ [])) end)) end;
  output_zip = none;
}

-- The container of job `b`, which writes its output at once and exits with 0.
abbrev pub writer : Daemon World
writer = record prompt {
  run = λ args w. (returned 1, record w { jobs = Dict.insert "b" written w.jobs });
}
