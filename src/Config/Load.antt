-- ===== src/Config/Load.antt =====
-- `Settings`: each variable with its default. `none` is the `ValueError` of a number that is not
-- one. A number is at least 0 and a decimal is written without an exponent, as every default is.
use Prim.Native.Nat.{◌*◌, ◌/◌, ◌+◌, ◌-◌, ◌^◌}
use pretext_plus_build_full.Common.{
  ℕ, String, Bool, true, false, Option, none, some, List, [], ◌∷◌, eqb, if◌then◌else◌, ◌&&◌, map,
  ◌==◌, ◌||◌, ◌<>◌,
}
use pretext_plus_build_full.Common.Dict
use pretext_plus_build_full.Common.Dict.{Dict}
use pretext_plus_build_full.Common.Text.{codes, strip, is_digit, is_truthy, lower_text, rstrip_dots}
use pretext_plus_build_full.Common.Text.Split.{split_at, truthy_only}
use pretext_plus_build_full.Common.Decimal.{ℤ, pos, negsuc, parse_int}
use pretext_plus_build_full.Config.{Settings}

-- os.getenv(name, default)
unfoldable pub getenv : Dict String → String → String → String
unfolding Dict.lookup
getenv env name default = elim (Dict.lookup name env) [ none ↦ default | some v ↦ v ]

infixl 5 ◌>>=◌
abbrev ◌>>=◌ {ℓ κ} : {A : Type ℓ} {B : Type κ} → Option A → (A → Option B) → Option B
none >>= f = none
some a >>= f = f a

natural : Option ℤ → Option ℕ
natural none = none
natural (some (pos n)) = some n
natural (some (negsuc n)) = none

-- `int(...)` of a number that is not negative
unfoldable pub int_of : String → Option ℕ
unfolding natural parse_int
int_of s = natural (parse_int s)

-- The digits of a decimal, the number that they make and how many stand behind the point.
decimal : List ℕ → ℕ → ℕ → Bool → Option (ℕ × ℕ)
decimal [] n places point = some (n, places)
decimal (c ∷ s) n places point =
    let next = decimal s (n * 10 + (c - b'0')) (if point then places + 1 else places) point in
    let dot = decimal s n places true in
    if is_digit c then next else if eqb c b'.' && (if point then false else true) then dot else none

scaled : ℕ → Option (ℕ × ℕ) → Option ℕ
scaled k none = none
scaled k (some (n, places)) = some (n * k / 10 ^ places)

-- `int(float(s) * k)`
unfoldable pub times : String → ℕ → Option ℕ
unfolding decimal scaled strip is_digit
times s k = elim (codes (strip s)) [ [] ↦ none | c ∷ cs ↦ scaled k (decimal (c ∷ cs) 0 0 false) ]

-- `[t.strip() for t in s.split(",") if t.strip()]`
unfoldable pub listed : String → List String
unfolding strip split_at truthy_only
listed s = truthy_only (map strip (split_at b',' s))

-- `s in names`
unfoldable pub member : String → List String → Bool
member s [] = false
member s (t ∷ names) = t == s || member s names

-- `a or b` of two texts
unfoldable pub or_text : String → String → String
or_text a b = if is_truthy a then a else b

unfoldable pub default_build_command : String
default_build_command =
    "if [ -d ~/.ptx/latex-packages ]; then mkdir -p generated-assets/latex-packages"
    <> " && cp -r ~/.ptx/latex-packages/. generated-assets/latex-packages/; fi;"
    <> " pretext build {target}"

-- The body of the class, with `env` for `os.environ`.
unfoldable pub load : Dict String → Option Settings
unfolding getenv int_of times listed member or_text lower_text rstrip_dots default_build_command
load env = do
  cpus ← times (getenv env "BUILD_CPUS" "2") 1000000000
  pids ← int_of (getenv env "BUILD_PIDS_LIMIT" "512")
  timeout ← int_of (getenv env "BUILD_TIMEOUT" "600")
  poll ← int_of (getenv env "BUILD_POLL_INTERVAL" "2")
  generate_cpus ← times (getenv env "GENERATE_CPUS" "1") 1000000000
  generate_pids ← int_of (getenv env "GENERATE_PIDS_LIMIT" "256")
  generate_timeout ← int_of (getenv env "GENERATE_TIMEOUT" "120")
  max_age ← times (getenv env "ASSET_CACHE_MAX_AGE_DAYS" "30") 86400
  max_bytes ← times (getenv env "ASSET_CACHE_MAX_GB" "5") 1073741824
  callback_timeout ← int_of (getenv env "CALLBACK_TIMEOUT" "10")
  retries ← int_of (getenv env "CALLBACK_RETRIES" "3")
  tail_chars ← int_of (getenv env "CALLBACK_LOG_TAIL_CHARS" "4000")
  ttl ← int_of (getenv env "JOB_TTL" "86400")
  some (record {
    build_token = getenv env "BUILD_TOKEN" "";
    redis_url = getenv env "REDIS_URL" "redis://redis:6379/0";
    build_image = getenv env "BUILD_IMAGE" "pretextbook/pretext-full";
    build_command = getenv env "BUILD_COMMAND" default_build_command;
    build_network = getenv env "BUILD_NETWORK" "none";
    build_proxy = getenv env "BUILD_PROXY" "";
    build_mem_limit = getenv env "BUILD_MEM_LIMIT" "2g";
    build_cpus = cpus;
    build_pids_limit = pids;
    build_timeout = timeout;
    build_poll_interval = poll;
    build_user = getenv env "BUILD_USER" "";
    build_home = getenv env "BUILD_HOME" "";
    output_subdir = getenv env "OUTPUT_SUBDIR" "output";
    generate_command = getenv env "GENERATE_COMMAND" "pretext generate {assets} -t {target}";
    generate_mem_limit = getenv env "GENERATE_MEM_LIMIT" "1g";
    generate_cpus = generate_cpus;
    generate_pids_limit = generate_pids;
    generate_timeout = generate_timeout;
    generate_output_subdir = getenv env "GENERATE_OUTPUT_SUBDIR" ".cache";
    asset_cache_subdir = getenv env "ASSET_CACHE_SUBDIR" "asset-cache";
    asset_cache_types =
        listed (getenv env "ASSET_CACHE_TYPES" "latex-image,asymptote,sageplot,prefigure");
    asset_cache_max_age = max_age;
    asset_cache_max_bytes = max_bytes;
    callback_timeout = callback_timeout;
    callback_retries = retries;
    callback_log_tail_chars = tail_chars;
    callback_allowed_hosts =
        map (λ h. rstrip_dots (lower_text h)) (listed (getenv env "CALLBACK_ALLOWED_HOSTS" ""));
    callback_allow_private_ips =
        member (lower_text (getenv env "CALLBACK_ALLOW_PRIVATE_IPS" ""))
          ("1" ∷ "true" ∷ "yes" ∷ []);
    callback_secret = or_text (getenv env "CALLBACK_SECRET" "") (getenv env "BUILD_TOKEN" "");
    data_dir = getenv env "DATA_DIR" "/data";
    host_data_dir = getenv env "HOST_DATA_DIR" "";
    job_ttl = ttl;
  })
