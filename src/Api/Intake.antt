-- ===== src/Api/Intake.antt =====
-- `_safe_extract` and `_intake`. `zipfile`, `tarfile`, the file system's `realpath` and `uuid4` are
-- arguments; making the directories and writing the upload succeed.
pub mod Inside
pub mod Accepts
use Prim.Native.Char.{code}
use Prim.Native.String
use pretext_plus_build_full.Common.{
  String, ◌<>◌, Bool, true, false, Option, none, some, List, [], ◌∷◌, ◌++◌, ◌&&◌, ◌||◌, not, eqb,
  if◌then◌else◌, ◌==◌,
}
use pretext_plus_build_full.Common.Dict
use pretext_plus_build_full.Common.Text.{codes, is_truthy, starts_with, lower_ends_with}
use pretext_plus_build_full.Config.{Settings}
use pretext_plus_build_full.Files.{Bytes, Entries}
use pretext_plus_build_full.Jobs
use pretext_plus_build_full.Jobs.{Fields, word}
use pretext_plus_build_full.World.{World, JobDir}
use pretext_plus_build_full.Notify.{Network, or_empty, is_allowed_callback_url}
use pretext_plus_build_full.Api.{Answer, answered, http_error}

-- A value, or an exception with its text.
pub data Attempt {ℓ} (A : Type ℓ) : Type ℓ where
  done : A → Attempt A
  failed : String → Attempt A

infixl 5 ◌>>=◌ ◌>>◌
abbrev pub ◌>>=◌ {ℓ κ} : {A : Type ℓ} {B : Type κ} → Attempt A → (A → Attempt B) → Attempt B
done a >>= f = f a
failed e >>= f = failed e

abbrev pub ◌>>◌ {ℓ} : {B : Type ℓ} → Attempt (Unit {0}) → Attempt B → Attempt B
m >> k = m >>= λ _. k

-- What is read from an uploaded file, and where a path leads.
pub record Archives : Type 0 where
  pub is_zipfile : Bytes → Bool
  pub namelist : Bytes → Attempt (List String)
  pub extract_zip : Bytes → Attempt Entries
  pub is_tarfile : Bytes → Bool
  pub extract_tar : Bytes → Attempt Entries
  pub realpath : String → String

-- `p.endswith("/")`
ends_in_slash : String → Bool
ends_in_slash String.[] = false
ends_in_slash (String.◌∷◌ c s) = if is_truthy s then ends_in_slash s else eqb (code c) b'/'

-- os.path.join(a, b)
unfoldable pub join_path : String → String → String
unfolding starts_with ends_in_slash
join_path a b =
    if starts_with (codes b) (codes "/")
    then b
    else if not (is_truthy a) || ends_in_slash a
    then a <> b
    else a <> ("/" <> b)

-- `_job_dir`
unfoldable pub job_dir : Settings → String → String
unfolding join_path
job_dir settings job_id = join_path (join_path settings.data_dir "jobs") job_id

-- `target == dest_root or target.startswith(dest_root + os.sep)`
unfoldable pub is_inside : String → String → Bool
unfolding starts_with
is_inside dest_root target =
    target == dest_root || starts_with (codes target) (codes dest_root ++ codes "/")

module _ (archives : Archives) where
  -- The loop over the members of a zip file.
  unfoldable pub check_members : String → List String → Attempt (Unit {0})
  unfolding is_inside join_path
  check_members dest [] = done tt
  check_members dest (m ∷ members) =
      if is_inside (archives.realpath dest) (archives.realpath (join_path dest m))
      then check_members dest members
      else failed ("unsafe path in archive: " <> m)

  -- `_safe_extract` of an upload into an empty directory.
  unfoldable pub safe_extract : Bytes → String → Option String → Attempt Entries
  unfolding check_members lower_ends_with
  safe_extract upload dest filename =
      if lower_ends_with (codes (or_empty filename)) (codes ".zip") || archives.is_zipfile upload
      then (do
        members ← archives.namelist upload
        check_members dest members
        archives.extract_zip upload)
      else if archives.is_tarfile upload
      then archives.extract_tar upload
      else failed "unsupported archive: use .zip or .tar.gz"

-- An `UploadFile`.
pub record Upload : Type 0 where
  pub filename : Option String
  pub content : Bytes

-- `callback_url is not None and not is_allowed_callback_url(callback_url)`
unfoldable pub refuses_callback : Settings → Network → Option String → World → Bool
unfolding is_allowed_callback_url
refuses_callback settings net none w = false
refuses_callback settings net (some url) w = not (is_allowed_callback_url settings net url w)

-- `if callback_url: fields["callback_url"] = callback_url`
unfoldable pub with_callback : Option String → Fields → Fields
unfolding Dict.insert
with_callback none fields = fields
with_callback (some url) fields =
    if is_truthy url then Dict.insert "callback_url" (word url) fields else fields

-- `_intake`, with the id that `uuid4` gives.
module _ (settings : Settings) (net : Network) (archives : Archives) (job_id : String) where
  -- The end of it: what becomes of the upload.
  unfoldable pub register : Option String → Fields → World → Attempt Entries → Answer String × World
  unfolding with_callback Dict.insert Dict.remove
  register callback_url fields w (failed e) = (
    http_error 422 ("Could not extract archive: " <> e),
    record w { jobs = Dict.remove job_id w.jobs },
  )
  register callback_url fields w (done tree) = (
    answered job_id,
    record w {
      redis = Jobs.create settings.job_ttl w.redis job_id (with_callback callback_url fields);
      jobs =
          Dict.insert job_id (record { mtime = w.redis.clock; work = tree; output_zip = none })
            w.jobs;
    },
  )

  unfoldable pub intake : Upload → Option String → Fields → World → Answer String × World
  unfolding refuses_callback safe_extract register job_dir join_path
  intake upload callback_url fields w =
      if refuses_callback settings net callback_url w
      then (http_error 422 "Invalid or disallowed callback_url", w)
      else register callback_url fields w (
          safe_extract archives upload.content (join_path (job_dir settings job_id) "work")
            upload.filename)
