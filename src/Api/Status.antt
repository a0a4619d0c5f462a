-- ===== src/Api/Status.antt =====
-- `_status` and `get_generated_file`.
pub mod Files
pub mod Parts
pub mod Shown
use Prim.Native.Char.{code}
use Prim.Native.String
use pretext_plus_build_full.Common.{
  String, ◌<>◌, Bool, true, false, Option, none, some, List, [], ◌∷◌, ◌&&◌, not, eqb, if◌then◌else◌,
}
use pretext_plus_build_full.Common.Dict
use pretext_plus_build_full.Common.Dict.{Dict}
use pretext_plus_build_full.Common.Text.{is_truthy}
use pretext_plus_build_full.Config.Load.{member}
use pretext_plus_build_full.Files.{Bytes}
use pretext_plus_build_full.Jobs.{Record, job_prefix}
use pretext_plus_build_full.World.{World, Archive}
use pretext_plus_build_full.Notify.{Codec, or_empty}
use pretext_plus_build_full.Notify.Callback.{artifact_exists, names_of}
use pretext_plus_build_full.Api.{Answer, answered, http_error, load_job, is_finished, shown, zip_of}

-- A value of the answer's JSON object.
pub data Json : Type 0 where
  text : String → Json
  names : List String → Json

unfoldable pub texts : Record → Dict Json
texts [] = []
texts ((k, v) ∷ fields) = (k, text v) ∷ texts fields

-- `if key in data: resp[key] = json.loads(data[key])`; `none` is the exception.
unfoldable pub parse_field : Codec → String → Record → Dict Json → Option (Dict Json)
unfolding Dict.lookup Dict.insert
parse_field codec key fields resp = elim (Dict.lookup key fields) [
  | none ↦ some resp
  | some s ↦ elim (codec.load_names s) [
    | none ↦ none
    | some list ↦ some (Dict.insert key (names list) resp)
  ]
]

-- `if present: resp[key] = value`
unfoldable pub set_if : Bool → String → String → Dict Json → Dict Json
unfolding Dict.insert
set_if present key value resp = if present then Dict.insert key (text value) resp else resp

abbrev pub is_some {ℓ} : {A : Type ℓ} → Option A → Bool
is_some none = false
is_some (some a) = true

abbrev pub internal_error {ℓ} : {A : Type ℓ} → Answer A
internal_error = http_error 500 "Internal Server Error"

-- The part of `_status` behind the job's prefix.
unfoldable pub status_with : Codec → World → String → String → Record → Answer (Dict Json)
unfolding texts parse_field set_if artifact_exists Dict.lookup Dict.update
status_with codec w job_id prefix fields =
    let resp = Dict.update (("job_id", text job_id) ∷ []) (texts fields) in
    elim (parse_field codec "files" fields resp) [
      | none ↦ internal_error
      | some with_files ↦ elim (parse_field codec "cached_files" fields with_files) [
        | none ↦ internal_error
        | some with_cached ↦ answered (
            set_if (artifact_exists w job_id) "artifact_url"
              (prefix <> "/" <> job_id <> "/artifact")
              (set_if (is_some (Dict.lookup "log" fields)) "log_url"
                (prefix <> "/" <> job_id <> "/log") with_cached))
      ]
    ]

-- `_status`
unfoldable pub status : Codec → World → String → String → Answer (Dict Json)
unfolding load_job status_with job_prefix
status codec w job_id kind = elim (load_job w job_id kind) [
  | http_error code detail ↦ http_error code detail
  | answered fields ↦ elim (job_prefix kind) [
    | none ↦ internal_error
    | some prefix ↦ status_with codec w job_id prefix fields
  ]
]

-- `z.read(path)`: of members with one name, the last; `none` is the `KeyError`.
unfoldable pub read_member : String → Archive → Option Bytes
unfolding Dict.lookup
read_member path [] = none
read_member path ((name, bytes) ∷ z) = elim (read_member path z) [
  | some later ↦ some later
  | none ↦ Dict.lookup path ((name, bytes) ∷ [])
]

-- os.path.basename(path)
unfoldable pub basename : String → String → String
basename part String.[] = part
basename part (String.◌∷◌ c s) =
    basename (if eqb (code c) b'/' then "" else part <> String.◌∷◌ c "") s

pub record FileResponse : Type 0 where
  pub content : Bytes
  pub media_type : String
  pub disposition : String

-- `json.loads(data["files"]) if data.get("files") else []`
unfoldable pub listed_files : Codec → Record → Option (List String)
unfolding names_of Dict.lookup
listed_files codec fields = names_of codec (or_empty (Dict.lookup "files" fields))

-- `get_generated_file`; `guess` is `mimetypes.guess_type(path)[0]`.
module _ (codec : Codec) (guess : String → Option String) where
  -- The `Response`.
  unfoldable pub response_of : String → Bytes → FileResponse
  unfolding basename
  response_of path content = record {
    content = content;
    media_type = elim (guess path) [
      | none ↦ "application/octet-stream"
      | some t ↦ if is_truthy t then t else "application/octet-stream"
    ];
    disposition = "attachment; filename=\"" <> basename "" path <> "\"";
  }

  unfoldable pub file_response : String → Archive → Answer FileResponse
  unfolding read_member response_of
  file_response path z = elim (read_member path z) [
    | none ↦ internal_error
    | some content ↦ answered (response_of path content)
  ]

  unfoldable pub serve_file : World → String → String → List String → Answer FileResponse
  unfolding zip_of file_response Dict.lookup member
  serve_file w job_id path files = elim (zip_of (Dict.lookup job_id w.jobs)) [
    | none ↦ http_error 404 "No such file in this job's output"
    | some z ↦
        if member path files
        then file_response path z
        else http_error 404 "No such file in this job's output"
  ]

  unfoldable pub get_generated_file : World → String → String → Answer FileResponse
  unfolding load_job is_finished shown listed_files serve_file Dict.lookup
  get_generated_file w job_id path = elim (load_job w job_id "generate") [
    | http_error code detail ↦ http_error code detail
    | answered fields ↦
        if not (is_finished (Dict.lookup "status" fields))
        then http_error 409
            ("Job not finished (status=" <> shown (Dict.lookup "status" fields) <> ")")
        else elim (listed_files codec fields) [
          | none ↦ internal_error
          | some files ↦ serve_file w job_id path files
        ]
  ]
