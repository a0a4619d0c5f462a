-- ===== src/Api.antt =====
-- src/api.py: the checks on a request and the handlers of a job that is there. An answer is a value,
-- an `HTTPException` with its code and detail, or another exception. RQ's queue is an argument.
pub mod Requests
pub mod Cancel
pub mod Assets
pub mod Isolation
pub mod Intake
pub mod Create
pub mod Status
pub mod Routes
pub mod Loaded
pub mod Finished
use pretext_plus_build_full.Common.{
  ℕ, String, ◌<>◌, Bool, true, false, Option, none, some, List, [], ◌∷◌, ◌&&◌, ◌||◌, not,
  if◌then◌else◌, ◌==◌, eqb, ◌++◌, ◌≡◌, ◌⊎◌, refl, inl, inr,
}
use pretext_plus_build_full.Common.Dict
use pretext_plus_build_full.Common.Text.{
  codes, is_truthy, strip, drop_text, lower_starts_with, is_letter, is_alnum, is_space, star_end,
  join,
}
use pretext_plus_build_full.Common.Text.Split.{split_runs, truthy_only}
use pretext_plus_build_full.Config.{Settings}
use pretext_plus_build_full.Config.Load.{member}
use pretext_plus_build_full.Jobs
use pretext_plus_build_full.Jobs.{Fields, Record, word, now}
use pretext_plus_build_full.AssetCache.Names.{project_id_match}
use pretext_plus_build_full.World.{World, Archive, JobDir}
use pretext_plus_build_full.Notify.{or_empty}
use pretext_plus_build_full.Notify.Callback.{kind_of}

pub data Answer {ℓ} (A : Type ℓ) : Type ℓ where
  answered : A → Answer A
  http_error : ℕ → String → Answer A

pub Answer-cases {ℓ} :
    {A : Type ℓ} (r : Answer A)
    → ((a : A) × (r ≡ answered a)) ⊎ ((code : ℕ) × (detail : String) × (r ≡ http_error code detail))
Answer-cases (answered a) = inl (a, refl)
Answer-cases (http_error code detail) = inr (code, detail, refl)

-- `_project_id`
unfoldable pub project_id_fields : Option String → Answer Fields
unfolding project_id_match strip
project_id_fields value =
    let v = strip (or_empty value) in
    if not (is_truthy v)
    then answered []
    else if not (project_id_match v)
    then http_error 422
        "Invalid project_id: use 1-64 letters, digits, '-' or '_', not starting with '-' or '_'"
    else answered (("project_id", word v) ∷ [])

-- The token of an `Authorization` header.
unfoldable pub header_token : String → String
unfolding lower_starts_with
header_token authorization =
    if lower_starts_with (codes authorization) (codes "bearer ")
    then drop_text 7 authorization
    else authorization

-- The token that a request presents.
unfoldable pub presented : Option String → Option String → Option String
unfolding header_token
presented (some token) authorization = some token
presented none none = none
presented none (some authorization) =
    if is_truthy authorization then some (header_token authorization) else none

-- `token != settings.build_token`
unfoldable pub differs : Option String → String → Bool
differs none build_token = true
differs (some token) build_token = not (token == build_token)

-- `_check_token`
unfoldable pub check_token : Settings → Option String → Option String → Answer (Unit {0})
unfolding presented differs
check_token settings form_token authorization =
    if not (is_truthy settings.build_token)
      || differs (presented form_token authorization) settings.build_token
    then http_error 401 "Invalid or missing token"
    else answered tt

-- `[a for item in assets for a in re.split(r"[,\s]+", item) if a]`
unfoldable pub is_separator : ℕ → Bool
unfolding is_space
is_separator c = is_space c || eqb c b','

unfoldable pub asset_names : List String → List String
unfolding split_runs truthy_only is_separator
asset_names [] = []
asset_names (item ∷ items) = truthy_only (split_runs is_separator item) ++ asset_names items

-- _ASSET_NAME.match(s): `^[A-Za-z][A-Za-z0-9-]*$`
unfoldable pub asset_name_match : String → Bool
unfolding is_letter is_alnum star_end
asset_name_match s = elim (codes s) [
  | [] ↦ false
  | c ∷ cs ↦ is_letter c && star_end (λ d. is_alnum d || eqb d b'-') cs
]

-- `data.get("status") not in TERMINAL_STATUSES`, of which this is the opposite.
unfoldable pub is_finished : Option String → Bool
is_finished none = false
is_finished (some s) = member s ("success" ∷ "failed" ∷ "cancelled" ∷ [])

-- `_load`
unfoldable pub load_job : World → String → String → Answer Record
unfolding kind_of
load_job w job_id kind = elim (Jobs.get w.redis job_id) [
  | none ↦ http_error 404 "Unknown job"
  | some fields ↦ if kind_of fields == kind then answered fields else http_error 404 "Unknown job"
]

-- An f-string of `data.get(key)`.
unfoldable pub shown : Option String → String
shown none = "None"
shown (some s) = s

-- `_log`
unfoldable pub log_of : World → String → String → Answer String
unfolding load_job Dict.lookup
log_of w job_id kind = elim (load_job w job_id kind) [
  | http_error code detail ↦ http_error code detail
  | answered fields ↦ answered (or_empty (Dict.lookup "log" fields))
]

unfoldable pub zip_of : Option JobDir → Option Archive
zip_of none = none
zip_of (some d) = d.output_zip

-- `_artifact`
unfoldable pub artifact : World → String → String → Answer Archive
unfolding load_job Dict.lookup is_finished zip_of shown
artifact w job_id kind = elim (load_job w job_id kind) [
  | http_error code detail ↦ http_error code detail
  | answered fields ↦
      if not (is_finished (Dict.lookup "status" fields))
      then http_error 409
          ("Job not finished (status=" <> shown (Dict.lookup "status" fields) <> ")")
      else elim (zip_of (Dict.lookup job_id w.jobs)) [
        | none ↦ http_error 404 "Artifact missing, expired, or job produced no output"
        | some z ↦ answered z
      ]
]

-- RQ's side of `Job.fetch(job_id).cancel()`: whether it took the job out of the queue, or raised
-- one of the two exceptions that mean that it is not there any more.
pub record Queue : Type 0 where
  pub cancel : String → World → Bool × World

module _ (queue : Queue) where
  -- `_cancel` of a job that is not finished; the answer is the status in it.
  unfoldable pub cancel_unfinished : String → Option String → World → String × World
  cancel_unfinished job_id status w =
      let flagged = record w {
        redis = Jobs.update w.redis job_id (("cancel_requested", word "1") ∷ []);
      } in
      if shown status == "queued"
      then (let (removed, w') = queue.cancel job_id flagged in
          if removed
          then (
            "cancelled",
            record w' {
              redis =
                  Jobs.update w'.redis job_id
                    (("status", word "cancelled") ∷ ("finished_at", word (now w'.redis)) ∷ []);
            },
          )
          else ("cancel_requested", w'))
      else ("cancel_requested", flagged)

  -- `_cancel`
  unfoldable pub cancel_job : String → String → World → Answer String × World
  unfolding load_job Dict.lookup is_finished shown cancel_unfinished
  cancel_job job_id kind w = elim (load_job w job_id kind) [
    | http_error code detail ↦ (http_error code detail, w)
    | answered fields ↦
        let status = Dict.lookup "status" fields in
        if is_finished status
        then (http_error 409 ("Job already finished (status=" <> shown status <> ")"), w)
        else let (answer, w') = cancel_unfinished job_id status w in (answered answer, w')
  ]

  -- `cancel_build` and `cancel_generate`: the token first.
  unfoldable pub cancel_request :
      Settings → Option String → Option String → String → String → World → Answer String × World
  unfolding check_token cancel_job
  cancel_request settings token authorization job_id kind w =
      elim (check_token settings token authorization) [
        | http_error code detail ↦ (http_error code detail, w)
        | answered _ ↦ cancel_job job_id kind w
      ]
