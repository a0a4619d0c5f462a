-- ===== src/Api/Create.antt =====
-- `create_build` and `create_generate`. RQ's queues are an argument.
pub mod Refused
pub mod Created
pub mod Generated
use pretext_plus_build_full.Common.{
  String, ◌<>◌, Option, none, some, List, [], ◌∷◌, ◌++◌, not, if◌then◌else◌,
}
use pretext_plus_build_full.Common.Dict.{Dict}
use pretext_plus_build_full.Common.Text.{join}
use pretext_plus_build_full.Config.{Settings}
use pretext_plus_build_full.Jobs.{Fields, word, job_prefix}
use pretext_plus_build_full.World.{World}
use pretext_plus_build_full.Notify.{Network}
use pretext_plus_build_full.Api.{
  Answer, answered, http_error, check_token, project_id_fields, asset_names, asset_name_match,
}
use pretext_plus_build_full.Api.Intake.{Archives, Upload, intake}

-- What the handlers put in a queue: the function and its arguments.
pub data Task : Type 0 where
  run_build : String → String → Task
  run_generate : String → String → List String → Task

-- `build_queue.enqueue` and `generate_queue.enqueue`.
pub record Queues : Type 0 where
  pub enqueue : Task → World → World

-- `_queued`; the `KeyError` of an unknown kind becomes the server's answer to any exception.
unfoldable pub queued : String → String → Answer (Dict String)
unfolding job_prefix
queued job_id kind = elim (job_prefix kind) [
  | none ↦ http_error 500 "Internal Server Error"
  | some prefix ↦
      answered
        (("job_id", job_id) ∷ ("status", "queued") ∷ ("status_url", prefix <> "/" <> job_id) ∷ [])
]

-- `[a for a in names if not _ASSET_NAME.match(a)]`
unfoldable pub bad_names : List String → List String
unfolding asset_name_match
bad_names [] = []
bad_names (a ∷ names) = let rest = bad_names names in if asset_name_match a then rest else a ∷ rest

module _ (settings : Settings) (net : Network) (archives : Archives) (queues : Queues)
    (show_names : List String → String) (job_id : String) where
  -- What follows the intake: the queue and the answer.
  respond : String → Task → Answer String × World → Answer (Dict String) × World
  unfolding queued
  respond kind task (http_error code detail, w) = (http_error code detail, w)
  respond kind task (answered id, w) = (queued id kind, queues.enqueue task w)

  -- The part that the two handlers share.
  pub accept :
      String → Task → Upload → Option String → Fields → World → Answer (Dict String) × World
  unfolding intake respond
  accept kind task upload callback_url fields w =
      respond kind task (intake settings net archives job_id upload callback_url fields w)

  -- `create_build`, with the form's fields and the `Authorization` header.
  unfoldable pub create_build :
      Upload
      → String
      → Option String
      → Option String
      → Option String
      → Option String
      → World
      → Answer (Dict String) × World
  unfolding check_token project_id_fields accept
  create_build upload target project_id token callback_url authorization w =
      elim (check_token settings token authorization) [
        | http_error code detail ↦ (http_error code detail, w)
        | answered _ ↦ elim (project_id_fields project_id) [
          | http_error code detail ↦ (http_error code detail, w)
          | answered project ↦
              accept "build" (run_build job_id target) upload callback_url
                (("kind", word "build") ∷ ("target", word target) ∷ project) w
        ]
      ]

  -- `create_generate`; `show_names` prints a list of names for the error's text.
  unfoldable pub create_generate :
      Upload
      → String
      → List String
      → Option String
      → Option String
      → Option String
      → Option String
      → World
      → Answer (Dict String) × World
  unfolding check_token project_id_fields asset_names bad_names accept join
  create_generate upload target assets project_id token callback_url authorization w =
      elim (check_token settings token authorization) [
        | http_error code detail ↦ (http_error code detail, w)
        | answered _ ↦ elim (bad_names (asset_names assets)) [
          | bad ∷ more ↦
              (http_error 422 ("Invalid asset type name(s): " <> show_names (bad ∷ more)), w)
          | [] ↦ elim (project_id_fields project_id) [
            | http_error code detail ↦ (http_error code detail, w)
            | answered project ↦
                accept "generate" (run_generate job_id target (asset_names assets)) upload
                  callback_url
                  (("kind", word "generate")
                    ∷ ("target", word target)
                    ∷ ("assets", word (join " " (asset_names assets)))
                    ∷ project)
                  w
          ]
        ]
      ]
