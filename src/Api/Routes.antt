-- ===== src/Api/Routes.antt =====
-- The routes of src/api.py: which handler answers which request. FastAPI takes requests apart; a
-- request is here what it passes to the handler.
pub mod Guarded
pub mod Refused
use pretext_plus_build_full.Common.{String, Option, List, [], ◌∷◌}
use pretext_plus_build_full.Common.Dict.{Dict}
use pretext_plus_build_full.Config.{Settings}
use pretext_plus_build_full.World.{World, Archive}
use pretext_plus_build_full.Notify.{Network, Codec}
use pretext_plus_build_full.Api.{
  Answer, answered, http_error, Queue, log_of, artifact, cancel_request,
}
use pretext_plus_build_full.Api.Intake.{Archives, Upload}
use pretext_plus_build_full.Api.Create.{Queues, create_build, create_generate}
use pretext_plus_build_full.Api.Status.{Json, FileResponse, status, get_generated_file}

-- The form's fields and the header of a request that creates a job.
pub record Form : Type 0 where
  pub archive : Upload
  pub target : String
  pub project_id : Option String
  pub token : Option String
  pub callback_url : Option String
  pub authorization : Option String

pub data Call : Type 0 where
  get_health : Call
  post_builds : Form → Call
  post_build_cancel : String → Option String → Option String → Call
  get_build : String → Call
  get_build_log : String → Call
  get_build_artifact : String → Call
  post_generate : Form → List String → Call
  post_generate_cancel : String → Option String → Option String → Call
  get_generate : String → Call
  get_generate_log : String → Call
  get_generate_artifact : String → Call
  get_generate_file : String → String → Call

pub data Reply : Type 0 where
  health : Dict String → Reply
  created : Dict String → Reply
  cancel_status : String → Reply
  job_status : Dict Json → Reply
  plain_text : String → Reply
  zip_file : Archive → Reply
  generated_file : FileResponse → Reply

-- An answer of a handler that may change the world, and of one that reads it.
pub reply : {A : Type 0} → (A → Reply) → Answer A × World → Answer Reply × World
reply f (answered a, w) = (answered (f a), w)
reply f (http_error code detail, w) = (http_error code detail, w)

pub read : {A : Type 0} → (A → Reply) → World → Answer A → Answer Reply × World
unfolding reply
read f w a = reply f (a, w)

module _ (settings : Settings) (net : Network) (archives : Archives) (queues : Queues)
    (queue : Queue) (codec : Codec) (guess : String → Option String)
    (show_names : List String → String) (job_id : String) where
  -- The application, with the id that a new job gets.
  unfoldable pub serve : Call → World → Answer Reply × World
  unfolding reply read create_build create_generate cancel_request status log_of artifact
      get_generated_file
  serve get_health w = (answered (health (("status", "ok") ∷ [])), w)
  serve (post_builds form) w = reply created (
      create_build settings net archives queues show_names job_id form.archive form.target
        form.project_id form.token form.callback_url form.authorization w)
  serve (post_build_cancel id token authorization) w =
      reply cancel_status (cancel_request queue settings token authorization id "build" w)
  serve (get_build id) w = read job_status w (status codec w id "build")
  serve (get_build_log id) w = read plain_text w (log_of w id "build")
  serve (get_build_artifact id) w = read zip_file w (artifact w id "build")
  serve (post_generate form assets) w = reply created (
      create_generate settings net archives queues show_names job_id form.archive form.target assets
        form.project_id form.token form.callback_url form.authorization w)
  serve (post_generate_cancel id token authorization) w =
      reply cancel_status (cancel_request queue settings token authorization id "generate" w)
  serve (get_generate id) w = read job_status w (status codec w id "generate")
  serve (get_generate_log id) w = read plain_text w (log_of w id "generate")
  serve (get_generate_artifact id) w = read zip_file w (artifact w id "generate")
  serve (get_generate_file id path) w =
      read generated_file w (get_generated_file codec guess w id path)
