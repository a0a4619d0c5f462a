-- ===== src/Tests/Routes.antt =====
-- Requests by their routes, on concrete input.
use pretext_plus_build_full.Common.{◌∷◌, ◌≡◌, [], String, true, Option, none, some, ◌⊎◌, refl}
use pretext_plus_build_full.Common.Dict
use pretext_plus_build_full.World.{World}
use pretext_plus_build_full.Common.Dict.{Dict}
use pretext_plus_build_full.Jobs
use pretext_plus_build_full.Jobs.{job_prefix}
use pretext_plus_build_full.Api.{Answer, Queue, load_job}
use pretext_plus_build_full.Api.Status.{Json, text, status}
use pretext_plus_build_full.Api.Status.Shown.{expected, status_shows}
use pretext_plus_build_full.Api.Routes.{Call, Form, Reply, post_builds, serve}
use pretext_plus_build_full.Api.Routes.Guarded.{Entitled, Denied, serve-Guarded}
use pretext_plus_build_full.Tests.Fixtures.{settings, network, world, codec}
use pretext_plus_build_full.Tests.Creation.{archives, queues, upload, show_names}

abbrev queue : Queue
queue = record { cancel = λ job_id w. (true, w) }

abbrev guess : String → Option String
guess path = none

abbrev answer : Call → Answer Reply × World
answer call = serve settings network archives queues queue codec guess show_names "new" call world

-- A build without a token.
abbrev form : Form
form = record {
  archive = upload;
  target = "web";
  project_id = none;
  token = none;
  callback_url = none;
  authorization = some "Bearer wrong";
}

serve-Guarded_example :
    Entitled settings none (some "Bearer wrong") ⊎ Denied world (answer (post_builds form))
serve-Guarded_example =
    serve-Guarded settings network archives queues queue codec guess show_names "new"
      (post_builds form) world

abbrev shown_fields : Dict Json
shown_fields =
    ("job_id", text "b")
    ∷ ("status", text "queued")
    ∷ ("kind", text "build")
    ∷ ("callback_url", text "https://pretext.plus/done")
    ∷ []

status_shows_example :
    Dict.lookup "artifact_url" shown_fields
    ≡ expected codec world "b" "/builds" (Jobs.get_or_empty world.redis "b") "artifact_url"
unfolding load_job status job_prefix Jobs.get Jobs.hgetall Jobs.find Jobs.key Dict.lookup
status_shows_example =
    status_shows codec world "b" "build" "/builds" (Jobs.get_or_empty world.redis "b") shown_fields
      "artifact_url" refl refl (refl, (refl, (refl, tt))) refl refl refl refl
