-- ===== src/Tests/Requests.antt =====
-- The API, on concrete input.
use pretext_plus_build_full.Common.{
  String, true, false, Option, Bool, ap, ◌==◌, eq_refl, none, some, List, [], ◌∷◌, ◌≡◌, ◌⊎◌, refl,
}
use pretext_plus_build_full.Common.Text.{codes, is_alnum, up_to}
use pretext_plus_build_full.Jobs
use pretext_plus_build_full.Jobs.{Fields, Record, word}
use pretext_plus_build_full.Notify.Callback.{kind_of}
use pretext_plus_build_full.Common.Dict
use pretext_plus_build_full.AssetCache.Names.{is_word}
use pretext_plus_build_full.AssetCache.Names.Slugs.{is_slug}
use pretext_plus_build_full.Config.Load.{member}
use pretext_plus_build_full.Build.{build_sandbox}
use pretext_plus_build_full.Build.Sandboxed.{run_sandboxed}
use pretext_plus_build_full.Build.Sandboxed.Settled.{status_of}
use pretext_plus_build_full.Api.{
  http_error, log_of, artifact, project_id_fields, load_job, is_finished, Queue, cancel_job,
}
use pretext_plus_build_full.Api.Requests.{project_id_fields_slug}
use pretext_plus_build_full.Api.Isolation.{foreign_job_unknown}
use pretext_plus_build_full.Api.Cancel.{cancel_job_before_start}
use pretext_plus_build_full.Tests.Fixtures.{settings, world, prompt, endless}

abbrev book : Fields
book = ("project_id", word "book") ∷ []

project_id_fields_slug_example :
    (book ≡ [])
    ⊎ ((s : String) × (book ≡ (("project_id", word s) ∷ [])) × (is_slug (codes s) ≡ true))
unfolding project_id_fields is_alnum up_to is_word
project_id_fields_slug_example = project_id_fields_slug (some " book ") book refl

-- RQ finds the job and takes it out of the queue.
abbrev queue : Queue
queue = record { cancel = λ job_id w. (true, w) }

cancel_job_before_start_example :
    let w' = (cancel_job queue "b" "build" world).1 in
    (run_sandboxed settings prompt
        (λ s. true)
        (λ names. "")
        "b"
        "build"
        (build_sandbox settings)
        false
        "true"
        w'
      ≡ run_sandboxed settings endless
          (λ s. true)
          (λ names. "")
          "b"
          "build"
          (build_sandbox settings)
          false
          "true"
          w')
    × (status_of "b" (
          (run_sandboxed settings prompt
            (λ s. true)
            (λ names. "")
            "b"
            "build"
            (build_sandbox settings)
            false
            "true"
            w').1)
        ≡ some "cancelled")
unfolding load_job Jobs.get Jobs.hgetall Jobs.find Jobs.key is_finished member
cancel_job_before_start_example =
    cancel_job_before_start queue "b" (λ i w. refl) "build" (Jobs.get_or_empty world.redis "b")
      world refl refl settings (λ s. true) (λ names. "") "build" (build_sandbox settings) false
      prompt endless "true" refl

-- Two repeated form fields, of which the first holds two names and a newline.
abbrev requested : List String
requested = "latex-image,asymptote\n" ∷ "sageplot" ∷ []

abbrev kind_is_generate : Option Record → Bool
unfolding kind_of
kind_is_generate none = false
kind_is_generate (some fields) = kind_of fields == "generate"

-- The build `b` at the addresses of generate jobs.
foreign_job_unknown_example :
    (log_of world "b" "generate" ≡ http_error 404 "Unknown job")
    × (artifact world "b" "generate" ≡ http_error 404 "Unknown job")
    × (cancel_job queue "b" "generate" world ≡ (http_error 404 "Unknown job", world))
unfolding Jobs.get kind_of Dict.lookup Jobs.hgetall Jobs.find Jobs.key
foreign_job_unknown_example = foreign_job_unknown queue world "b" "generate" (λ fields found same.
    let found' : false ≡ (kind_of fields == "generate") = ap kind_is_generate found in
    let same' : (kind_of fields == "generate") ≡ true = rw (same, eq_refl "generate") refl in cc)
