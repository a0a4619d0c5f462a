-- ===== src/Api/Create/Refused.antt =====
-- What a refused request to create a job leaves.
use pretext_plus_build_full.Common.{
  String, Option, none, some, List, ◌≡◌, refl, ◌==◌, eq_iff, Bool-cases, inl, inr, List-cases, ap,
  ◌∙◌, sym,
}
use pretext_plus_build_full.Common.Dict
use pretext_plus_build_full.Common.Dict.{Dict}
use pretext_plus_build_full.Config.{Settings}
use pretext_plus_build_full.Files.{Entries}
use pretext_plus_build_full.Jobs.{Fields, job_prefix}
use pretext_plus_build_full.World.{World}
use pretext_plus_build_full.Notify.{Network}
use pretext_plus_build_full.Api.{
  Answer, answered, http_error, Answer-cases, check_token, project_id_fields, asset_names,
}
use pretext_plus_build_full.Api.Intake.{
  Archives, Upload, Attempt, failed, done, refuses_callback, register, intake,
}
use pretext_plus_build_full.Api.Create.{
  Task, Queues, queued, respond, accept, create_build, create_generate, bad_names,
}

-- The store, the cache, the requests sent and the directories are as they were.
abbrev pub Same : World → World → Type 0
Same w w' =
    (w'.redis ≡ w.redis)
    × (w'.cache ≡ w.cache)
    × (w'.sent ≡ w.sent)
    × ((i : String) → Dict.lookup i w'.jobs ≡ Dict.lookup i w.jobs)

-- A refusal has this property; anything else need not.
abbrev pub Refusal {ℓ} : {A : Type ℓ} → World → Answer A × World → Type 0
Refusal w (answered a, w') = Unit
Refusal w (http_error code detail, w') = Same w w'

pub unchanged : (w : World) → Same w w
unchanged w = (refl, refl, refl, λ i. refl)

module _ (settings : Settings) (net : Network) (archives : Archives) (queues : Queues)
    (show_names : List String → String) (job_id : String) where
  removed_fresh :
      (w : World) (i : String)
      → Dict.lookup job_id w.jobs ≡ none
      → Dict.lookup i (Dict.remove job_id w.jobs) ≡ Dict.lookup i w.jobs
  removed_fresh w i fresh = rw Dict.lookup-remove (elim (Bool-cases (job_id == i)) [
    | inl same ↦
        rw same (sym (ap (λ k. Dict.lookup k w.jobs) (sym ((eq_iff job_id i).0 same)) ∙ fresh))
    | inr other ↦ rw other refl
  ])

  register-Refusal :
      (callback_url : Option String) (fields : Fields) (w : World) (r : Attempt Entries)
      → Dict.lookup job_id w.jobs ≡ none
      → Refusal w (register settings net archives job_id callback_url fields w r)
  unfolding register
  register-Refusal callback_url fields w (done tree) fresh = tt
  register-Refusal callback_url fields w (failed e) fresh =
      (refl, refl, refl, λ i. removed_fresh w i fresh)

  intake-Refusal :
      (upload : Upload) (callback_url : Option String) (fields : Fields) (w : World)
      → Dict.lookup job_id w.jobs ≡ none
      → Refusal w (intake settings net archives job_id upload callback_url fields w)
  unfolding intake
  intake-Refusal upload callback_url fields w fresh =
      elim (Bool-cases (refuses_callback settings net callback_url w)) [
        | inl bad ↦ rw (intake, bad) (refl, refl, refl, λ i. refl)
        | inr good ↦ rw (intake, good) (register-Refusal callback_url fields w _ fresh)
      ]

  respond-Refusal :
      (kind prefix : String) (task : Task) (w : World) (r : Answer String × World)
      → job_prefix kind ≡ some prefix
      → Refusal w r
      → Refusal w (respond settings net archives queues show_names job_id kind task r)
  unfolding respond
  respond-Refusal kind prefix task w (http_error code detail, w') known h = h
  respond-Refusal kind prefix task w (answered id, w') known h = rw (respond, queued, known) tt

  accept-Refusal :
      (kind prefix : String) (task : Task) (upload : Upload) (callback_url : Option String)
      (fields : Fields) (w : World)
      → job_prefix kind ≡ some prefix
      → Dict.lookup job_id w.jobs ≡ none
      → Refusal w (
          accept settings net archives queues show_names job_id kind task upload callback_url fields
            w)
  unfolding accept
  accept-Refusal kind prefix task upload callback_url fields w known fresh =
      respond-Refusal kind prefix task w _ known (intake-Refusal upload callback_url fields w fresh)

  pub create_build-Refusal :
      (upload : Upload) (target : String)
      (project_id token callback_url authorization : Option String) (w : World)
      → Dict.lookup job_id w.jobs ≡ none
      → Refusal w (
          create_build settings net archives queues show_names job_id upload target project_id token
            callback_url authorization w)
  unfolding create_build job_prefix
  create_build-Refusal upload target project_id token callback_url authorization w fresh =
      elim (Answer-cases (check_token settings token authorization)) [
        | inr (code, detail, e) ↦ rw (create_build, e) (unchanged w)
        | inl (unit, e) ↦ elim (Answer-cases (project_id_fields project_id)) [
          | inr (code, detail, e') ↦ rw (create_build, e, e') (unchanged w)
          | inl (project, e') ↦
              rw (create_build, e, e')
                (accept-Refusal "build" "/builds" _ upload callback_url _ w refl fresh)
        ]
      ]

  pub create_generate-Refusal :
      (upload : Upload) (target : String) (assets : List String)
      (project_id token callback_url authorization : Option String) (w : World)
      → Dict.lookup job_id w.jobs ≡ none
      → Refusal w (
          create_generate settings net archives queues show_names job_id upload target assets
            project_id token callback_url authorization w)
  unfolding create_generate job_prefix
  create_generate-Refusal upload target assets project_id token callback_url authorization w fresh =
      elim (Answer-cases (check_token settings token authorization)) [
        | inr (code, detail, e) ↦ rw (create_generate, e) (unchanged w)
        | inl (unit, e) ↦ elim (List-cases (bad_names (asset_names assets))) [
          | inr (bad, more, b) ↦ rw (create_generate, e, b) (unchanged w)
          | inl b ↦ elim (Answer-cases (project_id_fields project_id)) [
            | inr (code, detail, e') ↦ rw (create_generate, e, b, e') (unchanged w)
            | inl (project, e') ↦
                rw (create_generate, e, b, e')
                  (accept-Refusal "generate" "/generate" _ upload callback_url _ w refl fresh)
          ]
        ]
      ]

-- A request to create a job that is answered with an error, for whatever reason, leaves the job
-- store, the cache, the requests sent and every job's directory as they were, where the new id has
-- no directory yet.
pub refused_create_leaves_nothing :
    (settings : Settings) (net : Network) (archives : Archives) (queues : Queues)
    (show_names : List String → String) (job_id : String) (upload : Upload) (target : String)
    (assets : List String) (project_id token callback_url authorization : Option String) (w : World)
    → Dict.lookup job_id w.jobs ≡ none
    → Refusal w (
        create_build settings net archives queues show_names job_id upload target project_id token
          callback_url authorization w)
      × Refusal w (
          create_generate settings net archives queues show_names job_id upload target assets
            project_id token callback_url authorization w)
refused_create_leaves_nothing settings net archives queues show_names job_id upload target assets
      project_id token callback_url authorization w fresh =
    (
      create_build-Refusal settings net archives queues show_names job_id upload target project_id
          token callback_url authorization w fresh,
      create_generate-Refusal settings net archives queues show_names job_id upload target assets
          project_id token callback_url authorization w fresh,
    )
