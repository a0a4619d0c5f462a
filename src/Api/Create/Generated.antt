-- ===== src/Api/Create/Generated.antt =====
-- What an accepted request to generate assets makes.
use Prim.Native.Nat.{◌<◌}
use pretext_plus_build_full.Common.{
  String, true, Option, none, List, [], ◌∷◌, ◌≡◌, refl, Bool-cases, inl, inr, all, List-cases,
}
use pretext_plus_build_full.Common.Dict
use pretext_plus_build_full.Common.Dict.{Dict}
use pretext_plus_build_full.Common.Text.{codes, join}
use pretext_plus_build_full.Config.{Settings}
use pretext_plus_build_full.Jobs.{Fields, word, find, key}
use pretext_plus_build_full.World.{World}
use pretext_plus_build_full.Notify.{Network}
use pretext_plus_build_full.Api.{
  answered, Answer-cases, check_token, project_id_fields, asset_names, asset_name_match,
}
use pretext_plus_build_full.Api.Assets.{is_plain_name, asset_names_plain}
use pretext_plus_build_full.Api.Requests.{project_id_fields_slug}
use pretext_plus_build_full.Api.Intake.{Archives, Upload}
use pretext_plus_build_full.Api.Create.{run_generate, Queues, create_generate, bad_names}
use pretext_plus_build_full.Api.Create.Created.{Fresh, Enqueued, accept-Enqueued}

generate_fields-Fresh :
    (target assets : String) (value : Option String) (project : Fields)
    → project_id_fields value ≡ answered project
    → Fresh "generate" target
        (("kind", word "generate") ∷ ("target", word target) ∷ ("assets", word assets) ∷ project)
unfolding Dict.lookup
generate_fields-Fresh target assets value project e =
    elim (project_id_fields_slug value project e) [
      | inl nothing ↦ rw nothing ((refl, (refl, (refl, tt))), refl, refl, refl)
      | inr (s, one, slug) ↦ rw one ((refl, (refl, (refl, (refl, tt)))), refl, refl, refl)
    ]

bad_names_none : (names : List String) → bad_names names ≡ [] → all asset_name_match names ≡ true
unfolding bad_names
bad_names_none [] h = refl
bad_names_none (a ∷ names) h = elim (Bool-cases (asset_name_match a)) [
  | inl t ↦ rw (t, bad_names_none names (rw (bad_names, t) at h)) refl
  | inr f ↦ cc (rw (bad_names, f) at h)
]

-- A request to generate that is answered with success has queued that job, as a build's would be,
-- and the names of asset types in the task, which go into a shell command, are a letter followed by
-- letters, digits and dashes each.
pub create_generate-Enqueued :
    (settings : Settings) (net : Network) (archives : Archives) (queues : Queues)
    (show_names : List String → String) (job_id : String) (upload : Upload) (target : String)
    (assets : List String) (project_id token callback_url authorization : Option String) (w : World)
    {resp : Dict String} {w' : World}
    → 0 < settings.job_ttl
    → find w.redis (key job_id) ≡ none
    → create_generate settings net archives queues show_names job_id upload target assets project_id
        token callback_url authorization w
      ≡ (answered resp, w')
    → Enqueued queues job_id
        (run_generate job_id target (asset_names assets))
        "generate"
        target
        w
        w'
      × (all (λ s. is_plain_name (codes s)) (asset_names assets) ≡ true)
unfolding create_generate
create_generate-Enqueued settings net archives queues show_names job_id upload target assets
      project_id token callback_url authorization w ttl new h =
    let names = asset_names assets in
    elim (Answer-cases (check_token settings token authorization)) [
      | inr (code, detail, e) ↦ cc (rw (create_generate, e) at h)
      | inl (unit, e) ↦ elim (List-cases (bad_names names)) [
        | inr (bad, more, b) ↦ cc (rw (create_generate, e, b) at h)
        | inl b ↦ elim (Answer-cases (project_id_fields project_id)) [
          | inr (code, detail, e') ↦ cc (rw (create_generate, e, b, e') at h)
          | inl (project, e') ↦ (
            accept-Enqueued settings net archives queues show_names job_id ttl "generate" target
                (run_generate job_id target names) upload callback_url _ w new
                (generate_fields-Fresh target (join " " names) project_id project e')
                (rw (create_generate, e, b, e') at h),
            asset_names_plain assets (bad_names_none names b),
          )
        ]
      ]
    ]
