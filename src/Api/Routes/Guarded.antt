-- ===== src/Api/Routes/Guarded.antt =====
-- Which requests may change anything.
use pretext_plus_build_full.Common.{
  String, true, Option, some, List, ◌≡◌, ◌⊎◌, ◌||◌, not, inl, inr, refl, Bool-cases,
}
use pretext_plus_build_full.Common.Text.{is_truthy}
use pretext_plus_build_full.Config.{Settings}
use pretext_plus_build_full.World.{World}
use pretext_plus_build_full.Notify.{Network, Codec}
use pretext_plus_build_full.Api.{
  Answer, answered, http_error, Queue, presented, differs, check_token, cancel_request,
}
use pretext_plus_build_full.Api.Requests.{check_token_iff}
use pretext_plus_build_full.Api.Intake.{Archives}
use pretext_plus_build_full.Api.Create.{Queues, create_build, create_generate}
use pretext_plus_build_full.Api.Routes.{
  Form, Call, get_health, post_builds, post_build_cancel, get_build, get_build_log,
  get_build_artifact, post_generate, post_generate_cancel, get_generate, get_generate_log,
  get_generate_artifact, get_generate_file, Reply, reply, read, serve,
}

-- The answer to a request without the token, with the world as it was.
abbrev pub Denied {ℓ} : {A : Type ℓ} → World → Answer A × World → Type ℓ
Denied w r = r ≡ (http_error 401 "Invalid or missing token", w)

module _ (settings : Settings) where
  -- The server has a token and the request presents it.
  abbrev pub Entitled : Option String → Option String → Type 0
  Entitled token authorization =
      (is_truthy settings.build_token ≡ true)
      × (presented token authorization ≡ some settings.build_token)

  Entitled-cases :
      (token authorization : Option String)
      → Entitled token authorization
        ⊎ (check_token settings token authorization ≡ http_error 401 "Invalid or missing token")
  unfolding check_token
  Entitled-cases token authorization =
      elim (Bool-cases (
        not (is_truthy settings.build_token)
        || differs (presented token authorization) settings.build_token)) [
          | inl bad ↦ inr (rw (check_token, bad) refl)
          | inr good ↦
              inl ((check_token_iff settings token authorization).0 (rw (check_token, good) refl))
        ]

read-keeps : {A : Type 0} (f : A → Reply) (w : World) (a : Answer A) → (read f w a).1 ≡ w
unfolding read reply
read-keeps f w (answered a) = refl
read-keeps f w (http_error code detail) = refl

reply-Denied :
    {A : Type 0} (f : A → Reply) (w : World) (r : Answer A × World)
    → Denied w r
    → Denied w (reply f r)
unfolding reply
reply-Denied f w r e = rw e refl

module _ (settings : Settings) (net : Network) (archives : Archives) (queues : Queues)
    (queue : Queue) (codec : Codec) (guess : String → Option String)
    (show_names : List String → String) (job_id : String) where
  abbrev answer : Call → World → Answer Reply × World
  answer call w = serve settings net archives queues queue codec guess show_names job_id call w

  -- A POST has the token or is denied, and a GET changes nothing.
  abbrev pub Guarded : Call → World → Type 0
  Guarded (post_builds form) w =
      Entitled settings form.token form.authorization ⊎ Denied w (answer (post_builds form) w)
  Guarded (post_generate form assets) w =
      Entitled settings form.token form.authorization
      ⊎ Denied w (answer (post_generate form assets) w)
  Guarded (post_build_cancel id token authorization) w =
      Entitled settings token authorization
      ⊎ Denied w (answer (post_build_cancel id token authorization) w)
  Guarded (post_generate_cancel id token authorization) w =
      Entitled settings token authorization
      ⊎ Denied w (answer (post_generate_cancel id token authorization) w)
  Guarded call w = (answer call w).1 ≡ w

  cancel-Guarded :
      (id kind : String) (token authorization : Option String) (w : World)
      → Entitled settings token authorization
        ⊎ Denied w (cancel_request queue settings token authorization id kind w)
  unfolding cancel_request
  cancel-Guarded id kind token authorization w =
      elim (Entitled-cases settings token authorization) [
        | inl entitled ↦ inl entitled
        | inr denied ↦ inr (rw (cancel_request, denied) refl)
      ]

  build-Guarded :
      (form : Form) (w : World)
      → Entitled settings form.token form.authorization
        ⊎ Denied w (
            create_build settings net archives queues show_names job_id form.archive form.target
              form.project_id form.token form.callback_url form.authorization w)
  unfolding create_build
  build-Guarded form w = elim (Entitled-cases settings form.token form.authorization) [
    | inl entitled ↦ inl entitled
    | inr denied ↦ inr (rw (create_build, denied) refl)
  ]

  generate-Guarded :
      (form : Form) (assets : List String) (w : World)
      → Entitled settings form.token form.authorization
        ⊎ Denied w (
            create_generate settings net archives queues show_names job_id form.archive form.target
              assets form.project_id form.token form.callback_url form.authorization w)
  unfolding create_generate
  generate-Guarded form assets w = elim (Entitled-cases settings form.token form.authorization) [
    | inl entitled ↦ inl entitled
    | inr denied ↦ inr (rw (create_generate, denied) refl)
  ]

  lift :
      {A B : Type 0} (f : A → Reply) (w : World) (r : Answer A × World)
      → B ⊎ Denied w r
      → B ⊎ Denied w (reply f r)
  lift f w r (inl b) = inl b
  lift f w r (inr e) = inr (reply-Denied f w r e)

  -- Of all requests only those change anything, a job, a directory, the cache, a queue, that present
  -- the server's token: a GET leaves the world as it is, and a POST without the token, or to a
  -- server that has none, is answered with 401 and leaves the world as it is.
  pub serve-Guarded : (call : Call) (w : World) → Guarded call w
  unfolding serve
  serve-Guarded get_health w = refl
  serve-Guarded (post_builds form) w = lift _ w _ (build-Guarded form w)
  serve-Guarded (post_build_cancel id token authorization) w =
      lift _ w _ (cancel-Guarded id "build" token authorization w)
  serve-Guarded (get_build id) w = read-keeps _ w _
  serve-Guarded (get_build_log id) w = read-keeps _ w _
  serve-Guarded (get_build_artifact id) w = read-keeps _ w _
  serve-Guarded (post_generate form assets) w = lift _ w _ (generate-Guarded form assets w)
  serve-Guarded (post_generate_cancel id token authorization) w =
      lift _ w _ (cancel-Guarded id "generate" token authorization w)
  serve-Guarded (get_generate id) w = read-keeps _ w _
  serve-Guarded (get_generate_log id) w = read-keeps _ w _
  serve-Guarded (get_generate_artifact id) w = read-keeps _ w _
  serve-Guarded (get_generate_file id path) w = read-keeps _ w _
