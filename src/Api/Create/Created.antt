-- ===== src/Api/Create/Created.antt =====
-- What an accepted request to create a job makes.
use Prim.Native.Nat.{◌<◌}
use pretext_plus_build_full.Common.{
  String, false, Option, none, some, List, ◌≡◌, refl, ◌==◌, eq_refl, Bool-cases, inl, inr, ap, ◌∙◌,
  sym,
}
use pretext_plus_build_full.Common.Dict
use pretext_plus_build_full.Common.Dict.{Dict, NodupKeys}
use pretext_plus_build_full.Common.Text.{is_truthy}
use pretext_plus_build_full.Config.{Settings}
use pretext_plus_build_full.Files.{Entries}
use pretext_plus_build_full.Jobs.{Fields, word, find, key, str}
use pretext_plus_build_full.Jobs.Laws.{field}
use pretext_plus_build_full.Jobs.Creation.{created, field-create}
use pretext_plus_build_full.World.{World}
use pretext_plus_build_full.Notify.{Network}
use pretext_plus_build_full.Api.{Answer, answered, http_error}
use pretext_plus_build_full.Api.Intake.{
  Archives, Upload, Attempt, failed, done, refuses_callback, with_callback, register, intake,
}
use pretext_plus_build_full.Api.Create.{Task, Queues, respond, accept}

-- Fields of a new job: no name twice, a kind and a target, and no status yet.
abbrev pub Fresh : String → String → Fields → Type 0
Fresh kind target fields =
    NodupKeys fields
    × (Dict.lookup "status" fields ≡ none)
    × (Dict.lookup "kind" fields ≡ some (word kind))
    × (Dict.lookup "target" fields ≡ some (word target))

with_callback-Fresh :
    (kind target : String) (callback_url : Option String) (fields : Fields)
    → Fresh kind target fields
    → Fresh kind target (with_callback callback_url fields)
unfolding with_callback
with_callback-Fresh kind target none fields h = h
with_callback-Fresh kind target (some url) fields h = elim (Bool-cases (is_truthy url)) [
  | inr f ↦ rw f h
  | inl t ↦ rw t (
    Dict.NodupKeys-insert "callback_url" (word url) fields h.0,
    rw Dict.lookup-insert h.1,
    rw Dict.lookup-insert h.2,
    rw Dict.lookup-insert h.3,
  )
]

-- The job is queued: its record says so, with its kind and target, its directory holds the unpacked
-- project and no artifact, and the records of other jobs are as they were.
abbrev pub Accepted : String → String → String → World → World → Type 0
Accepted job_id kind target w w' =
    (field w'.redis job_id "status" ≡ some "queued")
    × (field w'.redis job_id "kind" ≡ some kind)
    × (field w'.redis job_id "target" ≡ some target)
    × ((j k : String) → (job_id == j) ≡ false → field w'.redis j k ≡ field w.redis j k)
    × ((tree : Entries) × (Dict.lookup job_id w'.jobs
          ≡ some (record { mtime = w.redis.clock; work = tree; output_zip = none })))

-- The task stands in its queue, and the job is as accepted before that.
abbrev pub Enqueued : Queues → String → Task → String → String → World → World → Type 0
Enqueued queues job_id task kind target w w' =
    (accepted : World) × (w' ≡ queues.enqueue task accepted)
    × Accepted job_id kind target w accepted

module _ (settings : Settings) (net : Network) (archives : Archives) (queues : Queues)
    (show_names : List String → String) (job_id : String) (ttl : 0 < settings.job_ttl) where
  register-Accepted :
      (kind target : String) (callback_url : Option String) (fields : Fields) (w : World)
      (r : Attempt Entries) {id : String} {w' : World}
      → find w.redis (key job_id) ≡ none
      → Fresh kind target fields
      → register settings net archives job_id callback_url fields w r ≡ (answered id, w')
      → Accepted job_id kind target w w'
  unfolding register str
  register-Accepted kind target callback_url fields w (failed e) new fresh h = cc
  register-Accepted kind target callback_url fields w (done tree) {w'} new fresh h =
      let all_fields = with_callback callback_url fields in
      let good = with_callback-Fresh kind target callback_url fields fresh in
      let same = ap (λ x. x.1) h in
      let at_ = λ (j k : String).
        field-create settings.job_ttl w.redis job_id all_fields ttl new good.0 j k in
      rw (← same) (
        at_ job_id "status" ∙ rw (eq_refl, created, good.1) refl,
        at_ job_id "kind" ∙ rw (eq_refl, created, good.2) refl,
        at_ job_id "target" ∙ rw (eq_refl, created, good.3) refl,
        λ j k other. at_ j k ∙ rw other refl,
        (tree, rw (Dict.lookup-insert, eq_refl) refl),
      )

  intake-Accepted :
      (kind target : String) (upload : Upload) (callback_url : Option String) (fields : Fields)
      (w : World) {id : String} {w' : World}
      → find w.redis (key job_id) ≡ none
      → Fresh kind target fields
      → intake settings net archives job_id upload callback_url fields w ≡ (answered id, w')
      → Accepted job_id kind target w w'
  unfolding intake
  intake-Accepted kind target upload callback_url fields w new fresh h =
      elim (Bool-cases (refuses_callback settings net callback_url w)) [
        | inl bad ↦ cc (rw (intake, bad) at h)
        | inr good ↦
            register-Accepted kind target callback_url fields w _ new fresh (rw (intake, good) at h)
      ]

  respond-Enqueued :
      (kind target : String) (task : Task) (w : World) (r : Answer String × World)
      {resp : Dict String} {w' : World}
      → ((id : String) (w0 : World) → r ≡ (answered id, w0) → Accepted job_id kind target w w0)
      → respond settings net archives queues show_names job_id kind task r ≡ (answered resp, w')
      → Enqueued queues job_id task kind target w w'
  unfolding respond
  respond-Enqueued kind target task w (http_error code detail, w0) k h = cc
  respond-Enqueued kind target task w (answered id, w0) k h =
      (w0, sym (ap (λ x. x.1) h), k id w0 refl)

  pub accept-Enqueued :
      (kind target : String) (task : Task) (upload : Upload) (callback_url : Option String)
      (fields : Fields) (w : World) {resp : Dict String} {w' : World}
      → find w.redis (key job_id) ≡ none
      → Fresh kind target fields
      → accept settings net archives queues show_names job_id kind task upload callback_url fields w
        ≡ (answered resp, w')
      → Enqueued queues job_id task kind target w w'
  unfolding accept
  accept-Enqueued kind target task upload callback_url fields w new fresh h =
      respond-Enqueued kind target task w _
        (λ id w0 e. intake-Accepted kind target upload callback_url fields w new fresh e) h
