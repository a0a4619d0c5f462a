-- ===== src/Build/Sandboxed/Settled.antt =====
-- The ways in which the record of a job is finished while its container is there.
use mathlib.Core.Path.{subst}
use pretext_plus_build_full.Common.{
  ap, ◌∙◌, ℕ, String, ◌<>◌, Bool, true, false, Option, none, some, [], ◌∷◌, ◌||◌, ◌==◌, ◌≡◌, refl,
  Bool-cases, inl, inr, eq_refl,
}
use pretext_plus_build_full.Common.Dict
use pretext_plus_build_full.Common.Dict.{Dict, last}
use pretext_plus_build_full.Config.{Settings}
use pretext_plus_build_full.Docker.{
  Exception, image_not_found, api_error, read_timeout, connection_error, cancelled, Outcome,
  returned, raised, hangs, RunArgs, Daemon,
}
use pretext_plus_build_full.Jobs.{Fields, Value, strs, str}
use pretext_plus_build_full.Jobs.Laws.{field, field-update}
use pretext_plus_build_full.World.{catch, World, update_job}
use pretext_plus_build_full.World.Laws.{
  Result-cases, Ends, Ends-trivial, Ends-bind, Ends-catch, Ends-finally,
}
use pretext_plus_build_full.Build.{Sandbox}
use pretext_plus_build_full.Build.Sandboxed.{
  finish, pass_api_error, Ended, exited, recorded, stop, settle, watch, no_image, remove, supervise,
}

-- The statuses in which a job stays.
abbrev pub is_terminal : Option String → Bool
is_terminal none = false
is_terminal (some s) = s == "success" || s == "failed" || s == "cancelled"

abbrev pub status_of : String → World → Option String
status_of job_id w = field w.redis job_id "status"

abbrev pub Terminal : String → World → Type 0
Terminal job_id w = is_terminal (status_of job_id w) ≡ true

-- Fields without this one.
abbrev pub Lacks : String → Fields → Type 0
Lacks key [] = Unit
Lacks key ((k, v) ∷ more) = ((k == key) ≡ false) × Lacks key more

-- Fields that leave the status as it is.
abbrev pub Silent : Fields → Type 0
Silent more = Lacks "status" more

pub last-Lacks :
    (key : String) (more : Fields) (o : Option String) → Lacks key more → last key (strs more) o ≡ o
unfolding strs
last-Lacks key [] o lacks = refl
last-Lacks key ((k, v) ∷ more) o lacks = rw (last, lacks.0) (last-Lacks key more o lacks.1)

pub insert-Lacks :
    (key k : String) (v : Value) (more : Fields)
    → (k == key) ≡ false
    → Lacks key more
    → Lacks key (Dict.insert k v more)
unfolding Dict.insert
insert-Lacks key k v [] other lacks = (other, tt)
insert-Lacks key k v ((j, x) ∷ more) other lacks = elim (Bool-cases (j == k)) [
  | inl t ↦ rw t lacks
  | inr f ↦ rw f (lacks.0, insert-Lacks key k v more other lacks.1)
]

pub status-finish :
    (job_id status log : String) (more : Fields) (w : World)
    → Silent more
    → status_of job_id ((finish job_id status log more w).1) ≡ some status
unfolding finish update_job strs str
status-finish job_id status log more w silent =
    rw (field-update, eq_refl) (last-Lacks "status" more (some status) silent)

pub finish-Ends :
    (job_id status log : String) (more : Fields) (w : World)
    → Silent more
    → is_terminal (some status) ≡ true
    → Ends (λ _. Terminal job_id) (finish job_id status log more w)
unfolding finish update_job
finish-Ends job_id status log more w silent t = rw (status-finish job_id status log more w silent) t

abbrev pub Settled : String → Ended → World → Type 0
Settled job_id (exited code logs) w = Unit
Settled job_id recorded w = Terminal job_id w

module _ (settings : Settings) (daemon : Daemon World) (job_id kind : String)
    (sandbox : Sandbox) where
  stop-Settled :
      (container : ℕ) (status note : String) (w : World)
      → is_terminal (some status) ≡ true
      → Ends (Settled job_id) (stop settings daemon job_id kind sandbox container status note w)
  unfolding stop
  stop-Settled container status note w t =
      Ends-bind (λ _ _. Unit {0}) (Settled job_id) (daemon.kill container) _ w
        (Ends-trivial (daemon.kill container w))
        (λ _ v _.
          Ends-bind (λ _ _. Unit {0}) (Settled job_id) (daemon.logs container) _ v
            (Ends-trivial (daemon.logs container v))
            (λ logs u _. finish-Ends job_id status (logs <> note) [] u tt t))

  no_image-Settled :
      (e : Exception) (w : World)
      → Ends (Settled job_id) (no_image settings daemon job_id kind sandbox e w)
  unfolding no_image
  no_image-Settled image_not_found w = finish-Ends job_id "failed" _ [] w tt refl
  no_image-Settled e w = tt

  settle-Settled :
      (container : ℕ) (outcome : Outcome (Option ℕ)) (w : World)
      → Ends (Settled job_id) (settle settings daemon job_id kind sandbox container outcome w)
  unfolding settle
  settle-Settled container (returned code) w =
      Ends-bind (λ _ _. Unit {0}) (Settled job_id) (daemon.logs container) _ w
        (Ends-trivial (daemon.logs container w)) (λ logs u _. tt)
  settle-Settled container (raised cancelled) w = stop-Settled container "cancelled" _ w refl
  settle-Settled container (raised read_timeout) w = stop-Settled container "failed" _ w refl
  settle-Settled container (raised connection_error) w = stop-Settled container "failed" _ w refl
  settle-Settled container (raised e) w = tt
  settle-Settled container hangs w = tt

  watch-Settled :
      (container : ℕ) (w : World)
      → Ends (Settled job_id) (watch settings daemon job_id kind sandbox container w)
  unfolding watch
  watch-Settled container w = settle-Settled container _ _

  module _
      (quiet : (c : ℕ) (w : World)
        → status_of job_id ((daemon.remove c w).1) ≡ status_of job_id w) where
    pass-Settled :
        (e : Exception) (ended : Ended) (w : World)
        → Settled job_id ended w
        → Ends (λ _. Settled job_id ended) (pass_api_error e w)
    unfolding pass_api_error
    pass-Settled api_error ended w h = h
    pass-Settled e ended w h = tt

    same-Settled :
        (ended : Ended) (v w : World)
        → status_of job_id v ≡ status_of job_id w
        → Settled job_id ended w
        → Settled job_id ended v
    same-Settled (exited code logs) v w e h = tt
    same-Settled recorded v w e h = ap is_terminal e ∙ h

    remove-Settled :
        (container : ℕ) (ended : Ended) (w : World)
        → Settled job_id ended w
        → Ends (λ _. Settled job_id ended) (remove settings daemon job_id kind sandbox container w)
    unfolding remove
    remove-Settled container ended w h =
        let settled : Settled job_id ended ((daemon.remove container w).1) =
          same-Settled ended _ w (quiet container w) h in
        elim (Result-cases (daemon.remove container w)) [
          | inl (u, v, e) ↦ rw (e, catch) (subst (λ r. Settled job_id ended r.1) e settled)
          | inr (inl (x, v, e)) ↦
              rw (e, catch)
                (pass-Settled x ended v (subst (λ r. Settled job_id ended r.1) e settled))
          | inr (inr (v, e)) ↦ rw (e, catch) tt
        ]

    pub supervise-Settled :
        (args : RunArgs) (w : World)
        → Ends (Settled job_id) (supervise settings daemon job_id kind sandbox args w)
    unfolding supervise
    supervise-Settled args w =
        let watch_it = watch settings daemon job_id kind sandbox in
        let handler = no_image settings daemon job_id kind sandbox in
        elim (Result-cases (daemon.run args w)) [
          | inl (container, v, e) ↦
              rw (e, supervise, e)
                (Ends-finally (Settled job_id) (catch (watch_it container) handler)
                  (remove settings daemon job_id kind sandbox container) v
                  (Ends-catch (Settled job_id) (watch_it container) handler v
                    (watch-Settled container v) no_image-Settled)
                  (remove-Settled container))
          | inr (inl (x, v, e)) ↦ rw (e, supervise, e) (no_image-Settled x v)
          | inr (inr (v, e)) ↦ rw (e, supervise) tt
        ]
