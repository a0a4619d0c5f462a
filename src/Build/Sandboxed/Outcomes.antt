-- ===== src/Build/Sandboxed/Outcomes.antt =====
-- What the record of a job says when its run returns.
use mathlib.Core.Path.{subst}
use pretext_plus_build_full.Common.{
  sym, ap, ◌∙◌, ℕ, String, Bool, true, false, Option, none, some, List, [], ◌∷◌, ◌&&◌,
  if◌then◌else◌, ◌==◌, eqb, ◌≡◌, refl, Bool-cases, inl, inr,
}
use pretext_plus_build_full.Common.Text.{is_truthy}
use pretext_plus_build_full.Config.{Settings}
use pretext_plus_build_full.Docker.{returned, Daemon}
use pretext_plus_build_full.Files.{Entries}
use pretext_plus_build_full.Jobs.{Fields, word, number}
use pretext_plus_build_full.World.{World, pure}
use pretext_plus_build_full.World.Laws.{Ends, Ends-trivial, Ends-bind, Ends-catch, Ends_returned}
use pretext_plus_build_full.Build.{Sandbox, run_args}
use pretext_plus_build_full.Build.Wait.{cancel_requested}
use pretext_plus_build_full.Build.Mounts.{harvest_project, job_dir, attach_cache}
use pretext_plus_build_full.Build.Sandboxed.{
  finish, Ended, exited, recorded, supervise, zip_output, output_of, failed_log, empty_log,
  own_volume, pack_output, keep_assets, add_cached, conclude, after_exit, after_container, start,
  run_sandboxed,
}
use pretext_plus_build_full.Build.Sandboxed.Settled.{
  is_terminal, status_of, Terminal, Silent, Settled, status-finish, finish-Ends, insert-Lacks,
  Lacks, supervise-Settled,
}

module _ (settings : Settings) (daemon : Daemon World) (copies : String → Bool)
    (dump_names : List String → String) (job_id kind : String) (sandbox : Sandbox)
    (list_files : Bool) where
  -- What the packing adds to the record, for a field that is none of it.
  module _ (key : String) where
    pub pack_output-Lacks :
        (output : Option Entries) (w : World)
        → ("files" == key) ≡ false
        → Ends
            (λ more _. Lacks key more)
            (pack_output settings daemon copies dump_names job_id kind sandbox list_files output w)
    unfolding pack_output
    pack_output-Lacks none w other = tt
    pack_output-Lacks (some es) w other =
        Ends-bind (λ _ _. Unit {0}) (λ more _. Lacks key more)
          (zip_output settings daemon copies dump_names job_id kind sandbox list_files es) _ w
          (Ends-trivial
            (zip_output settings daemon copies dump_names job_id kind sandbox list_files es w))
          (λ names _ _.
            elim list_files
              as (λ b. Lacks key (if b then ("files", word (dump_names names)) ∷ [] else [])) [
                | true ↦ (other, tt)
                | false ↦ tt
              ])

    add_cached-Lacks :
        (project_id : String) (extra : Fields) (w : World)
        → ("cached_files" == key) ≡ false
        → Lacks key extra
        → Ends
            (λ more _. Lacks key more)
            (add_cached settings daemon copies dump_names job_id kind sandbox list_files project_id
              extra w)
    unfolding add_cached
    add_cached-Lacks project_id extra w other lacks =
        Ends-bind (λ _ _. Unit {0}) (λ more _. Lacks key more)
          (harvest_project settings copies job_id project_id) _ w
          (Ends-trivial (harvest_project settings copies job_id project_id w))
          (λ cached _ _.
            insert-Lacks key "cached_files" (word (dump_names cached)) extra other lacks)

    pub keep_assets-Lacks :
        (project_id : Option String) (code : ℕ) (extra : Fields) (w : World)
        → ("cached_files" == key) ≡ false
        → Lacks key extra
        → Ends
            (λ more _. Lacks key more)
            (keep_assets settings daemon copies dump_names job_id kind sandbox list_files project_id
              code extra w)
    unfolding keep_assets
    keep_assets-Lacks none code extra w other lacks = lacks
    keep_assets-Lacks (some project_id) code extra w other lacks =
        elim (Bool-cases (kind == "generate" && eqb code 0)) [
          | inl t ↦ rw t (
              Ends-catch (λ more _. Lacks key more)
                (add_cached settings daemon copies dump_names job_id kind sandbox list_files
                  project_id extra)
                (λ e. pure extra) w (add_cached-Lacks project_id extra w other lacks)
                (λ e v. lacks))
          | inr f ↦ rw f lacks
        ]

  conclude-finish :
      (code : ℕ) (logs : String) (has_output : Bool) (extra : Fields) (w : World)
      → Silent extra
      → (log : String) × (more : Fields) × Silent more
        × (conclude settings daemon copies dump_names job_id kind sandbox list_files code logs
              has_output extra w
            ≡ finish job_id (if eqb code 0 && has_output then "success" else "failed") log more w)
  unfolding conclude
  conclude-finish code logs has_output extra w silent = elim (Bool-cases (eqb code 0)) [
    | inr f ↦ (
      failed_log settings daemon copies dump_names job_id kind sandbox list_files code logs
          has_output,
      ("exit_code", number code) ∷ extra,
      (refl, silent),
      rw f refl,
    )
    | inl t ↦ elim (Bool-cases has_output) [
      | inr without ↦ (
        empty_log settings daemon copies dump_names job_id kind sandbox list_files logs,
        ("exit_code", number code) ∷ [],
        (refl, tt),
        rw (t, without) refl,
      )
      | inl made ↦ (logs, ("exit_code", number code) ∷ extra, (refl, silent), rw (t, made) refl)
    ]
  ]

  -- A container that exited leaves the job's status at "success" if its exit code is 0 and it made
  -- its output directory, and at "failed" if not, where the extra fields hold no status.
  pub status-conclude :
      (code : ℕ) (logs : String) (has_output : Bool) (extra : Fields) (w : World)
      → Silent extra
      → status_of job_id (
          (conclude settings daemon copies dump_names job_id kind sandbox list_files code logs
            has_output extra w).1)
        ≡ some (if eqb code 0 && has_output then "success" else "failed")
  status-conclude code logs has_output extra w silent =
      let (log, more, silent', e) = conclude-finish code logs has_output extra w silent in
      ap (λ r. status_of job_id r.1) e ∙ status-finish job_id _ log more w silent'

  conclude-Ends :
      (code : ℕ) (logs : String) (has_output : Bool) (extra : Fields) (w : World)
      → Silent extra
      → Ends
          (λ _. Terminal job_id)
          (conclude settings daemon copies dump_names job_id kind sandbox list_files code logs
            has_output extra w)
  conclude-Ends code logs has_output extra w silent =
      let (log, more, silent', e) = conclude-finish code logs has_output extra w silent in
      subst (Ends (λ _. Terminal job_id)) (sym e) (
        finish-Ends job_id _ log more w silent'
          (elim (eqb code 0 && has_output)
            as (λ b. is_terminal (some (if b then "success" else "failed")) ≡ true) [
              | true ↦ refl
              | false ↦ refl
            ]))

  after_exit-Ends :
      (project_id : Option String) (code : ℕ) (logs : String) (w : World)
      → Ends
          (λ _. Terminal job_id)
          (after_exit settings daemon copies dump_names job_id kind sandbox list_files project_id
            code logs w)
  unfolding after_exit
  after_exit-Ends project_id code logs w =
      Ends-bind (λ _ _. Unit {0}) (λ _. Terminal job_id) (job_dir job_id) _ w
        (Ends-trivial (job_dir job_id w))
        (λ d v _.
          let output = output_of sandbox.output_subdir d.work in
          Ends-bind (λ more _. Silent more) (λ _. Terminal job_id)
            (pack_output settings daemon copies dump_names job_id kind sandbox list_files output) _
            v (pack_output-Lacks "status" output v refl)
            (λ extra u silent.
              Ends-bind (λ more _. Silent more) (λ _. Terminal job_id)
                (keep_assets settings daemon copies dump_names job_id kind sandbox list_files
                  project_id code extra)
                _ u (keep_assets-Lacks "status" project_id code extra u refl silent)
                (λ extra' x silent'. conclude-Ends code logs _ extra' x silent')))

  after_container-Ends :
      (project_id : Option String) (ended : Ended) (w : World)
      → Settled job_id ended w
      → Ends
          (λ _. Terminal job_id)
          (after_container settings daemon copies dump_names job_id kind sandbox list_files
            project_id ended w)
  unfolding after_container
  after_container-Ends project_id recorded w h = h
  after_container-Ends project_id (exited code logs) w h = after_exit-Ends project_id code logs w

  module _
      (quiet : (c : ℕ) (w : World)
        → status_of job_id ((daemon.remove c w).1) ≡ status_of job_id w) where
    start-Ends :
        (command : String) (project_id : Option String) (w : World)
        → Ends
            (λ _. Terminal job_id)
            (start settings daemon copies dump_names job_id kind sandbox list_files command
              project_id w)
    unfolding start
    start-Ends command project_id w =
        let base = own_volume settings daemon copies dump_names job_id kind sandbox list_files in
        Ends-bind (λ _ _. Unit {0}) (λ _. Terminal job_id) (job_dir job_id) _ _
          (Ends-trivial (job_dir job_id _))
          (λ d v _.
            Ends-bind (λ _ _. Unit {0}) (λ _. Terminal job_id)
              (attach_cache settings copies job_id kind project_id base) _ v
              (Ends-trivial (attach_cache settings copies job_id kind project_id base v))
              (λ volumes u _.
                Ends-bind (Settled job_id) (λ _. Terminal job_id)
                  (supervise settings daemon job_id kind sandbox
                    (run_args settings sandbox command volumes))
                  _ u
                  (supervise-Settled settings daemon job_id kind sandbox quiet
                    (run_args settings sandbox command volumes) u)
                  (λ ended x. after_container-Ends project_id ended x)))

    pub run_sandboxed-Ends :
        (command : String) (w : World)
        → Ends
            (λ _. Terminal job_id)
            (run_sandboxed settings daemon copies dump_names job_id kind sandbox list_files command
              w)
    unfolding run_sandboxed
    run_sandboxed-Ends command w = elim (Bool-cases (is_truthy settings.host_data_dir)) [
      | inr unset ↦ rw unset (finish-Ends job_id "failed" _ [] w tt refl)
      | inl set ↦ elim (Bool-cases (cancel_requested job_id w)) [
        | inl seen ↦ rw (set, seen) (finish-Ends job_id "cancelled" _ [] w tt refl)
        | inr unseen ↦ rw (set, unseen) (start-Ends command _ w)
      ]
    ]

    -- Where the run of a job returns, its status is "success", "failed" or "cancelled", whatever
    -- the daemon, the sandboxed code and others do meanwhile, as long as removing a container
    -- leaves the job's status alone.
    pub run_sandboxed_terminal :
        (command : String) (w w' : World)
        → run_sandboxed settings daemon copies dump_names job_id kind sandbox list_files command w
          ≡ (returned tt, w')
        → is_terminal (status_of job_id w') ≡ true
    run_sandboxed_terminal command w w' e =
        Ends_returned (λ _. Terminal job_id)
          (run_sandboxed settings daemon copies dump_names job_id kind sandbox list_files command w)
          tt w' (run_sandboxed-Ends command w) e
