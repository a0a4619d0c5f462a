-- ===== src/Build/Sandboxed/Store.antt =====
-- What the worker does with the output of a job leaves the job store as it is.
use pretext_plus_build_full.Common.{
  ℕ, String, Bool, Option, some, none, List, ◌==◌, ◌&&◌, eqb, Bool-cases, inl, inr,
}
use mathlib.Core.Path.{subst}
use pretext_plus_build_full.Config.{Settings}
use pretext_plus_build_full.Docker.{Daemon}
use pretext_plus_build_full.Files.{Entries}
use pretext_plus_build_full.Jobs.{Redis, Fields}
use pretext_plus_build_full.World.{World, pure}
use pretext_plus_build_full.World.Laws.{Result-cases}
use pretext_plus_build_full.World.Final.{Final-bind, Final-catch}
use pretext_plus_build_full.Build.{Sandbox}
use pretext_plus_build_full.Build.Zip.{zip_dir}
use pretext_plus_build_full.Build.Mounts.{set_zip, harvest_project}
use pretext_plus_build_full.Build.Mounts.Store.{Holds, set_zip-Holds, harvest-Holds}
use pretext_plus_build_full.Build.Sandboxed.{zip_output, pack_output, keep_assets, add_cached}

module _ (r' : Redis) (settings : Settings) (daemon : Daemon World) (copies : String → Bool)
    (dump_names : List String → String) (job_id kind : String) (sandbox : Sandbox)
    (list_files : Bool) where
  pub zip_output-Holds :
      (es : Entries) (w : World)
      → Holds r' w
      → Holds r'
          (zip_output settings daemon copies dump_names job_id kind sandbox list_files es w).1
  unfolding zip_output
  zip_output-Holds es w h =
      let z = (zip_dir es sandbox.skip_top_level_dotfiles).1 in
      let kept = set_zip-Holds r' job_id z w h in
      elim (Result-cases (set_zip job_id z w)) [
        | inl (u, v, e) ↦ rw (e, zip_output, e) (subst (λ o. Holds r' o.1) e kept)
        | inr (inl (x, v, e)) ↦ rw (e, zip_output, e) (subst (λ o. Holds r' o.1) e kept)
        | inr (inr (v, e)) ↦ rw (e, zip_output, e) (subst (λ o. Holds r' o.1) e kept)
      ]

  pub pack_output-Holds :
      (output : Option Entries) (w : World)
      → Holds r' w
      → Holds r'
          (pack_output settings daemon copies dump_names job_id kind sandbox list_files output w).1
  unfolding pack_output
  pack_output-Holds none w h = h
  pack_output-Holds (some es) w h =
      Final-bind (Holds r')
        (zip_output settings daemon copies dump_names job_id kind sandbox list_files es) _ w
        (zip_output-Holds es w h) (λ names v k. k)

  pub keep_assets-Holds :
      (project_id : Option String) (code : ℕ) (extra : Fields) (w : World)
      → Holds r' w
      → Holds r'
          (keep_assets settings daemon copies dump_names job_id kind sandbox list_files project_id
            code extra w).1
  unfolding keep_assets add_cached
  keep_assets-Holds none code extra w h = h
  keep_assets-Holds (some project_id) code extra w h =
      elim (Bool-cases (kind == "generate" && eqb code 0)) [
        | inr other ↦ rw other h
        | inl t ↦ rw t (
            Final-catch (Holds r')
              (add_cached settings daemon copies dump_names job_id kind sandbox list_files
                project_id extra)
              (λ e. pure extra) w
              (Final-bind (Holds r') (harvest_project settings copies job_id project_id) _ w
                (harvest-Holds r' job_id settings copies project_id w h) (λ cached v k. k))
              (λ e v k. k))
      ]
