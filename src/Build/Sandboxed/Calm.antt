-- ===== src/Build/Sandboxed/Calm.antt =====
-- A daemon whose operations end as Docker documents it.
use pretext_plus_build_full.Common.{ℕ, String, true, Option, none, some, all, ◌≡◌}
use pretext_plus_build_full.Common.Dict
use pretext_plus_build_full.Docker.{
  image_not_found, api_error, Outcome, returned, raised, hangs, RunArgs, Daemon,
}
use pretext_plus_build_full.Files.{Entries}
use pretext_plus_build_full.Files.Walk.{Found, walk, everywhere}
use pretext_plus_build_full.World.{World, JobDir}
use pretext_plus_build_full.World.Total.{Returns}
use pretext_plus_build_full.Build.{Sandbox}
use pretext_plus_build_full.Build.Zip.Plain.{is_plain}
use pretext_plus_build_full.Build.Mounts.Present.{Present}
use pretext_plus_build_full.Build.Wait.{is_timeout}
use pretext_plus_build_full.Build.Sandboxed.{output_of}

abbrev pub Archivable : Option Entries → Type 0
Archivable none = Unit
Archivable (some es) = all (λ (f : Found). is_plain f.node) (walk everywhere es) ≡ true

-- The job's directories are there, and the output holds no FIFO and no socket.
abbrev pub Sound : String → Sandbox → World → Type 0
Sound job_id sandbox w =
    (d : JobDir) × (Dict.lookup job_id w.jobs ≡ some d)
    × Archivable (output_of sandbox.output_subdir d.work)

-- A wait ended: with an exit, or because its time was up.
abbrev pub Waited {ℓ} : {A : Type ℓ} → (World → Type 0) → Outcome A × World → Type 0
Waited P (returned code, w) = P w
Waited P (raised e, w) = (is_timeout e ≡ true) × P w
Waited P (hangs, w) = ⊥

-- A container started, or its image is not there.
abbrev pub Started : (World → Type 0) → Outcome ℕ × World → Type 0
Started P (returned container, w) = P w
Started P (raised image_not_found, w) = Unit
Started P (raised e, w) = ⊥
Started P (hangs, w) = ⊥

-- A removal succeeded or was refused.
abbrev pub Removed : (World → Type 0) → Outcome (Unit {0}) × World → Type 0
Removed P (returned u, w) = P w
Removed P (raised api_error, w) = P w
Removed P (raised e, w) = ⊥
Removed P (hangs, w) = ⊥

pub record Calm (daemon : Daemon World) (job_id : String) (sandbox : Sandbox) : Type 0 where
  pub run :
      (args : RunArgs) (w : World)
      → Present job_id w
      → Started (Sound job_id sandbox) (daemon.run args w)
  pub wait :
      (container seconds : ℕ) (w : World)
      → Sound job_id sandbox w
      → Waited (Sound job_id sandbox) (daemon.wait container seconds w)
  pub kill :
      (container : ℕ) (w : World)
      → Sound job_id sandbox w
      → Returns (λ _. Sound job_id sandbox) (daemon.kill container w)
  pub logs :
      (container : ℕ) (w : World)
      → Sound job_id sandbox w
      → Returns (λ _. Sound job_id sandbox) (daemon.logs container w)
  pub remove :
      (container : ℕ) (w : World)
      → Sound job_id sandbox w
      → Removed (Sound job_id sandbox) (daemon.remove container w)
