-- ===== src/Tests/Creation.antt =====
-- Requests that create jobs, on concrete input.
use pretext_plus_build_full.Common.{
  ℕ, String, true, false, some, none, List, [], ◌∷◌, ◌==◌, ◌≡◌, ◌↔◌, refl, arith, all, All,
  Bool-cases, inl, inr, eq_iff, if◌then◌else◌,
}
use pretext_plus_build_full.Common.Dict
use pretext_plus_build_full.Common.Dict.{Dict}
use pretext_plus_build_full.Common.Text.{codes, lower_ends_with}
use pretext_plus_build_full.Files.{Entries, file, entry, end}
use pretext_plus_build_full.World.{World, Archive}
use pretext_plus_build_full.Api.Intake.{Archives, done, failed, Upload, safe_extract}
use pretext_plus_build_full.Api.Intake.Inside.{IsPath}
use pretext_plus_build_full.Api.Intake.Accepts.{Within, safe_extract_iff}
use pretext_plus_build_full.Api.Create.{Queues, create_generate, run_generate}
use pretext_plus_build_full.Api.Create.Created.{Enqueued}
use pretext_plus_build_full.Api.Create.Generated.{create_generate-Enqueued}
use pretext_plus_build_full.Api.Assets.{is_plain_name}
use pretext_plus_build_full.Jobs
use pretext_plus_build_full.Jobs.{Record}
use pretext_plus_build_full.Notify.{Codec}
use pretext_plus_build_full.Tests.Fixtures.{settings, network, world, codec}

abbrev project : Entries
project = entry "project.ptx" (file (1 ∷ [])) end

-- Two paths lead into `/w`, and any other to it.
abbrev pub archives : Archives
archives = record {
  is_zipfile = λ bytes. true;
  namelist = λ bytes. done ("project.ptx" ∷ []);
  extract_zip = λ bytes. done project;
  is_tarfile = λ bytes. false;
  extract_tar = λ bytes. failed "no tar file";
  realpath = λ p. if p == "/w/project.ptx" then p else "/w";
}

resolves : String → List (List ℕ)
resolves p = if p == "/w/project.ptx" then codes "w" ∷ codes "project.ptx" ∷ [] else codes "w" ∷ []

exact : (p : String) → IsPath (archives.realpath p) (resolves p)
unfolding resolves
exact p = elim (Bool-cases (p == "/w/project.ptx")) [
  | inl same ↦ let e = (eq_iff p "/w/project.ptx").0 same in rw (resolves, e) (refl, refl)
  | inr other ↦ rw (resolves, other) (refl, refl)
]

safe_extract_iff_example : (safe_extract archives (1 ∷ []) "/w" none ≡ done project) ↔ (
    (members : List String) × (archives.namelist (1 ∷ []) ≡ done members)
    × All (Within archives resolves exact "/w") members
    × (archives.extract_zip (1 ∷ []) ≡ done project))
unfolding resolves lower_ends_with
safe_extract_iff_example =
    safe_extract_iff archives resolves exact (1 ∷ []) "/w" none project (λ e. cc) refl

abbrev pub upload : Upload
upload = record { filename = some "book.zip"; content = 1 ∷ [] }

abbrev pub queues : Queues
queues = record { enqueue = λ task w. w }

abbrev pub show_names : List String → String
show_names names = "[]"

create_generate-Enqueued_example :
    Enqueued queues "new"
      (run_generate "new" "web" ("sageplot" ∷ []))
      "generate"
      "web"
      world
      (create_generate settings network archives queues show_names "new" upload "web"
        ("sageplot" ∷ [])
        none
        (some "secret")
        none
        none
        world).1
    × (all (λ s. is_plain_name (codes s)) ("sageplot" ∷ []) ≡ true)
unfolding create_generate Jobs.find Jobs.key
create_generate-Enqueued_example =
    create_generate-Enqueued settings network archives queues show_names "new" upload "web"
      ("sageplot" ∷ []) none (some "secret") none none world (omega arith) refl refl

-- The artifact of a generate job with one file.
abbrev svg : Archive
svg = ("a.svg", 7 ∷ []) ∷ []

abbrev one_name : Codec
one_name = record codec { load_names = λ s. if s == "a.svg" then some ("a.svg" ∷ []) else none }

abbrev generated : Record
generated = ("kind", "generate") ∷ ("status", "success") ∷ ("files", "a.svg") ∷ []

abbrev after_generate : World
after_generate = record world {
  redis = record world.redis {
    hashes = ("job:g", record { fields = generated; expires_at = none }) ∷ [];
  };
  jobs = ("g", record { mtime = 1000; work = end; output_zip = some svg }) ∷ [];
}
