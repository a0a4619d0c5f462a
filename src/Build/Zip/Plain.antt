-- ===== src/Build/Zip/Plain.antt =====
-- Archiving a tree without FIFOs and sockets.
use pretext_plus_build_full.Common.{
  String, Bool, true, false, List, [], ◌∷◌, ◌&&◌, all, ◌≡◌, ◌⊎◌, refl, ap, Bool-cases, inl, inr,
  and-true_left, and-true_right, ℕ,
}
use pretext_plus_build_full.Docker.{Outcome, returned}
use pretext_plus_build_full.Files.{Bytes, Target, Node, file, link, fifo, socket, dir, Entries}
use pretext_plus_build_full.Files.Walk.{Found, walk, everywhere}
use pretext_plus_build_full.World.{Archive}
use pretext_plus_build_full.Build.Zip.{is_top_dotfile, zip_file, zip_files, zip_dir, listed}

-- A regular file or a link: what can be archived or skipped.
abbrev pub is_plain : Node → Bool
is_plain (file bytes) = true
is_plain (link size target) = true
is_plain n = false

plain_cases :
    (n : Node)
    → is_plain n ≡ true
    → ((bytes : Bytes) × (n ≡ file bytes))
      ⊎ ((size : ℕ) × (target : Target) × (n ≡ link size target))
plain_cases (file bytes) h = inl (bytes, refl)
plain_cases (link size target) h = inr (size, target, refl)
plain_cases fifo h = absurd (cc)
plain_cases socket h = absurd (cc)
plain_cases (dir es) h = absurd (cc)

zip_file_plain :
    (skip : Bool) (f : Found) (rest : Archive → Outcome Archive × Archive) (z : Archive)
    → is_plain f.node ≡ true
    → ((y : Archive) → (a : Archive) × ((rest y).0 ≡ returned a))
    → (a : Archive) × ((zip_file skip f rest z).0 ≡ returned a)
unfolding zip_file
zip_file_plain skip f rest z plain done = elim (Bool-cases (skip && is_top_dotfile f)) [
  | inl t ↦ rw t (done z)
  | inr g ↦ elim (plain_cases f.node plain) [
    | inl (bytes, e) ↦ rw (g, e) (done _)
    | inr (size, target, e) ↦ rw (g, e) (done z)
  ]
]

zip_files_plain :
    (skip : Bool) (found : List Found) (z : Archive)
    → all (λ (f : Found). is_plain f.node) found ≡ true
    → (a : Archive) × ((zip_files skip found z).0 ≡ returned a)
unfolding zip_files
zip_files_plain skip [] z plain = (z, refl)
zip_files_plain skip (f ∷ found) z plain =
    zip_file_plain skip f (zip_files skip found) z (and-true_left (is_plain f.node) _ plain)
      (λ y. zip_files_plain skip found y (and-true_right (is_plain f.node) _ plain))

pub zip_dir_plain :
    (skip : Bool) (es : Entries)
    → all (λ (f : Found). is_plain f.node) (walk everywhere es) ≡ true
    → (names : List String) × ((zip_dir es skip).0 ≡ returned names)
unfolding zip_dir listed
zip_dir_plain skip es plain =
    let (a, e) = zip_files_plain skip (walk everywhere es) [] plain in (_, ap listed e)
