-- ===== src/Build/Zip/Listed.antt =====
-- The names that `_zip_dir` returns, and the archive that it writes.
use pretext_plus_build_full.Common.{
  String, Bool, List, [], ◌∷◌, ◌++◌, ◌&&◌, ◌||◌, ◌==◌, ◌≡◌, refl, ap, ◌∙◌, arith, Bool-cases, inl,
  inr,
}
use Prim.Native.String.{compare}
use text.Mathlib.Text.{is_le}
use pretext_plus_build_full.Config.Load.{member}
use pretext_plus_build_full.Docker.{returned, raised, hangs, Outcome, os_error}
use pretext_plus_build_full.Files.{Node, file, link, fifo, socket, dir, Entries}
use pretext_plus_build_full.Files.Walk.{Found, walk, everywhere}
use pretext_plus_build_full.World.{Archive}
use pretext_plus_build_full.Build.Zip.{
  is_top_dotfile, rel, zip_file, zip_files, insert, sort, names, listed, zip_dir,
}

member-insert : (s t : String) (l : List String) → member s (insert t l) ≡ (t == s || member s l)
unfolding member insert
member-insert s t [] = refl
member-insert s t (u ∷ l) = elim (Bool-cases (is_le (compare t u))) [
  | inl le ↦ rw le refl
  | inr gt ↦ rw (gt, member, member-insert s t l) (ground arith)
]

member-sort : (s : String) (l : List String) → member s (sort l) ≡ member s l
unfolding member sort
member-sort s [] = refl
member-sort s (t ∷ l) = member-insert s t (sort l) ∙ ap (λ b. t == s || b) (member-sort s l)

module _ (skip : Bool) (f : Found) (rest : Archive → Outcome Archive × Archive)
    (written : (start done z : Archive) → rest start ≡ (returned done, z) → done ≡ z)
    (start done z : Archive) where
  zip_file_written :
      (n : Node) → f.node ≡ n → zip_file skip f rest start ≡ (returned done, z) → done ≡ z
  unfolding zip_file
  zip_file_written n e h = elim (Bool-cases (skip && is_top_dotfile f)) [
    | inl t ↦ written start done z (rw (zip_file, t) at h)
    | inr g ↦ go n e (rw (zip_file, g) at h)
  ]
    where
      go :
          (n : Node)
          → f.node ≡ n
          → elim f.node as (λ _. Outcome Archive × Archive) [
            | link size target ↦ rest start
            | file bytes ↦ rest (start ++ ((rel f, bytes) ∷ []))
            | fifo ↦ (hangs, start)
            | socket ↦ (raised os_error, start)
            | dir es ↦ (raised os_error, start)
          ]
            ≡ (returned done, z)
          → done ≡ z
      go (file bytes) e h = written _ done z (rw e at h)
      go (link size target) e h = written _ done z (rw e at h)
      go fifo e h = cc (rw e at h)
      go socket e h = cc (rw e at h)
      go (dir es) e h = cc (rw e at h)

-- An archive that is finished is what was written.
zip_files_written :
    (skip : Bool) (found : List Found) (start done z : Archive)
    → zip_files skip found start ≡ (returned done, z)
    → done ≡ z
unfolding zip_files
zip_files_written skip [] start done z h = cc
zip_files_written skip (f ∷ found) start done z h =
    zip_file_written skip f (zip_files skip found) (zip_files_written skip found) start done z
      f.node refl h

-- The names that are returned are those in the archive.
pub member-zip_dir :
    (es : Entries) (skip : Bool) (path : String) {listing : List String} {z : Archive}
    → zip_dir es skip ≡ (returned listing, z)
    → member path listing ≡ member path (names z)
unfolding zip_dir listed
member-zip_dir es skip path {listing} {z} h = go (zip_files skip (walk everywhere es) []) refl h
  where
    go :
        (r : Outcome Archive × Archive)
        → zip_files skip (walk everywhere es) [] ≡ r
        → ◌≡◌ {A = Outcome (List String) × Archive} (listed r.0, r.1) (returned listing, z)
        → member path listing ≡ member path (names z)
    go (returned done, y) e h =
        let same = zip_files_written skip (walk everywhere es) [] done y e in
        let order : sort (names done) ≡ listing = cc in
        let last : y ≡ z = ap (λ x. x.1) h in
        rw (← order, ← last, same) (member-sort path (names y))
    go (raised x, y) e h = cc
    go (hangs, y) e h = cc
