-- ===== src/Build/Zip/Links.antt =====
-- What the symbolic links in a job's output can do to its artifact.
use mathlib.Core.Path.{fun_ext}
use pretext_plus_build_full.Common.{
  ℕ, String, Bool, true, List, [], ◌∷◌, ◌++◌, ◌&&◌, if◌then◌else◌, ◌≡◌, refl, sym, ap, ◌∙◌,
  Bool-cases, inl, inr,
}
use pretext_plus_build_full.Files.{
  Target, to_dir, to_file, dangling, is_dir, Node, is_link, file, link, fifo, socket, dir, Entries,
  end, entry,
}
use pretext_plus_build_full.Files.Walk.{Found, plain, visit, visit_all, walk, everywhere}
use pretext_plus_build_full.World.{Archive}
use pretext_plus_build_full.Build.Zip.{is_top_dotfile, zip_file, zip_files, zip_dir}

-- The same tree, where every link leads nowhere.
unfoldable mutual
  pub cut : Node → Node
  cut (file bytes) = file bytes
  cut (link size target) = link size dangling
  cut fifo = fifo
  cut socket = socket
  cut (dir es) = dir (cut_all es)

  pub cut_all : Entries → Entries
  cut_all end = end
  cut_all (entry name n es) = entry name (cut n) (cut_all es)

-- What a walk finds, without the links.
unlinked : List Found → List Found
unfolding is_link
unlinked [] = []
unlinked (f ∷ found) = let rest = unlinked found in if is_link f.node then rest else f ∷ rest

unlinked-append : (xs ys : List Found) → unlinked (xs ++ ys) ≡ unlinked xs ++ unlinked ys
unfolding unlinked
unlinked-append [] ys = refl
unlinked-append (f ∷ xs) ys = elim (Bool-cases (is_link f.node)) [
  | inl t ↦ rw t (unlinked-append xs ys)
  | inr g ↦ rw g (ap (λ zs. f ∷ zs) (unlinked-append xs ys))
]

a_link : (n : Node) → is_link n ≡ true → (size : ℕ) × (target : Target) × (n ≡ link size target)
unfolding is_link
a_link (link size target) e = (size, target, refl)
a_link (file bytes) e = absurd (cc)
a_link fifo e = absurd (cc)
a_link socket e = absurd (cc)
a_link (dir es) e = absurd (cc)

zip_files_link :
    (skip : Bool) (f : Found) (found : List Found) (z : Archive)
    → is_link f.node ≡ true
    → zip_files skip (f ∷ found) z ≡ zip_files skip found z
unfolding zip_files zip_file
zip_files_link skip f found z e =
    let (size, target, e') = a_link f.node e in
    elim (Bool-cases (skip && is_top_dotfile f)) [ inl t ↦ rw t refl | inr g ↦ rw (g, e') refl ]

-- One step of the loop follows the rest of the list.
zip_files_cons :
    (skip : Bool) (f : Found) (xs ys : List Found)
    → ((z : Archive) → zip_files skip xs z ≡ zip_files skip ys z)
    → (z : Archive) → zip_files skip (f ∷ xs) z ≡ zip_files skip (f ∷ ys) z
unfolding zip_files
zip_files_cons skip f xs ys same z = ap (λ rest. zip_file skip f rest z) (fun_ext same)

zip_files-unlinked :
    (skip : Bool) (found : List Found) (z : Archive)
    → zip_files skip (unlinked found) z ≡ zip_files skip found z
unfolding unlinked
zip_files-unlinked skip [] z = refl
zip_files-unlinked skip (f ∷ found) z = elim (Bool-cases (is_link f.node)) [
  | inl t ↦ rw t (zip_files-unlinked skip found z ∙ sym (zip_files_link skip f found z t))
  | inr g ↦ rw g (zip_files_cons skip f (unlinked found) found (zip_files-unlinked skip found) z)
]

unlinked-plain-cut_all :
    (parts : List String) (es : Entries)
    → unlinked (plain parts (cut_all es)) ≡ unlinked (plain parts es)
unfolding plain cut unlinked is_dir is_link
unlinked-plain-cut_all parts end = refl
unlinked-plain-cut_all parts (entry name (file bytes) es) =
    rw (unlinked-plain-cut_all parts es) refl
unlinked-plain-cut_all parts (entry name (link size (to_dir sub)) es) =
    unlinked-plain-cut_all parts es
unlinked-plain-cut_all parts (entry name (link size (to_file bytes)) es) =
    unlinked-plain-cut_all parts es
unlinked-plain-cut_all parts (entry name (link size dangling) es) = unlinked-plain-cut_all parts es
unlinked-plain-cut_all parts (entry name fifo es) = rw (unlinked-plain-cut_all parts es) refl
unlinked-plain-cut_all parts (entry name socket es) = rw (unlinked-plain-cut_all parts es) refl
unlinked-plain-cut_all parts (entry name (dir sub) es) = unlinked-plain-cut_all parts es

mutual
  unfolding visit cut

  unlinked-visit-cut :
      (parts : List String) (n : Node)
      → unlinked (visit everywhere parts (cut n)) ≡ unlinked (visit everywhere parts n)
  unlinked-visit-cut parts (dir es) =
      unlinked-append (plain parts (cut_all es)) (visit_all everywhere parts (cut_all es))
      ∙ rw (unlinked-plain-cut_all parts es, unlinked-visit_all-cut_all parts es)
          (sym (unlinked-append (plain parts es) (visit_all everywhere parts es)))
  unlinked-visit-cut parts (file bytes) = refl
  unlinked-visit-cut parts (link size target) = refl
  unlinked-visit-cut parts fifo = refl
  unlinked-visit-cut parts socket = refl

  unlinked-visit_all-cut_all :
      (parts : List String) (es : Entries)
      → unlinked (visit_all everywhere parts (cut_all es))
        ≡ unlinked (visit_all everywhere parts es)
  unlinked-visit_all-cut_all parts end = refl
  unlinked-visit_all-cut_all parts (entry name n es) =
      let below = parts ++ (name ∷ []) in
      unlinked-append (visit everywhere below (cut n)) (visit_all everywhere parts (cut_all es))
      ∙ rw (unlinked-visit-cut below n, unlinked-visit_all-cut_all parts es)
          (sym (unlinked-append (visit everywhere below n) (visit_all everywhere parts es)))

zip_files-cut_all :
    (skip : Bool) (es : Entries) (z : Archive)
    → zip_files skip (walk everywhere (cut_all es)) z ≡ zip_files skip (walk everywhere es) z
unfolding walk cut
zip_files-cut_all skip es z =
    sym (zip_files-unlinked skip (walk everywhere (cut_all es)) z)
    ∙ ap (λ found. zip_files skip found z) (unlinked-visit-cut [] (dir es))
    ∙ zip_files-unlinked skip (walk everywhere es) z

-- The artifact of a job, the names reported and the way in which the zipping ends do not depend on
-- what the links in the output lead to.
pub zip_dir_ignores_links :
    (es : Entries) (skip : Bool) → zip_dir (cut_all es) skip ≡ zip_dir es skip
unfolding zip_dir
zip_dir_ignores_links es skip = rw (zip_files-cut_all skip es []) refl
