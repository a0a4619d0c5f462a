-- ===== src/Build/Zip.antt =====
-- `_zip_dir`: the artifact of a job, from a tree that sandboxed code wrote.
pub mod Links
pub mod Plain
pub mod Listed
use Prim.Native.String.{compare}
use text.Mathlib.Text.{is_le}
use pretext_plus_build_full.Common.{
  String, Bool, true, false, List, [], ◌∷◌, ◌++◌, ◌&&◌, if◌then◌else◌, map,
}
use pretext_plus_build_full.Common.Text.{codes, join, starts_with}
use pretext_plus_build_full.Docker.{Outcome, returned, raised, hangs, os_error}
use pretext_plus_build_full.Files.{Bytes, Node, file, link, fifo, socket, dir, Entries}
use pretext_plus_build_full.Files.Walk.{Found, walk, everywhere}
use pretext_plus_build_full.World.{Archive}

-- `root == src_dir and name.startswith(".")`
unfoldable pub is_top_dotfile : Found → Bool
unfolding starts_with
is_top_dotfile f = elim f.parts [ [] ↦ starts_with (codes f.name) (codes ".") | d ∷ parts ↦ false ]

-- os.path.relpath(full, src_dir)
unfoldable pub rel : Found → String
unfolding join
rel f = join "/" (f.parts ++ (f.name ∷ []))

-- One round of the loop over the walk, before the rest of it, with the members written so far.
-- Opening a FIFO waits for a writer that never comes, and opening a socket fails.
unfoldable pub zip_file :
    Bool → Found → (Archive → Outcome Archive × Archive) → Archive → Outcome Archive × Archive
unfolding is_top_dotfile rel
zip_file skip f rest z = if skip && is_top_dotfile f then rest z else elim f.node [
  | link size target ↦ rest z
  | file bytes ↦ rest (z ++ ((rel f, bytes) ∷ []))
  | fifo ↦ (hangs, z)
  | socket ↦ (raised os_error, z)
  | dir es ↦ (raised os_error, z)
]

unfoldable pub zip_files : Bool → List Found → Archive → Outcome Archive × Archive
unfolding zip_file
zip_files skip [] z = (returned z, z)
zip_files skip (f ∷ found) z = zip_file skip f (zip_files skip found) z

unfoldable pub insert : String → List String → List String
insert s [] = s ∷ []
insert s (t ∷ ts) = if is_le (compare s t) then s ∷ t ∷ ts else t ∷ insert s ts

-- sorted(names)
unfoldable pub sort : List String → List String
unfolding insert
sort [] = []
sort (s ∷ ss) = insert s (sort ss)

unfoldable pub names : Archive → List String
names [] = []
names ((n, bytes) ∷ z) = n ∷ names z

listed : Outcome Archive → Outcome (List String)
unfolding sort names
listed (returned z) = returned (sort (names z))
listed (raised e) = raised e
listed hangs = hangs

-- The archive is written up to where an exception stops it.
unfoldable pub zip_dir : Entries → Bool → Outcome (List String) × Archive
unfolding zip_files listed walk
zip_dir es skip = let (outcome, z) = zip_files skip (walk everywhere es) [] in (listed outcome, z)
