-- ===== src/Files/Walk.antt =====
-- `os.walk(top)` without `followlinks`: each directory with the names in it that are no
-- directories, a directory before those below it. Real subdirectories that the caller keeps are
-- entered; a link never is.
pub mod Descended
pub mod Totals
use Prim.Native.Nat.{◌+◌}
use pretext_plus_build_full.Common.{
  ℕ, String, Bool, true, List, [], ◌∷◌, ◌++◌, if◌then◌else◌, length,
}
use pretext_plus_build_full.Files.{Node, file, link, fifo, socket, dir, Entries, end, entry, is_dir}

-- One file that a walk meets: the directories on the way from the top, its name, what it is.
pub record Found : Type 0 where
  pub parts : List String
  pub name : String
  pub node : Node

-- The third part of what `os.walk` yields for one directory.
unfoldable pub plain : List String → Entries → List Found
unfolding is_dir
plain parts end = []
plain parts (entry name n es) =
    let rest = plain parts es in
    if is_dir n then rest else record { parts = parts; name = name; node = n } ∷ rest

module _ (descend : String → Bool) where
  unfoldable mutual
    pub visit : List String → Node → List Found
    visit parts (dir es) = plain parts es ++ visit_all parts es
    visit parts (file bytes) = []
    visit parts (link size target) = []
    visit parts fifo = []
    visit parts socket = []

    pub visit_all : List String → Entries → List Found
    visit_all parts end = []
    visit_all parts (entry name n es) =
        (if descend name then visit (parts ++ (name ∷ [])) n else []) ++ visit_all parts es

  -- Every file of the walk below `es`, in its order.
  unfoldable pub walk : Entries → List Found
  unfolding visit plain
  walk es = visit [] (dir es)

abbrev pub everywhere : String → Bool
everywhere name = true

-- os.lstat(...).st_size
unfoldable pub lstat_size : Node → ℕ
lstat_size (file bytes) = length bytes
lstat_size (link size target) = size
lstat_size n = 0

unfoldable pub sizes : List Found → ℕ
unfolding lstat_size
sizes [] = 0
sizes (f ∷ found) = lstat_size f.node + sizes found

-- `_dir_size` of asset_cache.py
unfoldable pub dir_size : Entries → ℕ
unfolding sizes walk
dir_size es = sizes (walk everywhere es)
