-- ===== src/Files.antt =====
-- Directory trees, as `os.walk`, `os.path` and `zipfile` see them. A symbolic link has the size that
-- `lstat` gives it and what it leads to; a name never holds a slash.
pub mod Walk
pub mod Placing
use pretext_plus_build_full.Common.{
  ℕ, String, Bool, true, false, Option, none, some, List, [], ◌∷◌, ◌==◌, if◌then◌else◌,
}

abbrev pub Bytes : Type 0
Bytes = List ℕ

-- A link leads to a directory, to something else that can be read, or nowhere.
mutual
  pub data Target : Type 0 where
    to_dir : Entries → Target
    to_file : Bytes → Target
    dangling : Target

  pub data Node : Type 0 where
    file : Bytes → Node
    link : ℕ → Target → Node
    fifo : Node
    socket : Node
    dir : Entries → Node

  pub data Entries : Type 0 where
    end : Entries
    entry : String → Node → Entries → Entries

-- os.path.islink
unfoldable pub is_link : Node → Bool
is_link (link size target) = true
is_link n = false

-- os.path.isdir, which follows links
unfoldable pub is_dir : Node → Bool
is_dir (dir es) = true
is_dir (link size (to_dir es)) = true
is_dir n = false

-- os.path.isfile, which follows links
unfoldable pub is_file : Node → Bool
is_file (file bytes) = true
is_file (link size (to_file bytes)) = true
is_file n = false

-- os.path.exists, which follows links
unfoldable pub exists : Node → Bool
exists (link size dangling) = false
exists n = true

unfoldable pub lookup : String → Entries → Option Node
lookup name end = none
lookup name (entry other n es) = if other == name then some n else lookup name es

unfoldable pub put : String → Node → Entries → Entries
put name n end = entry name n end
put name n (entry other m es) =
    if other == name then entry other n es else entry other m (put name n es)

-- The contents of the directory at a node, through a link too.
unfoldable pub contents : Option Node → Option Entries
contents (some (dir es)) = some es
contents (some (link size (to_dir es))) = some es
contents n = none

-- What becomes of a file that is to be written at a path of a directory tree.
pub data Placed : Type 0 where
  there : Placed
  stored : Entries → Placed
  escaped : Placed
  refused : Placed

-- The outcome below a subdirectory, seen from the directory that holds it.
unfoldable pub within : String → Entries → Placed → Placed
unfolding put
within d es (stored sub) = stored (put d (dir sub) es)
within d es outcome = outcome

-- The outcome behind a link to a directory.
unfoldable pub beyond : Placed → Placed
beyond (stored sub) = escaped
beyond outcome = outcome

-- A file at a name of one directory: `os.path.exists`, and `os.replace` if it does not.
unfoldable pub store_file : String → Option Bytes → Entries → Option Node → Placed
unfolding exists put
store_file name none es old = stored es
store_file name (some bytes) es none = stored (put name (file bytes) es)
store_file name (some bytes) es (some n) =
    if exists n then there else stored (put name (file bytes) es)

-- One directory on the way, where `rest` places the file below it. A link to a directory takes the
-- write out of the tree. Where something else stands, `makedirs` raises.
unfoldable pub below : String → Entries → (Entries → Placed) → Node → Placed
unfolding within beyond
below d es rest (dir sub) = within d es (rest sub)
below d es rest (link size (to_dir sub)) = beyond (rest sub)
below d es rest n = refused

-- `os.path.exists`, `os.makedirs(exist_ok=True)` of the directories on the way and `os.replace`.
-- With no bytes the directories alone are made.
unfoldable pub place : List String → String → Option Bytes → Entries → Placed
unfolding within below store_file lookup
place [] name bytes es = store_file name bytes es (lookup name es)
place (d ∷ parts) name bytes es =
    let rest = place parts name bytes in
    elim (lookup d es) [ none ↦ within d es (rest end) | some n ↦ below d es rest n ]
