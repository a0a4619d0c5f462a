-- ===== src/Files/Walk/Totals.antt =====
-- The size of a directory, by recursion on the tree.
use Prim.Native.Nat.{ℕ, ◌+◌}
use pretext_plus_build_full.Common.{String, List, [], ◌∷◌, ◌++◌, ◌≡◌, refl, arith, if◌then◌else◌}
use pretext_plus_build_full.Files.{
  Node, file, link, fifo, socket, dir, to_dir, to_file, dangling, Entries, end, entry, is_dir,
}
use pretext_plus_build_full.Files.Walk.{
  Found, plain, visit, visit_all, walk, everywhere, lstat_size, sizes, dir_size,
}

-- Each file and each link that does not lead to a directory counts once, at whatever depth real
-- directories put it.
unfoldable mutual
  pub total_node : Node → ℕ
  total_node (dir es) = total es
  total_node (file bytes) = lstat_size (file bytes)
  total_node (link size (to_dir es)) = 0
  total_node (link size (to_file bytes)) = size
  total_node (link size dangling) = size
  total_node fifo = 0
  total_node socket = 0

  pub total : Entries → ℕ
  total end = 0
  total (entry name n es) = total_node n + total es

sizes-append : (xs ys : List Found) → sizes (xs ++ ys) ≡ sizes xs + sizes ys
unfolding sizes
sizes-append [] ys = omega arith
sizes-append (x ∷ xs) ys = omega (arith, sizes-append xs ys)

-- What stands at an entry itself, and what stands below it.
abbrev here : Node → ℕ
here n = if is_dir n then 0 else lstat_size n

abbrev all_here : Entries → ℕ
all_here end = 0
all_here (entry name n es) = here n + all_here es

sizes-plain : (parts : List String) (es : Entries) → sizes (plain parts es) ≡ all_here es
unfolding plain sizes
sizes-plain parts end = refl
sizes-plain parts (entry name n es) = ground (arith, sizes-plain parts es)

mutual
  unfolding visit total_node is_dir lstat_size sizes

  sizes-visit :
      (parts : List String) (n : Node) → sizes (visit everywhere parts n) + here n ≡ total_node n
  sizes-visit parts (dir es) = omega (
    arith,
    sizes-append (plain parts es) (visit_all everywhere parts es),
    sizes-plain parts es,
    sizes-visit_all parts es,
  )
  sizes-visit parts (file bytes) = omega arith
  sizes-visit parts (link size (to_dir es)) = omega arith
  sizes-visit parts (link size (to_file bytes)) = omega arith
  sizes-visit parts (link size dangling) = omega arith
  sizes-visit parts fifo = omega arith
  sizes-visit parts socket = omega arith

  sizes-visit_all :
      (parts : List String) (es : Entries)
      → sizes (visit_all everywhere parts es) + all_here es ≡ total es
  sizes-visit_all parts end = omega arith
  sizes-visit_all parts (entry name n es) = omega (
    arith,
    sizes-append (visit everywhere (parts ++ (name ∷ [])) n) (visit_all everywhere parts es),
    sizes-visit (parts ++ (name ∷ [])) n,
    sizes-visit_all parts es,
  )

-- `_dir_size`, which adds up the files that `os.walk` lists directory by directory, is the sum over
-- the tree: each file and each link to something else than a directory once, links by their own
-- size, and nothing behind a link.
pub dir_size-eq-total : (es : Entries) → dir_size es ≡ total es
unfolding dir_size walk total
dir_size-eq-total es = omega (arith, sizes-visit [] (dir es))
