-- ===== src/AssetCache/Harvest/Keeps.antt =====
-- What a harvest does to the files of the cache.
use pretext_plus_build_full.Common.{
  ◌&&◌, not, String, Bool, false, Option, none, some, List, [], ◌∷◌, ◌++◌, if◌then◌else◌, ◌≡◌,
  Bool-cases, Option-cases, inl, inr,
}
use pretext_plus_build_full.Common.Text.{join}
use pretext_plus_build_full.Config.{Settings}
use pretext_plus_build_full.Files.{
  Bytes, Node, file, link, fifo, socket, dir, Entries, lookup, contents, place,
}
use pretext_plus_build_full.Files.Walk.{Found, walk}
use pretext_plus_build_full.Files.Placing.{file_at, Kept, place-Kept, Placed-cases}
use pretext_plus_build_full.AssetCache.Names.{project_id_match, subdir_match, cache_filename_match}
use pretext_plus_build_full.AssetCache.Harvest.{
  Harvest, add_file, harvest_node, harvest_file, harvest_type, harvest_files, harvest_types,
  harvest,
}

module _ (copies : String → Bool) where
  -- One harvest state keeps the files of another.
  abbrev Grows : Harvest → Harvest → Type 0
  Grows h h' = Kept (dir h.tree) (dir h'.tree)

  add_file-Grows :
      (parts : List String) (name : String) (bytes : Bytes) (h : Harvest)
      → Grows h (add_file copies parts name bytes h)
  unfolding add_file
  add_file-Grows parts name bytes h =
      let content = if copies (join "/" (parts ++ (name ∷ []))) then some bytes else none in
      elim (Placed-cases (place parts name content h.tree)) [
        | inl e ↦ rw (e, add_file) (λ path b f. f)
        | inr (inl (es, e)) ↦ rw (e, add_file) (place-Kept parts name content h.tree es e)
        | inr (inr (inl e)) ↦ rw (e, add_file) (λ path b f. f)
        | inr (inr (inr e)) ↦ rw (e, add_file) (λ path b f. f)
      ]

  harvest_node-Grows :
      (asset_type : String) (f : Found) (h : Harvest) (n : Node)
      → Grows h (harvest_node copies asset_type f h n)
  unfolding harvest_node
  harvest_node-Grows asset_type f h (file bytes) =
      elim (Bool-cases (cache_filename_match f.name && not h.raised)) [
        | inr skip ↦ rw skip (λ path b e. e)
        | inl t ↦ rw t (add_file-Grows (asset_type ∷ f.parts) f.name bytes h)
      ]
  harvest_node-Grows asset_type f h n = λ path b e. e

  harvest_files-Grows :
      (asset_type : String) (found : List Found) (h : Harvest)
      → Grows h (harvest_files copies asset_type found h)
  unfolding harvest_files harvest_file
  harvest_files-Grows asset_type [] h = λ path b e. e
  harvest_files-Grows asset_type (f ∷ found) h = λ path b e.
      harvest_files-Grows asset_type found (harvest_file copies asset_type f h) path b
        (harvest_node-Grows asset_type f h f.node path b e)

  harvest_type-Grows :
      (t : String) (n : Option Node) (h : Harvest) → Grows h (harvest_type copies t n h)
  unfolding harvest_type
  harvest_type-Grows t (some (dir es)) h = harvest_files-Grows t (walk subdir_match es) h
  harvest_type-Grows t (some (file bytes)) h = λ path b e. e
  harvest_type-Grows t (some (link size target)) h = λ path b e. e
  harvest_type-Grows t (some fifo) h = λ path b e. e
  harvest_type-Grows t (some socket) h = λ path b e. e
  harvest_type-Grows t none h = λ path b e. e

  harvest_types-Grows :
      (types : List String) (cache_root : Entries) (h : Harvest)
      → Grows h (harvest_types copies types cache_root h)
  unfolding harvest_types
  harvest_types-Grows [] cache_root h = λ path b e. e
  harvest_types-Grows (t ∷ types) cache_root h = λ path b e.
      harvest_types-Grows types cache_root (harvest_type copies t (lookup t cache_root) h) path b
        (harvest_type-Grows t (lookup t cache_root) h path b e)

  -- Whatever a job left in its directory, a harvest changes no file of the project's cache: what
  -- stood at a path, through real directories, stands there after it, whether or not copies fail.
  pub harvest_keeps_files :
      (settings : Settings) (project_id : String) (tree work : Entries) (path : List String)
      (bytes : Bytes)
      → file_at path (dir tree) ≡ some bytes
      → file_at path (dir (harvest copies settings project_id tree work).tree) ≡ some bytes
  unfolding harvest
  harvest_keeps_files settings project_id tree work path bytes e =
      let root = contents (lookup settings.generate_output_subdir work) in
      elim (Bool-cases (project_id_match project_id)) [
        | inr bad ↦ rw bad e
        | inl good ↦ elim (Option-cases root) [
          | inl gone ↦ rw (good, gone) e
          | inr (cache_root, found) ↦
              rw (good, found)
                (harvest_types-Grows settings.asset_cache_types cache_root
                  (record { tree = tree; added = []; outside = []; raised = false }) path bytes e)
        ]
      ]
