-- ===== src/AssetCache/Harvest.antt =====
-- `touch`, `mounts` and `harvest`: how a project's cache meets the project directory of a job.
-- The directory names of the settings are single components.
pub mod Keeps
pub mod Reported
use pretext_plus_build_full.Common.{
  ℕ, String, ◌<>◌, Bool, true, false, Option, none, some, List, [], ◌∷◌, ◌++◌, if◌then◌else◌, ◌&&◌,
  not,
}
use pretext_plus_build_full.Common.Dict
use pretext_plus_build_full.Common.Dict.{Dict}
use pretext_plus_build_full.Common.Text.{join}
use pretext_plus_build_full.Config.{Settings}
use pretext_plus_build_full.Files.{
  Node, Bytes, file, dir, Entries, end, lookup, put, contents, is_dir, place, there, stored,
  escaped, refused,
}
use pretext_plus_build_full.Files.Walk.{Found, walk}
use pretext_plus_build_full.AssetCache.{Item, project, stray, Cache}
use pretext_plus_build_full.AssetCache.Names.{project_id_match, subdir_match, cache_filename_match}

-- `os.makedirs(path/name, exist_ok=True)`; `none` is the `OSError`.
unfoldable pub make_dir : String → Entries → Option Entries
unfolding lookup put is_dir
make_dir name es = elim (lookup name es) [
  | none ↦ some (put name (dir end) es)
  | some n ↦ if is_dir n then some es else none
]

unfoldable pub make_dirs : List String → Entries → Option Entries
unfolding make_dir
make_dirs [] es = some es
make_dirs (name ∷ names) es = elim (make_dir name es) [
  | none ↦ none
  | some made ↦ make_dirs names made
]

-- The project's directory in the cache root, made if it is not there.
unfoldable pub tree_of : Option Item → Option Entries
tree_of none = some end
tree_of (some (project mtime tree)) = some tree
tree_of (some stray) = none

-- `touch`; `none` is an exception.
unfoldable pub touch : Settings → ℕ → String → Cache → Option Cache
unfolding project_id_match tree_of make_dirs Dict.lookup Dict.insert
touch settings now project_id cache =
    if project_id_match project_id
    then elim (tree_of (Dict.lookup project_id cache)) [
      | none ↦ none
      | some tree ↦ elim (make_dirs settings.asset_cache_types tree) [
        | none ↦ none
        | some made ↦ some (Dict.insert project_id (project now made) cache)
      ]
    ]
    else none

-- `os.path.join` of two names, of which the second is relative.
unfoldable pub path_join : String → String → String
path_join a b = a <> "/" <> b

-- A bind mount: the path in the container. Every mount is read-write.
abbrev pub Volumes : Type 0
Volumes = Dict String

unfoldable pub volumes_for : String → String → List String → Volumes → Volumes
unfolding path_join Dict.insert
volumes_for host_pdir subdir [] volumes = volumes
volumes_for host_pdir subdir (t ∷ types) volumes =
    volumes_for host_pdir subdir types
      (Dict.insert (path_join host_pdir t) (path_join (path_join "/work" subdir) t) volumes)

-- `mounts`: the volumes, and the project directory of the job with the mount points made.
unfoldable pub mounts : Settings → String → Entries → Option (Volumes × Entries)
unfolding project_id_match volumes_for make_dir make_dirs contents lookup put
mounts settings project_id work =
    if project_id_match project_id
    then elim (make_dir settings.generate_output_subdir work) [
      | none ↦ none
      | some made ↦
          let root = lookup settings.generate_output_subdir made in
          let volumes =
            volumes_for
              (path_join (path_join settings.host_data_dir settings.asset_cache_subdir) project_id)
              settings.generate_output_subdir settings.asset_cache_types [] in
          elim (contents root) [
            | none ↦ none
            | some es ↦ elim (make_dirs settings.asset_cache_types es) [
              | none ↦ none
              | some filled ↦ some (
                volumes,
                elim root [
                  | some (dir old) ↦ put settings.generate_output_subdir (dir filled) made
                  | _ ↦ made
                ],
              )
            ]
          ]
    ]
    else none

-- What a harvest has done so far: the project's tree, the paths reported as added, those whose
-- copy went through a link out of the tree, and whether an exception ended it.
pub record Harvest : Type 0 where
  pub tree : Entries
  pub added : List String
  pub outside : List String
  pub raised : Bool

module _ (copies : String → Bool) where
  -- One cache file: `copies` says whether copying it into place succeeds.
  add_file : List String → String → Bytes → Harvest → Harvest
  unfolding place join
  add_file parts name bytes h =
      let path = join "/" (parts ++ (name ∷ [])) in
      let content = if copies path then some bytes else none in
      let reported = if copies path then h.added ++ (path ∷ []) else h.added in
      elim (place parts name content h.tree) [
        | there ↦ h
        | stored tree ↦ record h { tree = tree; added = reported }
        | escaped ↦ record h {
          added = reported;
          outside = if copies path then h.outside ++ (path ∷ []) else h.outside;
        }
        | refused ↦ record h { raised = true }
      ]

  -- One file of the walk: real files with the name of a cache file count, until an exception.
  harvest_node : String → Found → Harvest → Node → Harvest
  unfolding add_file
  harvest_node asset_type f h (file bytes) =
      if cache_filename_match f.name && not h.raised
      then add_file (asset_type ∷ f.parts) f.name bytes h
      else h
  harvest_node asset_type f h n = h

  harvest_file : String → Found → Harvest → Harvest
  unfolding harvest_node
  harvest_file asset_type f h = harvest_node asset_type f h f.node

  harvest_files : String → List Found → Harvest → Harvest
  unfolding harvest_file
  harvest_files asset_type [] h = h
  harvest_files asset_type (f ∷ found) h =
      harvest_files asset_type found (harvest_file asset_type f h)

  -- The walk of an asset type's directory, which counts only if it is a real one.
  harvest_type : String → Option Node → Harvest → Harvest
  unfolding harvest_files walk
  harvest_type t (some (dir es)) h = harvest_files t (walk subdir_match es) h
  harvest_type t n h = h

  harvest_types : List String → Entries → Harvest → Harvest
  unfolding harvest_type lookup
  harvest_types [] cache_root h = h
  harvest_types (t ∷ types) cache_root h =
      harvest_types types cache_root (harvest_type t (lookup t cache_root) h)

  -- `harvest` on the project's tree and the project directory of the job.
  unfoldable pub harvest : Settings → String → Entries → Entries → Harvest
  unfolding harvest_types contents lookup
  harvest settings project_id tree work =
      let start : Harvest = record { tree = tree; added = []; outside = []; raised = false } in
      if project_id_match project_id
      then elim (contents (lookup settings.generate_output_subdir work)) [
        | none ↦ start
        | some cache_root ↦ harvest_types settings.asset_cache_types cache_root start
      ]
      else record start { raised = true }
