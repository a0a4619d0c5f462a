-- ===== src/AssetCache/Harvest/Reported.antt =====
-- What a harvest reports as added.
use pretext_plus_build_full.Common.{
  String, Bool, true, false, Option, none, some, List, [], ◌∷◌, ◌++◌, ◌&&◌, not, all, ◌≡◌, refl,
  if◌then◌else◌, Bool-cases, Option-cases, inl, inr, and-true_left, and-true_right, arith, eq_refl,
}
use pretext_plus_build_full.Common.Text.{join}
use pretext_plus_build_full.Config.{Settings}
use pretext_plus_build_full.Config.Load.{member}
use pretext_plus_build_full.Files.{
  Bytes, Node, file, link, fifo, socket, dir, Entries, lookup, contents, place,
}
use pretext_plus_build_full.Files.Placing.{Placed-cases}
use pretext_plus_build_full.Files.Walk.{Found, walk}
use pretext_plus_build_full.Files.Walk.Descended.{entered, entered-walk}
use pretext_plus_build_full.AssetCache.Names.{project_id_match, subdir_match, cache_filename_match}
use pretext_plus_build_full.AssetCache.Harvest.{
  Harvest, add_file, harvest_node, harvest_file, harvest_type, harvest_files, harvest_types,
  harvest,
}

-- A path of an asset type, directories that the harvest enters and the name of a cache file.
abbrev pub IsCachePath : List String → String → Type 0
IsCachePath types path =
    (asset_type : String) × (parts : List String) × (name : String) × (path
      ≡ join "/" ((asset_type ∷ parts) ++ (name ∷ [])))
    × (member asset_type types ≡ true)
    × (all subdir_match parts ≡ true)
    × (cache_filename_match name ≡ true)

abbrev pub Each : (String → Type 0) → List String → Type 0
Each P [] = Unit {0}
Each P (x ∷ xs) = P x × Each P xs

Each-snoc :
    (P : String → Type 0) (xs : List String) (x : String)
    → Each P xs
    → P x
    → Each P (xs ++ (x ∷ []))
Each-snoc P [] x h k = (k, tt)
Each-snoc P (y ∷ xs) x h k = (h.0, Each-snoc P xs x h.1 k)

module _ (copies : String → Bool) (types : List String) where
  -- All that was reported so far is right.
  abbrev Good : Harvest → Type 0
  Good h = Each (IsCachePath types) h.added

  reported-Good :
      (h : Harvest) (path : String) (copied : Bool)
      → Good h
      → IsCachePath types path
      → Each (IsCachePath types) (if copied then h.added ++ (path ∷ []) else h.added)
  reported-Good h path true g k = Each-snoc (IsCachePath types) h.added path g k
  reported-Good h path false g k = g

  add_file-Good :
      (parts : List String) (name : String) (bytes : Bytes) (h : Harvest)
      → Good h
      → IsCachePath types (join "/" (parts ++ (name ∷ [])))
      → Good (add_file copies parts name bytes h)
  unfolding add_file
  add_file-Good parts name bytes h g k =
      let path = join "/" (parts ++ (name ∷ [])) in
      let content = if copies path then some bytes else none in
      elim (Placed-cases (place parts name content h.tree)) [
        | inl e ↦ rw (e, add_file) g
        | inr (inl (es, e)) ↦ rw (e, add_file) (reported-Good h path (copies path) g k)
        | inr (inr (inl e)) ↦ rw (e, add_file) (reported-Good h path (copies path) g k)
        | inr (inr (inr e)) ↦ rw (e, add_file) g
      ]

  harvest_node-Good :
      (asset_type : String) (f : Found) (h : Harvest) (n : Node)
      → member asset_type types ≡ true
      → entered subdir_match f ≡ true
      → Good h
      → Good (harvest_node copies asset_type f h n)
  unfolding harvest_node
  harvest_node-Good asset_type f h (file bytes) listed e g =
      elim (Bool-cases (cache_filename_match f.name && not h.raised)) [
        | inr skip ↦ rw skip g
        | inl t ↦
            let named = and-true_left (cache_filename_match f.name) (not h.raised) t in
            rw t (
              add_file-Good (asset_type ∷ f.parts) f.name bytes h g
                (asset_type, f.parts, f.name, refl, listed, e, named))
      ]
  harvest_node-Good asset_type f h n listed e g = g

  harvest_files-Good :
      (asset_type : String) (found : List Found) (h : Harvest)
      → member asset_type types ≡ true
      → all (entered subdir_match) found ≡ true
      → Good h
      → Good (harvest_files copies asset_type found h)
  unfolding harvest_files harvest_file
  harvest_files-Good asset_type [] h listed e g = g
  harvest_files-Good asset_type (f ∷ found) h listed e g =
      let first = and-true_left (entered subdir_match f) (all (entered subdir_match) found) e in
      let rest = and-true_right (entered subdir_match f) (all (entered subdir_match) found) e in
      harvest_files-Good asset_type found (harvest_file copies asset_type f h) listed rest
        (harvest_node-Good asset_type f h f.node listed first g)

  harvest_type-Good :
      (t : String) (n : Option Node) (h : Harvest)
      → member t types ≡ true
      → Good h
      → Good (harvest_type copies t n h)
  unfolding harvest_type
  harvest_type-Good t (some (dir es)) h listed g =
      harvest_files-Good t (walk subdir_match es) h listed (entered-walk subdir_match es) g
  harvest_type-Good t (some (file bytes)) h listed g = g
  harvest_type-Good t (some (link size target)) h listed g = g
  harvest_type-Good t (some fifo) h listed g = g
  harvest_type-Good t (some socket) h listed g = g
  harvest_type-Good t none h listed g = g

  harvest_types-Good :
      (left : List String) (cache_root : Entries) (h : Harvest)
      → ((t : String) → member t left ≡ true → member t types ≡ true)
      → Good h
      → Good (harvest_types copies left cache_root h)
  unfolding harvest_types member
  harvest_types-Good [] cache_root h listed g = g
  harvest_types-Good (t ∷ left) cache_root h listed g =
      let first : member t (t ∷ left) ≡ true = rw (member, eq_refl t) refl in
      harvest_types-Good left cache_root (harvest_type copies t (lookup t cache_root) h)
        (λ s m. listed s (ground arith))
        (harvest_type-Good t (lookup t cache_root) h (listed t first) g)

-- Whatever a job left in its directory, each path that a harvest reports as added is one of an
-- asset type of the settings, directories with plain names and the name of a cache file.
pub harvest-Each :
    (copies : String → Bool) (settings : Settings) (project_id : String) (tree work : Entries)
    → Each
        (IsCachePath settings.asset_cache_types)
        (harvest copies settings project_id tree work).added
unfolding harvest
harvest-Each copies settings project_id tree work =
    let root = contents (lookup settings.generate_output_subdir work) in
    let types = settings.asset_cache_types in
    elim (Bool-cases (project_id_match project_id)) [
      | inr bad ↦ rw bad tt
      | inl good ↦ elim (Option-cases root) [
        | inl gone ↦ rw (good, gone) tt
        | inr (cache_root, found) ↦
            rw (good, found)
              (harvest_types-Good copies types types cache_root
                (record { tree = tree; added = []; outside = []; raised = false }) (λ t m. m) tt)
      ]
    ]
