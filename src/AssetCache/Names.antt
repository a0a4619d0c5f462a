-- ===== src/AssetCache/Names.antt =====
-- The names that reach a path on the host: project ids, cache files and their subdirectories.
pub mod Slugs
use Prim.Native.Nat.{zero, suc}
use pretext_plus_build_full.Common.{
  ℕ, String, Bool, true, false, Option, none, some, List, [], ◌∷◌, ◌&&◌, ◌||◌, eqb, if◌then◌else◌,
  drop,
}
use pretext_plus_build_full.Common.Text.{
  codes, in_range, is_digit, is_alnum, at_end, up_to, star_end, starts_with,
}

-- `[A-Za-z0-9_-]`
unfoldable pub is_word : ℕ → Bool
unfolding is_alnum
is_word c = is_alnum c || eqb c b'_' || eqb c b'-'

unfoldable pub slug : (List ℕ → Bool) → List ℕ → Bool
slug tail [] = false
slug tail (c ∷ s) = is_alnum c && tail s

-- PROJECT_ID.match(s): `^[A-Za-z0-9][A-Za-z0-9_-]{0,63}$`
unfoldable pub project_id_match : String → Bool
unfolding slug
project_id_match s = slug (up_to is_word 63) (codes s)

-- _SUBDIR_NAME.match(s): `^[A-Za-z0-9][A-Za-z0-9_-]*$`
unfoldable pub subdir_match : String → Bool
unfolding slug
subdir_match s = slug (star_end is_word) (codes s)

-- `[0-9a-f]`
unfoldable pub is_hex : ℕ → Bool
unfolding is_digit
is_hex c = is_digit c || in_range b'a' b'f' c

-- `\.[A-Za-z0-9]+$`
unfoldable pub extension : List ℕ → Bool
extension [] = false
extension (dot ∷ []) = false
extension (dot ∷ c ∷ s) = eqb dot b'.' && (is_alnum c && star_end is_alnum s)

-- `(?:-annotations)?` and what follows it
unfoldable pub annotated : List ℕ → Bool
unfolding extension
annotated s = if starts_with s (codes "-annotations") then extension (drop 12 s) else extension s

-- `[0-9a-f]{n}` and what follows it
unfoldable pub digest : ℕ → List ℕ → Bool
digest zero s = annotated s
digest (suc n) [] = false
digest (suc n) (c ∷ s) = is_hex c && digest n s

-- _CACHE_FILENAME.match(s): `^[0-9a-f]{32}(?:-annotations)?\.[A-Za-z0-9]+$`
unfoldable pub cache_filename_match : String → Bool
unfolding digest
cache_filename_match s = digest 32 (codes s)
