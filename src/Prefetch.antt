-- ===== src/Prefetch.antt =====
-- build-image/prefetch_latex_packages.py: the packages of each journal are fetched into a cache, and
-- a failure only warns. PreTeXt's `place_latex_package_files` is an argument, over the state of the
-- cache: it gives the text of an exception, or `none`, and what it left in the cache.
pub mod Reports
use pretext_plus_build_full.Common.{
  ℕ, suc, String, ◌<>◌, Bool, true, false, Option, none, some, List, [], ◌∷◌, ◌++◌, ◌-◌, ◌+◌, ◌≤◌,
  ◌≡◌, refl, ap, ◌∙◌, sym, arith, Option-cases, inl, inr, length, if◌then◌else◌,
}
use pretext_plus_build_full.Common.Decimal.{show}
use pretext_plus_build_full.Common.Text.{join}

-- The journals that failed so far, the lines on stderr and the cache.
pub record Progress (Cache : Type 0) : Type 0 where
  pub failed : List String
  pub stderr : List String
  pub cache : Cache

module _ {Cache : Type 0} (place : String → Cache → Option String × Cache) where
  -- The body of the loop, for what the call gave.
  record_result : String → Progress Cache → Option String × Cache → Progress Cache
  record_result code p (none, cache) = record p { cache = cache }
  record_result code p (some e, cache) = record {
    failed = p.failed ++ (code ∷ []);
    stderr =
        p.stderr ++ (("WARNING: could not fetch latex packages for " <> code <> ": " <> e) ∷ []);
    cache = cache;
  }

  unfoldable pub fetch : List String → Progress Cache → Progress Cache
  unfolding record_result
  fetch [] p = p
  fetch (code ∷ codes) p = fetch codes (record_result code p (place code p.cache))

-- The lines printed at the end, on stdout and on stderr.
is_empty : List String → Bool
is_empty [] = true
is_empty (x ∷ xs) = false

unfoldable pub summary : List String → List String → String → String
unfolding show
summary codes failed cache_dir =
    "Cached latex packages for "
    <> show (length codes - length failed)
    <> "/"
    <> show (length codes)
    <> " journals in "
    <> cache_dir

unfoldable pub missing : List String → List String
unfolding is_empty join
missing failed =
    if is_empty failed then [] else ("WARNING: missing packages for: " <> join ", " failed) ∷ []
