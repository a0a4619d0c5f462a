-- ===== src/Prefetch/Reports.antt =====
-- What the prefetch reports.
use pretext_plus_build_full.Common.{
  ℕ, suc, String, Option, none, some, List, [], ◌∷◌, ◌+◌, ◌≡◌, refl, arith, length,
}

-- Each journal in turn, from one cache to the next: the ones that failed, in order, and how many did
-- not.
pub data Tries {Cache : Type 0} (place : String → Cache → Option String × Cache)
    : List String → Cache → List String → ℕ → Cache → Type 0 where
  done : (cache : Cache) → Tries place [] cache [] 0 cache
  fetched :
      {code : String} {codes failed : List String} {n : ℕ} {before after cache : Cache}
      → place code before ≡ (none, after)
      → Tries place codes after failed n cache
      → Tries place (code ∷ codes) before failed (suc n) cache
  refused :
      {code e : String} {codes failed : List String} {n : ℕ} {before after cache : Cache}
      → place code before ≡ (some e, after)
      → Tries place codes after failed n cache
      → Tries place (code ∷ codes) before (code ∷ failed) n cache

module _ {Cache : Type 0} (place : String → Cache → Option String × Cache) where
  pub length-Tries :
      {codes failed : List String} {n : ℕ} {before after : Cache}
      → Tries place codes before failed n after
      → length codes ≡ length failed + n
  length-Tries (done cache) = refl
  length-Tries (fetched e rest) = omega (arith, length-Tries rest)
  length-Tries (refused e rest) = omega (arith, length-Tries rest)
