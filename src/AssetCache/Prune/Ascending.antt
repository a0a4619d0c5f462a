-- ===== src/AssetCache/Prune/Ascending.antt =====
-- The order in which `prune` evicts: by last use.
use pretext_plus_build_full.Common.{
  ℕ, String, Bool, true, false, Option, none, some, List, [], ◌∷◌, if◌then◌else◌, ◌==◌, ◌≤◌, ◌≡◌,
  arith, eq_iff, All, Bool-cases, inl, inr,
}
use pretext_plus_build_full.Common.Dict
use pretext_plus_build_full.Common.Dict.{NodupKeys}
use pretext_plus_build_full.Files.{Entries}
use pretext_plus_build_full.AssetCache.{
  project, stray, Cache, Project, is_kept, scan, before, insert, sort,
}

abbrev pub Ascending : List Project → Type 0
Ascending [] = Unit
Ascending (p ∷ ps) = All (λ q. p.mtime ≤ q.mtime) ps × Ascending ps

before→le : (p q : Project) → before p q ≡ true → p.mtime ≤ q.mtime
unfolding before
before→le p q h = ground arith

not-before→le : (p q : Project) → before p q ≡ false → q.mtime ≤ p.mtime
unfolding before
not-before→le p q h = ground arith

All-insert {ℓ} :
    (P : Project → Type ℓ) (p : Project) (ps : List Project) → P p → All P ps → All P (insert p ps)
unfolding insert
All-insert P p [] h k = (h, tt)
All-insert P p (q ∷ qs) h k = elim (Bool-cases (before p q)) [
  | inl t ↦ rw t (h, k)
  | inr f ↦ rw f (k.0, All-insert P p qs h k.1)
]

pub All-sort {ℓ} : (P : Project → Type ℓ) (ps : List Project) → All P ps → All P (sort ps)
unfolding sort
All-sort P [] h = tt
All-sort P (p ∷ ps) h = All-insert P p (sort ps) h.0 (All-sort P ps h.1)

All-le_trans :
    (n m : ℕ) (ps : List Project) → n ≤ m → All (λ q. m ≤ q.mtime) ps → All (λ q. n ≤ q.mtime) ps
All-le_trans n m [] h k = tt
All-le_trans n m (p ∷ ps) h k = (omega (arith, k.0), All-le_trans n m ps h k.1)

insert-Ascending : (p : Project) (ps : List Project) → Ascending ps → Ascending (insert p ps)
unfolding insert
insert-Ascending p [] h = (tt, tt)
insert-Ascending p (q ∷ qs) h = elim (Bool-cases (before p q)) [
  | inl t ↦ rw t ((before→le p q t, All-le_trans p.mtime q.mtime qs (before→le p q t) h.0), h)
  | inr f ↦ rw f (
    All-insert (λ r. q.mtime ≤ r.mtime) p qs (not-before→le p q f) h.0,
    insert-Ascending p qs h.1,
  )
]

pub sort-Ascending : (ps : List Project) → Ascending (sort ps)
unfolding sort
sort-Ascending [] = tt
sort-Ascending (p ∷ ps) = insert-Ascending p (sort ps) (sort-Ascending ps)

-- Every project of that name was last used then.
abbrev pub Used : String → ℕ → List Project → Type 0
Used k m = All (λ p. (p.name == k) ≡ true → p.mtime ≡ m)

Used-if :
    (k : String) (m : ℕ) (b : Bool) (p : Project) (ps : List Project)
    → ((p.name == k) ≡ true → p.mtime ≡ m)
    → Used k m ps
    → Used k m (if b then ps else p ∷ ps)
Used-if k m true p ps h u = u
Used-if k m false p ps h u = (h, u)

Used-absent :
    (keep : Option String) (cache : Cache) (k : String) (m : ℕ)
    → Dict.lookup k cache ≡ none
    → Used k m (scan keep cache)
unfolding Dict.lookup scan
Used-absent keep [] k m e = tt
Used-absent keep ((name, stray) ∷ cache) k m e = Used-absent keep cache k m (ground arith)
Used-absent keep ((name, project n t) ∷ cache) k m e =
    Used-if k m (is_kept keep name) (record { mtime = n; name = name; tree = t }) (scan keep cache)
      (λ same. ground arith) (Used-absent keep cache k m (ground arith))

pub Used-scan :
    (keep : Option String) (cache : Cache) (k : String) (m : ℕ) (tree : Entries)
    → NodupKeys cache
    → Dict.lookup k cache ≡ some (project m tree)
    → Used k m (scan keep cache)
unfolding Dict.lookup scan
Used-scan keep [] k m tree h e = tt
Used-scan keep ((name, stray) ∷ cache) k m tree h e =
    Used-scan keep cache k m tree h.1 (ground arith)
Used-scan keep ((name, project n t) ∷ cache) k m tree h e =
    Used-if k m (is_kept keep name) (record { mtime = n; name = name; tree = t }) (scan keep cache)
      (λ same. ground arith)
      (elim (Bool-cases (name == k)) [
        | inl same ↦ Used-absent keep cache k m (rw ((eq_iff name k).0 same) at (h.0))
        | inr other ↦ Used-scan keep cache k m tree h.1 (rw other at e)
      ])
