-- ===== src/Files/Walk/Descended.antt =====
-- Where a walk has been.
use pretext_plus_build_full.Common.{
  String, Bool, true, List, [], ◌∷◌, ◌++◌, all, all-append, ◌≡◌, refl, Bool-cases, inl, inr,
}
use pretext_plus_build_full.Files.{Node, file, link, fifo, socket, dir, Entries, end, entry, is_dir}
use pretext_plus_build_full.Files.Walk.{Found, plain, visit, visit_all, walk}

module _ (descend : String → Bool) where
  -- Every directory on the way to the file was to be entered.
  abbrev pub entered : Found → Bool
  entered f = all descend f.parts

  entered-plain :
      (parts : List String) (es : Entries)
      → all descend parts ≡ true
      → all entered (plain parts es) ≡ true
  unfolding plain
  entered-plain parts end h = refl
  entered-plain parts (entry name n es) h = elim (Bool-cases (is_dir n)) [
    | inl t ↦ rw (plain, t) (entered-plain parts es h)
    | inr f ↦ rw (plain, f, h) (entered-plain parts es h)
  ]

  mutual
    unfolding visit

    entered-visit :
        (parts : List String) (n : Node)
        → all descend parts ≡ true
        → all entered (visit descend parts n) ≡ true
    entered-visit parts (dir es) h =
        all-append entered (plain parts es) (visit_all descend parts es) (entered-plain parts es h)
          (entered-visit_all parts es h)
    entered-visit parts (file bytes) h = refl
    entered-visit parts (link size target) h = refl
    entered-visit parts fifo h = refl
    entered-visit parts socket h = refl

    entered-visit_all :
        (parts : List String) (es : Entries)
        → all descend parts ≡ true
        → all entered (visit_all descend parts es) ≡ true
    entered-visit_all parts end h = refl
    entered-visit_all parts (entry name n es) h =
        let rest = entered-visit_all parts es h in
        elim (Bool-cases (descend name)) [
          | inr f ↦ rw (visit_all, f) rest
          | inl t ↦
              let last : all descend (name ∷ []) ≡ true = rw t refl in
              let here =
                entered-visit (parts ++ (name ∷ [])) n
                  (all-append descend parts (name ∷ []) h last) in
              rw (visit_all, t)
                (all-append entered (visit descend (parts ++ (name ∷ [])) n)
                  (visit_all descend parts es) here rest)
        ]

  pub entered-walk : (es : Entries) → all entered (walk descend es) ≡ true
  unfolding walk
  entered-walk es = entered-visit [] (dir es) refl
