-- ===== src/Files/Placing.antt =====
-- What `place` does to the files that are there.
use mathlib.Core.Path.{subst}
use pretext_plus_build_full.Common.{
  String, false, Option, none, some, List, [], ◌∷◌, ◌==◌, if◌then◌else◌, ◌≡◌, ◌≢◌, ◌⊎◌, refl, sym,
  ap, ◌∙◌, arith, Bool-cases, Option-cases, inl, inr, eq_iff,
}
use pretext_plus_build_full.Files.{
  Bytes, to_dir, to_file, dangling, Node, file, link, fifo, socket, dir, Entries, end, entry,
  lookup, put, exists, Placed, there, stored, escaped, refused, within, beyond, store_file, below,
  place,
}

-- The contents of the regular file at a path of names, through real directories.
unfoldable pub file_at : List String → Node → Option Bytes
unfolding lookup
file_at [] (file bytes) = some bytes
file_at [] n = none
file_at (d ∷ path) (dir es) = elim (lookup d es) as (λ _. Option Bytes) [
  | none ↦ none
  | some n ↦ file_at path n
]
file_at (d ∷ path) n = none

-- Every file is where it was, with the contents that it had.
abbrev pub Kept : Node → Node → Type 0
Kept n n' =
    (path : List String) (bytes : Bytes)
    → file_at path n ≡ some bytes
    → file_at path n' ≡ some bytes

lookup-put :
    (name d : String) (n : Node) (es : Entries)
    → lookup d (put name n es) ≡ (if name == d then some n else lookup d es)
unfolding lookup put
lookup-put name d n end = refl
lookup-put name d n (entry other m es) =
    ground (arith, eq_iff name d, eq_iff other name, eq_iff other d, lookup-put name d n es)

put-Kept :
    (name : String) (n : Node) (es : Entries)
    → ((old : Node) → lookup name es ≡ some old → Kept old n)
    → Kept (dir es) (dir (put name n es))
unfolding file_at
put-Kept name n es keeps [] bytes e = absurd (cc)
put-Kept name n es keeps (d ∷ path) bytes e = elim (Option-cases (lookup d es)) [
  | inl gone ↦ absurd (cc (rw (file_at, gone) at e))
  | inr (old, found) ↦
      let below : file_at path old ≡ some bytes = rw (file_at, found) at e in
      elim (Bool-cases (name == d)) [
        | inr other ↦ rw (file_at, lookup-put name d n es, other, found) below
        | inl same ↦
            rw (file_at, lookup-put name d n es, same)
              (keeps old (ap (λ k. lookup k es) ((eq_iff name d).0 same) ∙ found) path bytes below)
      ]
]

within_stored :
    (d : String) (es : Entries) (o : Placed) (es' : Entries)
    → within d es o ≡ stored es'
    → (sub : Entries) × (o ≡ stored sub) × (es' ≡ put d (dir sub) es)
unfolding within
within_stored d es (stored sub) es' e = (sub, refl, cc)
within_stored d es there es' e = absurd (cc)
within_stored d es escaped es' e = absurd (cc)
within_stored d es refused es' e = absurd (cc)

beyond_stored : (o : Placed) (es' : Entries) → beyond o ≢ stored es'
unfolding beyond
beyond_stored (stored sub) es' e = cc
beyond_stored there es' e = cc
beyond_stored escaped es' e = cc
beyond_stored refused es' e = cc

-- What stands for a file that is missing cannot be a file: it leads nowhere.
missing : (n : Node) → exists n ≡ false → (path : List String) → file_at path n ≡ none
unfolding exists file_at
missing (link size dangling) h [] = refl
missing (link size dangling) h (d ∷ path) = refl
missing (link size (to_dir es)) h path = absurd (cc)
missing (link size (to_file bytes)) h path = absurd (cc)
missing (file bytes) h path = absurd (cc)
missing fifo h path = absurd (cc)
missing socket h path = absurd (cc)
missing (dir es) h path = absurd (cc)

stored_inj : (es es' : Entries) → stored es ≡ stored es' → es ≡ es'
stored_inj es es' e = cc

there_stored : (es : Entries) → there ≢ stored es
there_stored es e = cc

store_file-Kept :
    (name : String) (content : Option Bytes) (es es' : Entries)
    → store_file name content es (lookup name es) ≡ stored es'
    → Kept (dir es) (dir es')
unfolding store_file
store_file-Kept name none es es' e =
    subst (λ x. Kept (dir es) (dir x)) (stored_inj es es' e) (λ path b h. h)
store_file-Kept name (some bytes) es es' e =
    let n : Node = file bytes in
    elim (Option-cases (lookup name es)) [
      | inl gone ↦
          subst (λ x. Kept (dir es) (dir x)) (stored_inj _ es' (rw (store_file, gone) at e))
            (put-Kept name n es (λ old found path b h. absurd (cc (gone, found))))
      | inr (old, found) ↦ elim (Bool-cases (exists old)) [
        | inl t ↦ absurd (there_stored es' (rw (store_file, found, t) at e))
        | inr f ↦
            subst (λ x. Kept (dir es) (dir x)) (stored_inj _ es' (rw (store_file, found, f) at e))
              (put-Kept name n es (λ m found' path b h.
                let same : m ≡ old = cc (found, found') in
                absurd (cc (missing old f path, h, same))))
      ]
    ]

below-Kept :
    (d : String) (es : Entries) (rest : Entries → Placed)
    → ((sub sub' : Entries) → rest sub ≡ stored sub' → Kept (dir sub) (dir sub'))
    → (old : Node) → lookup d es ≡ some old
    → (es' : Entries) → below d es rest old ≡ stored es'
    → Kept (dir es) (dir es')
unfolding below
below-Kept d es rest keeps (dir sub) found es' e =
    let (sub', made, is_put) = within_stored d es (rest sub) es' e in
    subst (λ x. Kept (dir es) (dir x)) (sym is_put)
      (put-Kept d (dir sub') es (λ m found' path b h.
        keeps sub sub' made path b (subst (λ x. file_at path x ≡ some b) (cc (found, found')) h)))
below-Kept d es rest keeps (link size (to_dir sub)) found es' e =
    absurd (beyond_stored (rest sub) es' e)
below-Kept d es rest keeps n found es' e = absurd (cc)

-- Placing a file changes no file that is there.
pub place-Kept :
    (parts : List String) (name : String) (content : Option Bytes) (es es' : Entries)
    → place parts name content es ≡ stored es'
    → Kept (dir es) (dir es')
unfolding place
place-Kept [] name content es es' e = store_file-Kept name content es es' e
place-Kept (d ∷ parts) name content es es' e = elim (Option-cases (lookup d es)) [
  | inl gone ↦
      let (sub, made, is_put) = within_stored d es _ es' (rw (place, gone) at e) in
      subst (λ x. Kept (dir es) (dir x)) (sym is_put)
        (put-Kept d (dir sub) es (λ old found path b h. absurd (cc (gone, found))))
  | inr (old, found) ↦
      below-Kept d es (place parts name content) (place-Kept parts name content) old found es'
        (rw (place, found) at e)
]

-- A case analysis that keeps the equation.
pub Placed-cases :
    (o : Placed) → (o ≡ there) ⊎ ((es : Entries) × (o ≡ stored es)) ⊎ (o ≡ escaped) ⊎ (o ≡ refused)
Placed-cases there = inl refl
Placed-cases (stored es) = inr (inl (es, refl))
Placed-cases escaped = inr (inr (inl refl))
Placed-cases refused = inr (inr (inr refl))
