-- ===== src/AssetCache/Names/Slugs.antt =====
-- What the regular expressions of the names accept.
use Prim.Native.Nat.{zero, suc}
use pretext_plus_build_full.Common.{
  ℕ, String, Bool, true, false, List, [], ◌∷◌, ◌++◌, ◌&&◌, ◌||◌, eqb, drop, length, all, ◌≡◌, refl,
  arith, ◌≤◌, ◌↔◌, ◌⊎◌, inl, inr, Bool-cases, ap, leb, leb→le, and-true_left, and-true_right, not,
}
use pretext_plus_build_full.Common.Text.{codes, is_alnum, at_end, up_to, star_end, starts_with}
use pretext_plus_build_full.AssetCache.Names.{
  is_word, slug, extension, annotated, digest, is_hex, project_id_match, subdir_match,
  cache_filename_match,
}

-- A text that is `body`, or `body` and a last newline.
abbrev pub Ends : List ℕ → List ℕ → Type 0
Ends s body = (s ≡ body) ⊎ (s ≡ body ++ (10 ∷ []))

-- `[class]{0,n}$` accepts the texts of at most `n` characters of the class, and those with a
-- newline behind them.
up_to_sound :
    (p : ℕ → Bool) (n : ℕ) (s : List ℕ)
    → up_to p n s ≡ true
    → (body : List ℕ) × (all p body ≡ true) × (length body ≤ n) × Ends s body
unfolding up_to
up_to_sound p n [] h = ([], refl, omega arith, inl refl)
up_to_sound p zero (c ∷ []) h = ([], refl, omega arith, inr (ground arith))
up_to_sound p zero (c ∷ d ∷ s) h = cc
up_to_sound p (suc n) (c ∷ s) h = elim (Bool-cases (p c)) [
  | inl t ↦
      let (body, good, short, ends) = up_to_sound p n s (rw t at h) in
      (
        c ∷ body,
        rw t good,
        omega arith,
        elim ends [ inl e ↦ inl (ap (◌∷◌ c) e) | inr e ↦ inr (ap (◌∷◌ c) e) ],
      )
  | inr f ↦ ([], refl, omega arith, inr (last_newline c s (rw f at h)))
]
  where
    last_newline : (c : ℕ) (s : List ℕ) → at_end (c ∷ s) ≡ true → c ∷ s ≡ 10 ∷ []
    last_newline c [] h = ground arith
    last_newline c (d ∷ s) h = cc

up_to_complete :
    (p : ℕ → Bool) (n : ℕ) (body s : List ℕ)
    → p 10 ≡ false
    → all p body ≡ true
    → length body ≤ n
    → Ends s body
    → up_to p n s ≡ true
unfolding up_to
up_to_complete p n [] s newline good short (inl e) = rw e
up_to_complete p zero [] s newline good short (inr e) = rw e
up_to_complete p (suc n) [] s newline good short (inr e) = rw (e, newline)
up_to_complete p zero (c ∷ body) s newline good short ends = absurd (omega arith)
up_to_complete p (suc n) (c ∷ body) s newline good short (inl e) =
    rw e (ground (arith, up_to_complete p n body body newline))
up_to_complete p (suc n) (c ∷ body) s newline good short (inr e) =
    rw e (ground (arith, up_to_complete p n body (body ++ (10 ∷ [])) newline))

-- 1 to 64 of `A-Za-z0-9_-`, the first a letter or a digit.
abbrev pub is_slug : List ℕ → Bool
is_slug [] = false
is_slug (c ∷ s) = is_alnum c && (all is_word s && leb (length s) 63)

slug→is_slug :
    (l : List ℕ)
    → slug (up_to is_word 63) l ≡ true
    → (body : List ℕ) × (is_slug body ≡ true) × Ends l body
unfolding slug
slug→is_slug [] h = cc
slug→is_slug (c ∷ l) h =
    let first = and-true_left (is_alnum c) (up_to is_word 63 l) h in
    let (body, good, short, ends) =
      up_to_sound is_word 63 l (and-true_right (is_alnum c) (up_to is_word 63 l) h) in
    (
      c ∷ body,
      rw (first, good) (ground arith),
      elim ends [ inl e ↦ inl (ap (◌∷◌ c) e) | inr e ↦ inr (ap (◌∷◌ c) e) ],
    )

is_slug→slug :
    (body l : List ℕ) → is_slug body ≡ true → Ends l body → slug (up_to is_word 63) l ≡ true
unfolding slug
is_slug→slug [] l good ends = cc
is_slug→slug (c ∷ body) l good ends =
    let first = and-true_left (is_alnum c) (all is_word body && leb (length body) 63) good in
    let rest = and-true_right (is_alnum c) (all is_word body && leb (length body) 63) good in
    let words = and-true_left (all is_word body) (leb (length body) 63) rest in
    let short = leb→le _ _ (and-true_right (all is_word body) (leb (length body) 63) rest) in
    let newline : is_word 10 ≡ false = unfold is_word in refl in
    elim ends [
      | inl e ↦ rw (e, first) (up_to_complete is_word 63 body body newline words short (inl refl))
      | inr e ↦
          rw (e, first)
            (up_to_complete is_word 63 body (body ++ (10 ∷ [])) newline words short (inr refl))
    ]

-- `PROJECT_ID` accepts a text exactly if it is a slug, or a slug with one newline behind it.
pub project_id_match_iff :
    (s : String)
    → (project_id_match s ≡ true) ↔ ((body : List ℕ) × (is_slug body ≡ true) × Ends (codes s) body)
unfolding project_id_match
project_id_match_iff s = (
  slug→is_slug (codes s),
  λ h. let (body, good, ends) = h in is_slug→slug body (codes s) good ends,
)

-- No character is a slash, the separator of paths.
abbrev pub no_slash : List ℕ → Bool
no_slash = all (λ c. not (eqb c b'/'))

not_slash : (p : ℕ → Bool) (c : ℕ) → p b'/' ≡ false → p c ≡ true → eqb c b'/' ≡ false
not_slash p c h k = elim (Bool-cases (eqb c b'/')) [
  | inl e ↦ let same : c ≡ b'/' = ground arith in cc (rw same at k, h)
  | inr e ↦ e
]

no_slash-at_end : (s : List ℕ) → at_end s ≡ true → no_slash s ≡ true
no_slash-at_end [] h = refl
no_slash-at_end (c ∷ []) h = ground arith
no_slash-at_end (c ∷ d ∷ s) h = cc

no_slash-star_end :
    (p : ℕ → Bool) (s : List ℕ) → p b'/' ≡ false → star_end p s ≡ true → no_slash s ≡ true
unfolding star_end
no_slash-star_end p [] h k = refl
no_slash-star_end p (c ∷ s) h k = elim (Bool-cases (p c)) [
  | inl t ↦ rw (not_slash p c h t, no_slash-star_end p s h (rw t at k))
  | inr f ↦ no_slash-at_end (c ∷ s) (rw f at k)
]

no_slash-up_to :
    (p : ℕ → Bool) (n : ℕ) (s : List ℕ) → p b'/' ≡ false → up_to p n s ≡ true → no_slash s ≡ true
unfolding up_to
no_slash-up_to p n [] h k = refl
no_slash-up_to p zero (c ∷ s) h k = no_slash-at_end (c ∷ s) k
no_slash-up_to p (suc n) (c ∷ s) h k = elim (Bool-cases (p c)) [
  | inl t ↦ rw (not_slash p c h t, no_slash-up_to p n s h (rw t at k))
  | inr f ↦ no_slash-at_end (c ∷ s) (rw f at k)
]

-- A name that is one component of a path, and neither `.` nor `..` nor hidden.
abbrev pub is_component : List ℕ → Bool
is_component [] = false
is_component (c ∷ s) = not (eqb c b'.') && no_slash (c ∷ s)

is_component-slug :
    (tail : List ℕ → Bool) (l : List ℕ)
    → ((s : List ℕ) → tail s ≡ true → no_slash s ≡ true)
    → slug tail l ≡ true
    → is_component l ≡ true
unfolding slug
is_component-slug tail [] h k = cc
is_component-slug tail (c ∷ s) h k =
    let first = and-true_left (is_alnum c) (tail s) k in
    rw (h s (and-true_right (is_alnum c) (tail s) k)) (unfold is_alnum in ground arith)

no_slash-extension : (s : List ℕ) → extension s ≡ true → no_slash s ≡ true
unfolding extension
no_slash-extension [] h = refl
no_slash-extension (dot ∷ []) h = cc
no_slash-extension (dot ∷ c ∷ s) h =
    let rest = and-true_right (eqb dot b'.') (is_alnum c && star_end is_alnum s) h in
    let alnum = and-true_left (is_alnum c) (star_end is_alnum s) rest in
    let slash : is_alnum b'/' ≡ false = unfold is_alnum in refl in
    rw
      (
        not_slash is_alnum c slash alnum,
        no_slash-star_end is_alnum s slash (and-true_right (is_alnum c) (star_end is_alnum s) rest),
      )
      (ground arith)

no_slash-starts :
    (s p : List ℕ)
    → starts_with s p ≡ true
    → no_slash p ≡ true
    → no_slash (drop (length p) s) ≡ true
    → no_slash s ≡ true
unfolding starts_with
no_slash-starts s [] h k rest = rest
no_slash-starts [] (q ∷ p) h k rest = refl
no_slash-starts (c ∷ s) (q ∷ p) h k rest =
    let t = no_slash-starts s p (ground arith) (ground arith) rest in rw t (ground arith)

no_slash-annotated : (s : List ℕ) → annotated s ≡ true → no_slash s ≡ true
unfolding annotated
no_slash-annotated s h = elim (Bool-cases (starts_with s (codes "-annotations"))) [
  | inl t ↦
      no_slash-starts s (codes "-annotations") t refl (no_slash-extension (drop 12 s) (rw t at h))
  | inr f ↦ no_slash-extension s (rw f at h)
]

no_slash-digest : (n : ℕ) (s : List ℕ) → digest n s ≡ true → no_slash s ≡ true
unfolding digest
no_slash-digest zero s h = no_slash-annotated s h
no_slash-digest (suc n) [] h = refl
no_slash-digest (suc n) (c ∷ s) h = rw (
  not_slash is_hex c (unfold is_hex in refl) (and-true_left (is_hex c) (digest n s) h),
  no_slash-digest n s (and-true_right (is_hex c) (digest n s) h),
)

digest-hex : (n : ℕ) (s : List ℕ) → digest (suc n) s ≡ true → is_component s ≡ true
unfolding digest
digest-hex n [] h = cc
digest-hex n (c ∷ s) h =
    let hex = and-true_left (is_hex c) (digest n s) h in
    rw (no_slash-digest (suc n) (c ∷ s) h) (unfold is_hex in ground arith)

-- Whatever one of the three expressions accepts is a single visible path component: no slash, not
-- empty, not beginning with a dot.
pub accepted-is_component :
    (s : String)
    → (project_id_match s || subdir_match s || cache_filename_match s) ≡ true
    → is_component (codes s) ≡ true
unfolding project_id_match subdir_match cache_filename_match
accepted-is_component s h =
    let word_slash : is_word b'/' ≡ false = unfold is_word in refl in
    elim (Bool-cases (slug (up_to is_word 63) (codes s))) [
      | inl t ↦ is_component-slug _ (codes s) (λ l k. no_slash-up_to is_word 63 l word_slash k) t
      | inr f ↦ elim (Bool-cases (slug (star_end is_word) (codes s))) [
        | inl t ↦ is_component-slug _ (codes s) (λ l k. no_slash-star_end is_word l word_slash k) t
        | inr g ↦ digest-hex 31 (codes s) (rw (f, g) at h)
      ]
    ]
