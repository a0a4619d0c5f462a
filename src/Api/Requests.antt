-- ===== src/Api/Requests.antt =====
-- Which requests the API lets through.
use Prim.Native.Char.{code}
use pretext_plus_build_full.Common.{
  ℕ, String, true, false, Option, none, some, List, [], ◌∷◌, ◌++◌, ◌==◌, ◌≡◌, ◌≢◌, ◌⊎◌, ◌↔◌, inl,
  inr, refl, sym, ap, ◌∙◌, arith, Bool-cases, eq_iff,
}
use pretext_plus_build_full.Common.Text.{codes, is_truthy, is_space, strip, lstrip, rstrip}
use pretext_plus_build_full.Config.{Settings}
use pretext_plus_build_full.Jobs.{Fields, word}
use pretext_plus_build_full.AssetCache.Names.{project_id_match}
use pretext_plus_build_full.AssetCache.Names.Slugs.{is_slug, project_id_match_iff}
use pretext_plus_build_full.Notify.{or_empty}
use pretext_plus_build_full.Api.{answered, project_id_fields, presented, differs, check_token}

differs_iff : (token : Option String) (s : String) → (differs token s ≡ false) ↔ (token ≡ some s)
unfolding differs
differs_iff none s = (λ h. absurd (cc), λ h. absurd (cc))
differs_iff (some t) s = (
  λ h. ap some ((eq_iff t s).0 (ground arith)),
  λ e. let same : (t == s) ≡ true = (eq_iff t s).1 (cc) in ground arith,
)

pub check_token_iff :
    (settings : Settings) (form_token authorization : Option String)
    → (check_token settings form_token authorization ≡ answered tt) ↔ (
        (is_truthy settings.build_token ≡ true)
        × (presented form_token authorization ≡ some settings.build_token))
unfolding check_token
check_token_iff settings form_token authorization =
    let token = presented form_token authorization in
    let same = differs_iff token settings.build_token in
    (
      λ h. elim (Bool-cases (is_truthy settings.build_token)) [
        | inr f ↦ absurd (cc (rw f at h))
        | inl t ↦ elim (Bool-cases (differs token settings.build_token)) [
          | inl d ↦ absurd (cc (rw (t, d) at h))
          | inr d ↦ (t, same.0 d)
        ]
      ],
      λ (t, e). rw (t, same.1 e) refl,
    )

snoc≢nil : (body : List ℕ) (c : ℕ) → body ++ (c ∷ []) ≢ []
snoc≢nil [] c e = cc
snoc≢nil (b ∷ body) c e = cc

codes_nil : (s : String) → codes s ≡ [] → is_truthy s ≡ false
codes_nil String.[] e = refl
codes_nil (String.◌∷◌ c s) e = absurd (cc)

newline_space : is_space 10 ≡ true
unfolding is_space
newline_space = refl

space_or_not :
    (c : ℕ) (rest : String) (body : List ℕ)
    → ((is_space c ≡ false) ⊎ (is_truthy rest ≡ true))
    → (c ∷ codes rest) ≡ body ++ (10 ∷ [])
    → (bs : List ℕ) × (codes rest ≡ bs ++ (10 ∷ []))
space_or_not c rest [] h e =
    let newline : c ≡ 10 = cc in
    let nothing : is_truthy rest ≡ false = codes_nil rest (cc) in
    elim h [
      | inl other ↦ absurd (cc (newline_space, newline, other))
      | inr some_left ↦ absurd (cc (nothing, some_left))
    ]
space_or_not c rest (b ∷ bs) h e = (bs, cc)

rstrip_no_newline : (s : String) (body : List ℕ) → codes (rstrip s) ≢ body ++ (10 ∷ [])
unfolding rstrip
rstrip_no_newline String.[] body e = snoc≢nil body 10 (sym e)
rstrip_no_newline (String.◌∷◌ c s) body e = elim (Bool-cases (is_space (code c))) [
  | inr other ↦
      let (bs, e') = space_or_not (code c) (rstrip s) body (inl other) (rw (rstrip, other) at e) in
      rstrip_no_newline s bs e'
  | inl space ↦ elim (Bool-cases (is_truthy (rstrip s))) [
    | inl left ↦
        let (bs, e') =
          space_or_not (code c) (rstrip s) body (inr left) (rw (rstrip, space, left) at e) in
        rstrip_no_newline s bs e'
    | inr gone ↦ snoc≢nil body 10 (sym (rw (rstrip, space, gone) at e))
  ]
]

strip_no_newline : (s : String) (body : List ℕ) → codes (strip s) ≢ body ++ (10 ∷ [])
unfolding strip
strip_no_newline s body e = rstrip_no_newline (lstrip s) body e

-- The fields that a `project_id` of a request contributes are none, or the id alone, and it is then
-- 1 to 64 of `A-Za-z0-9_-`, the first a letter or a digit; the newline that `PROJECT_ID` would let
-- through at its end is stripped before.
pub project_id_fields_slug :
    (value : Option String) (fields : Fields)
    → project_id_fields value ≡ answered fields
    → (fields ≡ [])
      ⊎ ((s : String) × (fields ≡ (("project_id", word s) ∷ [])) × (is_slug (codes s) ≡ true))
unfolding project_id_fields
project_id_fields_slug value fields e =
    let v = strip (or_empty value) in
    elim (Bool-cases (is_truthy v)) [
      | inr f ↦ inl (cc (rw f at e))
      | inl t ↦ elim (Bool-cases (project_id_match v)) [
        | inr g ↦ absurd (cc (rw (t, g) at e))
        | inl m ↦
            let (body, good, ends) = (project_id_match_iff v).0 m in
            inr (
              v,
              cc (rw (t, m) at e),
              elim ends [
                | inl whole ↦ ap is_slug whole ∙ good
                | inr newline ↦ absurd (strip_no_newline (or_empty value) body newline)
              ],
            )
      ]
    ]
