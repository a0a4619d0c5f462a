-- ===== src/Api/Intake/Accepts.antt =====
-- Which zip archives are unpacked.
use pretext_plus_build_full.Common.{
  ℕ, String, Bool, true, Option, List, [], ◌∷◌, ◌++◌, ◌||◌, All, ◌≡◌, ◌≢◌, ◌↔◌, inl, inr, refl,
  Bool-cases,
}
use pretext_plus_build_full.Common.Text.{codes, lower_ends_with}
use pretext_plus_build_full.Files.{Bytes, Entries}
use pretext_plus_build_full.Notify.{or_empty}
use pretext_plus_build_full.Api.Intake.{
  Attempt, done, failed, ◌>>=◌, Archives, join_path, is_inside, check_members, safe_extract,
}
use pretext_plus_build_full.Api.Intake.Inside.{IsPath, is_inside_iff}

-- Whether the upload is taken for a zip file.
abbrev pub is_zip : Archives → Bytes → Option String → Bool
is_zip archives upload filename =
    lower_ends_with (codes (or_empty filename)) (codes ".zip") || archives.is_zipfile upload

bind_done {ℓ κ} :
    {A : Type ℓ} {B : Type κ} (m : Attempt A) (f : A → Attempt B) {b : B}
    → (m >>= f) ≡ done b
    → (a : A) × (m ≡ done a) × (f a ≡ done b)
bind_done (done a) f h = (a, refl, h)
bind_done (failed e) f h = cc

module _ (archives : Archives) (resolves : String → List (List ℕ))
    (exact : (p : String) → IsPath (archives.realpath p) (resolves p)) where
  -- Where a member's name leads is the destination or below it.
  abbrev pub Within : String → String → Type 0
  Within dest member =
      (rest : List (List ℕ)) × (resolves (join_path dest member) ≡ resolves dest ++ rest)

  inside-Within :
      (dest member : String)
      → resolves dest ≢ []
      → is_inside (archives.realpath dest) (archives.realpath (join_path dest member)) ≡ true
      → Within dest member
  inside-Within dest member deep h = go (resolves dest) refl
    where
      go : (cs : List (List ℕ)) → resolves dest ≡ cs → Within dest member
      go [] e = absurd (deep e)
      go (d ∷ ds) e = rw e (
          (is_inside_iff (archives.realpath dest) (archives.realpath (join_path dest member)) d ds
              (resolves (join_path dest member)) (rw e at (exact dest))
              (exact (join_path dest member))).0
            h)

  Within-inside :
      (dest member : String)
      → resolves dest ≢ []
      → Within dest member
      → is_inside (archives.realpath dest) (archives.realpath (join_path dest member)) ≡ true
  Within-inside dest member deep h = go (resolves dest) refl
    where
      go :
          (cs : List (List ℕ))
          → resolves dest ≡ cs
          → is_inside (archives.realpath dest) (archives.realpath (join_path dest member)) ≡ true
      go [] e = absurd (deep e)
      go (d ∷ ds) e =
          (is_inside_iff (archives.realpath dest) (archives.realpath (join_path dest member)) d ds
              (resolves (join_path dest member)) (rw e at (exact dest))
              (exact (join_path dest member))).1
            (rw e at h)

  check_members-Within :
      (dest : String) (members : List String)
      → resolves dest ≢ []
      → check_members archives dest members ≡ done tt
      → All (Within dest) members
  unfolding check_members
  check_members-Within dest [] deep h = tt
  check_members-Within dest (m ∷ members) deep h =
      let test = is_inside (archives.realpath dest) (archives.realpath (join_path dest m)) in
      elim (Bool-cases test) [
        | inl t ↦ (
          inside-Within dest m deep t,
          check_members-Within dest members deep (rw (check_members, t) at h),
        )
        | inr f ↦ absurd (cc (rw (check_members, f) at h))
      ]

  Within→check_members :
      (dest : String) (members : List String)
      → resolves dest ≢ []
      → All (Within dest) members
      → check_members archives dest members ≡ done tt
  unfolding check_members
  Within→check_members dest [] deep h = refl
  Within→check_members dest (m ∷ members) deep h =
      rw (check_members, Within-inside dest m deep h.0) (Within→check_members dest members deep h.1)

  -- Where `realpath` gives absolute paths in their shortest form, and the destination is not the
  -- root of the file system, a zip archive is unpacked exactly if its members can be listed, the
  -- name of each leads to the destination itself or to a place below it, component by component,
  -- and `zipfile` unpacks it.
  pub safe_extract_iff :
      (upload : Bytes) (dest : String) (filename : Option String) (tree : Entries)
      → resolves dest ≢ []
      → is_zip archives upload filename ≡ true
      → (safe_extract archives upload dest filename ≡ done tree) ↔ (
          (members : List String) × (archives.namelist upload ≡ done members)
          × All (Within dest) members
          × (archives.extract_zip upload ≡ done tree))
  unfolding safe_extract
  safe_extract_iff upload dest filename tree deep zip =
      let body = λ (members : List String).
        check_members archives dest members >>= λ _. archives.extract_zip upload in
      (
        λ h.
            let (members, listed, later) =
              bind_done (archives.namelist upload) body (rw (safe_extract, zip) at h) in
            let (unit, checked, unpacked) =
              bind_done (check_members archives dest members) (λ _. archives.extract_zip upload)
                later in
            (members, listed, check_members-Within dest members deep checked, unpacked),
        λ (members, listed, within, unpacked).
            rw (safe_extract, zip, listed, Within→check_members dest members deep within) unpacked,
      )
