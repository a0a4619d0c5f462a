-- ===== src/Api/Status/Shown.antt =====
-- What the status of a job shows.
use pretext_plus_build_full.Common.{
  String, ◌<>◌, Bool, true, false, Option, none, some, [], ◌∷◌, ◌==◌, if◌then◌else◌, ◌≡◌, refl, ap,
  ◌∙◌, sym, Bool-cases, Option-cases, inl, inr, eq_iff,
}
use mathlib.Core.Path.{subst}
use pretext_plus_build_full.Common.Dict
use pretext_plus_build_full.Common.Dict.{Dict, NodupKeys, over}
use pretext_plus_build_full.Jobs.{Record, job_prefix}
use pretext_plus_build_full.World.{World}
use pretext_plus_build_full.Notify.{Codec}
use pretext_plus_build_full.Notify.Callback.{artifact_exists}
use pretext_plus_build_full.Api.{answered, load_job}
use pretext_plus_build_full.Api.Status.Parts.{
  text_of, parsed, lookup-texts, texts-NodupKeys, lookup-set_if, lookup-parse_field,
}
use pretext_plus_build_full.Api.Status.{
  Json, text, texts, parse_field, set_if, is_some, status_with, status,
}

-- The value of a key in the answer to a request for a job's status.
abbrev pub expected : Codec → World → String → String → Record → String → Option Json
expected codec w job_id prefix fields k =
    if "artifact_url" == k
    then (if artifact_exists w job_id
        then some (text (prefix <> "/" <> job_id <> "/artifact"))
        else none)
    else if "log_url" == k
    then (if is_some (Dict.lookup "log" fields)
        then some (text (prefix <> "/" <> job_id <> "/log"))
        else none)
    else if "cached_files" == k
    then parsed codec (Dict.lookup "cached_files" fields)
    else if "files" == k
    then parsed codec (Dict.lookup "files" fields)
    else if "job_id" == k
    then some (text job_id)
    else text_of (Dict.lookup k fields)

over-none : (o : Option Json) → over o none ≡ o
over-none none = refl
over-none (some v) = refl

answered-inj : {x y : Dict Json} → answered x ≡ answered y → x ≡ y
answered-inj e = cc

module _ (codec : Codec) (w : World) (job_id prefix : String) (fields : Record)
    (distinct : NodupKeys fields) (no_id : Dict.lookup "job_id" fields ≡ none)
    (no_artifact : Dict.lookup "artifact_url" fields ≡ none)
    (no_log : Dict.lookup "log_url" fields ≡ none) where
  abbrev base : Dict Json
  base = Dict.update (("job_id", text job_id) ∷ []) (texts fields)

  lookup-base :
      (k : String)
      → Dict.lookup k base
        ≡ over (text_of (Dict.lookup k fields)) (if "job_id" == k then some (text job_id) else none)
  unfolding Dict.lookup
  lookup-base k =
      rw
        (
          Dict.lookup-update,
          Dict.last_of_Nodup (texts fields) k _ (texts-NodupKeys fields distinct),
          lookup-texts,
        )
        refl

  abbrev old : String → Option Json
  old k = over (text_of (Dict.lookup k fields)) (if "job_id" == k then some (text job_id) else none)

  abbrev with_list : String → String → Option Json → Option Json
  with_list key k o =
      if key == k
      then (if is_some (Dict.lookup key fields) then parsed codec (Dict.lookup key fields) else o)
      else o

  abbrev with_url : Bool → String → String → String → Option Json → Option Json
  with_url present key value k o =
      if key == k then (if present then some (text value) else o) else o

  -- The value as it is built, from the last write to the first.
  abbrev built : String → Option Json
  built k =
      with_url (artifact_exists w job_id) "artifact_url" (prefix <> "/" <> job_id <> "/artifact") k
        (with_url (is_some (Dict.lookup "log" fields)) "log_url" (prefix <> "/" <> job_id <> "/log")
          k (with_list "cached_files" k (with_list "files" k (old k))))

  list_or_text :
      (key : String)
      → ("job_id" == key) ≡ false
      → (if is_some (Dict.lookup key fields)
          then parsed codec (Dict.lookup key fields)
          else old key)
        ≡ parsed codec (Dict.lookup key fields)
  list_or_text key other = elim (Option-cases (Dict.lookup key fields)) [
    | inl gone ↦ rw (gone, other) refl
    | inr (s, there) ↦ rw there refl
  ]

  at_key : (key k : String) (P : String → Type 0) → P key → (key == k) ≡ true → P k
  at_key key k P p same = subst P ((eq_iff key k).0 same) p

  built-expected : (k : String) → built k ≡ expected codec w job_id prefix fields k
  built-expected k =
      let Fits : String → Type 0 = λ k. built k ≡ expected codec w job_id prefix fields k in
      elim (Bool-cases ("artifact_url" == k)) [
        | inl same ↦ at_key "artifact_url" k Fits (rw no_artifact refl) same
        | inr a ↦ elim (Bool-cases ("log_url" == k)) [
          | inl same ↦ at_key "log_url" k Fits (rw no_log refl) same
          | inr l ↦ elim (Bool-cases ("cached_files" == k)) [
            | inl same ↦ at_key "cached_files" k Fits (list_or_text "cached_files" refl) same
            | inr c ↦ elim (Bool-cases ("files" == k)) [
              | inl same ↦ at_key "files" k Fits (list_or_text "files" refl) same
              | inr f ↦ elim (Bool-cases ("job_id" == k)) [
                | inl same ↦ at_key "job_id" k Fits (rw no_id refl) same
                | inr i ↦ rw (a, l, c, f, i) (over-none (text_of (Dict.lookup k fields)))
              ]
            ]
          ]
        ]
      ]

  module _ (with_files with_cached : Dict Json)
      (files : parse_field codec "files" fields base ≡ some with_files)
      (cached : parse_field codec "cached_files" fields with_files ≡ some with_cached) where
    lookup-resp :
        (k : String)
        → Dict.lookup k (
            set_if
              (artifact_exists w job_id)
              "artifact_url"
              (prefix <> "/" <> job_id <> "/artifact")
              (set_if
                (is_some (Dict.lookup "log" fields))
                "log_url"
                (prefix <> "/" <> job_id <> "/log")
                with_cached))
          ≡ built k
    lookup-resp k =
        rw
          (
            lookup-set_if,
            lookup-set_if,
            lookup-parse_field codec "cached_files" k fields with_files with_cached cached,
            lookup-parse_field codec "files" k fields base with_files files,
            lookup-base,
          )
          refl

  status_with-expected :
      (resp : Dict Json) (k : String)
      → status_with codec w job_id prefix fields ≡ answered resp
      → Dict.lookup k resp ≡ expected codec w job_id prefix fields k
  unfolding status_with
  status_with-expected resp k e = elim (Option-cases (parse_field codec "files" fields base)) [
    | inl bad ↦ (let h = rw (status_with, bad) at e in cc)
    | inr (with_files, files) ↦
        elim (Option-cases (parse_field codec "cached_files" fields with_files)) [
          | inl bad ↦ (let h = rw (status_with, files, bad) at e in cc)
          | inr (with_cached, cached) ↦
              let h = rw (status_with, files, cached) at e in
              ap (Dict.lookup k) (answered-inj (sym h))
              ∙ lookup-resp with_files with_cached files cached k
              ∙ built-expected k
        ]
  ]

-- The status of a job that is there, where the answer is no error: under every key of its record
-- stands the record's text, under `files` and `cached_files` the list that the record has as JSON,
-- under `job_id` the id, under `artifact_url` and `log_url` the addresses of the artifact, exactly if
-- there is one, and of the log, exactly if the record has one; and nothing under any other key. The
-- record has no field twice, and none of the names that the answer adds.
pub status_shows :
    (codec : Codec) (w : World) (job_id kind prefix : String) (fields : Record) (resp : Dict Json)
    (k : String)
    → load_job w job_id kind ≡ answered fields
    → job_prefix kind ≡ some prefix
    → NodupKeys fields
    → Dict.lookup "job_id" fields ≡ none
    → Dict.lookup "artifact_url" fields ≡ none
    → Dict.lookup "log_url" fields ≡ none
    → status codec w job_id kind ≡ answered resp
    → Dict.lookup k resp ≡ expected codec w job_id prefix fields k
unfolding status
status_shows codec w job_id kind prefix fields resp k loaded known distinct no_id no_artifact no_log
      e =
    status_with-expected codec w job_id prefix fields distinct no_id no_artifact no_log resp k
      (rw (status, loaded, known) at e)
