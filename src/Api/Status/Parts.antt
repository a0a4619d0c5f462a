-- ===== src/Api/Status/Parts.antt =====
-- The steps in which `_status` builds its answer, key by key.
use pretext_plus_build_full.Common.{
  String, Bool, true, false, Option, none, some, List, [], ◌∷◌, ◌==◌, if◌then◌else◌, ◌≡◌, refl, ap,
  ◌∙◌, Bool-cases, Option-cases, inl, inr,
}
use pretext_plus_build_full.Common.Dict
use pretext_plus_build_full.Common.Dict.{Dict, NodupKeys, over}
use pretext_plus_build_full.Jobs.{Record}
use pretext_plus_build_full.Notify.{Codec}
use pretext_plus_build_full.Api.Status.{Json, text, names, texts, parse_field, set_if, is_some}

abbrev pub text_of : Option String → Option Json
text_of none = none
text_of (some s) = some (text s)

pub lookup-texts :
    (k : String) (fields : Record) → Dict.lookup k (texts fields) ≡ text_of (Dict.lookup k fields)
unfolding texts Dict.lookup
lookup-texts k [] = refl
lookup-texts k ((j, v) ∷ fields) = elim (Bool-cases (j == k)) [
  | inl same ↦ rw (texts, same) refl
  | inr other ↦ rw (texts, other) (lookup-texts k fields)
]

pub texts-NodupKeys : (fields : Record) → NodupKeys fields → NodupKeys (texts fields)
unfolding texts
texts-NodupKeys [] h = h
texts-NodupKeys ((j, v) ∷ fields) (new, rest) =
    (lookup-texts j fields ∙ ap text_of new, texts-NodupKeys fields rest)

pub lookup-set_if :
    (present : Bool) (key value k : String) (resp : Dict Json)
    → Dict.lookup k (set_if present key value resp) ≡ (
        if key == k
        then (if present then some (text value) else Dict.lookup k resp)
        else Dict.lookup k resp)
unfolding set_if
lookup-set_if true key value k resp = rw (set_if, Dict.lookup-insert) refl
lookup-set_if false key value k resp = elim (Bool-cases (key == k)) [
  | inl same ↦ rw (set_if, same) refl
  | inr other ↦ rw (set_if, other) refl
]

-- A list of names that the record has as a text.
abbrev pub names_json : Option (List String) → Option Json
names_json none = none
names_json (some list) = some (names list)

abbrev pub parsed : Codec → Option String → Option Json
parsed codec none = none
parsed codec (some s) = names_json (codec.load_names s)

pub lookup-parse_field :
    (codec : Codec) (key k : String) (fields : Record) (resp resp' : Dict Json)
    → parse_field codec key fields resp ≡ some resp'
    → Dict.lookup k resp' ≡ (
        if key == k
        then (if is_some (Dict.lookup key fields)
            then parsed codec (Dict.lookup key fields)
            else Dict.lookup k resp)
        else Dict.lookup k resp)
unfolding parse_field
lookup-parse_field codec key k fields resp resp' e = elim (Option-cases (Dict.lookup key fields)) [
  | inl gone ↦
      let same : resp ≡ resp' = (let h = rw (parse_field, gone) at e in cc) in
      elim (Bool-cases (key == k)) [
        | inl this ↦ rw (gone, this, same) refl
        | inr other ↦ rw (gone, other, same) refl
      ]
  | inr (s, there) ↦ elim (Option-cases (codec.load_names s)) [
    | inl bad ↦ (let h = rw (parse_field, there, bad) at e in cc)
    | inr (list, good) ↦
        let same : Dict.insert key (names list) resp ≡ resp' =
          (let h = rw (parse_field, there, good) at e in cc) in
        rw (← same, Dict.lookup-insert, there, good) refl
  ]
]
