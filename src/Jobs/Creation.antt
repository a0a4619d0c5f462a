-- ===== src/Jobs/Creation.antt =====
-- What `create` writes.
use Prim.Native.Nat.{ℕ, ◌+◌, ◌<◌}
use pretext_plus_build_full.Common.{
  String, Option, none, some, [], ◌∷◌, if◌then◌else◌, ◌≡◌, refl, arith, ◌==◌, eq_refl, ◌∙◌,
  Bool-cases, Option-cases, inl, inr,
}
use pretext_plus_build_full.Common.Dict
use pretext_plus_build_full.Common.Dict.{Dict, last, NodupKeys}
use pretext_plus_build_full.Common.Decimal.{show}
use pretext_plus_build_full.Jobs.{
  Fields, Redis, find, fields_of, hgetall, now, str, strs, key, with_defaults, create,
}
use pretext_plus_build_full.Jobs.Laws.{
  find-expire, find-write, clock-write, key-eq, field, get_or_empty-eq-hgetall,
}

lookup-strs :
    (k : String) (fields : Fields)
    → Dict.lookup k (strs fields)
      ≡ elim (Dict.lookup k fields) as (λ _. Option String) [ none ↦ none | some v ↦ some (str v) ]
unfolding strs Dict.lookup
lookup-strs k [] = refl
lookup-strs k ((j, v) ∷ fields) = elim (Bool-cases (j == k)) [
  | inl t ↦ rw t
  | inr f ↦ rw f (lookup-strs k fields)
]

NodupKeys-strs : (fields : Fields) → NodupKeys fields → NodupKeys (strs fields)
unfolding strs
NodupKeys-strs [] h = tt
NodupKeys-strs ((k, v) ∷ fields) h = (rw (lookup-strs k fields, h.0), NodupKeys-strs fields h.1)

NodupKeys-with_defaults :
    (r : Redis) (fields : Fields) → NodupKeys fields → NodupKeys (with_defaults r fields)
unfolding with_defaults
NodupKeys-with_defaults r fields h =
    Dict.NodupKeys-set_default _ _ _ (Dict.NodupKeys-set_default _ _ _ h)

-- The fields of a new record: those given, and the defaults of `status` and `created_at`.
abbrev pub created : Redis → Fields → String → Option String
created r fields k = elim (Dict.lookup k fields) [
  | some v ↦ some (str v)
  | none ↦
      if "status" == k
      then some "queued"
      else if "created_at" == k
      then some (show r.clock)
      else none
]

lookup-with_defaults :
    (r : Redis) (fields : Fields) (k : String)
    → Dict.lookup k (strs (with_defaults r fields)) ≡ created r fields k
unfolding with_defaults now str
lookup-with_defaults r fields k =
    rw (lookup-strs, Dict.lookup-set_default, Dict.lookup-set_default)
      (elim (Option-cases (Dict.lookup k fields)) [
        | inl e ↦ rw (e, created) (ground arith)
        | inr (v, e) ↦ rw (e, created)
      ])

-- A new record, as Redis holds it: its fields, and a deadline `ttl` seconds away.
pub find-create :
    (ttl : ℕ) (r : Redis) (i : String) (fields : Fields)
    → 0 < ttl
    → find r (key i) ≡ none
    → (j : String)
    → find (create ttl r i fields) (key j) ≡ (
        if i == j
        then some (record {
          fields = Dict.update [] (strs (with_defaults r fields));
          expires_at = some (r.clock + ttl);
        })
        else find r (key j))
unfolding create fields_of
find-create ttl r i fields p fresh j =
    rw (find-expire _ (key i) (key j) ttl p, key-eq)
      (elim (Bool-cases (i == j)) [
        | inl t ↦ rw t (rw (find-write, eq_refl, fresh, clock-write))
        | inr f ↦ rw f (rw (find-write, f))
      ])

-- With a positive time to live, an id without a record and given fields without repeated names, a
-- new job's record has the fields that were given, `status` "queued" and the time of creation
-- unless those were given, and nothing else; no other job's record changes.
pub field-create :
    (ttl : ℕ) (r : Redis) (i : String) (fields : Fields)
    → 0 < ttl
    → find r (key i) ≡ none
    → NodupKeys fields
    → (j k : String)
    → field (create ttl r i fields) j k ≡ (if i == j then created r fields k else field r j k)
field-create ttl r i fields p fresh distinct j k = simp get_or_empty-eq-hgetall (
    unfold hgetall fields_of in
    rw (find-create ttl r i fields p fresh j) (elim (Bool-cases (i == j)) [
      | inl t ↦ rw t (
          Dict.lookup-update_nil _ k (NodupKeys-strs _ (NodupKeys-with_defaults r fields distinct))
          ∙ lookup-with_defaults r fields k)
      | inr f ↦ rw f
    ]))
