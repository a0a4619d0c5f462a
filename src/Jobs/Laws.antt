-- ===== src/Jobs/Laws.antt =====
-- What `Store.get` returns after `create` and `update`.
use Prim.Native.Nat.{ℕ, ◌+◌, ◌<◌}
use text.Mathlib.TextLemmas.{append_cancel_left}
use pretext_plus_build_full.Common.{
  String, Option, none, some, [], ◌∷◌, if◌then◌else◌, ◌≡◌, refl, ap, arith, ◌==◌, eq_iff,
  Bool-cases, Option-cases, inl, inr,
}
use pretext_plus_build_full.Common.Dict
use pretext_plus_build_full.Common.Dict.{Dict, last}
use pretext_plus_build_full.Jobs.{
  Fields, Record, Hash, Redis, alive, find, fields_of, deadline_of, hgetall, hset, expire, strs,
  key, write, update, known, get, get_or_empty,
}

-- Two jobs never share a key.
pub key-eq : (i j : String) → (key i == key j) ≡ (i == j)
unfolding key
key-eq i j = ground (
  arith,
  eq_iff i j,
  eq_iff (key i) (key j),
  λ (e : key i ≡ key j). append_cancel_left "job:" i j e,
  λ (e : i ≡ j). ap key e,
)

-- A hash that is live has no deadline, or one that has not come.
alive-alive : (clock : ℕ) (o : Option Hash) → alive clock (alive clock o) ≡ alive clock o
unfolding alive
alive-alive clock none = refl
alive-alive clock (some h) = ground arith

alive-written :
    (clock : ℕ) (o : Option Hash) (m : Record)
    → alive clock (some (record { fields = m; expires_at = deadline_of (alive clock o) }))
      ≡ some (record { fields = m; expires_at = deadline_of (alive clock o) })
unfolding alive deadline_of
alive-written clock none m = refl
alive-written clock (some h) m = ground arith

-- HSET changes the hash of its key alone, and what it writes can be read.
find-hset :
    (r : Redis) (k j : String) (m : Record)
    → find (hset r k m) j ≡ (
        if k == j
        then some (record {
          fields = Dict.update (fields_of (find r k)) m;
          expires_at = deadline_of (find r k);
        })
        else find r j)
unfolding find hset
find-hset r k j m = rw Dict.lookup-insert (elim (Bool-cases (k == j)) [
  | inl e ↦ rw e (alive-written r.clock (Dict.lookup k r.hashes) _)
  | inr e ↦ rw e
])

expire-none : (r : Redis) (k : String) (n : ℕ) → find r k ≡ none → expire r k n ≡ r
unfolding expire
expire-none r k n e = rw (e, expire)

expire-some :
    (r : Redis) (k : String) (n : ℕ) (h : Hash)
    → find r k ≡ some h
    → expire r k n
      ≡ record r { hashes = Dict.insert k (record h { expires_at = some (r.clock + n) }) r.hashes }
unfolding expire
expire-some r k n h e = rw (e, expire)

-- EXPIRE gives a live hash a deadline, and touches no other.
pub find-expire :
    (r : Redis) (k j : String) (n : ℕ)
    → 0 < n
    → find (expire r k n) j ≡ (
        if k == j
        then elim (find r k) [
          | none ↦ none
          | some h ↦ some (record h { expires_at = some (r.clock + n) })
        ]
        else find r j)
find-expire r k j n p = elim (Option-cases (find r k)) [
  | inl e ↦
      rw (expire-none r k n e, e)
        (elim (Bool-cases (k == j)) [ inl t ↦ rw t (rw (← (eq_iff k j).0 t) e) | inr f ↦ rw f ])
  | inr (h, e) ↦
      rw (expire-some r k n h e, e)
        (unfold find alive in
          rw Dict.lookup-insert
            (elim (Bool-cases (k == j)) [ inl t ↦ rw t (ground arith) | inr f ↦ rw f ]))
]

-- `store.get(job_id) or {}` is the hash itself.
pub get_or_empty-eq-hgetall : (r : Redis) (i : String) → get_or_empty r i ≡ hgetall r (key i)
unfolding get
get_or_empty-eq-hgetall r i = go (hgetall r (key i))
  where
    go : (d : Record) → elim (known d) as (λ _. Record) [ none ↦ [] | some f ↦ f ] ≡ d
    go [] = refl
    go (f ∷ d) = refl

pub find-write :
    (r : Redis) (i j : String) (fields : Fields)
    → find (write r i fields) (key j) ≡ (
        if i == j
        then some (record {
          fields = Dict.update (fields_of (find r (key i))) (strs fields);
          expires_at = deadline_of (find r (key i));
        })
        else find r (key j))
unfolding write
find-write r i j fields = rw (find-hset, key-eq)

pub clock-write : (r : Redis) (i : String) (fields : Fields) → (write r i fields).clock ≡ r.clock
unfolding write hset
clock-write r i fields = refl

-- The value of one field of a job's record.
abbrev pub field : Redis → String → String → Option String
field r i k = Dict.lookup k (get_or_empty r i)

-- After `Store.update` the fields that were written are read back (the last of equal ones), and all
-- others, those of other jobs too, are as they were.
pub field-update :
    (r : Redis) (i j k : String) (fields : Fields)
    → field (update r i fields) j k
      ≡ (if i == j then last k (strs fields) (field r i k) else field r j k)
unfolding update write
field-update r i j k fields = simp get_or_empty-eq-hgetall (
    unfold hgetall fields_of in
    rw (find-hset, key-eq)
      (elim (Bool-cases (i == j)) [
        | inl t ↦ rw t (Dict.lookup-update _ (strs fields) k)
        | inr f ↦ rw f
      ]))
