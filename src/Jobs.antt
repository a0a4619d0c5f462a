-- ===== src/Jobs.antt =====
-- src/jobs.py: the job-status store. Redis is a table of hashes, each with the time at which it
-- expires, and a clock in seconds; a hash whose time has come is as if it were not there.
pub mod Laws
pub mod Creation
pub mod Expiry
use Prim.Native.Nat.{ℕ, ◌+◌}
use pretext_plus_build_full.Common.{
  String, ◌<>◌, Bool, true, Option, none, some, List, [], ◌∷◌, ltb, if◌then◌else◌,
}
use pretext_plus_build_full.Common.Dict
use pretext_plus_build_full.Common.Dict.{Dict}
use pretext_plus_build_full.Common.Decimal.{show}

-- A field value before `str`.
pub data Value : Type 0 where
  word : String → Value
  number : ℕ → Value

abbrev pub Fields : Type 0
Fields = Dict Value

-- What `Store.get` returns for a job that it knows.
abbrev pub Record : Type 0
Record = Dict String

pub record Hash : Type 0 where
  pub fields : Record
  pub expires_at : Option ℕ

pub record Redis : Type 0 where
  pub hashes : Dict Hash
  pub clock : ℕ

-- The hash at a key, if it has not expired.
alive : ℕ → Option Hash → Option Hash
alive clock none = none
alive clock (some h) = elim h.expires_at [
  | none ↦ some h
  | some t ↦ if ltb clock t then some h else none
]

unfoldable pub find : Redis → String → Option Hash
unfolding alive
find r key = alive r.clock (Dict.lookup key r.hashes)

-- HGETALL
pub fields_of : Option Hash → Record
fields_of none = []
fields_of (some h) = h.fields

unfoldable pub hgetall : Redis → String → Record
unfolding fields_of
hgetall r key = fields_of (find r key)

pub deadline_of : Option Hash → Option ℕ
deadline_of none = none
deadline_of (some h) = h.expires_at

-- HSET: writes the fields over those of the hash, which keeps its time to live; a hash that is not
-- there is made, with no time to live.
unfoldable pub hset : Redis → String → Record → Redis
unfolding fields_of deadline_of
hset r key mapping = record r {
  hashes =
      Dict.insert key
        (record {
          fields = Dict.update (fields_of (find r key)) mapping;
          expires_at = deadline_of (find r key);
        })
        r.hashes;
}

-- EXPIRE
unfoldable pub expire : Redis → String → ℕ → Redis
expire r key seconds = elim (find r key) [
  | none ↦ r
  | some h ↦ record r {
    hashes = Dict.insert key (record h { expires_at = some (r.clock + seconds) }) r.hashes;
  }
]

-- Time passes.
abbrev pub later : Redis → ℕ → Redis
later r n = record r { clock = r.clock + n }

unfoldable pub now : Redis → String
now r = show r.clock

-- str(v)
unfoldable pub str : Value → String
str (word s) = s
str (number n) = show n

unfoldable pub strs : Fields → Record
unfolding str
strs [] = []
strs ((k, v) ∷ fields) = (k, str v) ∷ strs fields

unfoldable pub key : String → String
key job_id = "job:" <> job_id

unfoldable pub write : Redis → String → Fields → Redis
write r job_id fields = hset r (key job_id) (strs fields)

unfoldable pub with_defaults : Redis → Fields → Fields
with_defaults r fields =
    Dict.set_default "created_at" (word (now r)) (Dict.set_default "status" (word "queued") fields)

unfoldable pub create : ℕ → Redis → String → Fields → Redis
create job_ttl r job_id fields =
    expire (write r job_id (with_defaults r fields)) (key job_id) job_ttl

unfoldable pub update : Redis → String → Fields → Redis
update r job_id fields = write r job_id fields

unfoldable pub known : Record → Option Record
known [] = none
known (f ∷ fields) = some (f ∷ fields)

unfoldable pub get : Redis → String → Option Record
unfolding known
get r job_id = known (hgetall r (key job_id))

-- `store.get(job_id) or {}`
abbrev pub get_or_empty : Redis → String → Record
get_or_empty r job_id = elim (get r job_id) [ none ↦ [] | some record_fields ↦ record_fields ]

-- JOB_PREFIXES[kind]; `none` is the `KeyError`.
unfoldable pub job_prefix : String → Option String
unfolding Dict.lookup
job_prefix kind = Dict.lookup kind (("build", "/builds") ∷ ("generate", "/generate") ∷ [])
