-- ===== src/Jobs/Expiry.antt =====
-- How long a record lives.
use Prim.Native.Nat.{ℕ, ◌+◌, ◌<◌, ◌≤◌}
use pretext_plus_build_full.Common.{
  String, true, none, some, List, [], ◌∷◌, ltb, if◌then◌else◌, ◌≡◌, refl, arith, sym, ◌==◌, eq_iff,
  eq_refl, ◌∙◌, ◌≢◌, Bool-cases, inl, inr, lt→ltb,
}
use pretext_plus_build_full.Common.Dict
use pretext_plus_build_full.Common.Dict.{Dict, last, NodupKeys}
use pretext_plus_build_full.Jobs.{
  Fields, Record, Hash, Redis, alive, find, fields_of, deadline_of, hgetall, later, strs, key,
  write, with_defaults, create, update, known, get,
}
use pretext_plus_build_full.Jobs.Laws.{find-write, clock-write}
use pretext_plus_build_full.Jobs.Creation.{find-create}

-- What happens to the store while a job lives: any job is updated, or time passes.
pub data Event : Type 0 where
  updated : String → Fields → Event
  passed : ℕ → Event

unfoldable pub after : Redis → List Event → Redis
unfolding update
after r [] = r
after r (updated i fields ∷ events) = after (update r i fields) events
after r (passed n ∷ events) = after (later r n) events

clock-le-after : (r : Redis) (events : List Event) → r.clock ≤ (after r events).clock
unfolding after
clock-le-after r [] = omega arith
clock-le-after r (updated i fields ∷ events) =
    omega (arith, clock-le-after (write r i fields) events, clock-write r i fields)
clock-le-after r (passed n ∷ events) = omega (arith, clock-le-after (later r n) events)

find-later :
    (r : Redis) (k : String) (h : Hash) (n t : ℕ)
    → find r k ≡ some h
    → h.expires_at ≡ some t
    → find (later r n) k ≡ (if ltb (r.clock + n) t then some h else none)
unfolding find alive
find-later r k h n t e d = ground arith

deadline-write :
    (r : Redis) (i j : String) (fields : Fields) (h : Hash)
    → find r (key j) ≡ some h
    → h.fields ≢ []
    → (h' : Hash) × (find (write r i fields) (key j) ≡ some h')
      × (h'.expires_at ≡ h.expires_at)
      × (h'.fields ≢ [])
unfolding deadline_of fields_of
deadline-write r i j fields h e filled = elim (Bool-cases (i == j)) [
  | inl same ↦ (
    record { fields = Dict.update h.fields (strs fields); expires_at = h.expires_at },
    rw (find-write, same, (eq_iff i j).0 same, e),
    refl,
    Dict.update-ne-nil h.fields (strs fields) filled,
  )
  | inr other ↦ (h, rw (find-write, other) e, refl, filled)
]

-- Before its deadline a record is there, with the deadline that it had.
deadline-after :
    (r : Redis) (i : String) (h : Hash) (t : ℕ) (events : List Event)
    → find r (key i) ≡ some h
    → h.expires_at ≡ some t
    → h.fields ≢ []
    → (after r events).clock < t
    → (h' : Hash) × (find (after r events) (key i) ≡ some h')
      × (h'.expires_at ≡ some t)
      × (h'.fields ≢ [])
unfolding after
deadline-after r i h t [] e d filled lt = (h, e, d, filled)
deadline-after r i h t (updated j fields ∷ events) e d filled lt =
    let (h', e', d', filled') = deadline-write r j i fields h e filled in
    deadline-after (write r j fields) i h' t events e' (d' ∙ d) filled' lt
deadline-after r i h t (passed n ∷ events) e d filled lt =
    let soon : ltb (r.clock + n) t ≡ true =
      lt→ltb _ _ (omega (arith, clock-le-after (later r n) events)) in
    deadline-after (later r n) i h t events (find-later r (key i) h n t e d ∙ rw soon) d filled lt

known_filled : (d : Record) → d ≢ [] → known d ≡ some d
unfolding known
known_filled [] h = absurd (h refl)
known_filled (f ∷ d) h = refl

known-get :
    (r : Redis) (i : String) (h : Hash)
    → find r (key i) ≡ some h
    → h.fields ≢ []
    → get r i ≡ some h.fields
unfolding get hgetall fields_of
known-get r i h e filled = rw e (known_filled h.fields filled)

get-later :
    (s : Redis) (i : String) (h : Hash) (n t : ℕ)
    → find s (key i) ≡ some h
    → h.expires_at ≡ some t
    → h.fields ≢ []
    → (get s i ≢ none) × (get (later s n) i ≡ (if ltb (s.clock + n) t then get s i else none))
get-later s i h n t e d filled = (
  λ gone. cc (known-get s i h e filled, gone),
  elim (Bool-cases (ltb (s.clock + n) t)) [
    | inl soon ↦ rw soon (
        known-get (later s n) i h (find-later s (key i) h n t e d ∙ rw soon) filled
        ∙ sym (known-get s i h e filled))
    | inr gone ↦
        rw gone (unfold get hgetall fields_of known in rw (find-later s (key i) h n t e d, gone))
  ],
)

strs-ne-nil : (fields : Fields) → fields ≢ [] → strs fields ≢ []
unfolding strs
strs-ne-nil [] h e = absurd (h refl)
strs-ne-nil ((k, v) ∷ fields) h e = cc

with_defaults-ne-nil : (r : Redis) (fields : Fields) → strs (with_defaults r fields) ≢ []
unfolding with_defaults
with_defaults-ne-nil r fields = strs-ne-nil _ (Dict.set_default-ne-nil _ _ _)

-- A job created at second `r.clock`, with a positive time to live and an id without a record, is
-- known until that second plus the time to live and not after it, however often it, or another
-- job, is updated before.
pub expiry_exact :
    (ttl : ℕ) (r : Redis) (i : String) (fields : Fields) (events : List Event) (n : ℕ)
    → 0 < ttl
    → find r (key i) ≡ none
    → (after (create ttl r i fields) events).clock < r.clock + ttl
    → let s = after (create ttl r i fields) events in
      (get s i ≢ none)
      × (get (later s n) i ≡ (if ltb (s.clock + n) (r.clock + ttl) then get s i else none))
expiry_exact ttl r i fields events n p fresh lt =
    let first : Hash = record {
      fields = Dict.update [] (strs (with_defaults r fields));
      expires_at = some (r.clock + ttl);
    } in
    let born : find (create ttl r i fields) (key i) ≡ some first =
      rw (find-create ttl r i fields p fresh i, eq_refl) in
    let (h, e, d, filled) =
      deadline-after (create ttl r i fields) i first (r.clock + ttl) events born refl
        (Dict.update_nil-ne-nil _ (with_defaults-ne-nil r fields)) lt in
    get-later (after (create ttl r i fields) events) i h n (r.clock + ttl) e d filled

find-later_forever :
    (r : Redis) (k : String) (h : Hash) (n : ℕ)
    → find r k ≡ some h
    → h.expires_at ≡ none
    → find (later r n) k ≡ some h
unfolding find alive
find-later_forever r k h n e d = ground arith

-- An update of at least one field of a job whose record is gone makes a record of the fields of
-- that update alone, and that record never expires.
pub update_revives :
    (r : Redis) (i : String) (fields : Fields) (n : ℕ)
    → find r (key i) ≡ none
    → fields ≢ []
    → get (later (update r i fields) n) i ≡ some (Dict.update [] (strs fields))
unfolding update
update_revives r i fields n gone filled =
    known-get (later (write r i fields) n) i
      (record { fields = Dict.update [] (strs fields); expires_at = none })
      (find-later_forever (write r i fields) (key i) _ n
        (unfold fields_of deadline_of in rw (find-write, eq_refl, gone)) refl)
      (Dict.update_nil-ne-nil _ (strs-ne-nil fields filled))
