-- ===== src/Tests/Store.antt =====
-- The job store and numbers, on concrete input.
use pretext_plus_build_full.Common.{
  List, ◌+◌, none, some, [], ◌∷◌, if◌then◌else◌, ltb, ◌≡◌, ◌≢◌, refl, arith,
}
use pretext_plus_build_full.Common.Dict
use pretext_plus_build_full.Jobs.{
  write, hset, expire, with_defaults, word, key, find, create, update, later, get, strs, Fields,
}
use pretext_plus_build_full.Jobs.Expiry.{
  updated, passed, Event, after, expiry_exact, update_revives,
}
use pretext_plus_build_full.Tests.Fixtures.{redis}

abbrev fields : Fields
fields = ("kind", word "build") ∷ []

abbrev events : List Event
events = updated "d" (("status", word "running") ∷ []) ∷ passed 50 ∷ []

expiry_exact_example :
    let s = after (create 60 redis "d" fields) events in
    (get s "d" ≢ none)
    × (get (later s 10) "d" ≡ (if ltb (s.clock + 10) 1060 then get s "d" else none))
unfolding find after create update write hset expire Dict.lookup Dict.insert Dict.update key strs
    with_defaults
expiry_exact_example = expiry_exact 60 redis "d" fields events 10 (omega arith) refl (omega arith)

update_revives_example :
    get (later (update redis "gone" fields) 1000000) "gone" ≡ some (("kind", "build") ∷ [])
unfolding find strs Dict.update Dict.lookup key
update_revives_example = update_revives redis "gone" fields 1000000 refl (λ e. cc)
