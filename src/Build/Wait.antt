-- ===== src/Build/Wait.antt =====
-- `_wait_for_container`: the wait in short increments, until the container ends, its time is up
-- or a cancel request is seen.
pub mod Bounds
use Prim.Native.Nat.{zero, suc}
use pretext_plus_build_full.Common.{
  ℕ, String, Bool, true, false, Option, none, some, ◌+◌, leb, if◌then◌else◌, ◌==◌,
}
use pretext_plus_build_full.Common.Dict
use pretext_plus_build_full.Docker.{
  Exception, read_timeout, connection_error, cancelled, Outcome, returned, raised, hangs, Daemon,
}
use pretext_plus_build_full.Jobs
use pretext_plus_build_full.World.{World, Action}

-- `(store.get(job_id) or {}).get("cancel_requested") == "1"`
is_one : Option String → Bool
is_one none = false
is_one (some s) = s == "1"

unfoldable pub cancel_requested : String → World → Bool
unfolding is_one Dict.lookup
cancel_requested job_id w =
    is_one (Dict.lookup "cancel_requested" (Jobs.get_or_empty w.redis job_id))

-- What the `except` clause of the loop catches.
unfoldable pub is_timeout : Exception → Bool
is_timeout read_timeout = true
is_timeout connection_error = true
is_timeout e = false

module _ (daemon : Daemon World) (job_id : String) (container poll timeout : ℕ) where
  -- The loop, with fuel and the seconds waited. Where the fuel ends, it does not return.
  unfoldable pub wait_loop : ℕ → ℕ → Action (Option ℕ)
  unfolding is_timeout
  wait_loop zero elapsed w = (hangs, w)
  wait_loop (suc fuel) elapsed w =
      let (outcome, w') = daemon.wait container poll w in
      let again = wait_loop fuel (elapsed + poll) w' in
      elim outcome [
        | returned code ↦ (returned code, w')
        | hangs ↦ (hangs, w')
        | raised e ↦
            if is_timeout e
            then (if leb timeout (elapsed + poll)
                then (raised e, w')
                else if cancel_requested job_id w'
                then (raised cancelled, w')
                else again)
            else (raised e, w')
      ]

  -- `_wait_for_container`, with one round for each second of the timeout and one more.
  unfoldable pub wait_for_container : Action (Option ℕ)
  unfolding wait_loop
  wait_for_container = wait_loop (suc timeout) 0
