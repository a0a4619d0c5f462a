-- ===== src/Build/Wait/Bounds.antt =====
-- How a wait for a container goes, round by round.
use Prim.Native.Nat.{zero, suc, ◌<◌, ◌≤◌}
use mathlib.Core.Path.{subst}
use pretext_plus_build_full.Common.{
  refl, ◌⊎◌, ◌*◌, ℕ, String, true, false, Option, ◌+◌, leb, ◌≡◌, ◌≢◌, arith, Bool-cases, inl, inr,
  leb→le, ap,
}
use pretext_plus_build_full.Docker.{Exception, cancelled, Outcome, returned, raised, hangs, Daemon}
use pretext_plus_build_full.World.{World}
use pretext_plus_build_full.World.Laws.{Result-cases}
use pretext_plus_build_full.Build.Wait.{wait_for_container, is_timeout, cancel_requested, wait_loop}

module _ (daemon : Daemon World) (job_id : String) (container poll timeout : ℕ) where
  -- A wait of some rounds that begins after `elapsed` seconds: what it returns or raises, and the
  -- world at its end.
  pub data Waits : ℕ → ℕ → World → Outcome (Option ℕ) → World → Type 0 where
    ended :
        (elapsed : ℕ) (w w' : World) (code : Option ℕ)
        → daemon.wait container poll w ≡ (returned code, w')
        → Waits 1 elapsed w (returned code) w'
    failed :
        (elapsed : ℕ) (w w' : World) (e : Exception)
        → daemon.wait container poll w ≡ (raised e, w')
        → is_timeout e ≡ false
        → Waits 1 elapsed w (raised e) w'
    timed_out :
        (elapsed : ℕ) (w w' : World) (e : Exception)
        → daemon.wait container poll w ≡ (raised e, w')
        → is_timeout e ≡ true
        → timeout ≤ elapsed + poll
        → Waits 1 elapsed w (raised e) w'
    cancel_seen :
        (elapsed : ℕ) (w w' : World) (e : Exception)
        → daemon.wait container poll w ≡ (raised e, w')
        → is_timeout e ≡ true
        → elapsed + poll < timeout
        → cancel_requested job_id w' ≡ true
        → Waits 1 elapsed w (raised cancelled) w'
    again :
        (n elapsed : ℕ) (w w' w'' : World) (e : Exception) (r : Outcome (Option ℕ))
        → daemon.wait container poll w ≡ (raised e, w')
        → is_timeout e ≡ true
        → elapsed + poll < timeout
        → cancel_requested job_id w' ≡ false
        → Waits n (elapsed + poll) w' r w''
        → Waits (suc n) elapsed w r w''

  Waited : ℕ → World → Outcome (Option ℕ) × World → Type 0
  Waited elapsed w result = (n : ℕ) × Waits (suc n) elapsed w result.0 result.1

  wait_loop-Waits :
      0 < poll
      → ((w : World) → (daemon.wait container poll w).0 ≢ hangs)
      → (fuel elapsed : ℕ) (w : World) → timeout < elapsed + fuel
      → elapsed ≤ timeout
      → Waited elapsed w (wait_loop daemon job_id container poll timeout fuel elapsed w)
  unfolding Waited wait_loop
  wait_loop-Waits pos total zero elapsed w enough le = absurd (omega arith)
  wait_loop-Waits pos total (suc fuel) elapsed w enough le =
      elim (Result-cases (daemon.wait container poll w)) [
        | inl (code, w', e) ↦ rw (e, wait_loop, e) (0, ended elapsed w w' code e)
        | inr (inl (x, w', e)) ↦ elim (Bool-cases (is_timeout x)) [
          | inr other ↦ rw (e, wait_loop, other, e) (0, failed elapsed w w' x e other)
          | inl late ↦ elim (Bool-cases (leb timeout (elapsed + poll))) [
            | inl over ↦
                rw (e, wait_loop, late, over, e)
                  (0, timed_out elapsed w w' x e late (leb→le _ _ over))
            | inr short ↦
                let lt : elapsed + poll < timeout = ground arith in
                elim (Bool-cases (cancel_requested job_id w')) [
                  | inl seen ↦
                      rw (e, wait_loop, late, short, e, seen)
                        (0, cancel_seen elapsed w w' x e late lt seen)
                  | inr unseen ↦
                      let (n, rest) =
                        wait_loop-Waits pos total fuel (elapsed + poll) w' (omega arith)
                          (omega arith) in
                      rw (e, wait_loop, late, short, e, unseen)
                        (suc n, again (suc n) elapsed w w' _ x _ e late lt unseen rest)
                ]
          ]
        ]
        | inr (inr (w', e)) ↦ absurd (total w (ap (λ r. r.0) e))
      ]

  rounds_bound :
      (n elapsed : ℕ) (w w' : World) (r : Outcome (Option ℕ))
      → Waits (suc n) elapsed w r w'
      → (n ≡ 0) ⊎ (elapsed + n * poll < timeout)
  rounds_bound n elapsed w w' r (ended _ _ _ code e) = inl refl
  rounds_bound n elapsed w w' r (failed _ _ _ x e other) = inl refl
  rounds_bound n elapsed w w' r (timed_out _ _ _ x e late over) = inl refl
  rounds_bound n elapsed w w' r (cancel_seen _ _ _ x e late short seen) = inl refl
  rounds_bound n elapsed w w' r (again zero _ _ w1 _ x _ e late short unseen rest) = inl refl
  rounds_bound n elapsed w w' r (again (suc m) _ _ w1 _ x _ e late short unseen rest) =
      elim (rounds_bound m (elapsed + poll) w1 w' r rest) [
        | inl z ↦ inr (rw (z) (omega arith))
        | inr lt ↦ inr (omega arith)
      ]

  timeout_bound :
      (n elapsed : ℕ) (w w' : World) (x : Exception)
      → Waits n elapsed w (raised x) w'
      → is_timeout x ≡ true
      → timeout ≤ elapsed + n * poll
  unfolding is_timeout
  timeout_bound n elapsed w w' x (failed _ _ _ _ e other) late = absurd (cc)
  timeout_bound n elapsed w w' x (timed_out _ _ _ _ e _ over) late = omega arith
  timeout_bound n elapsed w w' x (cancel_seen _ _ _ y e _ short seen) late = absurd (cc)
  timeout_bound n elapsed w w' x (again m _ _ w1 _ y _ e _ short unseen rest) late =
      omega (arith, timeout_bound m (elapsed + poll) w1 w' x rest late)

  -- With a poll interval of at least a second and a daemon each of whose waits ends, the wait for a
  -- container ends as one of the runs that `Waits` describes, and only its first round may begin
  -- at the timeout or after it.
  pub wait_for_container_ends :
      0 < poll
      → ((w : World) → (daemon.wait container poll w).0 ≢ hangs)
      → (w : World)
      → let result = wait_for_container daemon job_id container poll timeout w in
        (n : ℕ) × Waits (suc n) 0 w result.0 result.1 × ((n ≡ 0) ⊎ (n * poll < timeout))
  unfolding wait_for_container Waited
  wait_for_container_ends pos total w =
      let (n, run) = wait_loop-Waits pos total (suc timeout) 0 w (omega arith) (omega arith) in
      (n, run, elim (rounds_bound n 0 w _ _ run) [ inl z ↦ inl z | inr lt ↦ inr (omega arith) ])

  -- With a poll interval of at least a second and a daemon each of whose waits ends, where the wait
  -- raises the daemon's own timeout, the rounds that it took add up to the timeout at least.
  pub timeout_is_due :
      0 < poll
      → ((w : World) → (daemon.wait container poll w).0 ≢ hangs)
      → (w w' : World) (x : Exception)
      → wait_for_container daemon job_id container poll timeout w ≡ (raised x, w')
      → is_timeout x ≡ true
      → (n : ℕ) × Waits n 0 w (raised x) w' × (timeout ≤ n * poll)
  timeout_is_due pos total w w' x e late =
      let (n, run, short) = wait_for_container_ends pos total w in
      let run' : Waits (suc n) 0 w (raised x) w' = subst (λ r. Waits (suc n) 0 w r.0 r.1) e run in
      (suc n, run', omega (arith, timeout_bound (suc n) 0 w w' x run' late))
