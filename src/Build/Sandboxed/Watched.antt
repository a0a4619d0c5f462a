-- ===== src/Build/Sandboxed/Watched.antt =====
-- The watch over a container of a calm daemon, and its removal.
use Prim.Native.Nat.{zero, suc}
use pretext_plus_build_full.Common.{
  ℕ, String, true, Option, ◌+◌, ◌<◌, ◌≤◌, leb, ◌≡◌, ◌⊎◌, refl, arith, Bool-cases, inl, inr,
}
use mathlib.Core.Path.{subst}
use pretext_plus_build_full.Config.{Settings}
use pretext_plus_build_full.Docker.{
  Exception, image_not_found, api_error, read_timeout, connection_error, cancelled, Outcome,
  returned, raised, hangs, RunArgs, Daemon,
}
use pretext_plus_build_full.World.{World, catch, update_job}
use pretext_plus_build_full.World.Laws.{Result-cases}
use pretext_plus_build_full.World.Total.{
  Returns, Returns-bind, Returns-catch_idle, Returns-finally, Returns-mono,
}
use pretext_plus_build_full.Build.{Sandbox}
use pretext_plus_build_full.Build.Mounts.Present.{Present}
use pretext_plus_build_full.Build.Wait.{is_timeout, cancel_requested, wait_loop, wait_for_container}
use pretext_plus_build_full.Build.Sandboxed.{
  finish, Ended, exited, recorded, stop, settle, watch, no_image, remove, supervise, pass_api_error,
}
use pretext_plus_build_full.Build.Sandboxed.Calm.{Sound, Waited, Started, Removed, Calm}

-- What the loop raises is handled: its time was up, or a cancel request was seen.
abbrev Stopped {ℓ} : {A : Type ℓ} → (World → Type 0) → Outcome A × World → Type 0
Stopped P (returned code, w) = P w
Stopped P (raised e, w) = ((is_timeout e ≡ true) ⊎ (e ≡ cancelled)) × P w
Stopped P (hangs, w) = ⊥

-- What is left of a container that ended by itself.
abbrev pub After : String → Sandbox → Ended → World → Type 0
After job_id sandbox (exited code logs) w = Sound job_id sandbox w
After job_id sandbox recorded w = Unit

module _ (settings : Settings) (daemon : Daemon World) (job_id kind : String) (sandbox : Sandbox)
    (calm : Calm daemon job_id sandbox) where
  wait_loop-Stopped :
      (container poll timeout : ℕ)
      → 0 < poll
      → (fuel elapsed : ℕ) (w : World) → timeout < elapsed + fuel
      → elapsed ≤ timeout
      → Sound job_id sandbox w
      → Stopped
          (Sound job_id sandbox)
          (wait_loop daemon job_id container poll timeout fuel elapsed w)
  unfolding wait_loop
  wait_loop-Stopped container poll timeout pos zero elapsed w enough le sound = absurd (omega arith)
  wait_loop-Stopped container poll timeout pos (suc fuel) elapsed w enough le sound =
      let waited = calm.wait container poll w sound in
      elim (Result-cases (daemon.wait container poll w)) [
        | inl (code, v, e) ↦ rw (e, wait_loop, e) (subst (Waited (Sound job_id sandbox)) e waited)
        | inr (inl (x, v, e)) ↦
            let (late, sound') = subst (Waited (Sound job_id sandbox)) e waited in
            elim (Bool-cases (leb timeout (elapsed + poll))) [
              | inl over ↦ rw (e, wait_loop, late, over, e) (inl late, sound')
              | inr short ↦ elim (Bool-cases (cancel_requested job_id v)) [
                | inl seen ↦ rw (e, wait_loop, late, short, e, seen) (inr refl, sound')
                | inr unseen ↦
                    let lt : elapsed + poll < timeout = ground arith in
                    rw (e, wait_loop, late, short, e, unseen)
                      (wait_loop-Stopped container poll timeout pos fuel (elapsed + poll) v
                        (omega arith) (omega arith) sound')
              ]
            ]
        | inr (inr (v, e)) ↦ absurd (subst (Waited (Sound job_id sandbox)) e waited)
      ]

  stop-Returns :
      (container : ℕ) (status note : String) (w : World)
      → Sound job_id sandbox w
      → Returns
          (λ _. Sound job_id sandbox)
          (stop settings daemon job_id kind sandbox container status note w)
  unfolding stop finish update_job
  stop-Returns container status note w sound =
      Returns-bind (λ _. Sound job_id sandbox) (λ _. Sound job_id sandbox) (daemon.kill container) _
        w (calm.kill container w sound)
        (λ _ v sound'.
          Returns-bind (λ _. Sound job_id sandbox) (λ _. Sound job_id sandbox)
            (daemon.logs container) _ v (calm.logs container v sound') (λ logs u sound''. sound''))

  settle-Returns :
      (container : ℕ) (outcome : Outcome (Option ℕ)) (w : World)
      → Stopped (Sound job_id sandbox) (outcome, w)
      → Returns
          (λ _. Sound job_id sandbox)
          (settle settings daemon job_id kind sandbox container outcome w)
  unfolding settle is_timeout
  settle-Returns container (returned code) w sound =
      Returns-bind (λ _. Sound job_id sandbox) (λ _. Sound job_id sandbox) (daemon.logs container) _
        w (calm.logs container w sound) (λ logs u sound'. sound')
  settle-Returns container (raised cancelled) w h = stop-Returns container "cancelled" _ w h.1
  settle-Returns container (raised read_timeout) w h = stop-Returns container "failed" _ w h.1
  settle-Returns container (raised connection_error) w h = stop-Returns container "failed" _ w h.1
  settle-Returns container (raised e) w h = elim h.0 [ inl t ↦ cc | inr t ↦ cc ]
  settle-Returns container hangs w h = absurd h

  watch-Returns :
      (container : ℕ) (w : World)
      → 0 < settings.build_poll_interval
      → Sound job_id sandbox w
      → Returns (λ _. Sound job_id sandbox) (watch settings daemon job_id kind sandbox container w)
  unfolding watch wait_for_container
  watch-Returns container w pos sound = settle-Returns container _ _ (
      wait_loop-Stopped container settings.build_poll_interval sandbox.timeout pos
        (suc sandbox.timeout) 0 w (omega arith) (omega arith) sound)

  Removed-Returns :
      (r : Outcome (Unit {0}) × World) (w : World)
      → Removed (Sound job_id sandbox) r
      → Returns (λ _. Sound job_id sandbox) (catch (λ _. r) pass_api_error w)
  unfolding pass_api_error
  Removed-Returns (returned u, v) w h = h
  Removed-Returns (raised api_error, v) w h = h
  Removed-Returns (raised e, v) w h = h
  Removed-Returns (hangs, v) w h = h

  remove-Returns :
      (container : ℕ) (w : World)
      → Sound job_id sandbox w
      → Returns (λ _. Sound job_id sandbox) (remove settings daemon job_id kind sandbox container w)
  unfolding remove
  remove-Returns container w sound =
      Removed-Returns (daemon.remove container w) w (calm.remove container w sound)

  Sound-After : (ended : Ended) (w : World) → Sound job_id sandbox w → After job_id sandbox ended w
  Sound-After (exited code logs) w sound = sound
  Sound-After recorded w sound = tt

  no_image-Returns :
      (e : Exception) (w : World)
      → Started (Sound job_id sandbox) (raised e, w)
      → Returns (After job_id sandbox) (no_image settings daemon job_id kind sandbox e w)
  unfolding no_image
  no_image-Returns image_not_found w h = tt
  no_image-Returns e w h = h

  pub supervise-Returns :
      (args : RunArgs) (w : World)
      → 0 < settings.build_poll_interval
      → Present job_id w
      → Returns (After job_id sandbox) (supervise settings daemon job_id kind sandbox args w)
  unfolding supervise
  supervise-Returns args w pos present =
      let started = calm.run args w present in
      elim (Result-cases (daemon.run args w)) [
        | inl (container, v, e) ↦
            rw (e, supervise, e)
              (Returns-finally (λ _. Sound job_id sandbox) (After job_id sandbox)
                (catch (watch settings daemon job_id kind sandbox container)
                  (no_image settings daemon job_id kind sandbox))
                (remove settings daemon job_id kind sandbox container) v
                (Returns-catch_idle (λ _. Sound job_id sandbox)
                  (watch settings daemon job_id kind sandbox container)
                  (no_image settings daemon job_id kind sandbox) v
                  (watch-Returns container v pos
                    (subst (Started (Sound job_id sandbox)) e started)))
                (λ ended u sound.
                  Returns-mono (λ _. Sound job_id sandbox) (λ _. After job_id sandbox ended)
                    (remove settings daemon job_id kind sandbox container u)
                    (λ _ x. Sound-After ended x) (remove-Returns container u sound)))
        | inr (inl (x, v, e)) ↦
            rw (e, supervise, e)
              (no_image-Returns x v (subst (Started (Sound job_id sandbox)) e started))
        | inr (inr (v, e)) ↦ absurd (subst (Started (Sound job_id sandbox)) e started)
      ]
