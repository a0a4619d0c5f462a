-- ===== src/Race/Turns/Container.antt =====
-- The container's life, as turns of the worker.
use pretext_plus_build_full.Common.{
  ℕ, zero, suc, String, ◌<>◌, ◌+◌, Bool, true, Option, some, [], ◌≡◌, ◌≢◌, ◌↔◌, refl, ap, ◌∙◌, leb,
  Bool-cases, Option-cases, inl, inr, eq_iff,
}
use mathlib.Core.Path.{subst}
use pretext_plus_build_full.Config.{Settings}
use pretext_plus_build_full.Docker.{
  Exception, image_not_found, api_error, read_timeout, connection_error, cancelled, Outcome,
  returned, raised, hangs, RunArgs, Daemon,
}
use pretext_plus_build_full.Jobs.{Redis}
use pretext_plus_build_full.World.{World, catch}
use pretext_plus_build_full.World.Laws.{Ends, Ends-finally, Result-cases, keep_end}
use pretext_plus_build_full.World.Final.{Leads, Leads-bind, Ends-caught, Final-catch}
use pretext_plus_build_full.Build.{Sandbox}
use pretext_plus_build_full.Build.Wait.{cancel_requested, is_timeout, wait_loop, wait_for_container}
use pretext_plus_build_full.Build.Sandboxed.{
  pass_api_error, Ended, exited, recorded, stop, settle, watch, no_image, remove, supervise,
}
use pretext_plus_build_full.Race.{
  Caller, Worker, running, stopping, ended, flag, interrupt, fail, give_up, stop as stop_step,
}
use pretext_plus_build_full.Race.Turns.{
  Meanwhile, own, others, Come, Ending, Alive, call-Alive, finish-Come,
}

pub cancel_requested-flag :
    (job_id : String) (w : World)
    → (cancel_requested job_id w ≡ true) ↔ (flag job_id w.redis ≡ some "1")
unfolding cancel_requested
cancel_requested-flag job_id w = elim (Option-cases (flag job_id w.redis)) [
  | inl gone ↦ rw (cancel_requested, gone) ((λ e. cc), (λ e. cc))
  | inr (s, there) ↦
      rw (cancel_requested, there)
        (
          (λ e. ap some ((eq_iff s "1").0 e)),
          (λ e. let same : s ≡ "1" = cc in (eq_iff s "1").1 same),
        )
]

-- What the wait's exception says about the flag.
abbrev Seen : String → Exception → World → Type 0
Seen job_id cancelled w = flag job_id w.redis ≡ some "1"
Seen job_id e w = Unit

other-Seen : (job_id : String) (e : Exception) (w : World) → e ≢ cancelled → Seen job_id e w
other-Seen job_id cancelled w n = absurd (n refl)
other-Seen job_id e w n = tt

module _ (Others : Redis → Redis → Type 0) (daemon : Daemon World)
    (meanwhile : Meanwhile Others daemon) (settings : Settings) (job_id kind : String)
    (sandbox : Sandbox) (q : Bool) (c : Caller) (r : Redis) where
  abbrev At : Worker → World → Type 0
  At x w = Come job_id Others q c r x w

  abbrev Live : World → Type 0
  Live w = Alive job_id Others q c r w

  abbrev pub Over : Ended → World → Type 0
  Over (exited code logs) w = At running w
  Over recorded w = At ended w

  abbrev Interrupted : Exception → World → Type 0
  Interrupted e w = At running w × Seen job_id e w

  wait_loop-Leads :
      (container poll timeout fuel elapsed : ℕ) (w : World)
      → At running w
      → Leads
          (λ _. At running)
          Interrupted
          (wait_loop daemon job_id container poll timeout fuel elapsed w)
  unfolding wait_loop
  wait_loop-Leads container poll timeout zero elapsed w t = tt
  wait_loop-Leads container poll timeout (suc fuel) elapsed w t =
      let there = others t (meanwhile.wait container poll w) in
      elim (Result-cases (daemon.wait container poll w)) [
        | inr (inr (v, e)) ↦ rw (e, wait_loop) tt
        | inl (code, v, e) ↦ rw (e, wait_loop, e) (subst (λ o. At running o.1) e there)
        | inr (inl (x, v, e)) ↦
            let here : At running v = subst (λ o. At running o.1) e there in
            let seen =
              other-Seen job_id x v
                (λ k. meanwhile.own_class container poll w (ap (λ o. o.0) e ∙ ap raised k)) in
            elim (Bool-cases (is_timeout x)) [
              | inr other ↦ rw (e, wait_loop, e, other) (here, seen)
              | inl due ↦ elim (Bool-cases (leb timeout (elapsed + poll))) [
                | inl up ↦ rw (e, wait_loop, e, due, up) (here, seen)
                | inr time ↦ elim (Bool-cases (cancel_requested job_id v)) [
                  | inl cancel ↦
                      rw (e, wait_loop, e, due, time, cancel)
                        (here, (cancel_requested-flag job_id v).0 cancel)
                  | inr on ↦
                      rw (e, wait_loop, e, due, time, on)
                        (wait_loop-Leads container poll timeout fuel (elapsed + poll) v here)
                ]
              ]
            ]
      ]

  -- A container that is stopped early, with the record finished after others had their turn.
  stop-Leads :
      (x : Worker) (container : ℕ) (s note : String) (w : World)
      → At x w
      → Ending job_id Others q c r x "failed"
      → Ending job_id Others q c r x s
      → Leads Over (λ _. Live) (stop settings daemon job_id kind sandbox container s note w)
  unfolding stop
  stop-Leads x container s note w t fails ends =
      Leads-bind (λ _. At x) Over (λ _. Live) (daemon.kill container) _ w
        (call-Alive job_id Others q c r x _ w t fails (meanwhile.kill container w))
        (λ _ v t'.
          Leads-bind (λ _. At x) Over (λ _. Live) (daemon.logs container) _ v
            (call-Alive job_id Others q c r x _ v t' fails (meanwhile.logs container v))
            (λ logs u t''.
              finish-Come job_id Others q c r x s (logs <> note) [] u t'' ends (tt, tt)))

  abbrev fails : Ending job_id Others q c r running "failed"
  fails r' more plain = fail r' q c more plain

  settle-Leads :
      (container : ℕ) (result : Outcome (Option ℕ) × World)
      → Leads (λ _. At running) Interrupted result
      → Leads Over
          (λ _. Live)
          (settle settings daemon job_id kind sandbox container result.0 result.1)
  unfolding settle
  settle-Leads container (returned code, w) t =
      Leads-bind (λ _. At running) Over (λ _. Live) (daemon.logs container) _ w
        (call-Alive job_id Others q c r running _ w t fails (meanwhile.logs container w))
        (λ logs v t'. t')
  settle-Leads container (raised cancelled, w) (t, seen) =
      stop-Leads stopping container "cancelled" _ w (own t (interrupt w.redis q c seen))
        (λ r' more plain. give_up r' q c more plain) (λ r' more plain. stop_step r' q c more plain)
  settle-Leads container (raised read_timeout, w) (t, seen) =
      stop-Leads running container "failed" _ w t fails fails
  settle-Leads container (raised connection_error, w) (t, seen) =
      stop-Leads running container "failed" _ w t fails fails
  settle-Leads container (raised e, w) (t, seen) = (running, t, fails)
  settle-Leads container (hangs, w) t = tt

  watch-Leads :
      (container : ℕ) (w : World)
      → At running w
      → Leads Over (λ _. Live) (watch settings daemon job_id kind sandbox container w)
  unfolding watch wait_for_container
  watch-Leads container w t =
      settle-Leads container
        (wait_for_container daemon job_id container settings.build_poll_interval sandbox.timeout w)
        (wait_loop-Leads container settings.build_poll_interval sandbox.timeout
          (suc sandbox.timeout) 0 w t)

  no_image-Ends :
      (e : Exception) (w : World)
      → Live w
      → Ends Over (no_image settings daemon job_id kind sandbox e w)
  unfolding no_image
  no_image-Ends image_not_found w (x, t, ends) =
      finish-Come job_id Others q c r x "failed" _ [] w t ends (tt, tt)
  no_image-Ends e w live = tt

  Over-others : (how : Ended) (v w : World) → Others w.redis v.redis → Over how w → Over how v
  Over-others (exited code logs) v w m t = others t m
  Over-others recorded v w m t = others t m

  pass-Over :
      (how : Ended) (e : Exception) (w : World) → Over how w → Over how (pass_api_error e w).1
  unfolding pass_api_error
  pass-Over how api_error w t = t
  pass-Over how e w t = t

  remove-Ends :
      (container : ℕ) (how : Ended) (w : World)
      → Over how w
      → Ends (λ _. Over how) (remove settings daemon job_id kind sandbox container w)
  unfolding remove pass_api_error
  remove-Ends container how w t =
      keep_end (Over how) (catch (daemon.remove container) pass_api_error w) (
        Final-catch (Over how) (daemon.remove container) pass_api_error w
          (Over-others how _ w (meanwhile.remove container w) t) (pass-Over how))

  pub supervise-Ends :
      (args : RunArgs) (w : World)
      → At running w
      → Ends Over (supervise settings daemon job_id kind sandbox args w)
  unfolding supervise
  supervise-Ends args w t =
      let watch_it = watch settings daemon job_id kind sandbox in
      let handler = no_image settings daemon job_id kind sandbox in
      let there = others t (meanwhile.run args w) in
      elim (Result-cases (daemon.run args w)) [
        | inr (inr (v, e)) ↦ rw (e, supervise) tt
        | inr (inl (x, v, e)) ↦
            rw (e, supervise, e)
              (no_image-Ends x v (running, subst (λ o. At running o.1) e there, fails))
        | inl (container, v, e) ↦
            rw (e, supervise, e)
              (Ends-finally Over (catch (watch_it container) handler)
                (remove settings daemon job_id kind sandbox container) v
                (Ends-caught Over (λ _. Live) (watch_it container) handler v
                  (watch-Leads container v (subst (λ o. At running o.1) e there)) no_image-Ends)
                (remove-Ends container))
      ]
