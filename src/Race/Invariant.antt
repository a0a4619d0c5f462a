-- ===== src/Race/Invariant.antt =====
-- What holds at every moment of the race.
use pretext_plus_build_full.Common.{
  String, Bool, true, false, Option, some, List, ◌≡◌, refl, ap, ◌∙◌, eq_refl,
}
use pretext_plus_build_full.Jobs
use pretext_plus_build_full.Jobs.{Redis, Fields, word, strs, str}
use pretext_plus_build_full.Jobs.Laws.{field-update}
use pretext_plus_build_full.Build.Sandboxed.Settled.{is_terminal, last-Lacks}
use pretext_plus_build_full.Race.{
  Caller, idle, loaded, flagged, removed, refused, requested, cancelled, Worker, waiting, ended,
  System, system, flag_fields, status, flag, Plain, write_status, CallerStep, load, refuse,
  set_flag, pass_by, take_out, miss, close, WorkerStep, take, misconfigured, turn_back, go_on,
  begin_run, interrupt, stop, give_up, crash, crash_stopping, fail, succeed, by_caller, by_worker,
  Run, here, next,
}

module _ (job_id : String) where
  pub status-flagged :
      (r : Redis) → status job_id (Jobs.update r job_id flag_fields) ≡ status job_id r
  unfolding strs
  status-flagged r = rw (field-update, eq_refl) refl

  pub flag-flagged : (r : Redis) → flag job_id (Jobs.update r job_id flag_fields) ≡ some "1"
  unfolding strs str
  flag-flagged r = rw (field-update, eq_refl) refl

  status-written :
      (r : Redis) (s : String) (more : Fields)
      → Plain job_id more
      → status job_id (write_status job_id r s more) ≡ some s
  unfolding strs str
  status-written r s more h = rw (field-update, eq_refl) (last-Lacks "status" more (some s) h.0)

  pub flag-written :
      (r : Redis) (s : String) (more : Fields)
      → Plain job_id more
      → flag job_id (write_status job_id r s more) ≡ flag job_id r
  unfolding strs str
  flag-written r s more h =
      rw (field-update, eq_refl) (last-Lacks "cancel_requested" more (flag job_id r) h.1)

  -- The task, as long as the worker has not got it, by where the request stands.
  abbrev Waits : Caller → Bool → Option String → Type 0
  Waits removed q s = q ≡ false
  Waits cancelled q s = (q ≡ false) × (s ≡ some "cancelled")
  Waits c q s = (q ≡ true) × (s ≡ some "queued")

  abbrev pub At : Worker → Caller → Bool → Option String → Type 0
  At waiting c q s = Waits c q s
  At ended c q s = is_terminal s ≡ true
  At w c q s = Unit

  -- From the flag on, it is set.
  abbrev pub Flag : Caller → Option String → Type 0
  Flag idle f = Unit
  Flag refused f = Unit
  Flag (loaded x) f = Unit
  Flag c f = f ≡ some "1"

  abbrev pub Inv : System → Type 0
  Inv (system r q c w) = At w c q (status job_id r) × Flag c (flag job_id r)

  same-Flag : (c : Caller) (f g : Option String) → g ≡ f → Flag c f → Flag c g
  same-Flag c f g e h = rw e h

  set_flag-At :
      (r : Redis) (q : Bool) (x : Option String) (w : Worker)
      → At w (loaded x) q (status job_id r)
      → At w (flagged x) q (status job_id (Jobs.update r job_id flag_fields))
  set_flag-At r q x waiting h = (h.0, status-flagged r ∙ h.1)
  set_flag-At r q x ended h = ap is_terminal (status-flagged r) ∙ h
  set_flag-At r q x w h = tt

  take_out-At :
      (q : Bool) (x s : Option String) (w : Worker) → At w (flagged x) q s → At w removed false s
  take_out-At q x s waiting h = refl
  take_out-At q x s ended h = h
  take_out-At q x s w h = tt

  close-At :
      (r : Redis) (q : Bool) (more : Fields) (w : Worker)
      → Plain job_id more
      → At w removed q (status job_id r)
      → At w cancelled q (status job_id (write_status job_id r "cancelled" more))
  close-At r q more waiting p h = (h, status-written r "cancelled" more p)
  close-At r q more ended p h = ap is_terminal (status-written r "cancelled" more p)
  close-At r q more w p h = tt

  -- A step that the task takes no part in.
  pass-At :
      (c c' : Caller) (q : Bool) (s : Option String) (w : Worker)
      → (Waits c q s → Waits c' q s)
      → At w c q s
      → At w c' q s
  pass-At c c' q s waiting k h = k h
  pass-At c c' q s ended k h = h
  pass-At c c' q s w k h = tt

  caller-Inv : {s t : System} → CallerStep job_id s t → Inv s → Inv t
  caller-Inv (load r q w h) i = (pass-At idle (loaded _) q _ w (λ k. k) i.0, tt)
  caller-Inv (refuse r q w h) i = (pass-At idle refused q _ w (λ k. k) i.0, tt)
  caller-Inv (set_flag r q x w) i = (set_flag-At r q x w i.0, flag-flagged r)
  caller-Inv (pass_by r q x w h) i = (pass-At (flagged x) requested q _ w (λ k. k) i.0, i.1)
  caller-Inv (take_out r q x w h) i = (take_out-At q x _ w i.0, i.1)
  caller-Inv (miss r q x w h) i = (pass-At (flagged x) requested q _ w (λ k. k) i.0, i.1)
  caller-Inv (close r q w) i = (
    close-At r q _ w ((refl, tt), (refl, tt)) i.0,
    flag-written r "cancelled" _ ((refl, tt), (refl, tt)) ∙ i.1,
  )

  -- The worker writes a status in which the job stays.
  end-Inv :
      (r : Redis) (q : Bool) (c : Caller) (x : String) (more : Fields)
      → Plain job_id more
      → is_terminal (some x) ≡ true
      → Flag c (flag job_id r)
      → Inv (system (write_status job_id r x more) q c ended)
  end-Inv r q c x more p t h =
      (ap is_terminal (status-written r x more p) ∙ t, same-Flag c _ _ (flag-written r x more p) h)

  worker-Inv : {s t : System} → WorkerStep job_id s t → Inv s → Inv t
  worker-Inv (take r c) i = (tt, i.1)
  worker-Inv (misconfigured r q c more p) i = end-Inv r q c "failed" more p refl i.1
  worker-Inv (turn_back r q c h) i = (tt, i.1)
  worker-Inv (go_on r q c h) i = (tt, i.1)
  worker-Inv (begin_run r q c) i =
      (tt, same-Flag c _ _ (flag-written r "running" _ ((refl, tt), (refl, tt))) i.1)
  worker-Inv (interrupt r q c h) i = (tt, i.1)
  worker-Inv (stop r q c more p) i = end-Inv r q c "cancelled" more p refl i.1
  worker-Inv (give_up r q c more p) i = end-Inv r q c "failed" more p refl i.1
  worker-Inv (crash r q c) i = (tt, i.1)
  worker-Inv (crash_stopping r q c) i = (tt, i.1)
  worker-Inv (fail r q c more p) i = end-Inv r q c "failed" more p refl i.1
  worker-Inv (succeed r q c more p) i = end-Inv r q c "success" more p refl i.1

  pub Run-Inv : {s t : System} {path : List System} → Inv s → Run job_id s path t → Inv t
  Run-Inv i here = i
  Run-Inv i (next run (by_caller step)) = caller-Inv step (Run-Inv i run)
  Run-Inv i (next run (by_worker step)) = worker-Inv step (Run-Inv i run)
