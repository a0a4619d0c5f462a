-- ===== src/Notify/Callback/Untouched.antt =====
-- What `send_callback` leaves in the job store.
use Prim.Native.Nat.{zero, suc, max}
use pretext_plus_build_full.Common.{
  ℕ, String, false, Option, [], ◌∷◌, ◌++◌, ◌==◌, ◌≡◌, inl, inr, refl, sym, ap, ◌∙◌, Bool-cases,
  Option-cases, eq_iff,
}
use pretext_plus_build_full.Common.Dict
use pretext_plus_build_full.Common.Dict.{last}
use pretext_plus_build_full.Common.Text.{is_truthy}
use pretext_plus_build_full.Config.{Settings}
use pretext_plus_build_full.Jobs
use pretext_plus_build_full.Jobs.{Record, Fields, word, strs}
use pretext_plus_build_full.Jobs.Laws.{field, field-update}
use pretext_plus_build_full.World.{World, Request, update_job}
use pretext_plus_build_full.World.Laws.{Result-cases}
use pretext_plus_build_full.Notify.{Network, Codec, or_empty, is_allowed_callback_url}
use pretext_plus_build_full.Notify.Callback.{
  verdict, attempts, request_of, build_payload, deliver, notify, send_callback,
}
use pretext_plus_build_full.Notify.Callback.Delivery.{build_payload_world, send_none, send_some}

module _ (job_id j k : String) (other_status : ("callback_status" == k) ≡ false)
    (other_error : ("callback_error" == k) ≡ false) where
  -- The field is as it was.
  abbrev Kept : World → World → Type 0
  Kept w w' = field w'.redis j k ≡ field w.redis j k

  update-Kept :
      (fields : Fields) (w : World)
      → ((o : Option String) → last k (strs fields) o ≡ o)
      → Kept w ((update_job job_id fields w).1)
  unfolding update_job
  update-Kept fields w silent =
      field-update w.redis job_id j k fields ∙ elim (Bool-cases (job_id == j)) [
        | inl t ↦ rw (t, silent) (ap (λ i. field w.redis i k) ((eq_iff job_id j).0 t))
        | inr f ↦ rw f refl
      ]

  attempts-Kept :
      (net : Network) (request : Request) (n : ℕ) (last_error : String) (w : World)
      → Kept w ((attempts net job_id request n last_error w).1)
  unfolding attempts strs
  attempts-Kept net request zero last_error w =
      update-Kept _ w (λ o. rw (other_status, other_error) refl)
  attempts-Kept net request (suc n) last_error w =
      let w' : World = record w { sent = w.sent ++ (request ∷ []) } in
      elim (Option-cases (verdict net (net.post request w))) [
        | inl e ↦ rw (e, attempts) (update-Kept _ w' (λ o. rw other_status refl))
        | inr (text, e) ↦ rw (e, attempts) (attempts-Kept net request n text w')
      ]

  module _ (settings : Settings) (net : Network) (codec : Codec) where
    deliver-Kept :
        (url : String) (fields : Record) (w : World)
        → Kept w ((deliver settings net codec job_id url fields w).1)
    unfolding deliver
    deliver-Kept url fields w =
        let same = build_payload_world settings codec job_id fields w in
        elim (Result-cases (build_payload settings codec job_id fields w)) [
          | inl (p, v, e) ↦
              rw (e, deliver)
                (attempts-Kept net (request_of settings net codec url p)
                    (max 1 settings.callback_retries) "None" v
                  ∙ ap (λ x. field x.redis j k) (sym (ap (λ r. r.1) e) ∙ same))
          | inr (inl (x, v, e)) ↦
              rw (e, deliver) (ap (λ x. field x.redis j k) (sym (ap (λ r. r.1) e) ∙ same))
          | inr (inr (v, e)) ↦
              rw (e, deliver) (ap (λ x. field x.redis j k) (sym (ap (λ r. r.1) e) ∙ same))
        ]

    notify-Kept :
        (url : String) (fields : Record) (w : World)
        → Kept w ((notify settings net codec job_id url fields w).1)
    unfolding notify strs
    notify-Kept url fields w = elim (Bool-cases (is_truthy url)) [
      | inr f ↦ rw f refl
      | inl t ↦ elim (Bool-cases (is_allowed_callback_url settings net url w)) [
        | inr blocked ↦ rw (t, blocked) (update-Kept _ w (λ o. rw (other_status, other_error) refl))
        | inl allowed ↦ rw (t, allowed) (deliver-Kept url fields w)
      ]
    ]

    -- Whatever becomes of a job's callback, sending it changes no field of any job but
    -- `callback_status` and `callback_error`.
    pub field-send_callback :
        (w : World)
        → field ((send_callback settings net codec job_id w).1).redis j k ≡ field w.redis j k
    field-send_callback w = elim (Option-cases (Jobs.get w.redis job_id)) [
      | inl e ↦ rw (send_none settings net codec job_id w e) refl
      | inr (fields, e) ↦
          rw (send_some settings net codec job_id w fields e)
            (notify-Kept (or_empty (Dict.lookup "callback_url" fields)) fields w)
    ]
