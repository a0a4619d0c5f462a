-- ===== src/Notify/Callback/Delivery.antt =====
-- What `send_callback` sends.
use Prim.Native.Nat.{zero, suc, max}
use pretext_plus_build_full.Common.{
  ℕ, String, true, Option, none, some, List, [], ◌∷◌, ◌++◌, ◌≤◌, if◌then◌else◌, ◌≡◌, ◌==◌, ◌⊎◌, inl,
  inr, refl, sym, ap, ◌∙◌, arith, Bool-cases, Option-cases,
}
use pretext_plus_build_full.Common.Dict
use pretext_plus_build_full.Common.Text.{is_truthy}
use pretext_plus_build_full.Config.{Settings}
use pretext_plus_build_full.Docker.{returned}
use pretext_plus_build_full.Jobs
use pretext_plus_build_full.Jobs.{Record, job_prefix}
use pretext_plus_build_full.Jobs.Laws.{field}
use pretext_plus_build_full.World.{World, Request, update_job}
use pretext_plus_build_full.World.Laws.{Result-cases}
use pretext_plus_build_full.Notify.{Network, Codec, or_empty, is_allowed_callback_url}
use pretext_plus_build_full.Notify.Callback.{
  verdict, attempts, request_of, kind_of, names_of, build_payload, deliver, notify, send_callback,
}

abbrev pub repeat {ℓ} : {A : Type ℓ} → ℕ → A → List A
repeat zero x = []
repeat (suc n) x = x ∷ repeat n x

snoc-append {ℓ} :
    {A : Type ℓ} (xs : List A) (x : A) (ys : List A) → (xs ++ (x ∷ [])) ++ ys ≡ xs ++ (x ∷ ys)
snoc-append [] x ys = refl
snoc-append (y ∷ xs) x ys = ap (λ zs. y ∷ zs) (snoc-append xs x ys)

append_nil {ℓ} : {A : Type ℓ} (xs : List A) → xs ++ [] ≡ xs
append_nil [] = refl
append_nil (x ∷ xs) = ap (λ zs. x ∷ zs) (append_nil xs)

-- A request was sent some times, at most `n`.
abbrev Sent : ℕ → Request → World → World → Type 0
Sent n request w w' = (k : ℕ) × (k ≤ n) × (w'.sent ≡ w.sent ++ repeat k request)

attempts-Sent :
    (net : Network) (job_id : String) (request : Request) (n : ℕ) (last_error : String) (w : World)
    → Sent n request w ((attempts net job_id request n last_error w).1)
unfolding attempts update_job
attempts-Sent net job_id request zero last_error w = (0, omega arith, sym (append_nil w.sent))
attempts-Sent net job_id request (suc n) last_error w =
    elim (Option-cases (verdict net (net.post request w))) [
      | inl e ↦ rw (e, attempts) (1, omega arith, refl)
      | inr (text, e) ↦
          let w' : World = record w { sent = w.sent ++ (request ∷ []) } in
          let (k, le, all_sent) = attempts-Sent net job_id request n text w' in
          rw (e, attempts)
            (suc k, omega arith, all_sent ∙ snoc-append w.sent request (repeat k request))
    ]

pub build_payload_world :
    (settings : Settings) (codec : Codec) (job_id : String) (fields : Record) (w : World)
    → (build_payload settings codec job_id fields w).1 ≡ w
unfolding build_payload
build_payload_world settings codec job_id fields w =
    elim (Option-cases (job_prefix (kind_of fields))) [
      | inl e ↦ rw (e, build_payload) refl
      | inr (prefix, e) ↦
          elim (Option-cases (
            if kind_of fields == "generate"
            then names_of codec (or_empty (Dict.lookup "files" fields))
            else some [])) [
              | inl bad ↦ rw (e, build_payload, bad) refl
              | inr (files, good) ↦ rw (e, build_payload, good) refl
            ]
    ]

-- No request was sent, or one request to a URL was sent some times, at most `n`.
abbrev pub Posted : ℕ → String → World → World → Type 0
Posted n url w w' =
    (w'.sent ≡ w.sent)
    ⊎ ((request : Request) × (request.url ≡ url)
        × (k : ℕ) × (k ≤ n)
        × (w'.sent ≡ w.sent ++ repeat k request))

module _ (settings : Settings) (net : Network) (codec : Codec) where
  deliver-Posted :
      (job_id url : String) (fields : Record) (w : World)
      → Posted
          (max 1 settings.callback_retries)
          url
          w
          ((deliver settings net codec job_id url fields w).1)
  unfolding deliver request_of
  deliver-Posted job_id url fields w =
      let same = build_payload_world settings codec job_id fields w in
      elim (Result-cases (build_payload settings codec job_id fields w)) [
        | inl (p, v, e) ↦
            let same' : v ≡ w = sym (ap (λ r. r.1) e) ∙ same in
            let request = request_of settings net codec url p in
            let (k, le, all_sent) =
              attempts-Sent net job_id request (max 1 settings.callback_retries) "None" v in
            rw (e, deliver)
              (inr (request, refl, k, le, all_sent ∙ ap (λ x. x.sent ++ repeat k request) same'))
        | inr (inl (x, v, e)) ↦
            rw (e, deliver) (inl (ap (λ r. r.1.sent) (sym e) ∙ ap (λ x. x.sent) same))
        | inr (inr (v, e)) ↦
            rw (e, deliver) (inl (ap (λ r. r.1.sent) (sym e) ∙ ap (λ x. x.sent) same))
      ]

  -- Nothing was sent, or the requests went to a URL that is let through.
  abbrev Guarded : String → World → World → Type 0
  Guarded url w w' =
      (w'.sent ≡ w.sent)
      ⊎ ((is_truthy url ≡ true)
          × (is_allowed_callback_url settings net url w ≡ true)
          × Posted (max 1 settings.callback_retries) url w w')

  notify-Guarded :
      (job_id url : String) (fields : Record) (w : World)
      → Guarded url w ((notify settings net codec job_id url fields w).1)
  unfolding notify update_job
  notify-Guarded job_id url fields w = elim (Bool-cases (is_truthy url)) [
    | inr f ↦ rw f (inl refl)
    | inl t ↦ elim (Bool-cases (is_allowed_callback_url settings net url w)) [
      | inr blocked ↦ rw (t, blocked) (inl refl)
      | inl allowed ↦ rw (t, allowed) (inr (refl, refl, deliver-Posted job_id url fields w))
    ]
  ]

  pub send_none :
      (job_id : String) (w : World)
      → Jobs.get w.redis job_id ≡ none
      → send_callback settings net codec job_id w ≡ (returned tt, w)
  unfolding send_callback
  send_none job_id w e = rw (e, send_callback)

  pub send_some :
      (job_id : String) (w : World) (fields : Record)
      → Jobs.get w.redis job_id ≡ some fields
      → send_callback settings net codec job_id w
        ≡ notify settings net codec job_id (or_empty (Dict.lookup "callback_url" fields)) fields w
  unfolding send_callback
  send_some job_id w fields e = rw (e, send_callback)

  truthy_found : (o : Option String) → is_truthy (or_empty o) ≡ true → o ≡ some (or_empty o)
  truthy_found none t = absurd (cc)
  truthy_found (some s) t = refl

  -- Sending a job's callback either sends nothing, or sends one request, at most as often as there
  -- are retries (once if there are none), to the URL in the job's record, and that URL passes the
  -- test for callback URLs in the world in which the sending starts.
  pub send_callback_guarded :
      (job_id : String) (w : World)
      → let w' = (send_callback settings net codec job_id w).1 in
        (w'.sent ≡ w.sent)
        ⊎ ((request : Request) × (field w.redis job_id "callback_url" ≡ some request.url)
            × (is_allowed_callback_url settings net request.url w ≡ true)
            × (k : ℕ) × (k ≤ max 1 settings.callback_retries)
            × (w'.sent ≡ w.sent ++ repeat k request))
  send_callback_guarded job_id w = elim (Option-cases (Jobs.get w.redis job_id)) [
    | inl e ↦ rw (send_none job_id w e) (inl refl)
    | inr (fields, e) ↦
        let url = or_empty (Dict.lookup "callback_url" fields) in
        elim (notify-Guarded job_id url fields w) [
          | inl none_sent ↦ rw (send_some job_id w fields e) (inl none_sent)
          | inr (t, allowed, posted) ↦ elim posted [
            | inl none_sent ↦ rw (send_some job_id w fields e) (inl none_sent)
            | inr (request, to, k, le, all_sent) ↦ rw (send_some job_id w fields e) (
                inr (
                  request,
                  ap
                        (λ o.
                          Dict.lookup "callback_url"
                            (elim o as (λ _. Record) [ none ↦ [] | some f ↦ f ]))
                        e
                      ∙ truthy_found (Dict.lookup "callback_url" fields) t
                      ∙ ap some (sym to),
                  rw to allowed,
                  k,
                  le,
                  all_sent,
                ))
          ]
        ]
  ]
