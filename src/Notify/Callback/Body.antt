-- ===== src/Notify/Callback/Body.antt =====
-- The log in the payload of a callback.
use Prim.Native.Nat.{zero, suc, ◌<◌}
use text.Mathlib.TextLemmas.{nil-append, cons-append}
use pretext_plus_build_full.Common.{
  ℕ, String, ◌<>◌, ◌&&◌, ◌-◌, ltb, if◌then◌else◌, ◌≡◌, refl, sym, ap, ◌∙◌, arith, lt→ltb,
  Bool-cases, inl, inr,
}
use pretext_plus_build_full.Common.Text.{is_truthy, size, drop_text}
use pretext_plus_build_full.Notify.Callback.{is_truncated, log_tail}

-- s[:n]
abbrev take_text : ℕ → String → String
take_text zero s = String.[]
take_text (suc n) String.[] = String.[]
take_text (suc n) (String.◌∷◌ c s) = String.◌∷◌ c (take_text n s)

take_text-drop_text : (n : ℕ) (s : String) → take_text n s <> drop_text n s ≡ s
take_text-drop_text zero s = nil-append s
take_text-drop_text (suc n) String.[] = nil-append String.[]
take_text-drop_text (suc n) (String.◌∷◌ c s) =
    cons-append c _ _ ∙ ap (String.◌∷◌ c) (take_text-drop_text n s)

size-drop_text : (n : ℕ) (s : String) → size (drop_text n s) ≡ size s - n
size-drop_text zero s = omega arith
size-drop_text (suc n) String.[] = omega arith
size-drop_text (suc n) (String.◌∷◌ c s) = omega (arith, size-drop_text n s)

truthy-take_text : (n : ℕ) (s : String) → n < size s → is_truthy (take_text n s) ≡ ltb 0 n
truthy-take_text zero s lt = refl
truthy-take_text (suc n) String.[] lt = absurd (omega arith)
truthy-take_text (suc n) (String.◌∷◌ c s) lt = ground arith

-- The text in a callback is the end of the log. `log_truncated` says whether something stands
-- before it. If the limit is positive and the log has more characters, the text has as many as
-- the limit; if not, it has as many as the log.
pub log_tail_lem :
    (limit : ℕ) (log : String)
    → (head : String) × (head <> log_tail limit log ≡ log)
      × (is_truncated limit log ≡ is_truthy head)
      × (size (log_tail limit log)
          ≡ (if ltb 0 limit && ltb limit (size log) then limit else size log))
unfolding is_truncated log_tail
log_tail_lem limit log = elim (Bool-cases (ltb 0 limit && ltb limit (size log))) [
  | inl t ↦
      let n = size log - limit in
      let lt : limit < size log = ground arith in
      let pos : 0 < limit = ground arith in
      (
        take_text n log,
        rw t (take_text-drop_text n log),
        rw t (sym (truthy-take_text n log (omega arith) ∙ lt→ltb 0 n (omega arith))),
        rw t (omega (arith, size-drop_text n log)),
      )
  | inr f ↦ (String.[], rw f (nil-append log), f, rw f refl)
]
