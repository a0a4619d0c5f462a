-- ===== src/Common/Decimal/RoundTrip.antt =====
-- `int` on what `str` writes.
use Prim.Native.Nat.{ℕ, zero, suc, ◌+◌, ◌*◌, ◌/◌, ◌%◌, ◌<◌}
use Prim.Native.Char.{code}
use Prim.Native.String.{String}
use mathlib.Core.Path.{◌≡◌, refl, ◌∙◌, ap}
use mathlib.Core.Bool.{Bool, true, false}
use mathlib.Core.List.{List, [], ◌∷◌}
use mathlib.Core.Option
use mathlib.Core.Option.{Option, none, some}
use mathlib.Core.WellFounded.{Acc}
use native.Mathlib.Bridge.{le_prop}
use native.Mathlib.Decide.{dec_lt}
use native.Mathlib.Omega.{arith}
use mathlib.Core.Logic.{dif_pos, dif_neg}
use pretext_plus_build_full.Common.Lists.{All}
use pretext_plus_build_full.Common.Text.{codes, is_space, is_digit, lstrip, rstrip, strip}
use pretext_plus_build_full.Common.Decimal.{
  pos, emit, digit, show, scan, signed, parse_int, lt_wf, tenth_lt,
}

abbrev Digits : String → Type 0
Digits s = All (λ c. is_digit c ≡ true) (codes s)

codes-digit : (d : ℕ) (s : String) → d < 10 → codes (digit d s) ≡ (b'0' + d) ∷ codes s
unfolding digit
codes-digit d s h = ground arith

is_digit-digit : (d : ℕ) → d < 10 → is_digit (b'0' + d) ≡ true
unfolding is_digit
is_digit-digit d h = ground arith

not-is_space_of_digit : (c : ℕ) → is_digit c ≡ true → is_space c ≡ false
unfolding is_digit is_space
not-is_space_of_digit c h = ground arith

lstrip_of_Digits : (s : String) → Digits s → lstrip s ≡ s
unfolding lstrip
lstrip_of_Digits String.[] h = refl
lstrip_of_Digits (String.◌∷◌ c s) h = rw (not-is_space_of_digit (code c) h.0)

rstrip_of_Digits : (s : String) → Digits s → rstrip s ≡ s
unfolding rstrip
rstrip_of_Digits String.[] h = refl
rstrip_of_Digits (String.◌∷◌ c s) h =
    rw (not-is_space_of_digit (code c) h.0) (ap (String.◌∷◌ c) (rstrip_of_Digits s h.1))

strip_of_Digits : (s : String) → Digits s → strip s ≡ s
unfolding strip
strip_of_Digits s h = rw (lstrip_of_Digits s h) (rstrip_of_Digits s h)

Digits-digit : (d : ℕ) (s : String) → d < 10 → Digits s → Digits (digit d s)
Digits-digit d s lt h = rw (codes-digit d s lt) (is_digit-digit d lt, h)

Digits-emit : (n : ℕ) (w : Acc ◌<◌ n) (out : String) → Digits out → Digits (emit n w out)
unfolding emit
Digits-emit n (Acc.intro _ smaller) out h = elim (dec_lt 0 n) [
  | yes p ↦ rw (dif_pos (dec_lt 0 n) le_prop p) (
      Digits-emit (n / 10) (smaller (n / 10) (tenth_lt p)) _
        (Digits-digit (n % 10) out (omega arith) h))
  | no p ↦ rw (dif_neg (dec_lt 0 n) p) h
]

scan-digit :
    (d : ℕ) (s : String) (m : ℕ) (b : Bool)
    → d < 10
    → scan (codes (digit d s)) m b ≡ scan (codes s) (m * 10 + d) true
unfolding scan
scan-digit d s m b lt =
    rw (codes-digit d s lt, is_digit-digit d lt)
      (ap (λ k. scan (codes s) (m * 10 + k) true) (omega arith))

emit_zero : (n : ℕ) (w : Acc ◌<◌ n) (out : String) → n ≡ 0 → emit n w out ≡ out
unfolding emit
emit_zero n (Acc.intro _ smaller) out e = dif_neg (dec_lt 0 n) (λ p. omega arith) _ _

scan-emit :
    (n : ℕ) (w : Acc ◌<◌ n) (out : String) (b : Bool)
    → 0 < n
    → scan (codes (emit n w out)) 0 b ≡ scan (codes out) n true
unfolding emit
scan-emit n (Acc.intro _ smaller) out b p =
    rw (dif_pos (dec_lt 0 n) le_prop p) (elim (dec_lt 0 (n / 10)) [
      | yes q ↦
          scan-emit (n / 10) (smaller (n / 10) (tenth_lt p)) (digit (n % 10) out) b q
          ∙ scan-digit (n % 10) out (n / 10) true (omega arith)
          ∙ ap (λ k. scan (codes out) k true) (omega arith)
      | no q ↦ rw (emit_zero (n / 10) (smaller (n / 10) (tenth_lt p)) _ (omega arith)) (
          scan-digit (n % 10) out 0 b (omega arith)
          ∙ ap (λ k. scan (codes out) k true) (omega arith))
    ])

signed_of_Digits :
    (s : List ℕ) → All (λ c. is_digit c ≡ true) s → signed s ≡ Option.map pos (scan s 0 false)
unfolding signed scan
signed_of_Digits [] h = refl
signed_of_Digits (c ∷ s) h = let d : is_digit c ≡ true = h.0 in unfold is_digit in ground arith

Digits-show : (n : ℕ) → Digits (show n)
unfolding show is_digit
Digits-show zero = (refl, tt)
Digits-show (suc n) = Digits-emit (suc n) (lt_wf.apply (suc n)) "" tt

scan-show : (n : ℕ) → scan (codes (show n)) 0 false ≡ some n
unfolding show scan is_digit
scan-show zero = refl
scan-show (suc n) = scan-emit (suc n) (lt_wf.apply (suc n)) "" false (omega arith)

-- `int(str(n))` is `n`, for every number that is not negative.
pub parse_int-show : (n : ℕ) → parse_int (show n) ≡ some (pos n)
unfolding parse_int
parse_int-show n =
    rw (strip_of_Digits (show n) (Digits-show n), signed_of_Digits _ (Digits-show n), scan-show n)
