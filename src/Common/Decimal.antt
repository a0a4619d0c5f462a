-- ===== src/Common/Decimal.antt =====
-- `str(n)` of a number that is not negative, and `int(s)` of a text over ASCII digits.
pub mod RoundTrip
use Prim.Native.Nat.{ℕ, zero, suc, ◌+◌, ◌-◌, ◌*◌, ◌/◌, ◌%◌, ◌<◌}
use Prim.Native.String.{String}
use mathlib.Core.Bool.{Bool, true, false, ◌&&◌}
use mathlib.Core.List.{List, [], ◌∷◌}
use mathlib.Core.Logic.{dite}
use mathlib.Core.Option
use mathlib.Core.Option.{Option, none, some}
use mathlib.Core.WellFounded.{Acc, WellFounded}
use native.Mathlib.Decide.{dec_lt}
use native.Mathlib.Omega.{arith}
use pretext_plus_build_full.Common.Tests.{eqb, if◌then◌else◌}
use pretext_plus_build_full.Common.Text.{codes, strip, is_digit}

-- `negsuc n` is -(n + 1).
pub data ℤ : Type 0 where
  pos : ℕ → ℤ
  negsuc : ℕ → ℤ

acc_below : (k n : ℕ) → n < k → Acc ◌<◌ n
acc_below zero n h = elim h [ ]
acc_below (suc k) n h = Acc.intro n (λ m lt. acc_below k m (omega arith))

lt_wf : WellFounded ◌<◌
unfolding acc_below
lt_wf = record { apply = λ n. acc_below (suc n) n (omega arith) }

-- The digit in front of a text.
digit : ℕ → String → String
digit d s =
    if eqb d 0
    then String.◌∷◌ "0" s
    else if eqb d 1
    then String.◌∷◌ "1" s
    else if eqb d 2
    then String.◌∷◌ "2" s
    else if eqb d 3
    then String.◌∷◌ "3" s
    else if eqb d 4
    then String.◌∷◌ "4" s
    else if eqb d 5
    then String.◌∷◌ "5" s
    else if eqb d 6
    then String.◌∷◌ "6" s
    else if eqb d 7
    then String.◌∷◌ "7" s
    else if eqb d 8
    then String.◌∷◌ "8" s
    else String.◌∷◌ "9" s

pub tenth_lt : {n : ℕ} → 0 < n → n / 10 < n
tenth_lt h = omega arith

emit : (n : ℕ) → Acc ◌<◌ n → String → String
emit n (Acc.intro _ smaller) out =
    dite (dec_lt 0 n) (λ h. emit (n / 10) (smaller (n / 10) (tenth_lt h)) (digit (n % 10) out))
      (λ _. out)

-- str(n)
unfoldable pub show : ℕ → String
unfolding emit digit lt_wf dec_lt
show zero = "0"
show (suc n) = emit (suc n) (lt_wf.apply (suc n)) ""

-- The digits of `int(s)`; the flag is set after a digit, where `_` may stand.
scan : List ℕ → ℕ → Bool → Option ℕ
scan [] n true = some n
scan [] n false = none
scan (c ∷ s) n after_digit =
    let next = scan s (n * 10 + (c - b'0')) true in
    let skip = scan s n false in
    if is_digit c then next else if eqb c b'_' && after_digit then skip else none

negate : ℕ → ℤ
negate zero = pos 0
negate (suc n) = negsuc n

signed : List ℕ → Option ℤ
signed [] = none
signed (c ∷ s) =
    if eqb c b'-'
    then Option.map negate (scan s 0 false)
    else if eqb c b'+'
    then Option.map pos (scan s 0 false)
    else Option.map pos (scan (c ∷ s) 0 false)

-- int(s), with `none` for the `ValueError`
unfoldable pub parse_int : String → Option ℤ
unfolding signed scan negate strip is_digit
parse_int s = signed (codes (strip s))
