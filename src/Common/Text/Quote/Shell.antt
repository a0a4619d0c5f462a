-- ===== src/Common/Text/Quote/Shell.antt =====
-- `shlex.quote` and the words that a POSIX shell reads.
use Prim.Native.Nat.{ℕ, zero, suc, ◌<◌}
use mathlib.Core.List.{List, [], ◌∷◌, ◌++◌, map, append-nil, append_assoc}
use mathlib.Core.Path.{◌≡◌, refl, sym, ap, ◌∙◌}
use mathlib.Core.Bool.{Bool, true, ◌&&◌, ◌||◌, not}
use mathlib.Core.Option.{Option, none, some}
use mathlib.Core.Logic.{inl, inr}
use native.Mathlib.Omega.{arith}
use Prim.Native.Char.{code}
use Prim.Native.String
use Prim.Native.String.{String, ◌++◌ as ◌<>◌}
use pretext_plus_build_full.Common.Tests.{
  eqb, if◌then◌else◌, Bool-cases, and-true_left, and-true_right,
}
use pretext_plus_build_full.Common.Text.{codes, join, is_alnum}
use pretext_plus_build_full.Common.Text.Quote.{is_safe, all_safe, escape, quote}

abbrev is_blank : ℕ → Bool
is_blank c = eqb c b' ' || eqb c b'\t'

-- Outside quotes, the shell may do something with such a character.
is_special : ℕ → Bool
is_special c =
    eqb c b'\n'
    || eqb c b'|'
    || eqb c b'&'
    || eqb c b';'
    || eqb c b'<'
    || eqb c b'>'
    || eqb c b'('
    || eqb c b')'
    || eqb c b'$'
    || eqb c b'`'
    || eqb c b'\\'
    || eqb c b'*'
    || eqb c b'?'
    || eqb c b'['
    || eqb c b'#'
    || eqb c b'~'
    || eqb c b'!'
    || eqb c b'{'
    || eqb c b'}'

-- Inside double quotes too.
abbrev is_expanded : ℕ → Bool
is_expanded c = eqb c b'$' || eqb c b'`' || eqb c b'\\'

-- Between words, or in a word: outside quotes, in single or in double quotes.
pub data Mode : Type 0 where
  between : Mode
  bare : Mode
  single : Mode
  double : Mode

abbrev pub word_before : List ℕ → Option (List (List ℕ)) → Option (List (List ℕ))
word_before w none = none
word_before w (some ws) = some (w ∷ ws)

-- What is read behind the word so far; `none` where a character is special or a quote is open.
unfoldable pub read : Mode → List ℕ → List ℕ → Option (List (List ℕ))
unfolding is_special
read between word [] = some []
read bare word [] = some (word ∷ [])
read single word [] = none
read double word [] = none
read between word (c ∷ s) =
    let next = read between [] s in
    let quoted = read single [] s in
    let quoted_twice = read double [] s in
    let word_start = read bare (c ∷ []) s in
    if is_blank c
    then next
    else if eqb c b'\''
    then quoted
    else if eqb c b'"'
    then quoted_twice
    else if is_special c
    then none
    else word_start
read bare word (c ∷ s) =
    let next = read between [] s in
    let quoted = read single word s in
    let quoted_twice = read double word s in
    let longer = read bare (word ++ (c ∷ [])) s in
    if is_blank c
    then word_before word next
    else if eqb c b'\''
    then quoted
    else if eqb c b'"'
    then quoted_twice
    else if is_special c
    then none
    else longer
read single word (c ∷ s) =
    let closed = read bare word s in
    let longer = read single (word ++ (c ∷ [])) s in if eqb c b'\'' then closed else longer
read double word (c ∷ s) =
    let closed = read bare word s in
    let longer = read double (word ++ (c ∷ [])) s in
    if eqb c b'"' then closed else if is_expanded c then none else longer

-- The words of a command that is one simple command with nothing for the shell to expand.
unfoldable pub shell_words : List ℕ → Option (List (List ℕ))
unfolding read
shell_words s = read between [] s

pub codes-append : (s t : String) → codes (s <> t) ≡ codes s ++ codes t
codes-append String.[] t = ap codes (String.append.nil t)
codes-append (String.◌∷◌ c s) t =
    ap codes (String.append.cons c s t) ∙ ap (◌∷◌ (code c)) (codes-append s t)

-- The test holds of the first `k` code points.
first_codes : (ℕ → Bool) → ℕ → Bool
first_codes ok zero = true
first_codes ok (suc k) = first_codes ok k && ok k

first_codes-code : (ok : ℕ → Bool) (c k : ℕ) → c < k → first_codes ok k ≡ true → ok c ≡ true
unfolding first_codes
first_codes-code ok c zero small h = elim small [ ]
first_codes-code ok c (suc k) small h =
    let now = and-true_right (first_codes ok k) (ok k) h in
    let before = and-true_left (first_codes ok k) (ok k) h in
    elim (Bool-cases (eqb c k)) [
      | inl same ↦ let e : c ≡ k = ground arith in rw e now
      | inr other ↦ first_codes-code ok c k (ground arith) before
    ]

abbrev is_ordinary : ℕ → Bool
is_ordinary c = not (is_blank c || eqb c b'\'' || eqb c b'"' || is_special c)

read-bare_ordinary :
    (c : ℕ) (word s : List ℕ)
    → is_ordinary c ≡ true
    → read bare word (c ∷ s) ≡ read bare (word ++ (c ∷ [])) s
unfolding read
read-bare_ordinary c word s h = ground arith

read-between_ordinary :
    (c : ℕ) (s : List ℕ) → is_ordinary c ≡ true → read between [] (c ∷ s) ≡ read bare (c ∷ []) s
unfolding read
read-between_ordinary c s h = ground arith

safe_small : (c : ℕ) → is_safe c ≡ true → c < 128
unfolding is_safe is_alnum
safe_small c h = ground arith

-- What `shlex.quote` leaves bare means nothing to the shell.
safe_ordinary : (c : ℕ) → is_safe c ≡ true → is_ordinary c ≡ true
safe_ordinary c h =
    let test = λ (d : ℕ). if is_safe d then is_ordinary d else true in
    let table : first_codes test 128 ≡ true =
      unfold first_codes is_safe is_alnum is_special in refl in
    rw h at (first_codes-code test c 128 (safe_small c h) table)

read-bare_safe :
    (s : String) (word rest : List ℕ)
    → all_safe s ≡ true
    → read bare word (codes s ++ rest) ≡ read bare (word ++ codes s) rest
unfolding all_safe
read-bare_safe String.[] word rest h = ap (λ w. read bare w rest) (sym (append-nil word))
read-bare_safe (String.◌∷◌ c s) word rest h =
    let first = and-true_left (is_safe (code c)) (all_safe s) h in
    let later = and-true_right (is_safe (code c)) (all_safe s) h in
    read-bare_ordinary (code c) word (codes s ++ rest) (safe_ordinary (code c) first)
    ∙ read-bare_safe s (word ++ (code c ∷ [])) rest later
    ∙ ap (λ w. read bare w rest) (append_assoc word (code c ∷ []) (codes s))

read-single_escape :
    (s : String) (word rest : List ℕ)
    → read single word (codes (escape s) ++ (b'\'' ∷ rest)) ≡ read bare (word ++ codes s) rest
unfolding escape read
read-single_escape String.[] word rest = ap (λ w. read bare w rest) (sym (append-nil word))
read-single_escape (String.◌∷◌ c s) word rest =
    let later =
      read-single_escape s (word ++ (code c ∷ [])) rest
      ∙ ap (λ w. read bare w rest) (append_assoc word (code c ∷ []) (codes s)) in
    elim (Bool-cases (eqb (code c) b'\'')) [
      | inl same ↦
          let e : code c ≡ b'\'' = ground arith in
          rw (same, codes-append "'\"'\"'" (escape s), e) (rw e at later)
      | inr other ↦ rw (other, read, other) later
    ]

pub read-quote :
    (s : String) (rest : List ℕ)
    → read between [] (codes (quote s) ++ rest) ≡ read bare (codes s) rest
unfolding quote read
read-quote String.[] rest = refl
read-quote (String.◌∷◌ c s) rest =
    let quoted : String = String.◌∷◌ c s in
    elim (Bool-cases (all_safe quoted)) [
      | inl safe ↦
          let first = and-true_left (is_safe (code c)) (all_safe s) (unfold all_safe in safe) in
          let later = and-true_right (is_safe (code c)) (all_safe s) (unfold all_safe in safe) in
          rw (safe, quote)
            (read-between_ordinary (code c) (codes s ++ rest) (safe_ordinary (code c) first)
              ∙ read-bare_safe s (code c ∷ []) rest later)
      | inr unsafe ↦
          rw (unsafe, quote)
            (ap (λ l. read between [] (b'\'' ∷ (l ++ rest))) (codes-append (escape quoted) "'")
              ∙ ap (λ l. read between [] (b'\'' ∷ l))
                  (append_assoc (codes (escape quoted)) (b'\'' ∷ []) rest)
              ∙ read-single_escape quoted [] rest)
    ]

-- A text that was quoted is one word for the shell, and that word is the text.
pub shell_words-quote : (s : String) → shell_words (codes (quote s)) ≡ some (codes s ∷ [])
unfolding shell_words read
shell_words-quote s = ap (read between []) (sym (append-nil (codes (quote s)))) ∙ read-quote s []

abbrev pub words_before : List (List ℕ) → Option (List (List ℕ)) → Option (List (List ℕ))
words_before [] o = o
words_before (w ∷ ws) o = word_before w (words_before ws o)

pub read-join-quote :
    (args : List String) (rest : List ℕ)
    → read between [] (codes (join " " (map quote args)) ++ (b' ' ∷ rest))
      ≡ words_before (map codes args) (read between [] rest)
unfolding join read
read-join-quote [] rest = refl
read-join-quote (a ∷ []) rest = read-quote a (b' ' ∷ rest)
read-join-quote (a ∷ b ∷ args) rest =
    let tail = join " " (map quote (b ∷ args)) in
    ap (λ l. read between [] (l ++ (b' ' ∷ rest)))
      (codes-append (quote a) (" " <> tail)
        ∙ ap (λ l. codes (quote a) ++ l) (codes-append " " tail))
    ∙ ap (read between []) (append_assoc (codes (quote a)) (b' ' ∷ codes tail) (b' ' ∷ rest))
    ∙ read-quote a (b' ' ∷ (codes tail ++ (b' ' ∷ rest)))
    ∙ ap (word_before (codes a)) (read-join-quote (b ∷ args) rest)
