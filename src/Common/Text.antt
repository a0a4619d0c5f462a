-- ===== src/Common/Text.antt =====
-- The methods of Python's `str` and the parts of `re` that the program uses, over code points.
-- `lower` is exact on ASCII; the program's own tests only compare the result with ASCII text.
pub mod Split
pub mod Quote
pub mod Format
use Prim.Native.Nat.{ℕ, ◌+◌}
use Prim.Native.Char.{Char, code}
use Prim.Native.String
use Prim.Native.String.{String}
use mathlib.Core.Path.{◌≡◌, refl}
use mathlib.Core.Bool.{Bool, true, false, ◌&&◌, ◌||◌}
use mathlib.Core.List.{List, [], ◌∷◌}
use native.Mathlib.Omega.{arith}
use pretext_plus_build_full.Common.Tests.{ltb, leb, eqb, if◌then◌else◌}
use pretext_plus_build_full.Common.Lists.{any}

-- The code points of a text.
abbrev pub codes : String → List ℕ
codes String.[] = []
codes (String.◌∷◌ c s) = code c ∷ codes s

abbrev pub in_range : ℕ → ℕ → ℕ → Bool
in_range lo hi c = leb lo c && leb c hi

-- `c.isspace()`, which is also `\s` of `re` on `str`.
unfoldable pub is_space : ℕ → Bool
is_space c =
    in_range 0x09 0x0d c
    || in_range 0x1c 0x20 c
    || eqb c 0x85
    || eqb c 0xa0
    || eqb c 0x1680
    || in_range 0x2000 0x200a c
    || eqb c 0x2028
    || eqb c 0x2029
    || eqb c 0x202f
    || eqb c 0x205f
    || eqb c 0x3000

unfoldable pub is_lower : ℕ → Bool
is_lower c = in_range b'a' b'z' c

unfoldable pub is_upper : ℕ → Bool
is_upper c = in_range b'A' b'Z' c

unfoldable pub is_digit : ℕ → Bool
is_digit c = in_range b'0' b'9' c

unfoldable pub is_letter : ℕ → Bool
unfolding is_lower is_upper
is_letter c = is_lower c || is_upper c

unfoldable pub is_alnum : ℕ → Bool
unfolding is_letter is_digit
is_alnum c = is_letter c || is_digit c

-- `bool(s)` of a text.
abbrev pub is_truthy : String → Bool
is_truthy String.[] = false
is_truthy (String.◌∷◌ c s) = true

unfoldable pub lstrip : String → String
unfolding is_space
lstrip String.[] = String.[]
lstrip (String.◌∷◌ c s) = let rest = lstrip s in if is_space (code c) then rest else String.◌∷◌ c s

unfoldable pub rstrip : String → String
unfolding is_space
rstrip String.[] = String.[]
rstrip (String.◌∷◌ c s) =
    let rest = rstrip s in
    if is_space (code c)
    then (if is_truthy rest then String.◌∷◌ c rest else String.[])
    else String.◌∷◌ c rest

-- s.strip()
unfoldable pub strip : String → String
unfolding lstrip rstrip
strip s = rstrip (lstrip s)

-- s[n:]
abbrev pub drop_text : ℕ → String → String
drop_text ℕ.zero s = s
drop_text (ℕ.suc n) String.[] = String.[]
drop_text (ℕ.suc n) (String.◌∷◌ c s) = drop_text n s

-- len(s)
abbrev pub size : String → ℕ
size String.[] = 0
size (String.◌∷◌ c s) = ℕ.suc (size s)

unfoldable pub lower : ℕ → ℕ
unfolding is_upper
lower c = if is_upper c then c + 32 else c

-- `s.lower().startswith(p)` for a lower-case ASCII `p`.
unfoldable pub lower_starts_with : List ℕ → List ℕ → Bool
unfolding lower
lower_starts_with s [] = true
lower_starts_with [] (p ∷ ps) = false
lower_starts_with (c ∷ s) (p ∷ ps) = eqb (lower c) p && lower_starts_with s ps

-- `s.startswith(p)`.
unfoldable pub starts_with : List ℕ → List ℕ → Bool
starts_with s [] = true
starts_with [] (p ∷ ps) = false
starts_with (c ∷ s) (p ∷ ps) = eqb c p && starts_with s ps

-- `s.lower().endswith(p)` for a lower-case ASCII `p`: some suffix of `s` is `p`, case aside.
unfoldable pub lower_equals : List ℕ → List ℕ → Bool
unfolding lower
lower_equals [] [] = true
lower_equals [] (p ∷ ps) = false
lower_equals (c ∷ s) [] = false
lower_equals (c ∷ s) (p ∷ ps) = eqb (lower c) p && lower_equals s ps

unfoldable pub lower_ends_with : List ℕ → List ℕ → Bool
unfolding lower_equals
lower_ends_with [] p = lower_equals [] p
lower_ends_with (c ∷ s) p = lower_equals (c ∷ s) p || lower_ends_with s p

-- The tail of a regular expression that ends in `$`: the end of the text, or a last newline.
abbrev pub at_end : List ℕ → Bool
at_end [] = true
at_end (c ∷ []) = eqb c 10
at_end (c ∷ d ∷ s) = false

-- `[class]{0,n}$`, where the class holds no newline, so that no backtracking succeeds where the
-- longest run fails.
unfoldable pub up_to : (ℕ → Bool) → ℕ → List ℕ → Bool
up_to p n [] = true
up_to p ℕ.zero (c ∷ s) = at_end (c ∷ s)
up_to p (ℕ.suc n) (c ∷ s) = let rest = up_to p n s in if p c then rest else at_end (c ∷ s)

-- `[class]*$`
unfoldable pub star_end : (ℕ → Bool) → List ℕ → Bool
star_end p [] = true
star_end p (c ∷ s) = let rest = star_end p s in if p c then rest else at_end (c ∷ s)

-- `sep.join(parts)`
unfoldable pub join : String → List String → String
join sep [] = ""
join sep (p ∷ []) = p
join sep (p ∷ q ∷ ps) = String.◌++◌ p (String.◌++◌ sep (join sep (q ∷ ps)))

-- `c.lower()` of an ASCII character; any other is left alone.
unfoldable pub lower_char : Char → Char
lower_char c =
    if eqb (code c) b'A'
    then "a"
    else if eqb (code c) b'B'
    then "b"
    else if eqb (code c) b'C'
    then "c"
    else if eqb (code c) b'D'
    then "d"
    else if eqb (code c) b'E'
    then "e"
    else if eqb (code c) b'F'
    then "f"
    else if eqb (code c) b'G'
    then "g"
    else if eqb (code c) b'H'
    then "h"
    else if eqb (code c) b'I'
    then "i"
    else if eqb (code c) b'J'
    then "j"
    else if eqb (code c) b'K'
    then "k"
    else if eqb (code c) b'L'
    then "l"
    else if eqb (code c) b'M'
    then "m"
    else if eqb (code c) b'N'
    then "n"
    else if eqb (code c) b'O'
    then "o"
    else if eqb (code c) b'P'
    then "p"
    else if eqb (code c) b'Q'
    then "q"
    else if eqb (code c) b'R'
    then "r"
    else if eqb (code c) b'S'
    then "s"
    else if eqb (code c) b'T'
    then "t"
    else if eqb (code c) b'U'
    then "u"
    else if eqb (code c) b'V'
    then "v"
    else if eqb (code c) b'W'
    then "w"
    else if eqb (code c) b'X'
    then "x"
    else if eqb (code c) b'Y'
    then "y"
    else if eqb (code c) b'Z'
    then "z"
    else c

-- `s.lower()` of an ASCII text
unfoldable pub lower_text : String → String
unfolding lower_char
lower_text String.[] = String.[]
lower_text (String.◌∷◌ c s) = String.◌∷◌ (lower_char c) (lower_text s)

-- `s.rstrip(".")`
unfoldable pub rstrip_dots : String → String
rstrip_dots String.[] = String.[]
rstrip_dots (String.◌∷◌ c s) =
    let rest = rstrip_dots s in
    if eqb (code c) b'.'
    then (if is_truthy rest then String.◌∷◌ c rest else String.[])
    else String.◌∷◌ c rest
