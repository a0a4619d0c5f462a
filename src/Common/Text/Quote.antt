-- ===== src/Common/Text/Quote.antt =====
-- `shlex.quote`.
pub mod Shell
use Prim.Native.Char.{code}
use Prim.Native.String
use Prim.Native.String.{String}
use Prim.Native.Nat.{ℕ}
use mathlib.Core.Bool.{Bool, true, ◌&&◌, ◌||◌}
use pretext_plus_build_full.Common.Tests.{eqb, if◌then◌else◌}
use pretext_plus_build_full.Common.Text.{is_alnum}

-- `[\w@%+=:,./-]` of ASCII
unfoldable pub is_safe : ℕ → Bool
unfolding is_alnum
is_safe c =
    is_alnum c
    || eqb c b'_'
    || eqb c b'@'
    || eqb c b'%'
    || eqb c b'+'
    || eqb c b'='
    || eqb c b':'
    || eqb c b','
    || eqb c b'.'
    || eqb c b'/'
    || eqb c b'-'

-- `_find_unsafe(s) is None`
unfoldable pub all_safe : String → Bool
unfolding is_safe
all_safe String.[] = true
all_safe (String.◌∷◌ c s) = is_safe (code c) && all_safe s

-- `s.replace("'", "'\"'\"'")`
unfoldable pub escape : String → String
escape String.[] = ""
escape (String.◌∷◌ c s) =
    if eqb (code c) b'\'' then String.◌++◌ "'\"'\"'" (escape s) else String.◌∷◌ c (escape s)

unfoldable pub quote : String → String
unfolding all_safe escape
quote String.[] = "''"
quote (String.◌∷◌ c s) =
    if all_safe (String.◌∷◌ c s)
    then String.◌∷◌ c s
    else String.◌∷◌ "'" (String.◌++◌ (escape (String.◌∷◌ c s)) "'")
