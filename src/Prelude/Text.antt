-- ===== src/Prelude/Text.antt =====
-- Python's `str` methods, as far as the modelled code reads their results.
use Prim.Native.Nat.{ℕ, ◌+◌}
use Prim.Native.Char.{code}
use Prim.Native.String.{String}
use mathlib.Core.Bool.{Bool, true, false, not, ◌&&◌, ◌||◌}
use mathlib.Core.List.{List, [], ◌∷◌}
use text.Mathlib.Text.{◌==◌}
use bastet_agent_os.Prelude.Tests.{leb, eqb, if◌then◌else◌}

-- The code points of a text.
abbrev pub codes : String → List ℕ
codes String.[] = []
codes (String.◌∷◌ c s) = code c ∷ codes s

-- The white space of `str.strip`, `str.split` and `str.isspace`.
unfoldable pub is_space : ℕ → Bool
is_space c =
    (leb 0x9 c && leb c 0xd)
    || (leb 0x1c c && leb c 0x20)
    || eqb c 0x85
    || eqb c 0xa0
    || eqb c 0x1680
    || (leb 0x2000 c && leb c 0x200a)
    || eqb c 0x2028
    || eqb c 0x2029
    || eqb c 0x202f
    || eqb c 0x205f
    || eqb c 0x3000

unfoldable pub lstrip : String → String
lstrip String.[] = String.[]
lstrip (String.◌∷◌ c s) = let rest = lstrip s in if is_space (code c) then rest else String.◌∷◌ c s

unfoldable pub rstrip : String → String
rstrip String.[] = String.[]
rstrip (String.◌∷◌ c s) =
    let rest = rstrip s in if rest == "" && is_space (code c) then "" else String.◌∷◌ c rest

-- `s.strip()`
unfoldable pub strip : String → String
unfolding lstrip rstrip is_space
strip s = rstrip (lstrip s)

-- `bool(s)`
abbrev pub nonempty : String → Bool
nonempty s = not (s == "")

-- `s.lower()`, of the characters whose lower case is ASCII: A to Z and the Kelvin sign. No other
-- character can become part of an ASCII text (U+0130 becomes two, of which one is not ASCII).
unfoldable pub lower_code : ℕ → ℕ
lower_code c = if leb b'A' c && leb c b'Z' then c + 32 else if eqb c 0x212a then b'k' else c

unfoldable pub same_codes : List ℕ → List ℕ → Bool
same_codes [] [] = true
same_codes (a ∷ xs) (b ∷ ys) = eqb a b && same_codes xs ys
same_codes _ _ = false

-- `word in label`
unfoldable pub starts_with : List ℕ → List ℕ → Bool
starts_with [] label = true
starts_with (x ∷ xs) [] = false
starts_with (x ∷ xs) (y ∷ ys) = let rest = starts_with xs ys in eqb x y && rest

unfoldable pub occurs_in : List ℕ → List ℕ → Bool
unfolding starts_with
occurs_in word [] = starts_with word []
occurs_in word (c ∷ label) = let rest = occurs_in word label in starts_with word (c ∷ label) || rest
