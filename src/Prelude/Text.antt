-- ===== src/Prelude/Text.antt =====
-- Text as code points, and what the program asks of `str`: white space, line breaks, parts.
use Prim.Native.Nat.{ℕ}
use Prim.Native.Char.{code}
use Prim.Native.String.{String}
use mathlib.Core.Path.{◌≡◌, refl, sym}
use mathlib.Core.Bool.{Bool, true, false, ◌&&◌, ◌||◌}
use mathlib.Core.List.{List, [], ◌∷◌}
use wait_skill.Prelude.Tests.{leb, nat_eq}
use wait_skill.Prelude.Lists.{any, all}

abbrev pub codes : String → List ℕ
codes String.[] = []
codes (String.◌∷◌ c s) = code c ∷ codes s

-- The code points that `str.isspace` accepts and `str.strip` removes.
abbrev pub is_space : ℕ → Bool
is_space c =
    (leb 9 c && leb c 13)
    || (leb 28 c && leb c 32)
    || nat_eq c 0x85
    || nat_eq c 0xa0
    || nat_eq c 0x1680
    || (leb 0x2000 c && leb c 0x200a)
    || nat_eq c 0x2028
    || nat_eq c 0x2029
    || nat_eq c 0x202f
    || nat_eq c 0x205f
    || nat_eq c 0x3000

-- `not s.strip()`
unfoldable pub blank : String → Bool
blank s = all is_space (codes s)

-- `"\r" in s or "\n" in s`
unfoldable pub has_line_break : String → Bool
has_line_break s = any (λ c. nat_eq c 13 || nat_eq c 10) (codes s)

abbrev pub nonempty : String → Bool
nonempty String.[] = false
nonempty (String.◌∷◌ c s) = true

pub nonempty-blank : (s : String) → blank s ≡ false → nonempty s ≡ true
unfolding blank
nonempty-blank String.[] h = sym h
nonempty-blank (String.◌∷◌ c s) h = refl

abbrev pub is_alnum : ℕ → Bool
is_alnum c = (leb b'a' c && leb c b'z') || (leb b'A' c && leb c b'Z') || (leb b'0' c && leb c b'9')
