-- ===== src/Text.antt =====
-- Go's `strings` as far as the program uses it, over texts as lists of code points. `ToLower` and
-- `EqualFold` are those of ASCII: names on the wire and in the configuration are ASCII.
pub mod Numbers
use Prim.Native.Char.{code}
use Prim.Native.String.{String}
use mathlib.Core.List.{reverse}
use chn_resolver_go.Prelude.{
  ℕ, zero, suc, ◌+◌, Bool, true, false, ◌&&◌, ◌||◌, List, [], ◌∷◌, map, Option, none, some, leb,
  ◌==◌, if◌then◌else◌, length, ℕ_discrete, ite,
}

abbrev pub Text : Type 0
Text = List ℕ

unfoldable pub Text-discrete : Discrete Text
unfolding ℕ_discrete
Text-discrete = hlevel ℕ_discrete

abbrev pub eq_text : Text → Text → Bool
eq_text s t = ite (Text-discrete s t) true false

-- `unicode.IsSpace`
unfoldable pub is_space : ℕ → Bool
is_space c =
    (leb 9 c && leb c 13)
    || c == 0x20
    || c == 0x85
    || c == 0xa0
    || c == 0x1680
    || (leb 0x2000 c && leb c 0x200a)
    || c == 0x2028
    || c == 0x2029
    || c == 0x202f
    || c == 0x205f
    || c == 0x3000

unfoldable pub trim_left : Text → Text
trim_left [] = []
trim_left (c ∷ s) = let rest = trim_left s in if is_space c then rest else c ∷ s

-- `strings.TrimSpace`
unfoldable pub trim_space : Text → Text
trim_space s = reverse (trim_left (reverse (trim_left s)))

-- `strings.HasPrefix(s, t)`
unfoldable pub has_prefix : Text → Text → Bool
has_prefix s [] = true
has_prefix [] (d ∷ t) = false
has_prefix (c ∷ s) (d ∷ t) = c == d && has_prefix s t

-- `strings.HasSuffix(s, t)`
unfoldable pub has_suffix : Text → Text → Bool
has_suffix s t = has_prefix (reverse s) (reverse t)

unfoldable pub drop : ℕ → Text → Text
drop zero s = s
drop (suc n) [] = []
drop (suc n) (c ∷ s) = drop n s

unfoldable pub take : ℕ → Text → Text
take zero s = []
take (suc n) [] = []
take (suc n) (c ∷ s) = c ∷ take n s

-- `strings.TrimSuffix(s, t)`
unfoldable pub trim_suffix : Text → Text → Text
trim_suffix s t = if has_suffix s t then reverse (drop (length t) (reverse s)) else s

-- `strings.Index(s, t)`: `none` is -1.
unfoldable pub index : Text → Text → Option ℕ
index [] t = if has_prefix [] t then some 0 else none
index (c ∷ s) t =
    let rest = index s t in
    if has_prefix (c ∷ s) t then some 0 else elim rest [ none ↦ none | some i ↦ some (suc i) ]

unfoldable pub lower : ℕ → ℕ
lower c = if leb b'A' c && leb c b'Z' then c + 32 else c

-- `strings.ToLower`
unfoldable pub to_lower : Text → Text
to_lower = map lower

-- `strings.EqualFold`
unfoldable pub equal_fold : Text → Text → Bool
equal_fold s t = eq_text (to_lower s) (to_lower t)

-- The code points of a literal.
abbrev pub codes : String → Text
codes String.[] = []
codes (String.◌∷◌ c s) = code c ∷ codes s
