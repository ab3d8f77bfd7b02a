-- ===== src/Text/Numbers.antt =====
-- Go's `strconv` and the splitting of texts, as far as the program and `net/netip` use them.
use chn_resolver_go.Prelude.{
  ℕ, ◌+◌, ◌-◌, ◌*◌, Bool, not, ◌&&◌, List, [], ◌∷◌, Option, none, some, leb, ◌==◌, if◌then◌else◌,
  is_empty,
}
use chn_resolver_go.Text.{Text}

abbrev pub is_digit : ℕ → Bool
is_digit c = leb b'0' c && leb c b'9'

-- The longest prefix that passes the test, and the rest.
unfoldable pub span : (ℕ → Bool) → Text → Text × Text
span test [] = ([], [])
span test (c ∷ s) =
    let (front, rest) = span test s in if test c then (c ∷ front, rest) else ([], c ∷ s)

-- Before and after the first `d`; `none` when there is none.
unfoldable pub split_first : ℕ → Text → Option (Text × Text)
split_first d [] = none
split_first d (c ∷ s) =
    let later = split_first d s in
    if c == d
    then some ([], s)
    else elim later [ none ↦ none | some (front, rest) ↦ some (c ∷ front, rest) ]

-- Before and after the last `d`.
unfoldable pub split_last : ℕ → Text → Option (Text × Text)
split_last d [] = none
split_last d (c ∷ s) = elim (split_last d s) [
  | some (front, rest) ↦ some (c ∷ front, rest)
  | none ↦ if c == d then some ([], s) else none
]

-- The fields between the occurrences of `d`, never none.
unfoldable pub split_all : ℕ → Text → Text × List Text
split_all d [] = ([], [])
split_all d (c ∷ s) =
    let (field, fields) = split_all d s in
    if c == d then ([], field ∷ fields) else (c ∷ field, fields)

unfoldable pub digits_value : ℕ → Text → Option ℕ
digits_value acc [] = some acc
digits_value acc (c ∷ s) =
    let rest = digits_value (acc * 10 + (c - b'0')) s in if is_digit c then rest else none

-- `strconv.ParseUint(s, 10, …)` without its bound: one digit at least, and nothing else.
unfoldable pub parse_uint : Text → Option ℕ
parse_uint s = if is_empty s then none else digits_value 0 s

-- A decimal number up to `top` that has no zero in front.
unfoldable pub parse_canonical : ℕ → Text → Option ℕ
parse_canonical top [] = none
parse_canonical top (c ∷ s) =
    if c == b'0' && not (is_empty s)
    then none
    else elim (parse_uint (c ∷ s)) [ none ↦ none | some n ↦ if leb n top then some n else none ]
