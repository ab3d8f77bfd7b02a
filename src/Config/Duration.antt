-- ===== src/Config/Duration.antt =====
-- `ParseDuration` of Go's `time`, in nanoseconds. A fraction of a unit is cut off exactly here, where
-- Go multiplies in floating point.
use chn_resolver_go.Prelude.{
  ℕ, zero, suc, ◌+◌, ◌*◌, ◌/◌, ◌^◌, Bool, true, false, not, ◌&&◌, ◌||◌, [], ◌∷◌, Option, none, some,
  ltb, ◌==◌, if◌then◌else◌, is_empty, length,
}
use chn_resolver_go.Prelude.Int.{ℤ, pos, negate}
use chn_resolver_go.Text.{Text, codes, eq_text}
use chn_resolver_go.Text.Numbers.{is_digit, span, digits_value}

abbrev second : ℕ
second = 1_000_000_000

abbrev minute : ℕ
minute = 60 * second

abbrev hour : ℕ
hour = 60 * minute

-- `unitMap`; the microsecond has two spellings more, with either letter mu.
unfoldable pub unit_of : Text → Option ℕ
unit_of u =
    if eq_text u (codes "ns")
    then some 1
    else if eq_text u (codes "us") || eq_text u (0xb5 ∷ codes "s") || eq_text u (0x3bc ∷ codes "s")
    then some 1000
    else if eq_text u (codes "ms")
    then some 1_000_000
    else if eq_text u (codes "s")
    then some second
    else if eq_text u (codes "m")
    then some minute
    else if eq_text u (codes "h")
    then some hour
    else none

-- The digits after a dot, and the rest.
abbrev fraction : Text → Text × Text
fraction [] = ([], [])
fraction (c ∷ s) = if c == b'.' then span is_digit s else ([], c ∷ s)

abbrev is_unit : ℕ → Bool
is_unit c = not (c == b'.' || is_digit c)

-- One number with its unit, in nanoseconds, and the rest of the text.
unfoldable pub element : Text → Option (ℕ × Text)
element s =
    let (whole, dotted) = span is_digit s in
    let (part, named) = fraction dotted in
    let (unit, rest) = span is_unit named in
    if is_empty whole && is_empty part then none else elim (digits_value 0 whole) [
      | none ↦ none
      | some v ↦ elim (digits_value 0 part) [
        | none ↦ none
        | some f ↦ elim (unit_of unit) [
          | none ↦ none
          | some u ↦
              let total : ℕ = v * u + f * u / 10 ^ length part in
              if ltb (2 ^ 63 / u) v || ltb (2 ^ 63) total then none else some (total, rest)
        ]
      ]
    ]

-- The loop over the elements. Each reads a character at least: fuel `length s` is enough.
unfoldable pub elements : ℕ → ℕ → Text → Option ℕ
elements zero d s = if is_empty s then some d else none
elements (suc k) d s = elim (is_empty s) [
  | true ↦ some d
  | false ↦ elim (element s) [
    | none ↦ none
    | some (n, rest) ↦ elim (ltb (2 ^ 63) (d + n)) [ true ↦ none | false ↦ elements k (d + n) rest ]
  ]
]

-- The rest after the sign, with whether it is negative.
unfoldable pub unsigned : Bool → Text → Option ℤ
unsigned neg s =
    if eq_text s (codes "0")
    then some (pos 0)
    else if is_empty s
    then none
    else elim (elements (length s) 0 s) [
      | none ↦ none
      | some d ↦ if neg then some (negate d) else if ltb d (2 ^ 63) then some (pos d) else none
    ]

-- `ParseDuration`
unfoldable pub parse_duration : Text → Option ℤ
parse_duration [] = none
parse_duration (c ∷ s) =
    if c == b'-'
    then unsigned true s
    else if c == b'+'
    then unsigned false s
    else unsigned false (c ∷ s)
