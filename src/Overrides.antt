-- ===== src/Overrides.antt =====
-- internal/overrides/overrides.go: the override list, exact names and wildcard suffixes. A scanner
-- is the list of its lines and whether it ended with an error; a set of names is a list.
pub mod Entries
pub mod Wildcard
use chn_resolver_go.Prelude.{
  ℕ, Bool, true, false, ◌||◌, List, [], ◌∷◌, ◌++◌, Option, none, some, if◌then◌else◌, is_empty,
  elem,
}
use chn_resolver_go.Text.{
  Text, Text-discrete, trim_space, trim_suffix, has_prefix, has_suffix, to_lower, take, drop, index,
  codes,
}

-- `Set`; its name in Go is taken by the lists here.
pub record OverrideSet : Type 0 where
  pub exact : List Text
  pub wildcard : List Text

-- `normalize`
unfoldable pub normalize : Text → Text
normalize name = to_lower (trim_suffix (trim_space name) (codes "."))

-- The second loop of `New`: the wildcard suffixes that are not empty.
unfoldable pub add_wildcards : OverrideSet → List Text → OverrideSet
add_wildcards s [] = s
add_wildcards s (w ∷ ws) =
    let w = normalize w in
    add_wildcards (if is_empty w then s else record s { wildcard = s.wildcard ++ w ∷ [] }) ws

-- The first loop of `New`, then the second.
unfoldable pub new_loop : OverrideSet → List Text → List Text → OverrideSet
new_loop s [] wildcard = add_wildcards s wildcard
new_loop s (e ∷ es) wildcard =
    let e = normalize e in
    new_loop (if is_empty e then s else record s { exact = e ∷ s.exact }) es wildcard

-- `New`
unfoldable pub new : List Text → List Text → OverrideSet
new exact wildcard = new_loop (record { exact = []; wildcard = [] }) exact wildcard

abbrev pub separators : List Text
separators =
    codes " #"
    ∷ (9 ∷ codes "#")
    ∷ codes " ;"
    ∷ (9 ∷ codes ";")
    ∷ codes " //"
    ∷ (9 ∷ codes "//")
    ∷ []

-- The loop that cuts an inline comment: at the first separator that occurs.
unfoldable pub cut_comment : List Text → Text → Text
cut_comment [] raw = raw
cut_comment (sep ∷ seps) raw = elim (index raw sep) [
  | some i ↦ trim_space (take i raw)
  | none ↦ cut_comment seps raw
]

-- A line that is blank or a comment.
unfoldable pub is_skipped : Text → Bool
is_skipped raw =
    is_empty raw
    || has_prefix raw (codes "#")
    || has_prefix raw (codes ";")
    || has_prefix raw (codes "//")

-- What one line of the file adds to the two lists of `LoadFrom`.
pub data Entry : Type 0 where
  skip : Entry
  name : Text → Entry
  suffix : Text → Entry

unfoldable pub parse_line : Text → Entry
parse_line line =
    let raw = trim_space line in
    let cut = cut_comment separators raw in
    if is_skipped raw
    then skip
    else if is_empty cut
    then skip
    else if has_prefix cut (codes "*.")
    then suffix (drop 2 cut)
    else name cut

-- The loop of `LoadFrom`, then `New`.
unfoldable pub load_loop : List Text → List Text → List Text → OverrideSet
load_loop exact wildcard [] = new exact wildcard
load_loop exact wildcard (line ∷ lines) = elim (parse_line line) [
  | skip ↦ load_loop exact wildcard lines
  | name t ↦ load_loop (exact ++ t ∷ []) wildcard lines
  | suffix t ↦ load_loop exact (wildcard ++ t ∷ []) lines
]

-- `LoadFrom`: `none` is the scanner's error.
unfoldable pub load_from : List Text → Bool → Option OverrideSet
load_from lines failed = if failed then none else some (load_loop [] [] lines)

-- The loop of `Match` over the suffixes.
unfoldable pub match_suffix : Text → List Text → Bool
match_suffix q [] = false
match_suffix q (s ∷ ss) = if has_suffix q (codes "." ++ s) then true else match_suffix q ss

-- `Match`
unfoldable pub matches : OverrideSet → Text → Bool
matches s qname =
    let q = normalize qname in
    if is_empty q
    then false
    else if elem Text-discrete q s.exact
    then true
    else match_suffix q s.wildcard
