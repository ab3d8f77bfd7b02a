-- ===== src/China/Loader.antt =====
-- internal/china/loader.go: prefix files. A file is the lines of its scanner and whether that ended with
-- an error; an error message is a value with what it prints.
use chn_resolver_go.Prelude.{
  ℕ, suc, ◌-◌, Bool, List, [], ◌∷◌, ◌++◌, Option, none, some, ◌==◌, if◌then◌else◌, is_empty, length,
}
use chn_resolver_go.Prelude.Result.{Result, ok, err, ◌>>=◌, ◌>>◌, fail_if, or_fail}
use chn_resolver_go.Text.{Text, trim_space}
use chn_resolver_go.Net.{Prefix}
use chn_resolver_go.Net.Parse.{parse_prefix, masked}
use chn_resolver_go.Overrides.{separators, cut_comment, is_skipped}
use chn_resolver_go.China.{Index, build}

-- What a line is: nothing, a prefix, or a text that is no prefix.
pub data Line : Type 0 where
  skip : Line
  prefix : Prefix → Line
  bad : Text → Line

abbrev pub prefix_line : Text → Line
prefix_line line = elim (parse_prefix line) [ none ↦ bad line | some p ↦ prefix (masked p) ]

-- `ParsePrefixLine`, which cuts comments as internal/overrides/overrides.go does.
unfoldable pub parse_prefix_line : Text → Line
parse_prefix_line raw =
    let line = trim_space raw in
    let cut = cut_comment separators line in
    if is_skipped line then skip else if is_empty cut then skip else prefix_line cut

pub data Error : Type 0 where
  scan_failed : Error
  bad_line : ℕ → Text → Error
  no_file no_prefixes : Text → Error

-- The loop over the lines, with the number of the last line and the prefixes so far.
unfoldable pub scan_lines : ℕ → List Prefix → List Text → Result Error (List Prefix)
scan_lines line all [] = ok all
scan_lines line all (raw ∷ lines) = elim (parse_prefix_line raw) [
  | skip ↦ scan_lines (suc line) all lines
  | prefix p ↦ scan_lines (suc line) (all ++ p ∷ []) lines
  | bad text ↦ err (bad_line (suc line) text)
]

abbrev pub File : Type 0
File = List Text × Bool

unfoldable pub scan : List Prefix → File → Result Error (List Prefix)
scan all (lines, failed) = do all ← scan_lines 0 all lines; fail_if failed scan_failed; ok all

-- `LoadFrom`
unfoldable pub load_from : File → Result Error Index
load_from file = do all ← scan [] file; ok (build all)

-- `loadFile`: the prefixes after those so far, and how many are new.
unfoldable pub load_file :
    (Text → Option File) → Text → List Prefix → Result Error (List Prefix × ℕ)
load_file open_file path all = do
  file ← or_fail (open_file path) (no_file path)
  all' ← scan all file
  ok (all', length all' - length all)

-- The loop of `Load`.
unfoldable pub load_files :
    (Text → Option File) → List Prefix → List Text → Result Error (List Prefix)
load_files open_file all [] = ok all
load_files open_file all (path ∷ paths) = do
  read ← load_file open_file path all
  fail_if (read.1 == 0) (no_prefixes path)
  load_files open_file read.0 paths

-- `Load`
unfoldable pub load : (Text → Option File) → List Text → Result Error Index
load open_file paths = do all ← load_files open_file [] paths; ok (build all)
