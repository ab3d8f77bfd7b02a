-- ===== src/China/Loaded.antt =====
-- What internal/china/loader.go makes of a prefix file.
use chn_resolver_go.Prelude.{
  ◌⊎◌, ◌+◌, ◌≡◌, refl, ap, subst, ◌∙◌, Bool, true, false, List, [], ◌∷◌, ◌++◌, some, length, any,
  All, arith, inl, inr,
}
use chn_resolver_go.Prelude.Result.{Result, ok, err, ◌>>=◌, ◌>>◌, fail_if}
use chn_resolver_go.Text.{Text}
use chn_resolver_go.Net.{Addr, IsAddr, Prefix, covers, unmap}
use chn_resolver_go.China.{Index, build, index_contains}
use chn_resolver_go.China.Lookup.{index_contains-build}
use chn_resolver_go.China.Prefixes.{IsPlain}
use chn_resolver_go.China.Lines.{Means, Holds, parse_prefix_line-Means}
use chn_resolver_go.China.Scanned.{
  prefixes_of, FirstBad, Scanned, scan_lines-Scanned, prefixes_of-IsUsable, is_good-Holds,
}
use chn_resolver_go.China.Loader.{
  bad, Error, bad_line, scan_failed, scan_lines, File, scan, load_from,
}

-- The first line that is malformed, by its number and its text behind no comment.
pub record FirstMalformed (lines : List Text) (e : Error) : Type 0 where
  pub before : List Text
  pub line : Text
  pub after : List Text
  pub text : Text
  pub prefixes : List Prefix
  pub parts : lines ≡ before ++ line ∷ after
  pub good_before : Holds before prefixes
  pub malformed : Means line (bad text)
  pub reported : e ≡ bad_line (length before + 1) text

FirstBad-FirstMalformed :
    (lines : List Text) (e : Error) → FirstBad 0 lines e → FirstMalformed lines e
FirstBad-FirstMalformed lines e f = record {
  before = f.before;
  line = f.line;
  after = f.after;
  text = f.text;
  prefixes = prefixes_of f.before;
  parts = f.parts;
  good_before = is_good-Holds f.before f.good_before;
  malformed = subst (Means f.line) f.bad_text (parse_prefix_line-Means f.line);
  reported = f.reported ∙ ap (λ k. bad_line k f.text) (omega arith);
}

-- What `LoadFrom` returns: an index that contains what a prefix of a line covers, or an error.
abbrev pub Loaded : File → Result Error Index → Type 0
Loaded (lines, failed) (ok ix) =
    (failed ≡ false)
    × (ps : List Prefix) × Holds lines ps
    × ((a : Addr)
        → All IsPlain ps
        → IsAddr a
        → index_contains ix a ≡ some (any (λ p. covers p (unmap a)) ps))
Loaded (lines, failed) (err e) =
    FirstMalformed lines e
    ⊎ ((failed ≡ true) × ((ps : List Prefix) × Holds lines ps) × (e ≡ scan_failed))

-- The end of `LoadFrom`, after the lines.
finish-Loaded :
    (lines : List Text) (failed : Bool) (r : Result Error (List Prefix))
    → Scanned 0 [] lines r
    → Loaded
        (lines, failed)
        (r >>= (λ all. fail_if failed scan_failed >> ok all) >>= λ all. ok (build all))
finish-Loaded lines failed (err e) s = inl (FirstBad-FirstMalformed lines e s)
finish-Loaded lines true (ok out) (same, good) =
    inr (refl, (prefixes_of lines, is_good-Holds lines good), refl)
finish-Loaded lines false (ok out) (same, good) = (
  refl,
  prefixes_of lines,
  is_good-Holds lines good,
  λ a plain valid.
      ap (λ ps. index_contains (build ps) a) same
      ∙ index_contains-build (prefixes_of lines) a (prefixes_of-IsUsable lines plain) valid,
)

-- When `LoadFrom` succeeds, the scanner ended well and every line, without the blanks around it, is empty,
-- begins with a mark of a comment, or is a prefix, perhaps with a comment behind it; the index then
-- contains an address within its family's bound exactly when one of these prefixes covers it, with their
-- host bits cleared, if the last address of no IPv6 prefix is IPv4-mapped. When it fails, either the
-- error has the number and the text of the first line that is none of these, or there is no such line
-- and it is that of the scanner.
pub load_from-Loaded : (file : File) → Loaded file (load_from file)
unfolding load_from scan
load_from-Loaded (lines, failed) =
    finish-Loaded lines failed (scan_lines 0 [] lines) (scan_lines-Scanned 0 [] lines)
