-- ===== src/China/Files.antt =====
-- `Load` of internal/china/loader.go over the prefix files.
use chn_resolver_go.Prelude.{
  ℕ, ◌-◌, ◌≡◌, refl, ap, sym, ◌∙◌, Bool, true, false, List, [], ◌∷◌, ◌++◌, Option, none, some, ◌==◌,
  is_empty, length, any, All, All-append, All-split, arith, append_assoc, append-nil,
}
use chn_resolver_go.Prelude.Result.{
  Result, ok, err, ◌>>=◌, ◌>>◌, fail_if, or_fail, >>=-eq-ok, fail_if-eq-ok, or_fail-eq-ok, ok_inj,
}
use chn_resolver_go.Text.{Text}
use chn_resolver_go.Net.{Addr, IsAddr, Prefix, covers, unmap}
use chn_resolver_go.China.{Index, build, index_contains}
use chn_resolver_go.China.Prefixes.{IsPlain}
use chn_resolver_go.China.Lookup.{IsUsable, index_contains-build}
use chn_resolver_go.China.Loader.{
  Error, scan_failed, no_file, no_prefixes, scan_lines, File, scan, load_file, load_files, load,
}
use chn_resolver_go.China.Lines.{Holds}
use chn_resolver_go.China.Scanned.{
  prefixes_of, is_good, Scanned, scan_lines-Scanned, prefixes_of-IsUsable, is_good-Holds,
}

-- A file whose scanner ends well, whose lines all parse, and which has a prefix.
pub record IsSound (file : File) : Type 0 where
  pub read_whole : file.1 ≡ false
  pub all_good : All (λ l. is_good l ≡ true) file.0
  pub some_prefix : is_empty (prefixes_of file.0) ≡ false

scan-ok :
    (all : List Prefix) (lines : List Text) (failed : Bool) (r : Result Error (List Prefix))
    {out : List Prefix}
    → Scanned 0 all lines r
    → (r >>= (λ all'. fail_if failed scan_failed >> ok all')) ≡ ok out
    → (out ≡ all ++ prefixes_of lines) × (failed ≡ false) × All (λ l. is_good l ≡ true) lines
scan-ok all lines failed (err e) s h = cc
scan-ok all lines true (ok r) s h = cc
scan-ok all lines false (ok r) (same, good) h = (ok_inj h refl ∙ same, refl, good)

counted :
    (all ps all' : List Prefix)
    → all' ≡ all ++ ps
    → ((length all' - length all) == 0) ≡ false
    → is_empty ps ≡ false
counted all [] all' same grown =
    let none_new : length all' ≡ length all = ap length (same ∙ append-nil all) in
    ground (arith, none_new, grown)
counted all (p ∷ ps) all' same grown = refl

-- The prefixes of what opens, before others.
abbrev with_file : Option File → List Prefix → List Prefix
with_file none rest = rest
with_file (some file) rest = prefixes_of file.0 ++ rest

module _ (open_file : Text → Option File) where
  -- The prefixes of the files, in the order of the paths.
  unfoldable pub all_prefixes : List Text → List Prefix
  all_prefixes [] = []
  all_prefixes (path ∷ paths) = with_file (open_file path) (all_prefixes paths)

  abbrev pub HasOpened : Text → Type 0
  HasOpened path = (file : File) × (open_file path ≡ some file) × IsSound file

  load_file-HasOpened :
      (path : Text) (all : List Prefix) {read : List Prefix × ℕ}
      → load_file open_file path all ≡ ok read
      → (read.1 == 0) ≡ false
      → (file : File) × (open_file path ≡ some file)
        × IsSound file
        × (read.0 ≡ all ++ prefixes_of file.0)
  unfolding load_file scan
  load_file-HasOpened path all h some_new =
      let (file, opened, next) = >>=-eq-ok _ (or_fail (open_file path) (no_file path)) h in
      let (all', scanned, last) = >>=-eq-ok _ (scan all file) next in
      let (same, whole, good) =
        scan-ok all file.0 file.1 (scan_lines 0 all file.0) (scan_lines-Scanned 0 all file.0)
          scanned in
      let pair = ok_inj refl last in
      let grown = ap (λ r. (r.1 == 0)) pair ∙ some_new in
      (
        file,
        or_fail-eq-ok (open_file path) (no_file path) opened,
        record {
          read_whole = whole;
          all_good = good;
          some_prefix = counted all (prefixes_of file.0) all' same grown;
        },
        sym (ap (λ r. r.0) pair) ∙ same,
      )

  load_files-HasOpened :
      (all : List Prefix) (paths : List Text) {out : List Prefix}
      → load_files open_file all paths ≡ ok out
      → (out ≡ all ++ all_prefixes paths) × All HasOpened paths
  unfolding load_files all_prefixes
  load_files-HasOpened all [] h = (ok_inj h refl ∙ sym (append-nil all), tt)
  load_files-HasOpened all (path ∷ paths) h =
      let (read, loaded, next) = >>=-eq-ok _ (load_file open_file path all) h in
      let (some_new, last) = fail_if-eq-ok (read.1 == 0) (no_prefixes path) _ next in
      let (file, opened, sound, same) = load_file-HasOpened path all loaded some_new in
      let (rest, others) = load_files-HasOpened read.0 paths last in
      (
        rest
            ∙ ap (λ ps. ps ++ all_prefixes paths) same
            ∙ append_assoc all (prefixes_of file.0) (all_prefixes paths)
            ∙ ap (λ found. all ++ with_file found (all_prefixes paths)) (sym opened),
        ((file, opened, sound), others),
      )

  with_file-IsUsable :
      (found : Option File) (rest : List Prefix)
      → (All IsPlain rest → All IsUsable rest)
      → All IsPlain (with_file found rest)
      → All IsUsable (with_file found rest)
  with_file-IsUsable none rest ih h = ih h
  with_file-IsUsable (some file) rest ih h =
      let (first, later) = All-split IsPlain (prefixes_of file.0) rest h in
      All-append IsUsable (prefixes_of file.0) rest (prefixes_of-IsUsable file.0 first) (ih later)

  all_prefixes-IsUsable :
      (paths : List Text) → All IsPlain (all_prefixes paths) → All IsUsable (all_prefixes paths)
  unfolding all_prefixes
  all_prefixes-IsUsable [] h = tt
  all_prefixes-IsUsable (path ∷ paths) h =
      with_file-IsUsable (open_file path) (all_prefixes paths) (all_prefixes-IsUsable paths) h

  -- The files of the paths, with all the prefixes that they hold.
  pub data Read : List Text → List Prefix → Type 0 where
    nil : Read [] []
    next :
        {path : Text} {paths : List Text} {lines : List Text} {ps rest : List Prefix}
        → open_file path ≡ some (lines, false)
        → Holds lines ps
        → is_empty ps ≡ false
        → Read paths rest
        → Read (path ∷ paths) (ps ++ rest)

  HasOpened-Read : (paths : List Text) → All HasOpened paths → Read paths (all_prefixes paths)
  unfolding all_prefixes
  HasOpened-Read [] h = Read.nil
  HasOpened-Read (path ∷ paths) ((file, opened, sound), others) =
      rw (opened, all_prefixes)
        (Read.next (opened ∙ ap (λ b. some (file.0, b)) sound.read_whole)
          (is_good-Holds file.0 sound.all_good) sound.some_prefix (HasOpened-Read paths others))

  -- When `Load` succeeds, every file opens and its scanner ends well, each of its lines is blank, a comment or
  -- a prefix, perhaps with a comment behind it, and it has a prefix at least; and the index contains an
  -- address within its family's bound exactly when a prefix of a file covers it, with its host bits
  -- cleared, if the last address of no IPv6 prefix is IPv4-mapped.
  pub load-Read :
      (paths : List Text) {ix : Index}
      → load open_file paths ≡ ok ix
      → (ps : List Prefix) × Read paths ps
        × ((a : Addr)
            → All IsPlain ps
            → IsAddr a
            → index_contains ix a ≡ some (any (λ p. covers p (unmap a)) ps))
  unfolding load
  load-Read paths h =
      let (all, loaded, last) = >>=-eq-ok _ (load_files open_file [] paths) h in
      let (same, files) = load_files-HasOpened [] paths loaded in
      (
        all_prefixes paths,
        HasOpened-Read paths files,
        λ a plain valid.
            ap (λ ix'. index_contains ix' a) (sym (ok_inj refl last) ∙ ap build same)
            ∙ index_contains-build (all_prefixes paths) a (all_prefixes-IsUsable paths plain) valid,
      )
