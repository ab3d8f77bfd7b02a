-- ===== src/Tests/Loading.antt =====
-- internal/china/loader.go on four lines, and internal/cache/cache.go called four times.
use chn_resolver_go.Prelude.{
  ◌≡◌, refl, false, List, [], ◌∷◌, ◌++◌, Option, none, some, any, All, if◌then◌else◌, ℕ_discrete,
}
use chn_resolver_go.Prelude.Result.{ok, err}
use chn_resolver_go.Text.{
  Text, Text-discrete, codes, eq_text, trim_space, trim_left, has_prefix, index, take, is_space,
}
use chn_resolver_go.Text.Numbers.{split_all, split_last, digits_value, parse_uint, parse_canonical}
use chn_resolver_go.Net.{Addr, IsAddr, v4, covers, unmap}
use chn_resolver_go.Net.Parse.{
  octets, parse_v4, dispatch, parse_addr, prefix_of, parse_prefix, masked,
}
use chn_resolver_go.Overrides.{cut_comment, is_skipped}
use chn_resolver_go.China.{Index, build, index_contains}
use chn_resolver_go.China.Prefixes.{IsPlain}
use chn_resolver_go.China.Loader.{
  parse_prefix_line, bad_line, scan_lines, File, scan, load_from, load_file, load_files, load,
}
use chn_resolver_go.China.Loaded.{Loaded, load_from-Loaded}
use chn_resolver_go.Net.{Prefix}
use chn_resolver_go.China.Files.{Read, load-Read}
use chn_resolver_go.Cache.{Cache}
use chn_resolver_go.Cache.Invariant.{IsValid}
use chn_resolver_go.Cache.Refines.{view}
use chn_resolver_go.Cache.Trace.{Op, run, run_spec, run-view}
use chn_resolver_go.Cache.{Value}
use chn_resolver_go.Tests.Caching.{key, value, full, full-IsValid}

-- A comment, two prefixes with their host bits set, one of them before a comment, and a blank line.
abbrev lines : List Text
lines = codes "# cn" ∷ codes "1.0.1.9/24 # APNIC" ∷ codes " 1.0.2.1/23" ∷ [] ∷ []

abbrev file : File
file = (lines, false)

read_run :
    (scan_lines 0 [] lines
      ≡ ok (
          record { addr = v4 0x01000100; bits = 24 }
          ∷ record { addr = v4 0x01000200; bits = 23 }
          ∷ []))
    × (scan_lines 0 [] (lines ++ codes "1.0.0.0/33" ∷ []) ≡ err (bad_line 5 (codes "1.0.0.0/33")))
unfolding scan_lines parse_prefix_line cut_comment is_skipped trim_space trim_left is_space
    has_prefix index take parse_prefix prefix_of split_last parse_addr dispatch parse_v4 octets
    split_all digits_value parse_uint parse_canonical masked
read_run = (refl, refl)

load_from-Loaded_example : Loaded file (load_from file)
load_from-Loaded_example = load_from-Loaded file

abbrev pub open_file : Text → Option File
open_file path = if eq_text path (codes "cn.txt") then some file else none

abbrev pub index_of_file : Index
index_of_file =
    build
      (record { addr = v4 0x01000100; bits = 24 } ∷ record { addr = v4 0x01000200; bits = 23 } ∷ [])

pub loads : load open_file (codes "cn.txt" ∷ []) ≡ ok index_of_file
unfolding load load_files load_file scan scan_lines parse_prefix_line cut_comment is_skipped
    trim_space trim_left is_space has_prefix index take parse_prefix prefix_of split_last parse_addr
    dispatch parse_v4 octets split_all digits_value parse_uint parse_canonical masked Text-discrete
    ℕ_discrete
loads = refl

load-Read_example :
    (ps : List Prefix) × Read open_file (codes "cn.txt" ∷ []) ps
    × ((a : Addr)
        → All IsPlain ps
        → IsAddr a
        → index_contains index_of_file a ≡ some (any (λ p. covers p (unmap a)) ps))
load-Read_example = load-Read open_file (codes "cn.txt" ∷ []) loads

-- A new entry that pushes one out, a hit, a sweep, and a flush.
abbrev calls : List Op
calls = Op.write key value 60 (λ i. 5) ∷ Op.read key 6 ∷ Op.sweep 850 ∷ Op.flush ∷ []

run-view_example :
    (c' : Cache) × (vs : List (Option Value)) × (run calls full ≡ some (c', vs))
    × IsValid c'
    × ((view c', vs) ≡ run_spec calls (view full))
run-view_example = run-view calls full full-IsValid
