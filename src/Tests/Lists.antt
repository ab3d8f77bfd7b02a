-- ===== src/Tests/Lists.antt =====
-- internal/china/index.go on a few prefixes, and internal/overrides/overrides.go on three lines.
use chn_resolver_go.Prelude.{
  ℕ, ◌+◌, ◌^◌, ◌*◌, ◌-◌, ◌%◌, suc, ◌<◌, ◌≡◌, ◌≢◌, refl, arith, true, false, not, ◌&&◌, List, [],
  ◌∷◌, some, any, All, is_empty,
}
use chn_resolver_go.Net.{v4, v6, Prefix, unmap, covers, before, same, bytes, value, as16, from16}
use chn_resolver_go.Text.{
  Text, codes, Text-discrete, trim_space, trim_left, trim_suffix, has_prefix, has_suffix, is_space,
  index, take, drop, lower, to_lower,
}
use chn_resolver_go.China.{
  Span, merge, build, counts, contains, index_contains, next_addr, sort_search, search_between,
  build_loop, merge_sorted, sort_spans, insert_span, merge_loop, touches, absorb, last_addr,
  fill_host, carry,
}
use chn_resolver_go.China.Rank.{IsSpan}
use chn_resolver_go.China.Prefixes.{IsPlain}
use chn_resolver_go.China.Lookup.{IsUsable, index_contains-build}
use chn_resolver_go.Overrides.{
  OverrideSet, normalize, parse_line, load_from, load_loop, cut_comment, is_skipped, new_loop,
  add_wildcards, matches, new,
}
use chn_resolver_go.Overrides.Entries.{fits, matches-load_from}

-- 1.0.1.0/24, 1.0.2.0/23, and 2001:db8::/32.
abbrev pub prefixes : List Prefix
prefixes =
    record { addr = v4 0x01000200; bits = 23 }
    ∷ record { addr = v4 0x01000100; bits = 24 }
    ∷ record { addr = v6 (0x20010db8 * 2 ^ 96); bits = 32 }
    ∷ []

plain6 : IsPlain (record { addr = v6 (0x20010db8 * 2 ^ 96); bits = 32 })
unfolding unmap
plain6 = refl

pub prefixes-IsUsable : All IsUsable prefixes
prefixes-IsUsable =
    let usable4 : (n bits : ℕ)
        → n < 2 ^ 32
        → bits < 33
        → n % 2 ^ (32 - bits) ≡ 0
        → IsUsable (record { addr = v4 n; bits = bits }) =
      λ n bits h k m. record {
        masked = record { valid = h; fits = omega (arith, k); masked = m };
        plain = tt;
      } in
    (
      usable4 0x01000200 23 (omega arith) (omega arith) refl,
      (
        usable4 0x01000100 24 (omega arith) (omega arith) refl,
        (
          record {
            masked = record { valid = omega arith; fits = omega arith; masked = refl };
            plain = plain6;
          },
          tt,
        ),
      ),
    )

-- The two IPv4 prefixes are next to one another, and become one span.
counts_run : counts (build prefixes) ≡ (1, 1)
unfolding index_contains contains sort_search search_between counts build build_loop merge
    merge_sorted sort_spans insert_span merge_loop touches absorb last_addr fill_host next_addr
    carry before same unmap bytes value as16 from16
counts_run = refl

contains_run : index_contains (build prefixes) (v6 (0xffff * 2 ^ 32 + 0x010003ff)) ≡ some true
unfolding index_contains contains sort_search search_between counts build build_loop merge
    merge_sorted sort_spans insert_span merge_loop touches absorb last_addr fill_host next_addr
    carry before same unmap bytes value as16 from16
contains_run = refl

index_contains-build_example :
    index_contains (build prefixes) (v4 0x010003ff)
    ≡ some (any (λ p. covers p (unmap (v4 0x010003ff))) prefixes)
index_contains-build_example =
    index_contains-build prefixes (v4 0x010003ff) prefixes-IsUsable (omega arith)

-- ::5/128, ::ffff:1.2.3.0/120 and 2001::/16: the last address of the second becomes 1.2.3.255, which
-- is before every IPv6 address, and the search loses ::5.
abbrev mapped_prefixes : List Prefix
mapped_prefixes =
    record { addr = v6 5; bits = 128 }
    ∷ record { addr = v6 (0xffff * 2 ^ 32 + 0x01020300); bits = 120 }
    ∷ record { addr = v6 (0x2001 * 2 ^ 112); bits = 16 }
    ∷ []

contains_mapped_run : index_contains (build mapped_prefixes) (v6 5) ≡ some false
unfolding index_contains contains sort_search search_between counts build build_loop merge
    merge_sorted sort_spans insert_span merge_loop touches absorb last_addr fill_host next_addr
    carry before same unmap bytes value as16 from16
contains_mapped_run = refl

-- The address behind the last one is the first of IPv6.
next_addr_run : next_addr (v6 (2 ^ 128 - 1)) ≡ v6 0
unfolding next_addr carry as16 bytes from16 value unmap
next_addr_run = refl

abbrev spans : List Span
spans = record { lo = v4 30; hi = v4 40 } ∷ record { lo = v4 10; hi = v4 29 } ∷ []

v4_range :
    (a b : ℕ) → a < 2 ^ 32 → b < 2 ^ 32 → a < suc b → IsSpan true (record { lo = v4 a; hi = v4 b })
v4_range a b h k o = record {
  lo_family = refl;
  hi_family = refl;
  lo_valid = h;
  hi_valid = k;
  ordered = ground (arith, o);
}

abbrev ascending : List Span
ascending = record { lo = v4 10; hi = v4 19 } ∷ record { lo = v4 30; hi = v4 40 } ∷ []

abbrev lines : List Text
lines = codes "# names" ∷ codes " Example.org. # one" ∷ codes "*.cdn.net" ∷ []

abbrev loaded : OverrideSet
loaded = record { exact = codes "example.org" ∷ []; wildcard = codes "cdn.net" ∷ [] }

load_from_run : load_from lines false ≡ some loaded
unfolding load_from load_loop parse_line cut_comment is_skipped new new_loop add_wildcards normalize
    trim_space trim_left trim_suffix has_prefix has_suffix is_space index take drop lower to_lower
    Text-discrete
load_from_run = refl

matches-load_from_example : matches loaded (codes "a.CDN.net.") ≡ (
    not (is_empty (normalize (codes "a.CDN.net.")))
    && any (λ line. fits (normalize (codes "a.CDN.net.")) (parse_line line)) lines)
matches-load_from_example = matches-load_from lines loaded (codes "a.CDN.net.") load_from_run

normalize_run : normalize (codes "CDN.net.") ≡ codes "cdn.net"
unfolding normalize trim_space trim_left is_space trim_suffix has_suffix drop has_prefix to_lower
    lower
normalize_run = refl

normalize_suffix : normalize (codes "cdn.net") ≡ codes "cdn.net"
unfolding normalize trim_space trim_left is_space trim_suffix has_suffix drop has_prefix to_lower
    lower
normalize_suffix = refl

not_root : normalize (codes "cdn.net") ≢ []
not_root e = cc (e, normalize_suffix)
