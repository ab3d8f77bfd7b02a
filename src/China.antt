-- ===== src/China.antt =====
-- internal/china/index.go: prefixes as disjoint spans of addresses, looked up by binary search.
pub mod Bits
pub mod Rank
pub mod Merge
pub mod Search
pub mod Prefixes
pub mod Lookup
pub mod Loader
pub mod Lines
pub mod Scanned
pub mod Loaded
pub mod Files
use Prim.Native.Nat.{bit_or}
use mathlib.Core.Option
use chn_resolver_go.Prelude.{
  ℕ, zero, suc, ◌+◌, ◌-◌, ◌/◌, ◌%◌, ◌^◌, Bool, true, false, not, ◌||◌, List, [], ◌∷◌, ◌++◌, Option,
  none, some, ltb, leb, ◌==◌, if◌then◌else◌, length, get_elem?,
}
use chn_resolver_go.Net.{Addr, is4, bit_len, before, same, unmap, as16, from16, Prefix}

pub record Span : Type 0 where
  pub lo : Addr
  pub hi : Addr

pub record Index : Type 0 where
  pub v4_spans : List Span
  pub v6_spans : List Span
  pub v4_input : ℕ
  pub v6_input : ℕ

-- The loop of `lastAddr`, from the last byte on. `hostBits` that falls below 0 ends it as 0 does.
unfoldable pub fill_host : ℕ → List ℕ → List ℕ
fill_host host_bits [] = []
fill_host host_bits (b ∷ bs) =
    let bits : ℕ = if ltb 8 host_bits then 8 else host_bits in
    let rest = fill_host (host_bits - 8) bs in
    if ltb 0 host_bits then bit_or b (0xff / 2 ^ (8 - bits)) ∷ rest else b ∷ bs

-- `lastAddr`
unfoldable pub last_addr : Prefix → Addr
last_addr p =
    if p.bits == bit_len p.addr
    then p.addr
    else from16 (fill_host (bit_len p.addr - p.bits) (as16 p.addr))

-- The loop of `nextAddr`: add one, with the carry.
unfoldable pub carry : List ℕ → List ℕ
carry [] = []
carry (b ∷ bs) =
    let b' = (b + 1) % 256 in let rest = carry bs in if not (b' == 0) then b' ∷ bs else b' ∷ rest

-- `nextAddr`
unfoldable pub next_addr : Addr → Addr
next_addr a = from16 (carry (as16 a))

-- `sort.Slice` by the lower ends.
unfoldable pub insert_span : Span → List Span → List Span
insert_span s [] = s ∷ []
insert_span s (t ∷ ts) = if before t.lo s.lo then t ∷ insert_span s ts else s ∷ t ∷ ts

unfoldable pub sort_spans : List Span → List Span
sort_spans [] = []
sort_spans (s ∷ ss) = insert_span s (sort_spans ss)

-- The test of the loop of `merge`: the span overlaps the current one, or is next to it.
unfoldable pub touches : Span → Span → Bool
touches cur s = not (before cur.hi s.lo) || same (next_addr cur.hi) s.lo

-- The current span takes in one that touches it.
unfoldable pub absorb : Span → Span → Span
absorb cur s = if before cur.hi s.hi then record cur { hi = s.hi } else cur

-- The loop of `merge`. It writes its output over the part of the slice that it has read.
unfoldable pub merge_loop : Span → List Span → List Span
merge_loop cur [] = cur ∷ []
merge_loop cur (s ∷ rest) = elim (touches cur s) [
  | true ↦ merge_loop (absorb cur s) rest
  | false ↦ cur ∷ merge_loop s rest
]

-- `merge`, after the sort.
unfoldable pub merge_sorted : List Span → List Span
merge_sorted [] = []
merge_sorted (cur ∷ rest) = merge_loop cur rest

unfoldable pub merge : List Span → List Span
merge spans = if leb (length spans) 1 then spans else merge_sorted (sort_spans spans)

-- `Build`
unfoldable pub build_loop : List Span → List Span → ℕ → ℕ → List Prefix → Index
build_loop v4 v6 v4n v6n [] = record {
  v4_spans = merge v4;
  v6_spans = merge v6;
  v4_input = v4n;
  v6_input = v6n;
}
build_loop v4 v6 v4n v6n (p ∷ ps) =
    let s : Span = record { lo = p.addr; hi = last_addr p } in
    let fst = build_loop (v4 ++ s ∷ []) v6 (v4n + 1) v6n ps in
    let snd = build_loop v4 (v6 ++ s ∷ []) v4n (v6n + 1) ps in if is4 p.addr then fst else snd

unfoldable pub build : List Prefix → Index
build = build_loop [] [] 0 0

-- `Counts`
unfoldable pub counts : Index → ℕ × ℕ
counts ix = (length ix.v4_spans, length ix.v6_spans)

-- `sort.Search` between `i` and `j`, with a test that may panic (`none`). Fuel `j - i` is enough.
unfoldable pub search_between : ℕ → ℕ → ℕ → (ℕ → Option Bool) → Option ℕ
search_between zero i j f = some i
search_between (suc k) i j f = elim (ltb i j) [
  | true ↦ elim (f ((i + j) / 2)) [
    | none ↦ none
    | some b ↦ elim b [
      | true ↦ search_between k i ((i + j) / 2) f
      | false ↦ search_between k ((i + j) / 2 + 1) j f
    ]
  ]
  | false ↦ some i
]

unfoldable pub sort_search : ℕ → (ℕ → Option Bool) → Option ℕ
sort_search n f = search_between n 0 n f

-- `contains`: `none` is an index out of range.
unfoldable pub contains : List Span → Addr → Option Bool
contains spans ip =
    elim (sort_search (length spans)
      (λ i. Option.map (λ (s : Span). not (before s.hi ip)) (get_elem? spans i))) [
        | none ↦ none
        | some i ↦
            if i == length spans
            then some false
            else Option.map (λ (s : Span). not (before ip s.lo)) (get_elem? spans i)
      ]

-- `Contains`
unfoldable pub index_contains : Index → Addr → Option Bool
index_contains ix ip =
    let ip = unmap ip in if is4 ip then contains ix.v4_spans ip else contains ix.v6_spans ip
