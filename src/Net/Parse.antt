-- ===== src/Net/Parse.antt =====
-- `ParseAddr`, `ParsePrefix`, `Masked` and `ParseAddrPort` of Go's `net/netip`. The zone of an IPv6
-- address stands beside it, empty for none.
use chn_resolver_go.Prelude.{
  ℕ, zero, suc, ◌+◌, ◌-◌, ◌*◌, ◌/◌, ◌%◌, ◌^◌, Bool, true, false, not, ◌&&◌, ◌||◌, List, [], ◌∷◌,
  ◌++◌, Option, none, some, ltb, leb, ◌==◌, if◌then◌else◌, is_empty, length,
}
use chn_resolver_go.Text.{Text}
use chn_resolver_go.Text.Numbers.{
  is_digit, span, split_first, split_last, split_all, parse_uint, parse_canonical,
}
use chn_resolver_go.Net.{Addr, v4, v6, is4, bit_len, Prefix}

-- `parseIPv4Fields`: four decimal fields.
unfoldable pub octets : ℕ → ℕ → List Text → Option ℕ
octets zero acc [] = some acc
octets zero acc (f ∷ fs) = none
octets (suc k) acc [] = none
octets (suc k) acc (f ∷ fs) = elim (parse_canonical 255 f) [
  | none ↦ none
  | some n ↦ octets k (acc * 256 + n) fs
]

unfoldable pub parse_v4 : Text → Option ℕ
parse_v4 s = let (field, fields) = split_all b'.' s in octets 4 0 (field ∷ fields)

abbrev pub is_hex : ℕ → Bool
is_hex c = is_digit c || (leb b'a' c && leb c b'f') || (leb b'A' c && leb c b'F')

abbrev pub hex_value : ℕ → ℕ
hex_value c = if is_digit c then c - b'0' else if leb b'a' c then c - b'a' + 10 else c - b'A' + 10

unfoldable pub hex_number : ℕ → Text → ℕ
hex_number acc [] = acc
hex_number acc (c ∷ s) = hex_number (acc * 16 + hex_value c) s

unfoldable pub group_value : ℕ → List ℕ → ℕ
group_value acc [] = acc
group_value acc (g ∷ gs) = group_value (acc * 2 ^ 16 + g) gs

-- The groups before an ellipsis, `none` when there is none, and the groups after it.
abbrev pub Groups : Type 0
Groups = Option (List ℕ) × List ℕ

-- What stands after a group: a dot, the end, a colon, an ellipsis, or something else.
pub data After : Type 0 where
  dot stop bad : After
  more ellipsis : Text → After

abbrev pub after_colon : Text → After
after_colon [] = bad
after_colon (c ∷ s) = if c == b':' then ellipsis s else more (c ∷ s)

abbrev pub after_group : Text → After
after_group [] = stop
after_group (c ∷ s) = if c == b'.' then dot else if c == b':' then after_colon s else bad

-- The trailing IPv4 address, in place of two of the `k` groups that are left.
unfoldable pub trailing_v4 : ℕ → Option (List ℕ) → List ℕ → Text → Option Groups
trailing_v4 k front groups s =
    if ltb k 2 || (elim front [ none ↦ not (k == 2) | some _ ↦ false ])
    then none
    else elim (parse_v4 s) [
      | none ↦ none
      | some n ↦ some (front, groups ++ n / 2 ^ 16 ∷ n % 2 ^ 16 ∷ [])
    ]

-- The loop of `parseIPv6`, with `k` groups left.
unfoldable pub read_groups : ℕ → Option (List ℕ) → List ℕ → Text → Option Groups
read_groups zero front groups s = if is_empty s then some (front, groups) else none
read_groups (suc k) front groups s =
    let (digits, rest) = span is_hex s in
    let groups' : List ℕ = groups ++ hex_number 0 digits ∷ [] in
    elim (is_empty digits || ltb 4 (length digits)) [
      | true ↦ none
      | false ↦ elim (after_group rest) [
        | dot ↦ trailing_v4 (suc k) front groups s
        | stop ↦ some (front, groups')
        | bad ↦ none
        | more t ↦ read_groups k front groups' t
        | ellipsis t ↦ elim front [
          | some _ ↦ none
          | none ↦ elim (is_empty t) [
            | true ↦ some (some groups', [])
            | false ↦ read_groups k (some groups') [] t
          ]
        ]
      ]
    ]

unfoldable pub zeros : ℕ → List ℕ
zeros zero = []
zeros (suc k) = 0 ∷ zeros k

-- The end of `parseIPv6`: an ellipsis stands for one group at least.
unfoldable pub expand : Groups → Option ℕ
expand (none, groups) = if length groups == 8 then some (group_value 0 groups) else none
expand (some front, back) =
    let read : ℕ = length front + length back in
    if ltb read 8 then some (group_value 0 (front ++ zeros (8 - read) ++ back)) else none

-- `parseIPv6` after the zone is split off.
unfoldable pub parse_groups : Text → Option Groups
parse_groups [] = read_groups 8 none [] []
parse_groups (c ∷ []) = read_groups 8 none [] (c ∷ [])
parse_groups (c ∷ d ∷ s) =
    if c == b':' && d == b':'
    then if is_empty s then some (some [], []) else read_groups 8 (some []) [] s
    else read_groups 8 none [] (c ∷ d ∷ s)

abbrev pub with_zone : Text → Option Groups → Option (Addr × Text)
with_zone zone none = none
with_zone zone (some groups) = elim (expand groups) [ none ↦ none | some n ↦ some (v6 n, zone) ]

unfoldable pub parse_v6 : Text → Option (Addr × Text)
parse_v6 s = elim (split_first b'%' s) [
  | none ↦ with_zone [] (parse_groups s)
  | some (front, zone) ↦ if is_empty zone then none else with_zone zone (parse_groups front)
]

-- The loop of `ParseAddr` over the characters of `s`; what is found first decides.
unfoldable pub dispatch : Text → Text → Option (Addr × Text)
dispatch s [] = none
dispatch s (c ∷ cs) =
    let rest = dispatch s cs in
    if c == b'.'
    then (elim (parse_v4 s) [ none ↦ none | some n ↦ some (v4 n, []) ])
    else if c == b':'
    then parse_v6 s
    else if c == b'%'
    then none
    else rest

-- `ParseAddr`
unfoldable pub parse_addr : Text → Option (Addr × Text)
parse_addr s = dispatch s s

-- The end of `ParsePrefix`, after the address: no zone, and the bits fit its family.
unfoldable pub prefix_of : Text → Option (Addr × Text) → Option Prefix
prefix_of bits none = none
prefix_of bits (some (a, zone)) =
    if not (is_empty zone) then none else elim (parse_canonical (bit_len a) bits) [
      | none ↦ none
      | some n ↦ some (record { addr = a; bits = n })
    ]

-- `ParsePrefix`
unfoldable pub parse_prefix : Text → Option Prefix
parse_prefix s = elim (split_last b'/' s) [
  | none ↦ none
  | some (ip, bits) ↦ prefix_of bits (parse_addr ip)
]

abbrev pub clear_low : ℕ → ℕ → ℕ
clear_low host n = n / 2 ^ host * 2 ^ host

-- `p.Masked()`, which clears the host bits.
unfoldable pub masked : Prefix → Prefix
masked p = record {
  addr = elim p.addr [
    | v4 n ↦ v4 (clear_low (32 - p.bits) n)
    | v6 n ↦ v6 (clear_low (128 - p.bits) n)
  ];
  bits = p.bits;
}

-- The address within the brackets of `[a]:p`, or the address of `a:p`, and whether it had brackets.
unfoldable pub unbracket : Text → Option (Text × Bool)
unbracket [] = none
unbracket (c ∷ s) =
    if c == b'['
    then (elim (split_last b']' s) [
      | none ↦ none
      | some (ip, rest) ↦ if is_empty rest then some (ip, true) else none
    ])
    else some (c ∷ s, false)

-- `ParseAddrPort`, as far as to whether it succeeds.
unfoldable pub is_addr_port : Text → Bool
is_addr_port s = elim (split_last b':' s) [
  | none ↦ false
  | some (host, port) ↦ elim (unbracket host) [
    | none ↦ false
    | some (ip, bracketed) ↦ elim (parse_uint port) [
      | none ↦ false
      | some n ↦ elim (parse_addr ip) [
        | none ↦ false
        | some (a, zone) ↦ ltb n (2 ^ 16) && (if is4 a then not bracketed else bracketed)
      ]
    ]
  ]
]
