-- ===== src/Net/Bounds.antt =====
-- The addresses and prefixes that `net/netip` parses, against the bounds of their families.
use native.Mathlib.Nat.{div-mul-le_self, mul-mod_left}
use chn_resolver_go.Prelude.{
  All-append, ℕ, ◌+◌, ◌-◌, ◌*◌, ◌/◌, ◌^◌, ◌<◌, ◌≤◌, ◌≡◌, subst, List, [], ◌∷◌, ◌++◌, Option, none,
  some, ltb, ◌==◌, length, length-append, arith, Bool-cases, Option-cases, inl, inr,
}
use chn_resolver_go.Text.{Text}
use chn_resolver_go.Text.Numbers.{split_first, split_last, parse_canonical}
use chn_resolver_go.Net.{Addr, v4, v6, IsAddr, bit_len, Prefix, IsMasked}
use chn_resolver_go.Net.Parse.{
  parse_v4, group_value, Groups, zeros, expand, parse_groups, with_zone, parse_v6, dispatch,
  parse_addr, prefix_of, parse_prefix, masked,
}
use chn_resolver_go.Net.Groups.{
  canonical_le, parse_v4_lt, group_value_lt, AreShort-zeros, length-zeros, parse_groups-ReadShort,
  AreShort, ReadShort,
}

eight_groups_lt : (gs : List ℕ) → AreShort gs → length gs ≡ 8 → group_value 0 gs < 2 ^ 128
eight_groups_lt gs short e =
    let bound : group_value 0 gs < 1 * (2 ^ 16) ^ length gs =
      group_value_lt 0 1 gs (omega arith) short in
    subst (λ k. group_value 0 gs < 1 * (2 ^ 16) ^ k) e bound

abbrev Below : Option ℕ → Type 0
Below none = Unit
Below (some n) = n < 2 ^ 128

expand-Below : (g : Groups) → ReadShort (some g) → Below (expand g)
unfolding expand
expand-Below (none, gs) (f, short) = elim (Bool-cases (length gs == 8)) [
  | inl e ↦ rw e (eight_groups_lt gs short (ground (arith, e)))
  | inr e ↦ rw e tt
]
expand-Below (some front, back) (f, short) =
    let read = length front + length back in
    let fill = zeros (8 - read) in
    elim (Bool-cases (ltb read 8)) [
      | inl e ↦
          let all =
            All-append (λ g. g < 2 ^ 16) (front ++ fill) back
              (All-append (λ g. g < 2 ^ 16) front fill f (AreShort-zeros (8 - read))) short in
          rw e (
            eight_groups_lt (front ++ fill ++ back) all (
              ground (
                arith,
                e,
                length-append (front ++ fill) back,
                length-append front fill,
                length-zeros (8 - read),
              )))
      | inr e ↦ rw e tt
    ]

-- What was parsed is within its family's bound.
abbrev InRange : Option (Addr × Text) → Type 0
InRange none = Unit
InRange (some (a, zone)) = IsAddr a

with_zone-InRange : (zone : Text) (g : Option Groups) → ReadShort g → InRange (with_zone zone g)
with_zone-InRange zone none h = tt
with_zone-InRange zone (some g) h = ground (arith, expand-Below g h)

parse_v6-InRange : (s : Text) → InRange (parse_v6 s)
unfolding parse_v6
parse_v6-InRange s = elim (Option-cases (split_first b'%' s)) [
  | inl e ↦
      rw (e, parse_v6, InRange) (with_zone-InRange [] (parse_groups s) (parse_groups-ReadShort s))
  | inr ((front, zone), e) ↦
      let read = with_zone-InRange zone (parse_groups front) (parse_groups-ReadShort front) in
      rw (e, parse_v6, InRange) (ground (arith, read))
]

dispatch-InRange : (s cs : Text) → InRange (dispatch s cs)
unfolding dispatch
dispatch-InRange s [] = tt
dispatch-InRange s (c ∷ cs) = elim (Option-cases (parse_v4 s)) [
  | inl e ↦ ground (arith, e, parse_v6-InRange s, dispatch-InRange s cs)
  | inr (n, e) ↦ ground (arith, e, parse_v4_lt s e, parse_v6-InRange s, dispatch-InRange s cs)
]

pub parse_addr-IsAddr :
    (s : Text) {a : Addr} {zone : Text} → parse_addr s ≡ some (a, zone) → IsAddr a
unfolding parse_addr
parse_addr-IsAddr s h = subst InRange h (dispatch-InRange s s)

-- A prefix with its bits and its address within the family's bounds.
abbrev IsWithin : Prefix → Type 0
IsWithin p = IsAddr p.addr × (p.bits ≤ bit_len p.addr)

abbrev MayBeWithin : Option Prefix → Type 0
MayBeWithin none = Unit
MayBeWithin (some p) = IsWithin p

prefix_of-MayBeWithin :
    (bits : Text) (r : Option (Addr × Text)) → InRange r → MayBeWithin (prefix_of bits r)
unfolding prefix_of
prefix_of-MayBeWithin bits none h = tt
prefix_of-MayBeWithin bits (some (a, zone)) h =
    elim (Option-cases (parse_canonical (bit_len a) bits)) [
      | inl e ↦ ground (arith, e)
      | inr (n, e) ↦ ground (arith, e, h, canonical_le (bit_len a) bits e)
    ]

parse_prefix-MayBeWithin : (s : Text) → MayBeWithin (parse_prefix s)
unfolding parse_prefix parse_addr
parse_prefix-MayBeWithin s = elim (Option-cases (split_last b'/' s)) [
  | inl e ↦ rw (e, parse_prefix, MayBeWithin) tt
  | inr ((ip, bits), e) ↦
      rw (e, parse_prefix, MayBeWithin)
        (prefix_of-MayBeWithin bits (parse_addr ip) (dispatch-InRange ip ip))
]

pub parse_prefix-IsWithin : (s : Text) {p : Prefix} → parse_prefix s ≡ some p → IsWithin p
parse_prefix-IsWithin s h = subst MayBeWithin h (parse_prefix-MayBeWithin s)

masked-at :
    (a : Addr) (bits : ℕ)
    → IsWithin (record { addr = a; bits = bits })
    → IsMasked (masked (record { addr = a; bits = bits }))
unfolding masked
masked-at (v4 n) bits (small, fits) =
    let h = 32 - bits in
    record {
      valid = omega (arith, small, div-mul-le_self n (2 ^ h));
      fits = fits;
      masked = mul-mod_left (n / 2 ^ h) (2 ^ h);
    }
masked-at (v6 n) bits (small, fits) =
    let h = 128 - bits in
    record {
      valid = omega (arith, small, div-mul-le_self n (2 ^ h));
      fits = fits;
      masked = mul-mod_left (n / 2 ^ h) (2 ^ h);
    }

pub masked-IsMasked : (p : Prefix) → IsWithin p → IsMasked (masked p)
masked-IsMasked p h = masked-at p.addr p.bits h
