-- ===== src/China/Prefixes.antt =====
-- `lastAddr` and `Build` of internal/china/index.go: the span of a prefix.
use native.Mathlib.Nat.{mod-lt, div-add-mod', mul-le-mul_right}
use chn_resolver_go.Prelude.{
  ℕ, ◌+◌, ◌-◌, ◌*◌, ◌/◌, ◌%◌, ◌^◌, ◌≤◌, ◌<◌, ◌≡◌, refl, ◌∙◌, sym, ap, dec_lt, Bool, true, false,
  not, ◌&&◌, leb, ◌==◌, arith, pow-add, pow-pos,
}
use chn_resolver_go.Net.{
  Addr, Prefix, IsMasked, is4, bit_len, unmap, from16, as16, bytes, value, covers,
}
use chn_resolver_go.China.{Span, last_addr, fill_host}
use chn_resolver_go.China.Bits.{value-fill_host, value-bytes, bytes-IsByte, length-bytes}
use chn_resolver_go.China.Rank.{rank, IsSpan, holds}

abbrev pub host_bits : Prefix → ℕ
host_bits p = bit_len p.addr - p.bits

abbrev pub number : Addr → ℕ
number (Addr.v4 n) = n
number (Addr.v6 n) = n

-- The last address of the prefix, as a number: all host bits set.
abbrev pub top : Prefix → ℕ
top p = number p.addr + 2 ^ host_bits p - 1

-- A multiple of `2 ^ h` below `2 ^ (b + h)` leaves room for its last `h` bits.
room : (q b h : ℕ) → q * 2 ^ h < 2 ^ (b + h) → q * 2 ^ h + 2 ^ h ≤ 2 ^ (b + h)
room q b h lt = elim (dec_lt q (2 ^ b)) [
  | yes small ↦
      let all : (q + 1) * 2 ^ h ≤ 2 ^ b * 2 ^ h = mul-le-mul_right (2 ^ h) (omega arith) in
      omega (arith, pow-add 2 b h)
  | no big ↦
      let all : 2 ^ b * 2 ^ h ≤ q * 2 ^ h = mul-le-mul_right (2 ^ h) (omega arith) in
      absurd (omega (arith, pow-add 2 b h))
]

-- A number with its last `h` bits clear is a multiple of `2 ^ h`.
as_multiple : (n h : ℕ) → n % 2 ^ h ≡ 0 → n ≡ n / 2 ^ h * 2 ^ h
as_multiple n h e = omega (arith, div-add-mod' n (2 ^ h))

value-filled :
    (m h q : ℕ)
    → m < 2 ^ 128
    → h ≤ 128
    → m ≡ q * 2 ^ h
    → value (fill_host h (bytes 16 m)) ≡ m + 2 ^ h - 1
value-filled m h q lt le e =
    let v : value (bytes 16 m) ≡ m = omega (arith, value-bytes 16 m) in
    let w =
      value-fill_host (bytes 16 m) h q (bytes-IsByte 16 m) (omega (arith, length-bytes 16 m))
        (v ∙ e) in
    omega (arith, v, w)

no_host_bits : (n bits len : ℕ) → len ≤ bits → n + 2 ^ (len - bits) - 1 ≡ n
no_host_bits n bits len h = let z : len - bits ≡ 0 = omega arith in rw z (omega arith)

split_pow : (bits len : ℕ) → bits ≤ len → 2 ^ len ≡ 2 ^ bits * 2 ^ (len - bits)
split_pow bits len h =
    let e : len ≡ bits + (len - bits) = omega arith in
    ap (λ (t : ℕ). 2 ^ t) e ∙ pow-add 2 bits (len - bits)

-- The last address of a masked prefix fits its family.
top-le :
    (n bits len : ℕ)
    → bits ≤ len
    → n < 2 ^ len
    → n % 2 ^ (len - bits) ≡ 0
    → n + 2 ^ (len - bits) ≤ 2 ^ len
top-le n bits len fits lt masked =
    let h = len - bits in
    let e : n ≡ n / 2 ^ h * 2 ^ h = as_multiple n h masked in
    let whole : 2 ^ len ≡ 2 ^ (bits + h) = ap (λ (t : ℕ). 2 ^ t) (omega arith) in
    omega (arith, room (n / 2 ^ h) bits h (omega arith))

last_addr-v4 :
    (n bits : ℕ)
    → IsMasked (record { addr = Addr.v4 n; bits = bits })
    → last_addr (record { addr = Addr.v4 n; bits = bits }) ≡ Addr.v4 (n + 2 ^ (32 - bits) - 1)
unfolding last_addr from16 as16 unmap
last_addr-v4 n bits m = elim (dec_lt bits 32) [
  | yes more ↦
      let h = 32 - bits in
      let q = n / 2 ^ h in
      let e : n ≡ q * 2 ^ h = as_multiple n h m.masked in
      let split : 2 ^ 32 ≡ 2 ^ bits * 2 ^ h = split_pow bits 32 m.fits in
      let mapped : 0xffff * 2 ^ 32 + n ≡ (0xffff * 2 ^ bits + q) * 2 ^ h = omega arith in
      let filled =
        value-filled (0xffff * 2 ^ 32 + n) h (0xffff * 2 ^ bits + q) (omega arith) (omega arith)
          mapped in
      let below : n + 2 ^ h ≤ 2 ^ 32 = top-le n bits 32 m.fits m.valid m.masked in
      ground (arith, filled, below, pow-pos h)
  | no none ↦ ground (arith, no_host_bits n bits 32 (omega arith))
]

last_addr-v6 :
    (n bits : ℕ)
    → IsMasked (record { addr = Addr.v6 n; bits = bits })
    → unmap (Addr.v6 (n + 2 ^ (128 - bits) - 1)) ≡ Addr.v6 (n + 2 ^ (128 - bits) - 1)
    → last_addr (record { addr = Addr.v6 n; bits = bits }) ≡ Addr.v6 (n + 2 ^ (128 - bits) - 1)
unfolding last_addr from16 as16
last_addr-v6 n bits m plain = elim (dec_lt bits 128) [
  | yes more ↦ ground (
    arith,
    value-filled n (128 - bits) (n / 2 ^ (128 - bits)) m.valid (omega arith)
        (as_multiple n (128 - bits) m.masked),
  )
  | no none ↦ ground (arith, no_host_bits n bits 128 (omega arith))
]

-- The numbers with the first bits of `n` are those from `n` to `n` with the last bits set.
block : (n m h : ℕ) → n % 2 ^ h ≡ 0 → (leb n m && leb m (n + 2 ^ h - 1)) ≡ (n / 2 ^ h == m / 2 ^ h)
block n m h e =
    let q = n / 2 ^ h in
    let r = m / 2 ^ h in
    let n-eq : n ≡ q * 2 ^ h = as_multiple n h e in
    let m-eq : r * 2 ^ h + m % 2 ^ h ≡ m = div-add-mod' m (2 ^ h) in
    let rest : m % 2 ^ h < 2 ^ h = mod-lt m (pow-pos h) in
    elim (dec_lt q r) [
      | yes lt ↦
          let apart : (q + 1) * 2 ^ h ≤ r * 2 ^ h = mul-le-mul_right (2 ^ h) (omega arith) in
          ground (arith, apart)
      | no ge ↦ elim (dec_lt r q) [
        | yes lt ↦
            let apart : (r + 1) * 2 ^ h ≤ q * 2 ^ h = mul-le-mul_right (2 ^ h) (omega arith) in
            ground (arith, apart)
        | no le ↦
            let same : q ≡ r = omega arith in
            let same-low : q * 2 ^ h ≡ r * 2 ^ h = ap (λ (t : ℕ). t * 2 ^ h) same in
            ground (arith, same, same-low)
      ]
    ]

-- The span that `Build` makes of a prefix.
abbrev pub span_of : Prefix → Span
span_of p = record { lo = p.addr; hi = last_addr p }

-- The last address of the prefix is no IPv4-mapped address, which `lastAddr` would turn into IPv4.
abbrev pub IsPlain : Prefix → Type 0
IsPlain p = elim p.addr [
  | Addr.v4 n ↦ Unit {0}
  | Addr.v6 n ↦ unmap (Addr.v6 (top p)) ≡ Addr.v6 (top p)
]

module _ (bits n : ℕ) where
  abbrev p4 : Prefix
  p4 = record { addr = Addr.v4 n; bits = bits }

  abbrev p6 : Prefix
  p6 = record { addr = Addr.v6 n; bits = bits }

  span4-IsSpan : IsMasked p4 → IsSpan true (span_of p4)
  span4-IsSpan m = rw (last_addr-v4 n bits m) (record {
    lo_family = refl;
    hi_family = refl;
    lo_valid = m.valid;
    hi_valid = omega (arith, top-le n bits 32 m.fits m.valid m.masked, pow-pos (32 - bits));
    ordered = omega (arith, pow-pos (32 - bits));
  })

  span6-IsSpan :
      IsMasked p6
      → unmap (Addr.v6 (n + 2 ^ (128 - bits) - 1)) ≡ Addr.v6 (n + 2 ^ (128 - bits) - 1)
      → IsSpan false (span_of p6)
  span6-IsSpan m plain = rw (last_addr-v6 n bits m plain) (record {
    lo_family = refl;
    hi_family = refl;
    lo_valid = m.valid;
    hi_valid = omega (arith, top-le n bits 128 m.fits m.valid m.masked, pow-pos (128 - bits));
    ordered = omega (arith, pow-pos (128 - bits));
  })

  holds-covers4 : IsMasked p4 → (k : ℕ) → holds k (span_of p4) ≡ covers p4 (Addr.v4 k)
  unfolding covers
  holds-covers4 m k = rw (last_addr-v4 n bits m) (block n k (32 - bits) m.masked)

  holds-covers6 :
      IsMasked p6
      → unmap (Addr.v6 (n + 2 ^ (128 - bits) - 1)) ≡ Addr.v6 (n + 2 ^ (128 - bits) - 1)
      → (k : ℕ) → holds (2 ^ 32 + k) (span_of p6) ≡ covers p6 (Addr.v6 k)
  unfolding covers
  holds-covers6 m plain k =
      rw (last_addr-v6 n bits m plain)
        (ground (arith, block n k (128 - bits) m.masked, pow-pos (128 - bits)))

pub span_of-IsSpan :
    (a : Addr) (bits : ℕ)
    → IsMasked (record { addr = a; bits = bits })
    → IsPlain (record { addr = a; bits = bits })
    → IsSpan (is4 a) (span_of (record { addr = a; bits = bits }))
span_of-IsSpan (Addr.v4 n) bits m plain = span4-IsSpan bits n m
span_of-IsSpan (Addr.v6 n) bits m plain = span6-IsSpan bits n m plain

-- The prefix is of the family.
abbrev pub is_in : Bool → Addr → Bool
is_in true a = is4 a
is_in false a = not (is4 a)

-- The span of a prefix holds the addresses that the prefix covers.
pub holds-covers :
    (a : Addr) (bits : ℕ) (ip : Addr)
    → IsMasked (record { addr = a; bits = bits })
    → IsPlain (record { addr = a; bits = bits })
    → covers (record { addr = a; bits = bits }) ip
      ≡ (is_in (is4 ip) a && holds (rank ip) (span_of (record { addr = a; bits = bits })))
holds-covers (Addr.v4 n) bits (Addr.v4 k) m plain = sym (holds-covers4 bits n m k)
holds-covers (Addr.v6 n) bits (Addr.v6 k) m plain = sym (holds-covers6 bits n m plain k)
holds-covers (Addr.v4 n) bits (Addr.v6 k) m plain = unfold covers in refl
holds-covers (Addr.v6 n) bits (Addr.v4 k) m plain = unfold covers in refl
