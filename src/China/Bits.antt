-- ===== src/China/Bits.antt =====
-- The byte loops of `lastAddr` and `nextAddr` of internal/china/index.go, as numbers.
use Prim.Native.Nat.{bit_or}
use native.Mathlib.Nat.{
  mul-add-mod_self_left, mod-eq_of_lt, div-add-mod, mod-lt, pow-succ', mul_assoc,
}
use chn_resolver_go.Prelude.{
  ℕ, zero, suc, ◌+◌, ◌-◌, ◌*◌, ◌/◌, ◌%◌, ◌^◌, ◌<◌, ◌≤◌, ◌≡◌, refl, ap, ◌∙◌, dec_lt, lt→ltb, Bool,
  true, not, ◌||◌, List, [], ◌∷◌, ◌==◌, arith, length, All, pow-add, pow-pos, holds_below,
  holds_below_lem,
}
use chn_resolver_go.Net.{bytes, value}
use chn_resolver_go.China.{fill_host, carry}

abbrev pub IsByte : ℕ → Type 0
IsByte b = b < 256

-- Setting the low `k` bits of a byte that has them clear is an addition.
or_low : ℕ → ℕ → Bool
or_low k b = not (b % 2 ^ k == 0) || bit_or b (0xff / 2 ^ (8 - k)) == b + 2 ^ k - 1

or_low_table : holds_below (λ k. holds_below (or_low k) 256) 9 ≡ true
unfolding holds_below or_low
or_low_table = refl

or_low-eq :
    (k b : ℕ) → k < 9 → b < 256 → b % 2 ^ k ≡ 0 → bit_or b (0xff / 2 ^ (8 - k)) ≡ b + 2 ^ k - 1
unfolding or_low
or_low-eq k b hk hb h = ground (
  arith,
  holds_below_lem (λ k. holds_below (or_low k) 256) 9 k hk or_low_table,
  holds_below_lem (or_low k) 256 b hb,
)

-- `b + 256 * v` is a multiple of `2 ^ k`, so `b` is.
low_multiple : (k b v q : ℕ) → k < 9 → b + 256 * v ≡ q * 2 ^ k → b % 2 ^ k ≡ 0
low_multiple zero b v q hk e = omega arith
low_multiple (suc zero) b v q hk e = omega arith
low_multiple (suc (suc zero)) b v q hk e = omega arith
low_multiple (suc (suc (suc zero))) b v q hk e = omega arith
low_multiple (suc (suc (suc (suc zero)))) b v q hk e = omega arith
low_multiple (suc (suc (suc (suc (suc zero))))) b v q hk e = omega arith
low_multiple (suc (suc (suc (suc (suc (suc zero)))))) b v q hk e = omega arith
low_multiple (suc (suc (suc (suc (suc (suc (suc zero))))))) b v q hk e = omega arith
low_multiple (suc (suc (suc (suc (suc (suc (suc (suc zero)))))))) b v q hk e = omega arith
low_multiple k b v q hk e = absurd (omega arith)

-- One byte and the rest of a remainder.
mod-byte : (n p : ℕ) → 0 < p → n % (256 * p) ≡ n % 256 + 256 * ((n / 256) % p)
mod-byte n p h =
    let q = n / 256 / p in
    let r = n / 256 % p in
    let whole : n ≡ 256 * p * q + (n % 256 + 256 * r) =
      omega (arith, div-add-mod (n / 256) p, mul_assoc 256 p q) in
    let small : n % 256 + 256 * r < 256 * p = omega (arith, mod-lt (n / 256) h) in
    ap (λ (k : ℕ). k % (256 * p)) whole
    ∙ mul-add-mod_self_left (256 * p) q (n % 256 + 256 * r)
    ∙ mod-eq_of_lt small

pow256-pos : (n : ℕ) → 0 < 256 ^ n
pow256-pos zero = omega arith
pow256-pos (suc n) = omega (arith, pow-succ' 256 n, pow256-pos n)

pub value-lt : (bs : List ℕ) → All IsByte bs → value bs < 256 ^ length bs
unfolding value
value-lt [] h = omega arith
value-lt (b ∷ bs) h = omega (arith, pow-succ' 256 (length bs), value-lt bs h.1)

-- A whole byte of host bits: the byte is zero, and the rest is a multiple.
fill_step : (b v k q : ℕ) → b < 256 → b + 256 * v ≡ q * 2 ^ (8 + k) → (b ≡ 0) × (v ≡ q * 2 ^ k)
fill_step b v k q hb e =
    let e' : b + 256 * v ≡ 256 * (q * 2 ^ k) =
      omega (arith, e, ap (λ (t : ℕ). q * t) (pow-add 2 8 k)) in
    (omega arith, omega arith)

fill_host-zero : (bs : List ℕ) → fill_host 0 bs ≡ bs
unfolding fill_host
fill_host-zero [] = refl
fill_host-zero (b ∷ bs) = refl

fill_host-part :
    (host b : ℕ) (bs : List ℕ)
    → 0 < host
    → host < 8
    → fill_host host (b ∷ bs) ≡ bit_or b (0xff / 2 ^ (8 - host)) ∷ bs
unfolding fill_host
fill_host-part host b bs h k =
    let z : host - 8 ≡ 0 = omega arith in ground (arith, fill_host-zero bs, z)

fill_host-whole :
    (host b : ℕ) (bs : List ℕ)
    → 8 ≤ host
    → fill_host host (b ∷ bs) ≡ bit_or b 0xff ∷ fill_host (host - 8) bs
unfolding fill_host
fill_host-whole host b bs h = elim (dec_lt 8 host) [
  | yes more ↦ rw (lt→ltb 8 host more, lt→ltb 0 host (omega arith)) refl
  | no exact ↦ let e : host ≡ 8 = omega arith in rw e refl
]

-- The loop of `lastAddr` sets the host bits.
pub value-fill_host :
    (bs : List ℕ) (host q : ℕ)
    → All IsByte bs
    → host ≤ 8 * length bs
    → value bs ≡ q * 2 ^ host
    → value (fill_host host bs) ≡ value bs + 2 ^ host - 1
unfolding value
value-fill_host [] host q h fits e =
    let z : host ≡ 0 = omega arith in rw (z, fill_host-zero []) refl
value-fill_host (b ∷ bs) host q h fits e = elim (dec_lt host 8) [
  | yes small ↦ elim (dec_lt 0 host) [
    | yes pos ↦ rw (fill_host-part host b bs pos small) (
        omega (
          arith,
          pow-pos host,
          or_low-eq host b (omega arith) h.0 (low_multiple host b (value bs) q (omega arith) e),
        ))
    | no none ↦ let z : host ≡ 0 = omega arith in rw (z, fill_host-zero (b ∷ bs)) (omega arith)
  ]
  | no big ↦
      let k = host - 8 in
      let split : host ≡ 8 + k = omega arith in
      let (z, v) = fill_step b (value bs) k q h.0 (e ∙ ap (λ (t : ℕ). q * 2 ^ t) split) in
      let rest = value-fill_host bs k q h.1 (omega arith) v in
      rw (fill_host-whole host b bs (omega arith), z)
        (omega (arith, rest, pow-pos k, ap (λ (t : ℕ). 2 ^ t) split, pow-add 2 8 k))
]

pub value-carry :
    (bs : List ℕ) → All IsByte bs → value (carry bs) ≡ (value bs + 1) % 256 ^ length bs
unfolding value carry
value-carry [] h = refl
value-carry (b ∷ bs) h = rw (pow-succ' 256 (length bs)) (elim (dec_lt b 255) [
  | yes small ↦
      let fits : b + 256 * value bs + 1 < 256 * 256 ^ length bs = omega (arith, value-lt bs h.1) in
      ground (arith, mod-eq_of_lt fits)
  | no large ↦ ground (
    arith,
    value-carry bs h.1,
    mod-byte (b + 256 * value bs + 1) (256 ^ length bs) (pow256-pos (length bs)),
  )
])

pub value-bytes : (k n : ℕ) → value (bytes k n) ≡ n % 256 ^ k
unfolding bytes value
value-bytes zero n = omega arith
value-bytes (suc k) n = omega (
  arith,
  pow-succ' 256 k,
  value-bytes k (n / 256),
  mod-byte n (256 ^ k) (pow256-pos k),
  ap (λ (t : ℕ). n % t) (pow-succ' 256 k),
)

pub bytes-IsByte : (k n : ℕ) → All IsByte (bytes k n)
unfolding bytes
bytes-IsByte zero n = tt
bytes-IsByte (suc k) n = (omega arith, bytes-IsByte k (n / 256))

pub length-bytes : (k n : ℕ) → length (bytes k n) ≡ k
unfolding bytes
length-bytes zero n = refl
length-bytes (suc k) n = omega (arith, length-bytes k (n / 256))
