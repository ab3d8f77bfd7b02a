-- ===== src/Net.antt =====
-- The Go standard library's `net/netip` as far as the program uses it: an address is a family with
-- a number below 2^32 or 2^128. An IPv6 zone is kept beside the
-- address: a prefix and a DNS record have none.
pub mod Parse
pub mod Groups
pub mod Bounds
use chn_resolver_go.Prelude.{
  ℕ, zero, suc, ◌+◌, ◌-◌, ◌*◌, ◌/◌, ◌%◌, ◌^◌, ◌<◌, ◌≤◌, ◌≡◌, Bool, true, false, List, [], ◌∷◌, ltb,
  ◌==◌, if◌then◌else◌, ℕ_discrete,
}

pub data Addr : Type 0 where
  v4 v6 : ℕ → Addr

unfoldable pub Addr-discrete : Discrete Addr
unfolding ℕ_discrete
Addr-discrete = hlevel ℕ_discrete

-- The number fits the family.
abbrev pub IsAddr : Addr → Type 0
IsAddr (v4 n) = n < 2 ^ 32
IsAddr (v6 n) = n < 2 ^ 128

-- `a.Is4()`
abbrev pub is4 : Addr → Bool
is4 (v4 n) = true
is4 (v6 n) = false

-- `a.BitLen()`
abbrev pub bit_len : Addr → ℕ
bit_len (v4 n) = 32
bit_len (v6 n) = 128

-- `a.Compare(b) < 0`: first the family, then the number.
unfoldable pub before : Addr → Addr → Bool
before (v4 a) (v4 b) = ltb a b
before (v4 a) (v6 b) = true
before (v6 a) (v4 b) = false
before (v6 a) (v6 b) = ltb a b

-- `a.Compare(b) == 0`
unfoldable pub same : Addr → Addr → Bool
same (v4 a) (v4 b) = a == b
same (v4 a) (v6 b) = false
same (v6 a) (v4 b) = false
same (v6 a) (v6 b) = a == b

-- `a.Unmap()`: an IPv4-mapped IPv6 address becomes its IPv4 address.
unfoldable pub unmap : Addr → Addr
unmap (v4 n) = v4 n
unmap (v6 n) = if n / 2 ^ 32 == 0xffff then v4 (n % 2 ^ 32) else v6 n

-- `k` bytes of a number, the last byte of the big-endian array first.
unfoldable pub bytes : ℕ → ℕ → List ℕ
bytes zero n = []
bytes (suc k) n = n % 256 ∷ bytes k (n / 256)

unfoldable pub value : List ℕ → ℕ
value [] = 0
value (b ∷ bs) = b + 256 * value bs

-- `a.As16()`, from its last byte to its first.
unfoldable pub as16 : Addr → List ℕ
as16 (v4 n) = bytes 16 (0xffff * 2 ^ 32 + n)
as16 (v6 n) = bytes 16 n

-- `AddrFrom16(b).Unmap()`
unfoldable pub from16 : List ℕ → Addr
from16 bs = unmap (v6 (value bs))

pub record Prefix : Type 0 where
  pub addr : Addr
  pub bits : ℕ

-- `p.Contains(a)` for a valid prefix and an address with no mapped form: the family and the first
-- `bits` bits are the same.
unfoldable pub covers : Prefix → Addr → Bool
covers p a = elim p.addr [
  | v4 n ↦ elim a [ v4 m ↦ n / 2 ^ (32 - p.bits) == m / 2 ^ (32 - p.bits) | v6 m ↦ false ]
  | v6 n ↦ elim a [ v4 m ↦ false | v6 m ↦ n / 2 ^ (128 - p.bits) == m / 2 ^ (128 - p.bits) ]
]

-- What `ParsePrefix` and `Masked` leave: the bits fit the family, and the host bits are zero.
pub record IsMasked (p : Prefix) : Type 0 where
  pub valid : IsAddr p.addr
  pub fits : p.bits ≤ bit_len p.addr
  pub masked : (elim p.addr [ v4 n ↦ n | v6 n ↦ n ]) % 2 ^ (bit_len p.addr - p.bits) ≡ 0
