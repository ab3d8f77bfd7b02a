-- ===== src/China/Rank.antt =====
-- Addresses of internal/china/index.go on one line: all of IPv4, then all of IPv6.
use chn_resolver_go.Prelude.{
  ℕ, ◌+◌, ◌*◌, ◌%◌, ◌^◌, ◌≤◌, ◌<◌, ◌≡◌, refl, Bool, true, ◌&&◌, List, leb, ltb, arith, any,
}
use chn_resolver_go.Net.{Addr, IsAddr, is4, before, same, unmap, from16, as16, bytes, value}
use chn_resolver_go.China.{Span, next_addr, carry}
use chn_resolver_go.China.Bits.{value-carry, value-bytes, bytes-IsByte, length-bytes}

abbrev pub rank : Addr → ℕ
rank (Addr.v4 n) = n
rank (Addr.v6 n) = 2 ^ 32 + n

pub before-rank : (a b : Addr) → IsAddr a → IsAddr b → before a b ≡ ltb (rank a) (rank b)
unfolding before
before-rank (Addr.v4 a) (Addr.v4 b) h k = refl
before-rank (Addr.v4 a) (Addr.v6 b) h k = ground arith
before-rank (Addr.v6 a) (Addr.v4 b) h k = ground arith
before-rank (Addr.v6 a) (Addr.v6 b) h k = ground arith

-- A span of one family that is not empty.
pub record IsSpan (four : Bool) (s : Span) : Type 0 where
  pub lo_family : is4 s.lo ≡ four
  pub hi_family : is4 s.hi ≡ four
  pub lo_valid : IsAddr s.lo
  pub hi_valid : IsAddr s.hi
  pub ordered : rank s.lo ≤ rank s.hi

-- The span holds the address of this rank.
abbrev pub holds : ℕ → Span → Bool
holds x s = leb (rank s.lo) x && leb x (rank s.hi)

-- Some span holds it.
abbrev pub covered : List Span → ℕ → Bool
covered spans x = any (holds x) spans

value-next : (n : ℕ) → n < 2 ^ 128 → value (carry (bytes 16 n)) ≡ (n + 1) % 2 ^ 128
value-next n h =
    rw (value-carry (bytes 16 n) (bytes-IsByte 16 n), length-bytes 16 n, value-bytes 16 n)
      (omega arith)

-- The successor is no farther than one step, within one family.
pub next_addr-le :
    (a b : Addr) → IsAddr a → is4 a ≡ is4 b → same (next_addr a) b ≡ true → rank b ≤ rank a + 1
unfolding next_addr from16 as16 unmap same
next_addr-le (Addr.v4 a) (Addr.v4 b) h f e = ground (arith, value-next (0xffff * 2 ^ 32 + a))
next_addr-le (Addr.v4 a) (Addr.v6 b) h f e = cc
next_addr-le (Addr.v6 a) (Addr.v4 b) h f e = cc
next_addr-le (Addr.v6 a) (Addr.v6 b) h f e = ground (arith, value-next a h)
