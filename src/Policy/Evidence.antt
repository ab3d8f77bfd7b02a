-- ===== src/Policy/Evidence.antt =====
-- What a list of results says of addresses and servers, described without the loops of
-- internal/policy/policy.go.
use chn_resolver_go.Prelude.{
  ◌≡◌, refl, Bool, true, not, ◌&&◌, List, [], ◌∷◌, ◌++◌, arith, elem, any, any-append, elem-append,
  elem-select_if, append_assoc, append-nil, select_if, is_empty, if◌then◌else◌,
}
use chn_resolver_go.Net.{Addr, Addr-discrete}
use chn_resolver_go.Policy.{Result, is_answer, Buckets, collect, collect_one, filter}

-- Which servers count: those in China, those outside, all.
abbrev pub china_side : Result → Bool
china_side r = r.server_china

abbrev pub foreign_side : Result → Bool
foreign_side r = not r.server_china

abbrev pub every_side : Result → Bool
every_side r = true

-- A server of the side answered with the address.
abbrev pub offers : (Result → Bool) → List Result → Addr → Bool
offers side results a =
    any (λ r. is_answer r.state && side r && elem Addr-discrete a r.addrs) results

-- A server of the side answered with an address that passes the test.
abbrev pub has : (Result → Bool) → (Addr → Bool) → List Result → Bool
has side test results = any (λ r. is_answer r.state && side r && any test r.addrs) results

pub is_empty-filter : (p : Addr → Bool) (xs : List Addr) → is_empty (filter xs p) ≡ not (any p xs)
unfolding filter select_if any
is_empty-filter p [] = refl
is_empty-filter p (x ∷ xs) = ground (arith, is_empty-filter p xs)

pub elem-filter :
    (p : Addr → Bool) (a : Addr) (xs : List Addr)
    → elem Addr-discrete a (filter xs p) ≡ (elem Addr-discrete a xs && p a)
unfolding filter
elem-filter p a xs = elem-select_if Addr-discrete p a xs

pub is_empty-any : (xs : List Addr) → is_empty xs ≡ not (any (λ _. true) xs)
unfolding any
is_empty-any [] = refl
is_empty-any (x ∷ xs) = refl

-- The addresses that the servers of a side answered with, in order.
unfoldable pub addrs_of : (Result → Bool) → List Result → List Addr
addrs_of side [] = []
addrs_of side (r ∷ rs) = (if is_answer r.state && side r then r.addrs else []) ++ addrs_of side rs

pub elem-addrs_of :
    (side : Result → Bool) (results : List Result) (a : Addr)
    → elem Addr-discrete a (addrs_of side results) ≡ offers side results a
unfolding addrs_of elem any
elem-addrs_of side [] a = refl
elem-addrs_of side (r ∷ rs) a =
    ground (arith, elem-append Addr-discrete a r.addrs (addrs_of side rs), elem-addrs_of side rs a)

pub any-addrs_of :
    (side : Result → Bool) (test : Addr → Bool) (results : List Result)
    → any test (addrs_of side results) ≡ has side test results
unfolding addrs_of any
any-addrs_of side test [] = refl
any-addrs_of side test (r ∷ rs) =
    ground (arith, any-append test r.addrs (addrs_of side rs), any-addrs_of side test rs)

-- What the loop of `Select` leaves in the three slices.
collect-eq :
    (b : Buckets) (rs : List Result)
    → collect b rs ≡ record {
      cn = b.cn ++ addrs_of china_side rs;
      non_cn = b.non_cn ++ addrs_of foreign_side rs;
      all = b.all ++ addrs_of every_side rs;
    }
unfolding collect collect_one addrs_of
collect-eq b [] = ground (arith, append-nil b.cn, append-nil b.non_cn, append-nil b.all)
collect-eq b (r ∷ rs) = ground (
  arith,
  collect-eq (collect_one b r) rs,
  append_assoc b.cn r.addrs (addrs_of china_side rs),
  append_assoc b.non_cn r.addrs (addrs_of foreign_side rs),
  append_assoc b.all r.addrs (addrs_of every_side rs),
)

pub collect_from_nil :
    (rs : List Result)
    → collect (record { cn = []; non_cn = []; all = [] }) rs ≡ record {
      cn = addrs_of china_side rs;
      non_cn = addrs_of foreign_side rs;
      all = addrs_of every_side rs;
    }
collect_from_nil rs = collect-eq _ rs
