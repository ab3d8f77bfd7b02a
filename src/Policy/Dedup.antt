-- ===== src/Policy/Dedup.antt =====
-- `dedup` of internal/policy/policy.go.
use chn_resolver_go.Prelude.{◌≡◌, refl, not, ◌&&◌, List, [], ◌∷◌, arith, elem, Distinct, is_empty}
use chn_resolver_go.Net.{Addr, Addr-discrete}
use chn_resolver_go.Policy.{dedup, dedup_loop}

elem-dedup_loop :
    (a : Addr) (seen xs : List Addr)
    → elem Addr-discrete a (dedup_loop seen xs)
      ≡ (elem Addr-discrete a xs && not (elem Addr-discrete a seen))
unfolding dedup_loop elem
elem-dedup_loop a seen [] = refl
elem-dedup_loop a seen (x ∷ xs) =
    ground (arith, elem-dedup_loop a seen xs, elem-dedup_loop a (x ∷ seen) xs)

pub elem-dedup :
    (a : Addr) (xs : List Addr) → elem Addr-discrete a (dedup xs) ≡ elem Addr-discrete a xs
unfolding dedup elem
elem-dedup a xs = ground (arith, elem-dedup_loop a [] xs)

dedup_loop-Distinct : (seen xs : List Addr) → Distinct Addr-discrete (dedup_loop seen xs)
unfolding dedup_loop elem
dedup_loop-Distinct seen [] = tt
dedup_loop-Distinct seen (x ∷ xs) = ground (
  arith,
  elem-dedup_loop x (x ∷ seen) xs,
  dedup_loop-Distinct seen xs,
  dedup_loop-Distinct (x ∷ seen) xs,
)

pub dedup-Distinct : (xs : List Addr) → Distinct Addr-discrete (dedup xs)
unfolding dedup
dedup-Distinct xs = dedup_loop-Distinct [] xs

pub is_empty-dedup : (xs : List Addr) → is_empty (dedup xs) ≡ is_empty xs
unfolding dedup dedup_loop elem
is_empty-dedup [] = refl
is_empty-dedup (x ∷ xs) = refl
