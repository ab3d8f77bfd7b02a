-- ===== src/Policy/Choice.antt =====
-- `Select` of internal/policy/policy.go against the three rules of the README.
use chn_resolver_go.Prelude.{
  ◌≡◌, refl, Bool, true, false, not, ◌&&◌, List, [], ◌∷◌, arith, elem, any, is_empty, Distinct,
  if◌then◌else◌, ℕ,
}
use chn_resolver_go.Net.{Addr, Addr-discrete}
use chn_resolver_go.Policy.{
  Result, PolicyName, SelectResult, select, choose, filter, override, prefer_china, all_non_china,
  fallback_china, unset,
}
use chn_resolver_go.Policy.Dedup.{elem-dedup, dedup-Distinct, is_empty-dedup}
use chn_resolver_go.Policy.Evidence.{
  china_side, foreign_side, every_side, offers, has, addrs_of, elem-addrs_of, any-addrs_of,
  collect_from_nil, is_empty-filter, elem-filter, is_empty-any,
}

-- The policy that the rules name, from four facts: a China server returned a China address, a
-- foreign server returned a foreign address, somebody returned a China address, and the name is
-- on the override list.
abbrev pub rule : Bool → Bool → Bool → Bool → PolicyName
rule cn_china foreign_foreign china listed =
    if cn_china && foreign_foreign
    then (if listed then override else prefer_china)
    else if china
    then fallback_china
    else all_non_china

-- Whether the policy returns the address.
abbrev pub returns : (Addr → Bool) → List Result → PolicyName → Addr → Bool
returns is_china results override a = offers foreign_side results a && not (is_china a)
returns is_china results prefer_china a = offers china_side results a && is_china a
returns is_china results all_non_china a =
    if has foreign_side (λ _. true) results
    then offers foreign_side results a
    else offers every_side results a
returns is_china results fallback_china a =
    (if has china_side is_china results
      then offers china_side results a
      else offers every_side results a)
    && is_china a
returns is_china results unset a = false

module _ (qname : List ℕ) (results : List Result) (is_china : Addr → Bool)
    (is_override : List ℕ → Bool) where
  abbrev chosen : SelectResult
  chosen = select qname results is_china is_override

  -- `Select` names the policy of the rules: with a China address from a China server and a foreign one
  -- from a foreign server it prefers China, or the foreign side on the override list; without that it
  -- is the China fallback when any server returned a China address, else all non-China.
  pub policy-select :
      chosen.policy
      ≡ rule
          (has china_side is_china results)
          (has foreign_side (λ a. not (is_china a)) results)
          (has every_side is_china results)
          (is_override qname)
  unfolding select choose
  policy-select = ground (
    arith,
    collect_from_nil results,
    is_empty-filter is_china (addrs_of china_side results),
    is_empty-filter (λ a. not (is_china a)) (addrs_of foreign_side results),
    is_empty-filter is_china (addrs_of every_side results),
    any-addrs_of china_side is_china results,
    any-addrs_of foreign_side (λ a. not (is_china a)) results,
    any-addrs_of every_side is_china results,
  )

  -- An address is returned by `Select` exactly when the side that the policy names offers it and it has
  -- the policy's class.
  pub elem-select :
      (a : Addr) → elem Addr-discrete a chosen.addrs ≡ returns is_china results chosen.policy a
  unfolding select choose
  elem-select a = ground (
    arith,
    collect_from_nil results,
    is_empty-filter is_china (addrs_of china_side results),
    is_empty-filter (λ a. not (is_china a)) (addrs_of foreign_side results),
    is_empty-filter is_china (addrs_of every_side results),
    any-addrs_of china_side is_china results,
    is_empty-any (addrs_of foreign_side results),
    any-addrs_of foreign_side (λ _. true) results,
    elem-dedup a (filter (addrs_of china_side results) is_china),
    elem-dedup a (filter (addrs_of foreign_side results) (λ a. not (is_china a))),
    elem-dedup a (filter (addrs_of every_side results) is_china),
    elem-dedup a (addrs_of foreign_side results),
    elem-dedup a (addrs_of every_side results),
    elem-filter is_china a (addrs_of china_side results),
    elem-filter (λ a. not (is_china a)) a (addrs_of foreign_side results),
    elem-filter is_china a (addrs_of every_side results),
    elem-addrs_of china_side results a,
    elem-addrs_of foreign_side results a,
    elem-addrs_of every_side results a,
  )

  -- `Select` returns no address twice.
  pub select-Distinct : Distinct Addr-discrete chosen.addrs
  unfolding select choose
  select-Distinct = ground (
    arith,
    dedup-Distinct (filter (addrs_of china_side results) is_china),
    collect_from_nil results,
    dedup-Distinct (filter (addrs_of foreign_side results) (λ a. not (is_china a))),
    dedup-Distinct (filter (addrs_of every_side results) is_china),
    dedup-Distinct (addrs_of foreign_side results),
    dedup-Distinct (addrs_of every_side results),
  )

any-weaken : (p : Addr → Bool) (xs : List Addr) → any p xs ≡ true → any (λ _. true) xs ≡ true
unfolding any
any-weaken p (x ∷ xs) h = refl
any-weaken p [] h = h

pub has-weaken :
    (side : Result → Bool) (test : Addr → Bool) (rs : List Result)
    → has side test rs ≡ true
    → has every_side (λ _. true) rs ≡ true
unfolding any
has-weaken side test [] h = h
has-weaken side test (r ∷ rs) h = ground (arith, any-weaken test r.addrs, has-weaken side test rs)

-- `Select` returns some address exactly when some server answered with one.
pub is_empty-select :
    (qname : List ℕ) (results : List Result) (is_china : Addr → Bool) (is_override : List ℕ → Bool)
    → is_empty (select qname results is_china is_override).addrs
      ≡ not (has every_side (λ _. true) results)
unfolding select choose
is_empty-select qname results is_china is_override = ground (
  arith,
  collect_from_nil results,
  is_empty-filter is_china (addrs_of china_side results),
  is_empty-filter (λ a. not (is_china a)) (addrs_of foreign_side results),
  is_empty-filter is_china (addrs_of every_side results),
  any-addrs_of china_side is_china results,
  any-addrs_of every_side is_china results,
  any-addrs_of foreign_side (λ a. not (is_china a)) results,
  is_empty-any (addrs_of foreign_side results),
  is_empty-any (addrs_of every_side results),
  any-addrs_of foreign_side (λ _. true) results,
  any-addrs_of every_side (λ _. true) results,
  is_empty-dedup (filter (addrs_of china_side results) is_china),
  is_empty-dedup (filter (addrs_of foreign_side results) (λ a. not (is_china a))),
  is_empty-dedup (filter (addrs_of every_side results) is_china),
  is_empty-dedup (addrs_of foreign_side results),
  is_empty-dedup (addrs_of every_side results),
  has-weaken china_side is_china results,
  has-weaken every_side is_china results,
  has-weaken foreign_side (λ _. true) results,
)
