-- ===== src/Engine/Early.antt =====
-- `earlyStable` of internal/engine/engine.go against `Select` over more results.
use chn_resolver_go.Prelude.{
  ◌≡◌, Bool, true, false, not, ◌&&◌, ◌||◌, List, [], ◌∷◌, ◌++◌, arith, any, any-append, elem,
  if◌then◌else◌,
}
use chn_resolver_go.Net.{Addr, Addr-discrete}
use chn_resolver_go.Text.{Text}
use chn_resolver_go.Policy
use chn_resolver_go.Policy.{PolicyName, select, is_answer, override, prefer_china}
use chn_resolver_go.Policy.Evidence.{china_side, foreign_side, has}
use chn_resolver_go.Policy.Choice.{policy-select, elem-select}
use chn_resolver_go.Engine.{
  Assets, is_china, is_override, stable_addrs, stable_results, early_stable,
}

stable_addrs-eq :
    (assets : Assets) (server_china : Bool) (flags : Bool × Bool) (xs : List Addr)
    → (stable_addrs assets server_china flags xs).0
        ≡ (flags.0 || (server_china && any (is_china assets) xs))
      × ((stable_addrs assets server_china flags xs).1
          ≡ (flags.1 || (not server_china && any (λ a. not (is_china assets a)) xs)))
unfolding stable_addrs any
stable_addrs-eq assets server_china flags [] = ground arith
stable_addrs-eq assets server_china (f, g) (a ∷ xs) = ground (
  arith,
  stable_addrs-eq assets server_china
      (
        if server_china && is_china assets a then true else f,
        if not server_china && not (is_china assets a) then true else g,
      )
      xs,
)

stable_results-eq :
    (assets : Assets) (flags : Bool × Bool) (rs : List Policy.Result)
    → ((stable_results assets flags rs).0 ≡ (flags.0 || has china_side (is_china assets) rs))
      × ((stable_results assets flags rs).1
          ≡ (flags.1 || has foreign_side (λ a. not (is_china assets a)) rs))
unfolding stable_results any
stable_results-eq assets flags [] = ground arith
stable_results-eq assets flags (r ∷ rs) = ground (
  arith,
  stable_addrs-eq assets r.server_china flags r.addrs,
  stable_results-eq assets
      (if is_answer r.state then stable_addrs assets r.server_china flags r.addrs else flags) rs,
)

-- The test says that rule 1 applies.
pub early_stable-has :
    (assets : Assets) (qname : Text) (rs : List Policy.Result)
    → early_stable assets qname rs
      ≡ (has china_side (is_china assets) rs && has foreign_side (λ a. not (is_china assets a)) rs)
unfolding early_stable
early_stable-has assets qname rs = ground (arith, stable_results-eq assets (false, false) rs)

module _ (assets : Assets) (qname : Text) (rs more : List Policy.Result) where
  abbrev china : Addr → Bool
  china = is_china assets

  abbrev listed : Text → Bool
  listed = is_override assets

  -- Once stable, always stable.
  pub early_stable-append :
      early_stable assets qname rs ≡ true → early_stable assets qname (rs ++ more) ≡ true
  early_stable-append h = ground (
    arith,
    early_stable-has assets qname rs,
    early_stable-has assets qname (rs ++ more),
    any-append (λ (r : Policy.Result). is_answer r.state && china_side r && any china r.addrs) rs
        more,
    any-append
        (λ (r : Policy.Result).
          is_answer r.state && foreign_side r && any (λ a. not (china a)) r.addrs)
        rs more,
  )

  -- A stable list of results is decided by rule 1.
  stable-rule :
      (xs : List Policy.Result)
      → early_stable assets qname xs ≡ true
      → (select qname xs china listed).policy ≡ (if listed qname then override else prefer_china)
  stable-rule xs h =
      ground (arith, early_stable-has assets qname xs, policy-select qname xs china listed)

  policy_stable :
      early_stable assets qname rs ≡ true
      → (select qname (rs ++ more) china listed).policy ≡ (select qname rs china listed).policy
  policy_stable h =
      ground (arith, stable-rule rs h, stable-rule (rs ++ more) (early_stable-append h))

  addrs_stable :
      early_stable assets qname rs ≡ true
      → (a : Addr) → elem Addr-discrete a (select qname rs china listed).addrs ≡ true
      → elem Addr-discrete a (select qname (rs ++ more) china listed).addrs ≡ true
  addrs_stable h a m = ground (
    arith,
    stable-rule rs h,
    policy_stable h,
    elem-select qname rs china listed a,
    elem-select qname (rs ++ more) china listed a,
    any-append
        (λ (r : Policy.Result). is_answer r.state && china_side r && elem Addr-discrete a r.addrs)
        rs more,
    any-append
        (λ (r : Policy.Result). is_answer r.state && foreign_side r && elem Addr-discrete a r.addrs)
        rs more,
  )

-- When `earlyStable` holds of the results in, any later results leave the policy of `Select` as it is,
-- and every address that is selected stays selected.
pub early_answer_stands :
    (assets : Assets) (qname : Text) (rs more : List Policy.Result)
    → early_stable assets qname rs ≡ true
    → ((select qname (rs ++ more) (is_china assets) (is_override assets)).policy
        ≡ (select qname rs (is_china assets) (is_override assets)).policy)
      × ((a : Addr)
          → elem Addr-discrete a (select qname rs (is_china assets) (is_override assets)).addrs
            ≡ true
          → elem Addr-discrete a
              (select qname (rs ++ more) (is_china assets) (is_override assets)).addrs
            ≡ true)
early_answer_stands assets qname rs more h =
    (policy_stable assets qname rs more h, addrs_stable assets qname rs more h)
