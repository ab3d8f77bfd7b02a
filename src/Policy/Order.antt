-- ===== src/Policy/Order.antt =====
-- `Select` of internal/policy/policy.go over the results in another order.
use mathlib.Core.List.{Perm, Permᴰ}
use mathlib.Core.Logic.{∥∥₁_elim}
use chn_resolver_go.Prelude.{not, ◌≡◌, refl, ◌∙◌, Bool, List, arith, elem, any, ℕ}
use chn_resolver_go.Net.{Addr, Addr-discrete}
use chn_resolver_go.Policy.{
  Result, PolicyName, unset, override, prefer_china, all_non_china, fallback_china, select,
}
use chn_resolver_go.Policy.Evidence.{china_side, foreign_side, every_side, has}
use chn_resolver_go.Policy.Choice.{returns, policy-select, elem-select}

any-permᴰ {ℓ} : {A : Type ℓ} (p : A → Bool) {xs ys : List A} → Permᴰ xs ys → any p xs ≡ any p ys
unfolding any
any-permᴰ p Permᴰ.nil = refl
any-permᴰ p (Permᴰ.cons e d) = ground (arith, any-permᴰ p d)
any-permᴰ p (Permᴰ.swap e f) = ground arith
any-permᴰ p (Permᴰ.trans d e) = any-permᴰ p d ∙ any-permᴰ p e

pub any-perm {ℓ} : {A : Type ℓ} (p : A → Bool) {xs ys : List A} → Perm xs ys → any p xs ≡ any p ys
any-perm p t = ∥∥₁_elim t (hlevel) (any-permᴰ p)

module _ (is_china : Addr → Bool) {rs rs' : List Result} (t : Perm rs rs') where
  returns-perm : (n : PolicyName) (a : Addr) → returns is_china rs n a ≡ returns is_china rs' n a
  returns-perm override a = rw (any-perm _ t)
  returns-perm prefer_china a = rw (any-perm _ t)
  returns-perm all_non_china a = simp (any-perm _ t)
  returns-perm fallback_china a = simp (any-perm _ t)
  returns-perm unset a = refl

  has-perm : (side : Result → Bool) (test : Addr → Bool) → has side test rs ≡ has side test rs'
  has-perm side test = any-perm _ t

  policy-perm :
      (qname : List ℕ) (is_override : List ℕ → Bool)
      → (select qname rs is_china is_override).policy
        ≡ (select qname rs' is_china is_override).policy
  policy-perm qname is_override = cc (
    policy-select qname rs is_china is_override,
    policy-select qname rs' is_china is_override,
    has-perm china_side is_china,
    has-perm foreign_side (λ a. not (is_china a)),
    has-perm every_side is_china,
  )

-- `Select` over the results in another order gives the same policy and the same set of addresses.
pub select-perm :
    (qname : List ℕ) (is_china : Addr → Bool) (is_override : List ℕ → Bool) {rs rs' : List Result}
    → Perm rs rs'
    → ((select qname rs is_china is_override).policy
        ≡ (select qname rs' is_china is_override).policy)
      × ((a : Addr)
          → elem Addr-discrete a (select qname rs is_china is_override).addrs
            ≡ elem Addr-discrete a (select qname rs' is_china is_override).addrs)
select-perm qname is_china is_override {rs} {rs'} t =
    let same = policy-perm is_china t qname is_override in
    (
      same,
      λ a. cc (
        same,
        elem-select qname rs is_china is_override a,
        elem-select qname rs' is_china is_override a,
        returns-perm is_china t (select qname rs is_china is_override).policy a,
      ),
    )
