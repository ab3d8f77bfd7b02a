-- ===== src/Engine/Final.antt =====
-- `finalize` of internal/engine/engine.go: what is returned for a list of results.
use mathlib.Core.List.{Perm}
use chn_resolver_go.Prelude.{
  ℕ, ◌≡◌, refl, Bool, not, ◌&&◌, List, [], ◌∷◌, arith, any, elem, if◌then◌else◌,
}
use chn_resolver_go.Net.{Addr, Addr-discrete}
use chn_resolver_go.Text.{Text}
use chn_resolver_go.Dns.{rcode_success, rcode_server_failure, rcode_name_error}
use chn_resolver_go.Policy
use chn_resolver_go.Policy.{is_answer, select, unset}
use chn_resolver_go.Policy.Negative.{is_nx, is_no_data, finalize_negative_lem}
use chn_resolver_go.Policy.Order.{any-perm, select-perm}
use chn_resolver_go.Engine.{Assets, is_china, is_override, has_answer, finalize, Report}

-- Some upstream answered.
abbrev pub answered : List Policy.Result → Bool
answered results = any (λ r. is_answer r.state) results

pub has_answer-eq : (rs : List Policy.Result) → has_answer rs ≡ answered rs
unfolding has_answer any
has_answer-eq [] = refl
has_answer-eq (r ∷ rs) = ground (arith, has_answer-eq rs)

-- The response code from three facts: somebody answered, said NXDOMAIN, said NODATA.
abbrev pub rcode_of : Bool → Bool → Bool → ℕ
rcode_of answer nx no_data =
    if answer
    then rcode_success
    else if nx && not no_data
    then rcode_name_error
    else if no_data && not nx
    then rcode_success
    else rcode_server_failure

-- The code of `finalize`: success when some result is an answer, else NXDOMAIN or NODATA when the
-- results that did not fail agree on it, else SERVFAIL.
pub rcode-finalize :
    (assets : Assets) (qname : Text) (rs : List Policy.Result) (reports : List Report)
    (complete : Bool)
    → (finalize assets qname rs reports complete).rcode
      ≡ rcode_of (answered rs) (any is_nx rs) (any is_no_data rs)
unfolding finalize
rcode-finalize assets qname rs reports complete =
    ground (arith, has_answer-eq rs, finalize_negative_lem rs)

module _ (assets : Assets) (qname : Text) (reports : List Report) (complete : Bool) where
  pub policy-finalize :
      (rs : List Policy.Result)
      → (finalize assets qname rs reports complete).policy ≡ (
          if answered rs
          then (select qname rs (is_china assets) (is_override assets)).policy
          else unset)
  unfolding finalize
  policy-finalize rs = ground (arith, has_answer-eq rs)

  pub elem-finalize :
      (rs : List Policy.Result) (a : Addr)
      → elem Addr-discrete a (finalize assets qname rs reports complete).addrs ≡ (
          answered rs
          && elem Addr-discrete a (select qname rs (is_china assets) (is_override assets)).addrs)
  unfolding finalize elem
  elem-finalize rs a = ground (arith, has_answer-eq rs)

-- `finalize` over the results in another order gives the same code, the same policy and the same set
-- of addresses.
pub finalize-perm :
    (assets : Assets) (qname : Text) {rs rs' : List Policy.Result} (reports reports' : List Report)
    (complete : Bool)
    → Perm rs rs'
    → let r = finalize assets qname rs reports complete in
      let r' = finalize assets qname rs' reports' complete in
      (r.rcode ≡ r'.rcode)
      × (r.policy ≡ r'.policy)
      × ((a : Addr) → elem Addr-discrete a r.addrs ≡ elem Addr-discrete a r'.addrs)
finalize-perm assets qname {rs} {rs'} reports reports' complete t =
    let (same, members) = select-perm qname (is_china assets) (is_override assets) t in
    let answers : answered rs ≡ answered rs' = any-perm (λ r. is_answer r.state) t in
    (
      cc (
        rcode-finalize assets qname rs reports complete,
        rcode-finalize assets qname rs' reports' complete,
        answers,
        any-perm is_nx t,
        any-perm is_no_data t,
      ),
      cc (
        policy-finalize assets qname reports complete rs,
        policy-finalize assets qname reports' complete rs',
        answers,
      ),
      λ a. cc (
        elem-finalize assets qname reports complete rs a,
        elem-finalize assets qname reports' complete rs' a,
        answers,
        members a,
      ),
    )
