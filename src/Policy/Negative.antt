-- ===== src/Policy/Negative.antt =====
-- `FinalizeNegative` of internal/policy/policy.go.
use chn_resolver_go.Prelude.{
  ◌≡◌, refl, Bool, true, false, not, ◌&&◌, List, [], ◌∷◌, arith, any, is_empty, if◌then◌else◌,
  Option, none, some,
}
use chn_resolver_go.Dns.{Soa, rcode_success, rcode_server_failure, rcode_name_error}
use chn_resolver_go.Policy.{
  Result, no_data, nx_domain, first_soa, split_negative, finalize_negative,
}

abbrev pub is_nx : Result → Bool
is_nx r = elim r.state [ nx_domain ↦ true | _ ↦ false ]

abbrev pub is_no_data : Result → Bool
is_no_data r = elim r.state [ no_data ↦ true | _ ↦ false ]

-- The first SOA among the results that pass the test.
unfoldable pub soa_of : (Result → Bool) → List Result → Option Soa
soa_of test [] = none
soa_of test (r ∷ rs) =
    if test r then (elim r.soa [ some s ↦ some s | none ↦ soa_of test rs ]) else soa_of test rs

split_negative-eq :
    (rs : List Result)
    → let (nx, nodata) = split_negative rs in
      (is_empty nx ≡ not (any is_nx rs))
      × (is_empty nodata ≡ not (any is_no_data rs))
      × (first_soa nx ≡ soa_of is_nx rs)
      × (first_soa nodata ≡ soa_of is_no_data rs)
unfolding split_negative any soa_of first_soa
split_negative-eq [] = (refl, refl, refl, refl)
split_negative-eq (r ∷ rs) = ground (arith, split_negative-eq rs)

-- `FinalizeNegative` gives NXDOMAIN when some results say so and none says NODATA, and NODATA the
-- other way round, each with the first SOA of its side; SERVFAIL when they disagree, or when none
-- says either.
pub finalize_negative_lem :
    (rs : List Result)
    → finalize_negative rs ≡ (
        if any is_nx rs && not (any is_no_data rs)
        then (rcode_name_error, soa_of is_nx rs, true)
        else if any is_no_data rs && not (any is_nx rs)
        then (rcode_success, soa_of is_no_data rs, true)
        else (rcode_server_failure, none, false))
unfolding finalize_negative
finalize_negative_lem rs = ground (arith, split_negative-eq rs)
