-- ===== src/Tests/Selection.antt =====
-- internal/policy/policy.go on three results.
use mathlib.Core.List.{lookup}
use mathlib.Core.List.Perm
use chn_resolver_go.Prelude.{
  ℕ, ◌≡◌, refl, Bool, true, false, not, List, [], ◌∷◌, none, some, leb, elem, select_if,
}
use chn_resolver_go.Net.{Addr, v4, Addr-discrete}
use chn_resolver_go.Policy.{
  Result, answer, nx_domain, failure, select, dedup, select_ttl, override, prefer_china, choose,
  filter, collect, collect_one, dedup_loop, least_ttl, owners, own,
}
use chn_resolver_go.Policy.Evidence.{china_side, foreign_side, every_side, has}
use chn_resolver_go.Policy.Choice.{rule, returns, policy-select, elem-select}
use chn_resolver_go.Policy.Order.{select-perm}
use chn_resolver_go.Policy.Ttl.{IsLeast, select_ttl-IsLeast}

abbrev result : Bool → List Addr → ℕ → Result
result server_china addrs ttl = record {
  server = v4 1;
  server_china = server_china;
  addrs = addrs;
  state = answer;
  soa = none;
  min_ttl = ttl;
  err_category = "";
}

abbrev at_home : Result
at_home = result true (v4 10 ∷ v4 200 ∷ v4 10 ∷ []) 60

abbrev abroad : Result
abroad = result false (v4 200 ∷ v4 11 ∷ []) 30

abbrev results : List Result
results = at_home ∷ abroad ∷ []

abbrev is_low : Addr → Bool
is_low (Addr.v4 n) = leb n 99
is_low (Addr.v6 n) = false

abbrev nowhere : List ℕ → Bool
nowhere _ = false

select_run : select [] results is_low nowhere ≡ record { policy = prefer_china; addrs = v4 10 ∷ [] }
unfolding select choose filter select_if collect collect_one dedup dedup_loop elem Addr-discrete
select_run = refl

select_run_listed :
    select [] results is_low (λ _. true) ≡ record { policy = override; addrs = v4 200 ∷ [] }
unfolding select choose filter select_if collect collect_one dedup dedup_loop elem Addr-discrete
select_run_listed = refl

select_ttl_run : select_ttl (v4 200 ∷ []) results ≡ (60, true)
unfolding select_ttl least_ttl lookup owners own Addr-discrete
select_ttl_run = refl

policy-select_example :
    (select [] results is_low nowhere).policy
    ≡ rule
        (has china_side is_low results)
        (has foreign_side (λ a. not (is_low a)) results)
        (has every_side is_low results)
        (nowhere [])
policy-select_example = policy-select [] results is_low nowhere

elem-select_example :
    elem Addr-discrete (v4 10) (select [] results is_low nowhere).addrs
    ≡ returns is_low results (select [] results is_low nowhere).policy (v4 10)
elem-select_example = elem-select [] results is_low nowhere (v4 10)

select-perm_example :
    ((select [] results is_low nowhere).policy
      ≡ (select [] (abroad ∷ at_home ∷ []) is_low nowhere).policy)
    × ((a : Addr)
        → elem Addr-discrete a (select [] results is_low nowhere).addrs
          ≡ elem Addr-discrete a (select [] (abroad ∷ at_home ∷ []) is_low nowhere).addrs)
select-perm_example =
    select-perm [] is_low nowhere {rs = results} {rs' = abroad ∷ at_home ∷ []}
      (Perm.swap abroad at_home [])

select_ttl-IsLeast_example :
    IsLeast (v4 200 ∷ v4 11 ∷ []) results (select_ttl (v4 200 ∷ v4 11 ∷ []) results)
select_ttl-IsLeast_example = select_ttl-IsLeast (v4 200 ∷ v4 11 ∷ []) results

abbrev missing : List Result
missing =
    record at_home {
      addrs = [];
      state = nx_domain;
      soa = some (record { ttl = 9; minttl = 5; body = 0 });
    }
    ∷ record abroad { addrs = []; state = failure }
    ∷ []
