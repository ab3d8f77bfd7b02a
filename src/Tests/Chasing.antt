-- ===== src/Tests/Chasing.antt =====
-- internal/upstream/chase.go on a network with a CNAME.
use chn_resolver_go.Prelude.{
  ℕ, ◌≡◌, ◌≢◌, ◌≤◌, ◌<◌, refl, arith, false, List, [], ◌∷◌, ◌++◌, none, All, length, Distinct, ◌==◌,
  if◌then◌else◌,
}
use chn_resolver_go.Prelude.Int.{pos}
use chn_resolver_go.Net.{v4}
use chn_resolver_go.Text.{Text-discrete, codes}
use chn_resolver_go.Dns.{Body, Rr, Msg, type_a, rcode_success}
use chn_resolver_go.Upstream.{
  reply, broken, Round, Chaser, chase, collect_addrs, rr_addr, addr_from_slice,
}
use chn_resolver_go.Upstream.Bounds.{chase_bounds}
use chn_resolver_go.Upstream.Answers.{IsSound, chase-IsSound}
use chn_resolver_go.Upstream.Ttl.{ttls, IsPositive, zero_ttl_lost}

abbrev pub record_a : ℕ → ℕ → Rr
record_a ttl last = record {
  name = codes "b.org.";
  rrtype = type_a;
  ttl = ttl;
  body = Body.a (192 ∷ 0 ∷ 2 ∷ last ∷ []);
}

abbrev pub alias : Rr
alias = record { name = codes "a.org."; rrtype = 5; ttl = 60; body = Body.cname (codes "b.org.") }

abbrev pub message : List Rr → Msg
message rrs = record { rcode = rcode_success; truncated = false; answer = rrs; ns = [] }

-- The first round gives the CNAME, the second the address.
abbrev pub rounds : ℕ → Round
rounds i = record {
  ctx_err = none;
  remaining = none;
  ctx_err_exchange = none;
  ctx_err_retry = none;
  udp = λ q budget.
      if i == 0 then reply (message (alias ∷ [])) else reply (message (record_a 30 7 ∷ []));
  tcp = λ q budget. broken;
}

abbrev pub chaser : Chaser
chaser = record {
  addr = v4 1;
  qtype = type_a;
  attempt_timeout = pos 5;
  udp_size = 1232;
  rcode_name = λ r. "";
}

chase_bounds_example :
    (length (chase chaser rounds 8 (codes "A.org")).1 ≤ 8)
    × Distinct Text-discrete (chase chaser rounds 8 (codes "A.org")).1
chase_bounds_example = chase_bounds chaser rounds 8 (codes "A.org")

chase-IsSound_example : IsSound chaser (chase chaser rounds 8 (codes "A.org")).0
chase-IsSound_example = chase-IsSound chaser rounds 8 (codes "A.org")

abbrev positive : List Rr
positive = record_a 30 7 ∷ alias ∷ record_a 20 8 ∷ []

ttls_run : ttls type_a positive ≡ 30 ∷ 20 ∷ []
unfolding ttls rr_addr addr_from_slice
ttls_run = refl

ttls-IsPositive : All IsPositive (ttls type_a positive)
ttls-IsPositive = rw ttls_run (omega arith, (omega arith, tt))

ttls_some : ttls type_a positive ≢ []
ttls_some e = cc (e, ttls_run)

-- An address of TTL 0, and one of TTL 20: the TTL collected is 20.
abbrev with_zero : List Rr
with_zero = record_a 0 7 ∷ record_a 20 8 ∷ []

ttls_zero_run : ttls type_a with_zero ≡ [] ++ (0 ∷ 20 ∷ [])
unfolding ttls rr_addr addr_from_slice
ttls_zero_run = refl

zero_ttl_lost_example : 0 < (collect_addrs type_a [] 0 with_zero).1
zero_ttl_lost_example = zero_ttl_lost type_a with_zero [] 20 [] ttls_zero_run (omega arith, tt)
