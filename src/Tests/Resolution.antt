-- ===== src/Tests/Resolution.antt =====
-- internal/engine/engine.go on three upstreams, one of them late.
use chn_resolver_go.Prelude.{
  ℕ, not, is_empty, ◌≡◌, refl, arith, Bool, true, false, inl, inr, List, [], ◌∷◌, ◌++◌, map, none,
  some, elem,
}
use chn_resolver_go.Net.{Addr, v4, Addr-discrete, unmap, before}
use chn_resolver_go.Text.{Text, codes}
use chn_resolver_go.Policy
use chn_resolver_go.Policy.{answer, failure, select}
use chn_resolver_go.China.{index_contains, contains, sort_search, search_between}
use chn_resolver_go.Engine.{
  Assets, is_china, is_override, Outcome, Event, arrive, Resolved, early_stable, stable_results,
  stable_addrs, report_of, resolve_loop, finalize, resolve,
}
use chn_resolver_go.Engine.Early.{early_answer_stands}
use chn_resolver_go.Engine.Chased.{Asked, sent, finalize-answered}
use chn_resolver_go.Tests.Chasing.{chaser, rounds}
use chn_resolver_go.Engine.Final.{answered}
use chn_resolver_go.Engine.Loop.{Returns, results_of, resolve-Returns}
use chn_resolver_go.Engine.Termination.{resolve_total}

-- 0.0.0.0/26 is China; no name is on the override list.
abbrev pub assets : Assets
assets = record {
  china = record {
    v4_spans = record { lo = v4 0; hi = v4 63 } ∷ [];
    v6_spans = [];
    v4_input = 1;
    v6_input = 0;
  };
  overrides = record { exact = []; wildcard = [] };
}

abbrev pub result : ℕ → Bool → Addr → Policy.Result
result server server_china addr = record {
  server = v4 server;
  server_china = server_china;
  addrs = addr ∷ [];
  state = answer;
  soa = none;
  min_ttl = 60;
  err_category = "";
}

abbrev pub outcome : ℕ → Policy.Result → Outcome
outcome idx r = record { result = r; latency = 7; idx = idx }

abbrev pub home : Policy.Result
home = result 1 true (v4 10)

abbrev pub foreign : Policy.Result
foreign = result 2 false (v4 200)

abbrev late : Policy.Result
late = result 3 false (v4 201)

abbrev taken : List Outcome
taken = outcome 0 home ∷ outcome 1 foreign ∷ []

abbrev pub qname : Text
qname = codes "example.org"

early_stable_run : early_stable assets qname (results_of taken) ≡ true
unfolding early_stable stable_results stable_addrs is_china index_contains unmap contains
    sort_search search_between before
early_stable_run = refl

-- The answer after two of three outcomes.
abbrev early : Resolved
early = record {
  result =
      finalize assets qname (home ∷ foreign ∷ [])
        (report_of (outcome 0 home) ∷ report_of (outcome 1 foreign) ∷ []) false;
  calls =
      record { idx = 0; state = answer; category = "" }
      ∷ record { idx = 1; state = answer; category = "" }
      ∷ [];
}

abbrev events : List Event
events = arrive (outcome 0 home) ∷ arrive (outcome 1 foreign) ∷ arrive (outcome 2 late) ∷ []

resolve_run : resolve assets qname 3 events ≡ some early
unfolding resolve resolve_loop early_stable stable_results stable_addrs is_china index_contains
    unmap contains sort_search search_between before
resolve_run = refl

resolve-Returns_example : Returns assets qname 3 [] events early
resolve-Returns_example = resolve-Returns assets qname 3 events early resolve_run

resolve_total_example :
    (d : Resolved) × (resolve assets qname 3 (map arrive taken ++ (arrive (outcome 2 late) ∷ []))
      ≡ some d)
resolve_total_example =
    resolve_total assets qname 3 taken (arrive (outcome 2 late) ∷ []) (omega arith)
      (inr (inl early_stable_run))

early_answer_stands_example :
    ((select qname
        ((home ∷ foreign ∷ []) ++ (late ∷ []))
        (is_china assets)
        (is_override assets)).policy
      ≡ (select qname (home ∷ foreign ∷ []) (is_china assets) (is_override assets)).policy)
    × ((a : Addr)
        → elem Addr-discrete a
            (select qname (home ∷ foreign ∷ []) (is_china assets) (is_override assets)).addrs
          ≡ true
        → elem Addr-discrete a
            (select qname
              ((home ∷ foreign ∷ []) ++ (late ∷ []))
              (is_china assets)
              (is_override assets)).addrs
          ≡ true)
early_answer_stands_example =
    early_answer_stands assets qname (home ∷ foreign ∷ []) (late ∷ []) early_stable_run

abbrev asked : List Asked
asked =
    record {
      upstream = record { addr = v4 1; port = 53; in_china = true };
      chaser = chaser;
      rounds = rounds;
      latency = 7;
    }
    ∷ []

finalize-answered_example :
    let rs = map (sent 8 qname) asked in
    is_empty (finalize assets qname rs [] true).addrs ≡ not (answered rs)
finalize-answered_example = finalize-answered assets qname 8 asked [] true
