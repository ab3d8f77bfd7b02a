-- ===== src/Metrics.antt =====
-- internal/metrics/metrics.go: the counters, and the two call-backs that count an upstream. A map of
-- counters is a list of names and values; a counter is a uint64 and wraps. A call is one step here, and
-- Metrics.Racing splits it.
pub mod Named
pub mod Racing
pub mod Overlaps
pub mod Counts
pub mod Answers
pub mod Written
pub mod Shown
use Prim.Native.String.{String}
use text.Mathlib.Text.{◌==◌ as same_name}
use chn_resolver_go.Prelude.{
  ℕ, zero, suc, ◌+◌, ◌%◌, ◌^◌, Bool, true, false, ◌||◌, List, [], ◌∷◌, map, Option, none, some,
  if◌then◌else◌, ◌==◌,
}
use chn_resolver_go.Text.{Text}
use chn_resolver_go.Policy.{
  State, failure, no_data, nx_domain, answer, PolicyName, unset, override, prefer_china,
  all_non_china, fallback_china,
}
use chn_resolver_go.Engine.{Call}
use chn_resolver_go.Server.{
  Counter, form_err, forwarded, resolved, noerror, nxdomain, nodata, servfail, by_policy,
  upstream_result, upstream_failure,
}

abbrev pub Named : Type 0
Named = List (String × ℕ)

-- `UpstreamMetrics`
pub record UpstreamMetrics : Type 0 where
  pub addr : Text
  pub results : Named
  pub failures : Named

-- The counters of `Metrics` that are fields of their own.
pub data Field : Type 0 where
  queries_udp queries_tcp form_errors dropped_overload parse_errors : Field
  all_resolved all_forwarded answers_noerror answers_nxdomain answers_nodata answers_servfail :
      Field

abbrev pub number : Field → ℕ
number queries_udp = 0
number queries_tcp = 1
number all_resolved = 2
number all_forwarded = 3
number form_errors = 4
number dropped_overload = 5
number parse_errors = 6
number answers_noerror = 7
number answers_nxdomain = 8
number answers_nodata = 9
number answers_servfail = 10

abbrev pub same_field : Field → Field → Bool
same_field f g = number f == number g

-- `Metrics`, without its start and the gauge of the queries in flight.
pub record Metrics : Type 0 where
  pub fields : Field → ℕ
  pub policies : Named
  pub upstreams : List UpstreamMetrics

-- The strings of the four policies.
abbrev pub policy_name : PolicyName → String
policy_name unset = ""
policy_name override = "override_non_china_from_non_china_resolvers"
policy_name prefer_china = "prefer_china_from_china_resolvers"
policy_name all_non_china = "all_non_china_return_only_non_china_resolvers"
policy_name fallback_china = "fallback_china_addresses"

-- `State.String` of internal/policy/policy.go
abbrev pub state_name : State → String
state_name failure = "failure"
state_name no_data = "nodata"
state_name nx_domain = "nxdomain"
state_name answer = "answer"

-- `New`
unfoldable pub new : List Text → Metrics
new addrs = record {
  fields = λ f. 0;
  policies =
      map (λ p. (policy_name p, 0)) (override ∷ prefer_china ∷ all_non_china ∷ fallback_china ∷ []);
  upstreams = map (λ a. record { addr = a; results = []; failures = [] }) addrs;
}

-- `Add(1)`
abbrev pub add_one : ℕ → ℕ
add_one n = suc n % 2 ^ 64

unfoldable pub bump : Field → Metrics → Metrics
bump f m = record m { fields = λ g. if same_field f g then add_one (m.fields g) else m.fields g }

-- `_, ok := dst[name]`
unfoldable pub has : String → Named → Bool
has name [] = false
has name ((q, n) ∷ rest) = same_name name q || has name rest

-- The end of `counter`, under its lock: a new counter if there is still none.
unfoldable pub insert_locked : String → Named → Named
insert_locked name dst = if has name dst then dst else (name, 0) ∷ dst

-- `counter` for a call that no other overlaps; Metrics.Racing has the steps of those that do.
unfoldable pub counter : String → Named → Named
counter name dst = if has name dst then dst else insert_locked name dst

-- `Add(1)` on the counter of a name that is there.
unfoldable pub count_known : String → Named → Named
count_known name [] = []
count_known name ((q, n) ∷ rest) =
    let later = count_known name rest in
    if same_name name q then (q, add_one n) ∷ rest else (q, n) ∷ later

-- `m.counter(dst, name).Add(1)`
unfoldable pub count_name : String → Named → Named
count_name name dst = count_known name (counter name dst)

-- `m.Upstreams[idx]`, changed; an index out of range changes nothing.
unfoldable pub change_at :
    ℕ → (UpstreamMetrics → UpstreamMetrics) → List UpstreamMetrics → List UpstreamMetrics
change_at i f [] = []
change_at zero f (u ∷ us) = f u ∷ us
change_at (suc i) f (u ∷ us) = u ∷ change_at i f us

-- `RecordUpstreamResult`
unfoldable pub record_upstream_result : ℕ → String → Metrics → Metrics
record_upstream_result idx state m = record m {
  upstreams = change_at idx (λ u. record u { results = count_name state u.results }) m.upstreams;
}

-- `RecordUpstreamFailure`
unfoldable pub record_upstream_failure : ℕ → String → Metrics → Metrics
record_upstream_failure idx category m = record m {
  upstreams =
      change_at idx (λ u. record u { failures = count_name category u.failures }) m.upstreams;
}

-- `RecordPolicy`
unfoldable pub record_policy : String → Metrics → Metrics
record_policy name m = record m { policies = count_known name m.policies }

-- What an increment of the handlers does.
unfoldable pub count : Counter → Metrics → Metrics
count form_err = bump form_errors
count forwarded = bump all_forwarded
count resolved = bump all_resolved
count noerror = bump answers_noerror
count nxdomain = bump answers_nxdomain
count nodata = bump answers_nodata
count servfail = bump answers_servfail
count (by_policy p) = record_policy (policy_name p)
count (upstream_result i state) = record_upstream_result i state
count (upstream_failure i category) = record_upstream_failure i category

-- `OnResult`, which `main` sets, as increments of the handlers.
unfoldable pub on_result : Call → List Counter
on_result c = elim c.state [
  | failure ↦ upstream_result c.idx (state_name failure) ∷ upstream_failure c.idx c.category ∷ []
  | s ↦ upstream_result c.idx (state_name s) ∷ []
]

-- Increments, one after the other.
unfoldable pub count_all : List Counter → Metrics → Metrics
count_all [] m = m
count_all (c ∷ cs) m = count_all cs (count c m)
