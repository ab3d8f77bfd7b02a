-- ===== src/Metrics/Written.antt =====
-- `Write` of internal/metrics/metrics.go: its lines, before they are printed as text. A map is printed in
-- the order of its list.
use Prim.Native.String.{String}
use chn_resolver_go.Prelude.{ℕ, List, [], ◌∷◌, ◌++◌, map}
use chn_resolver_go.Text.{Text, codes}
use chn_resolver_go.Policy.{PolicyName, override, prefer_china, all_non_china, fallback_china}
use chn_resolver_go.Metrics.{
  UpstreamMetrics, Field, queries_udp, queries_tcp, form_errors, dropped_overload, parse_errors,
  all_resolved, all_forwarded, answers_noerror, answers_nxdomain, answers_nodata, answers_servfail,
  Metrics, policy_name,
}
use chn_resolver_go.Metrics.Named.{value}

-- A metric with its kind, or a metric with labels and a value.
pub data Line : Type 0 where
  type_line : String → String → Line
  sample : String → List (String × Text) → ℕ → Line

-- The metric and the label of a field.
unfoldable pub labelled : Field → String × String × String
labelled queries_udp = ("chn_resolver_queries_total", "transport", "udp")
labelled queries_tcp = ("chn_resolver_queries_total", "transport", "tcp")
labelled all_resolved = ("chn_resolver_outcomes_total", "outcome", "resolved")
labelled all_forwarded = ("chn_resolver_outcomes_total", "outcome", "forwarded")
labelled form_errors = ("chn_resolver_outcomes_total", "outcome", "formerr")
labelled dropped_overload = ("chn_resolver_outcomes_total", "outcome", "dropped_overload")
labelled parse_errors = ("chn_resolver_outcomes_total", "outcome", "parse_error")
labelled answers_noerror = ("chn_resolver_answers_total", "rcode", "noerror")
labelled answers_nxdomain = ("chn_resolver_answers_total", "rcode", "nxdomain")
labelled answers_nodata = ("chn_resolver_answers_total", "rcode", "nodata")
labelled answers_servfail = ("chn_resolver_answers_total", "rcode", "servfail")

unfoldable pub field_line : Metrics → Field → Line
field_line m f =
    let (metric, label, name) = labelled f in sample metric ((label, codes name) ∷ []) (m.fields f)

unfoldable pub policy_line : Metrics → PolicyName → Line
policy_line m p =
    sample "chn_resolver_policy_total" (("policy", codes (policy_name p)) ∷ [])
      (value (policy_name p) m.policies)

-- A counter of an upstream, under its address and its name.
unfoldable pub named_line : String → String → Text → String × ℕ → Line
named_line metric label addr (name, n) =
    sample metric (("upstream", addr) ∷ (label, codes name) ∷ []) n

unfoldable pub upstream_lines : UpstreamMetrics → List Line
upstream_lines u =
    map (named_line "chn_resolver_upstream_results_total" "state" u.addr) u.results
    ++ map (named_line "chn_resolver_upstream_failures_total" "category" u.addr) u.failures

unfoldable pub all_upstream_lines : List UpstreamMetrics → List Line
all_upstream_lines [] = []
all_upstream_lines (u ∷ us) = upstream_lines u ++ all_upstream_lines us

-- The lines up to the policies; those of the policies; and those behind the upstreams.
unfoldable pub field_lines : Metrics → List Line
field_lines m =
    type_line "chn_resolver_queries_total" "counter"
    ∷ field_line m queries_udp
    ∷ field_line m queries_tcp
    ∷ type_line "chn_resolver_outcomes_total" "counter"
    ∷ field_line m all_resolved
    ∷ field_line m all_forwarded
    ∷ field_line m form_errors
    ∷ field_line m dropped_overload
    ∷ field_line m parse_errors
    ∷ type_line "chn_resolver_answers_total" "counter"
    ∷ field_line m answers_noerror
    ∷ field_line m answers_nxdomain
    ∷ field_line m answers_nodata
    ∷ field_line m answers_servfail
    ∷ []

unfoldable pub policy_lines : Metrics → List Line
policy_lines m =
    type_line "chn_resolver_policy_total" "counter"
    ∷ map (policy_line m) (override ∷ prefer_china ∷ all_non_china ∷ fallback_china ∷ [])

unfoldable pub gauge_lines : ℕ → ℕ → List Line
gauge_lines inflight uptime =
    type_line "chn_resolver_inflight" "gauge"
    ∷ sample "chn_resolver_inflight" [] inflight
    ∷ type_line "chn_resolver_uptime_seconds" "gauge"
    ∷ sample "chn_resolver_uptime_seconds" [] uptime
    ∷ []

-- `Write`, with the gauge of the queries in flight and the whole seconds since the start.
unfoldable pub write : Metrics → ℕ → ℕ → List Line
write m inflight uptime =
    field_lines m
    ++ (policy_lines m
        ++ (type_line "chn_resolver_upstream_results_total" "counter"
            ∷ (all_upstream_lines m.upstreams ++ gauge_lines inflight uptime)))
