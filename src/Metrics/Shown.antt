-- ===== src/Metrics/Shown.antt =====
-- Which counters `Write` of internal/metrics/metrics.go prints, and with which values.
use Prim.Native.String.{String}
use text.Mathlib.Text.{◌==◌ as same_name}
use text.Mathlib.TextEquality.{eq_iff}
use chn_resolver_go.Prelude.{
  ℕ, zero, suc, ◌≡◌, ◌≢◌, refl, sym, subst, Bool, true, false, List, [], ◌∷◌, ◌++◌, map, arith,
  Bool-cases, inl, inr,
}
use chn_resolver_go.Text.{Text, codes}
use chn_resolver_go.Policy.{
  PolicyName, unset, override, prefer_china, all_non_china, fallback_china,
}
use chn_resolver_go.Metrics.{
  Named, UpstreamMetrics, Field, queries_udp, queries_tcp, form_errors, dropped_overload,
  parse_errors, all_resolved, all_forwarded, answers_noerror, answers_nxdomain, answers_nodata,
  answers_servfail, Metrics, policy_name,
}
use chn_resolver_go.Metrics.{has}
use chn_resolver_go.Metrics.Named.{value}
use chn_resolver_go.Metrics.Counts.{
  Slot, field, policy, result, failure, read, at_upstream, results_of, failures_of,
}
use chn_resolver_go.Metrics.Written.{
  labelled, Line, sample, field_line, policy_line, named_line, upstream_lines, all_upstream_lines,
  field_lines, policy_lines, write,
}

pub data Shows (l : Line) : List Line → Type 0 where
  here : {ls : List Line} → Shows l (l ∷ ls)
  there : {k : Line} {ls : List Line} → Shows l ls → Shows l (k ∷ ls)

Shows-left : {l : Line} {ks : List Line} (ls : List Line) → Shows l ks → Shows l (ks ++ ls)
Shows-left ls here = here
Shows-left ls (there h) = there (Shows-left ls h)

Shows-right : {l : Line} (ks : List Line) {ls : List Line} → Shows l ls → Shows l (ks ++ ls)
Shows-right [] h = h
Shows-right (k ∷ ks) h = there (Shows-right ks h)

field_lines-Shows : (m : Metrics) (f : Field) → Shows (field_line m f) (field_lines m)
unfolding field_lines
field_lines-Shows m queries_udp = there here
field_lines-Shows m queries_tcp = there (there here)
field_lines-Shows m all_resolved = there (there (there (there here)))
field_lines-Shows m all_forwarded = there (there (there (there (there here))))
field_lines-Shows m form_errors = there (there (there (there (there (there here)))))
field_lines-Shows m dropped_overload = there (there (there (there (there (there (there here))))))
field_lines-Shows m parse_errors =
    there (there (there (there (there (there (there (there here)))))))
field_lines-Shows m answers_noerror =
    there (there (there (there (there (there (there (there (there (there here)))))))))
field_lines-Shows m answers_nxdomain =
    there (there (there (there (there (there (there (there (there (there (there here))))))))))
field_lines-Shows m answers_nodata =
    there
      (there (there (there (there (there (there (there (there (there (there (there here)))))))))))
field_lines-Shows m answers_servfail = there (
    there
      (there (there (there (there (there (there (there (there (there (there (there here))))))))))))

-- A counter that has a name is printed with its value.
named-Shows :
    (metric label : String) (addr : Text) (k : String) (l : Named)
    → has k l ≡ true
    → Shows (named_line metric label addr (k, value k l)) (map (named_line metric label addr) l)
unfolding has value
named-Shows metric label addr k [] h = cc h
named-Shows metric label addr k ((q, n) ∷ rest) h = elim (Bool-cases (same_name k q)) [
  | inl e ↦ rw e (
      subst
        (λ z.
          Shows (named_line metric label addr (z, n))
            (map (named_line metric label addr) ((q, n) ∷ rest)))
        (sym ((eq_iff k q).0 e)) here)
  | inr e ↦ rw e (there (named-Shows metric label addr k rest (ground (arith, e, h))))
]

-- The upstream of an index has a counter of this name.
unfoldable pub has_at : (UpstreamMetrics → Named) → String → ℕ → List UpstreamMetrics → Bool
has_at part k i [] = false
has_at part k zero (u ∷ us) = has k (part u)
has_at part k (suc i) (u ∷ us) = has_at part k i us

unfoldable pub addr_at : ℕ → List UpstreamMetrics → Text
addr_at i [] = []
addr_at zero (u ∷ us) = u.addr
addr_at (suc i) (u ∷ us) = addr_at i us

results-Shows :
    (k : String) (i : ℕ) (us : List UpstreamMetrics)
    → has_at results_of k i us ≡ true
    → Shows
        (named_line "chn_resolver_upstream_results_total" "state"
          (addr_at i us)
          (k, at_upstream results_of k i us))
        (all_upstream_lines us)
unfolding has_at addr_at at_upstream all_upstream_lines upstream_lines
results-Shows k i [] h = cc h
results-Shows k zero (u ∷ us) h =
    Shows-left (all_upstream_lines us) (Shows-left _ (named-Shows _ _ u.addr k u.results h))
results-Shows k (suc i) (u ∷ us) h = Shows-right (upstream_lines u) (results-Shows k i us h)

failures-Shows :
    (k : String) (i : ℕ) (us : List UpstreamMetrics)
    → has_at failures_of k i us ≡ true
    → Shows
        (named_line "chn_resolver_upstream_failures_total" "category"
          (addr_at i us)
          (k, at_upstream failures_of k i us))
        (all_upstream_lines us)
unfolding has_at addr_at at_upstream all_upstream_lines upstream_lines
failures-Shows k i [] h = cc h
failures-Shows k zero (u ∷ us) h =
    Shows-left (all_upstream_lines us) (Shows-right _ (named-Shows _ _ u.addr k u.failures h))
failures-Shows k (suc i) (u ∷ us) h = Shows-right (upstream_lines u) (failures-Shows k i us h)

-- The metric that a field is read under, with its label.
abbrev pub promised : Field → ℕ → Line
promised queries_udp = sample "chn_resolver_queries_total" (("transport", codes "udp") ∷ [])
promised queries_tcp = sample "chn_resolver_queries_total" (("transport", codes "tcp") ∷ [])
promised all_resolved = sample "chn_resolver_outcomes_total" (("outcome", codes "resolved") ∷ [])
promised all_forwarded = sample "chn_resolver_outcomes_total" (("outcome", codes "forwarded") ∷ [])
promised form_errors = sample "chn_resolver_outcomes_total" (("outcome", codes "formerr") ∷ [])
promised dropped_overload =
    sample "chn_resolver_outcomes_total" (("outcome", codes "dropped_overload") ∷ [])
promised parse_errors = sample "chn_resolver_outcomes_total" (("outcome", codes "parse_error") ∷ [])
promised answers_noerror = sample "chn_resolver_answers_total" (("rcode", codes "noerror") ∷ [])
promised answers_nxdomain = sample "chn_resolver_answers_total" (("rcode", codes "nxdomain") ∷ [])
promised answers_nodata = sample "chn_resolver_answers_total" (("rcode", codes "nodata") ∷ [])
promised answers_servfail = sample "chn_resolver_answers_total" (("rcode", codes "servfail") ∷ [])

field_line-promised : (m : Metrics) (f : Field) → field_line m f ≡ promised f (m.fields f)
unfolding field_line labelled
field_line-promised m queries_udp = refl
field_line-promised m queries_tcp = refl
field_line-promised m all_resolved = refl
field_line-promised m all_forwarded = refl
field_line-promised m form_errors = refl
field_line-promised m dropped_overload = refl
field_line-promised m parse_errors = refl
field_line-promised m answers_noerror = refl
field_line-promised m answers_nxdomain = refl
field_line-promised m answers_nodata = refl
field_line-promised m answers_servfail = refl

-- The line of a counter, with the value that `read` gives.
abbrev pub slot_line : Slot → Metrics → Line
slot_line (field f) m = promised f (read (field f) m)
slot_line (policy k) m =
    sample "chn_resolver_policy_total" (("policy", codes k) ∷ []) (read (policy k) m)
slot_line (result i k) m =
    sample "chn_resolver_upstream_results_total"
      (("upstream", addr_at i m.upstreams) ∷ ("state", codes k) ∷ []) (read (result i k) m)
slot_line (failure i k) m =
    sample "chn_resolver_upstream_failures_total"
      (("upstream", addr_at i m.upstreams) ∷ ("category", codes k) ∷ []) (read (failure i k) m)

-- What `Write` lists: every field, the four policies, and the names of an upstream.
abbrev pub IsListed : Slot → Metrics → Type 0
IsListed (field f) m = Unit
IsListed (policy k) m = (p : PolicyName) × (p ≢ unset) × (k ≡ policy_name p)
IsListed (result i k) m = has_at results_of k i m.upstreams ≡ true
IsListed (failure i k) m = has_at failures_of k i m.upstreams ≡ true

policy_lines-Shows :
    (m : Metrics) (p : PolicyName) → p ≢ unset → Shows (policy_line m p) (policy_lines m)
unfolding policy_lines
policy_lines-Shows m unset h = absurd (h refl)
policy_lines-Shows m override h = there here
policy_lines-Shows m prefer_china h = there (there here)
policy_lines-Shows m all_non_china h = there (there (there here))
policy_lines-Shows m fallback_china h = there (there (there (there here)))

-- `Write` prints a line for each counter: a field under its metric and label, one of the four policies under
-- its name, and a result or a failure that an upstream counts under its address and name; each with the
-- value of the counter.
pub write-Shows :
    (s : Slot) (m : Metrics) (inflight uptime : ℕ)
    → IsListed s m
    → Shows (slot_line s m) (write m inflight uptime)
unfolding write read policy_line named_line
write-Shows (field f) m inflight uptime h =
    Shows-left _
      (subst (λ l. Shows l (field_lines m)) (field_line-promised m f) (field_lines-Shows m f))
write-Shows (policy k) m inflight uptime (p, set, e) =
    rw e (Shows-right (field_lines m) (Shows-left _ (policy_lines-Shows m p set)))
write-Shows (result i k) m inflight uptime h =
    Shows-right (field_lines m)
      (Shows-right (policy_lines m) (there (Shows-left _ (results-Shows k i m.upstreams h))))
write-Shows (failure i k) m inflight uptime h =
    Shows-right (field_lines m)
      (Shows-right (policy_lines m) (there (Shows-left _ (failures-Shows k i m.upstreams h))))
