-- ===== src/Metrics/Counts.antt =====
-- What any increments make of the counters of internal/metrics/metrics.go.
use Prim.Native.String.{String}
use mathlib.Core.Logic.{∥∥₁_elim}
use mathlib.Core.List.{Perm, Permᴰ}
use text.Mathlib.Text.{◌==◌ as same_name}
use chn_resolver_go.Prelude.{
  ℕ, zero, suc, ◌+◌, ◌%◌, ◌^◌, ◌<◌, ◌≡◌, refl, sym, ap, ◌∙◌, subst, Bool, true, false, ◌&&◌, List,
  [], ◌∷◌, arith, if◌then◌else◌, length, ◌==◌,
}
use chn_resolver_go.Server.{
  Counter, form_err, forwarded, resolved, noerror, nxdomain, nodata, servfail, by_policy,
  upstream_result, upstream_failure,
}
use chn_resolver_go.Metrics.{
  Named, UpstreamMetrics, Field, form_errors, all_resolved, all_forwarded, answers_noerror,
  answers_nxdomain, answers_nodata, answers_servfail, same_field, Metrics, policy_name, add_one,
  bump, count_name, change_at, record_upstream_result, record_upstream_failure, record_policy,
  count, count_all,
}
use chn_resolver_go.Metrics.{has}
use chn_resolver_go.Metrics.Named.{value, value-count_name, has-count_known, value-count_known}

-- A counter: a field, that of a policy, or one of an upstream.
pub data Slot : Type 0 where
  field : Field → Slot
  policy : String → Slot
  result failure : ℕ → String → Slot

abbrev pub results_of : UpstreamMetrics → Named
results_of u = u.results

abbrev pub failures_of : UpstreamMetrics → Named
failures_of u = u.failures

unfoldable pub at_upstream : (UpstreamMetrics → Named) → String → ℕ → List UpstreamMetrics → ℕ
at_upstream part k i [] = 0
at_upstream part k zero (u ∷ us) = value k (part u)
at_upstream part k (suc i) (u ∷ us) = at_upstream part k i us

unfoldable pub read : Slot → Metrics → ℕ
read (field f) m = m.fields f
read (policy k) m = value k m.policies
read (result i k) m = at_upstream results_of k i m.upstreams
read (failure i k) m = at_upstream failures_of k i m.upstreams

-- The counter is there: a policy has one of the names, and an upstream an index in range.
abbrev pub Exists : Slot → Metrics → Type 0
Exists (field f) m = Unit
Exists (policy k) m = has k m.policies ≡ true
Exists (result i k) m = i < length m.upstreams
Exists (failure i k) m = i < length m.upstreams

-- The increment is of this counter.
unfoldable pub hits : Slot → Counter → Bool
hits (field f) form_err = same_field form_errors f
hits (field f) forwarded = same_field all_forwarded f
hits (field f) resolved = same_field all_resolved f
hits (field f) noerror = same_field answers_noerror f
hits (field f) nxdomain = same_field answers_nxdomain f
hits (field f) nodata = same_field answers_nodata f
hits (field f) servfail = same_field answers_servfail f
hits (policy k) (by_policy p) = same_name k (policy_name p)
hits (result i k) (upstream_result j state) = j == i && same_name k state
hits (failure i k) (upstream_failure j category) = j == i && same_name k category
hits _ _ = false

length-change_at :
    (i : ℕ) (f : UpstreamMetrics → UpstreamMetrics) (us : List UpstreamMetrics)
    → length (change_at i f us) ≡ length us
unfolding change_at
length-change_at i f [] = refl
length-change_at zero f (u ∷ us) = refl
length-change_at (suc i) f (u ∷ us) = ap suc (length-change_at i f us)

-- A change of one part of an upstream, read at the same part or at another.
at_upstream-change_at :
    (part : UpstreamMetrics → Named) (k : String) (i j : ℕ) (f : UpstreamMetrics → UpstreamMetrics)
    (us : List UpstreamMetrics) (hit : Bool)
    → i < length us
    → ((u : UpstreamMetrics)
        → value k (part (f u)) ≡ (if hit then add_one (value k (part u)) else value k (part u)))
    → at_upstream part k i (change_at j f us)
      ≡ (if j == i && hit then add_one (at_upstream part k i us) else at_upstream part k i us)
unfolding at_upstream change_at
at_upstream-change_at part k i j f [] hit small h = absurd (omega (arith, small))
at_upstream-change_at part k zero zero f (u ∷ us) hit small h = h u
at_upstream-change_at part k zero (suc j) f (u ∷ us) hit small h = ground arith
at_upstream-change_at part k (suc i) zero f (u ∷ us) hit small h = ground arith
at_upstream-change_at part k (suc i) (suc j) f (u ∷ us) hit small h =
    ground (arith, at_upstream-change_at part k i j f us hit (omega (arith, small)) h)

read-count :
    (s : Slot) (c : Counter) (m : Metrics)
    → Exists s m
    → read s (count c m) ≡ (if hits s c then add_one (read s m) else read s m)
unfolding read count hits bump record_upstream_result record_upstream_failure record_policy
read-count (field f) c m h = ground arith
read-count (policy k) (by_policy p) m h = value-count_known k (policy_name p) m.policies h
read-count (policy k) _ m h = refl
read-count (result i k) (upstream_result j name) m h =
    at_upstream-change_at results_of k i j (λ u. record u { results = count_name name u.results })
      m.upstreams (same_name k name) h (λ u. value-count_name k name u.results)
read-count (result i k) (upstream_failure j name) m h = ground (
  arith,
  at_upstream-change_at results_of k i j (λ u. record u { failures = count_name name u.failures })
      m.upstreams false h (λ u. refl),
)
read-count (result i k) _ m h = refl
read-count (failure i k) (upstream_failure j name) m h =
    at_upstream-change_at failures_of k i j
      (λ u. record u { failures = count_name name u.failures }) m.upstreams (same_name k name) h
      (λ u. value-count_name k name u.failures)
read-count (failure i k) (upstream_result j name) m h = ground (
  arith,
  at_upstream-change_at failures_of k i j (λ u. record u { results = count_name name u.results })
      m.upstreams false h (λ u. refl),
)
read-count (failure i k) _ m h = refl

Exists-count : (s : Slot) (c : Counter) (m : Metrics) → Exists s m → Exists s (count c m)
unfolding count bump record_upstream_result record_upstream_failure record_policy
Exists-count (field f) c m h = tt
Exists-count (policy k) (by_policy p) m h = has-count_known k (policy_name p) m.policies ∙ h
Exists-count (policy k) _ m h = h
Exists-count (result i k) (upstream_result j name) m h =
    subst (λ n. i < n)
      (sym (length-change_at j (λ u. record u { results = count_name name u.results }) m.upstreams))
      h
Exists-count (result i k) (upstream_failure j name) m h =
    subst (λ n. i < n)
      (sym
        (length-change_at j (λ u. record u { failures = count_name name u.failures }) m.upstreams))
      h
Exists-count (result i k) _ m h = h
Exists-count (failure i k) (upstream_result j name) m h =
    subst (λ n. i < n)
      (sym (length-change_at j (λ u. record u { results = count_name name u.results }) m.upstreams))
      h
Exists-count (failure i k) (upstream_failure j name) m h =
    subst (λ n. i < n)
      (sym
        (length-change_at j (λ u. record u { failures = count_name name u.failures }) m.upstreams))
      h
Exists-count (failure i k) _ m h = h

-- The increments of a counter.
unfoldable pub hit_count : Slot → List Counter → ℕ
hit_count s [] = 0
hit_count s (c ∷ cs) = (if hits s c then 1 else 0) + hit_count s cs

pub read-count_all :
    (s : Slot) (cs : List Counter) (m : Metrics)
    → Exists s m
    → read s m < 2 ^ 64
    → read s (count_all cs m) ≡ (read s m + hit_count s cs) % 2 ^ 64
unfolding count_all hit_count
read-count_all s [] m h small = omega (arith, small)
read-count_all s (c ∷ cs) m h small =
    let step = read-count s c m h in
    let rest = read-count_all s cs (count c m) (Exists-count s c m h) in
    let below : read s (count c m) < 2 ^ 64 = ground (arith, step, small) in
    ground (arith, small, step, rest below)

hit_count-permᴰ : (s : Slot) {cs ds : List Counter} → Permᴰ cs ds → hit_count s cs ≡ hit_count s ds
unfolding hit_count
hit_count-permᴰ s Permᴰ.nil = refl
hit_count-permᴰ s (Permᴰ.cons e d) = ground (arith, e, hit_count-permᴰ s d)
hit_count-permᴰ s (Permᴰ.swap e f) = ground (arith, e, f)
hit_count-permᴰ s (Permᴰ.trans d e) = hit_count-permᴰ s d ∙ hit_count-permᴰ s e

hit_count-perm : (s : Slot) {cs ds : List Counter} → Perm cs ds → hit_count s cs ≡ hit_count s ds
hit_count-perm s p = ∥∥₁_elim p (hlevel) (hit_count-permᴰ s)

-- The same increments in another order, each made as one step, leave the same values.
pub read-perm :
    (s : Slot) (m : Metrics) {cs ds : List Counter}
    → Perm cs ds
    → Exists s m
    → read s m < 2 ^ 64
    → (read s (count_all cs m) ≡ (read s m + hit_count s cs) % 2 ^ 64)
      × (read s (count_all ds m) ≡ read s (count_all cs m))
read-perm s m {cs = cs} {ds = ds} p h small =
    let all = read-count_all s cs m h small in
    (
      all,
      read-count_all s ds m h small
          ∙ ap (λ n. (read s m + n) % 2 ^ 64) (sym (hit_count-perm s p))
          ∙ sym all,
    )
