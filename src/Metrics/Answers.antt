-- ===== src/Metrics/Answers.antt =====
-- The counters of answers in internal/metrics/metrics.go after requests that internal/server/handler.go
-- handled at the same time.
use mathlib.Core.List.{Perm}
use chn_resolver_go.Prelude.{ℕ, ◌+◌, ◌%◌, ◌^◌, ◌≡◌, refl, List, [], ◌∷◌, ◌++◌, arith, Option}
use chn_resolver_go.Prelude.Int.{ℤ}
use chn_resolver_go.Text.{Text}
use chn_resolver_go.Cache.{Value}
use chn_resolver_go.Server.{
  Request, Attempt, Counter, form_err, forwarded, resolved, noerror, nxdomain, nodata, servfail,
  by_policy, upstream_result, upstream_failure, handle_request,
}
use chn_resolver_go.Server.Counting.{answers, own_answers, handle_request-answers}
use chn_resolver_go.Metrics.{
  Field, answers_noerror, answers_nxdomain, answers_nodata, answers_servfail, new, count_all,
}
use chn_resolver_go.Metrics.Counts.{Slot, read, hits, hit_count, read-perm}

-- A request with what its handling meets.
pub record Handled : Type 0 where
  pub lookup : Text → ℕ → Option Value
  pub timeout : ℤ
  pub attempts : List Attempt
  pub request : Request

-- The increments of the requests, and the answers that this server gave of its own.
unfoldable pub increments : List Handled → List Counter
increments [] = []
increments (h ∷ hs) = (handle_request h.lookup h.timeout h.attempts h.request).1 ++ increments hs

unfoldable pub own_total : List Handled → ℕ
own_total [] = 0
own_total (h ∷ hs) =
    own_answers (handle_request h.lookup h.timeout h.attempts h.request).0 + own_total hs

answers-append : (cs ds : List Counter) → answers (cs ++ ds) ≡ answers cs + answers ds
unfolding answers
answers-append [] ds = omega arith
answers-append (c ∷ cs) ds = ground (arith, answers-append cs ds)

answers-increments : (hs : List Handled) → answers (increments hs) ≡ own_total hs
unfolding increments own_total answers
answers-increments [] = refl
answers-increments (h ∷ hs) = omega (
  arith,
  answers-append (handle_request h.lookup h.timeout h.attempts h.request).1 (increments hs),
  handle_request-answers h.lookup h.timeout h.attempts h.request,
  answers-increments hs,
)

abbrev hit : Field → List Counter → ℕ
hit f cs = hit_count (Slot.field f) cs

answers-hits :
    (cs : List Counter)
    → answers cs
      ≡ hit answers_noerror cs
        + hit answers_nxdomain cs
        + hit answers_nodata cs
        + hit answers_servfail cs
unfolding answers hit_count hits
answers-hits [] = refl
answers-hits (form_err ∷ cs) = omega (arith, answers-hits cs)
answers-hits (forwarded ∷ cs) = omega (arith, answers-hits cs)
answers-hits (resolved ∷ cs) = omega (arith, answers-hits cs)
answers-hits (noerror ∷ cs) = omega (arith, answers-hits cs)
answers-hits (nxdomain ∷ cs) = omega (arith, answers-hits cs)
answers-hits (nodata ∷ cs) = omega (arith, answers-hits cs)
answers-hits (servfail ∷ cs) = omega (arith, answers-hits cs)
answers-hits (by_policy p ∷ cs) = omega (arith, answers-hits cs)
answers-hits (upstream_result i s ∷ cs) = omega (arith, answers-hits cs)
answers-hits (upstream_failure i s ∷ cs) = omega (arith, answers-hits cs)

module _ (addrs : List Text) {cs ds : List Counter} (p : Perm cs ds) where
  field_value : (f : Field) → (count_all ds (new addrs)).fields f ≡ hit f cs % 2 ^ 64
  unfolding read new
  field_value f =
      let (value, same) = read-perm (Slot.field f) (new addrs) p tt (omega arith) in
      omega (arith, value, same)

-- However the increments of any requests interleave, from new metrics on, the four counters of answers
-- sum up, modulo 2^64, to the answers that this server gave of its own: the replies that are neither
-- relayed nor the refusal of a request that it does not read.
pub answers-counted :
    (hs : List Handled) (addrs : List Text) {ds : List Counter}
    → Perm (increments hs) ds
    → let m = count_all ds (new addrs) in
      (m.fields answers_noerror
          + m.fields answers_nxdomain
          + m.fields answers_nodata
          + m.fields answers_servfail)
        % 2 ^ 64
      ≡ own_total hs % 2 ^ 64
answers-counted hs addrs p = omega (
  arith,
  field_value addrs p answers_noerror,
  field_value addrs p answers_nxdomain,
  field_value addrs p answers_nodata,
  field_value addrs p answers_servfail,
  answers-hits (increments hs),
  answers-increments hs,
)
