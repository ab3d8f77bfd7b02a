-- ===== src/Tests/Metering.antt =====
-- Increments of the handlers, and the counters and lines that they lead to.
use chn_resolver_go.Metrics.Shown.{Shows, slot_line, IsListed, has_at, write-Shows}
use chn_resolver_go.Metrics.Written.{write}
use chn_resolver_go.Metrics.{has, counter, insert_locked}
use chn_resolver_go.Prelude.Int.{pos}
use chn_resolver_go.Tests.Serving.{request, found}
use chn_resolver_go.Metrics.Answers.{Handled, increments, own_total, answers-counted}
use chn_resolver_go.Metrics.{answers_noerror, answers_nxdomain, answers_nodata, answers_servfail}
use chn_resolver_go.Server.{
  handle_request, handle_questions, has_bad_version, is_foreign, conclude, synthesize,
  build_positive, apply_edns, rcode_reply, noerror, resolved, servfail,
}
use mathlib.Core.List.{Perm}
use mathlib.Core.List.Perm
use chn_resolver_go.Prelude.{◌%◌, ◌^◌, ◌+◌, ◌≡◌, refl, List, [], ◌∷◌, none}
use chn_resolver_go.Policy.{prefer_china}
use chn_resolver_go.Server.{Counter, by_policy, upstream_failure}
use chn_resolver_go.Metrics.{
  Metrics, new, count_all, count, record_upstream_failure, record_policy, change_at, count_name,
  count_known,
}
use chn_resolver_go.Metrics.Named.{value}
use chn_resolver_go.Metrics.Counts.{Slot, at_upstream, read}

abbrev two_upstreams : Metrics
two_upstreams = new ([] ∷ [] ∷ [])

abbrev some_counts : List Counter
some_counts = upstream_failure 1 "timeout" ∷ by_policy prefer_china ∷ []

abbrev counts_turned : List Counter
counts_turned = by_policy prefer_china ∷ upstream_failure 1 "timeout" ∷ []

read_run : read (Slot.failure 1 "timeout") (count_all some_counts two_upstreams) ≡ 1
unfolding new read count_all count record_upstream_failure record_policy change_at count_name
    count_known at_upstream value has counter insert_locked
read_run = refl

policy_run :
    read (Slot.policy "prefer_china_from_china_resolvers") (count_all some_counts two_upstreams) ≡ 1
unfolding new read count_all count record_upstream_failure record_policy change_at count_name
    count_known at_upstream value has counter insert_locked
policy_run = refl

-- Two requests: the lookup of the first fails, and the second is answered.
abbrev two_handled : List Handled
two_handled =
    record { lookup = λ name qtype. none; timeout = pos 5; attempts = []; request = request }
    ∷ record { lookup = found; timeout = pos 5; attempts = []; request = request }
    ∷ []

abbrev interleaved : List Counter
interleaved = resolved ∷ servfail ∷ by_policy prefer_china ∷ noerror ∷ []

interleaves : Perm (increments two_handled) interleaved
unfolding increments handle_request handle_questions has_bad_version is_foreign conclude synthesize
interleaves = Perm.swap resolved servfail (by_policy prefer_china ∷ noerror ∷ [])

answers-counted_example :
    let m = count_all interleaved (new []) in
    (m.fields answers_noerror
        + m.fields answers_nxdomain
        + m.fields answers_nodata
        + m.fields answers_servfail)
      % 2 ^ 64
    ≡ own_total two_handled % 2 ^ 64
answers-counted_example = answers-counted two_handled [] interleaves

own_run : own_total two_handled ≡ 2
unfolding own_total handle_request handle_questions has_bad_version is_foreign conclude synthesize
    build_positive apply_edns rcode_reply
own_run = refl

abbrev counted : Metrics
counted = count_all some_counts two_upstreams

timeout-IsListed : IsListed (Slot.failure 1 "timeout") counted
unfolding new count_all count record_upstream_failure record_policy change_at count_name count_known
    has counter insert_locked has_at
timeout-IsListed = refl

write-Shows_example : Shows (slot_line (Slot.failure 1 "timeout") counted) (write counted 0 9)
write-Shows_example = write-Shows (Slot.failure 1 "timeout") counted 0 9 timeout-IsListed
