-- ===== src/Server/Counting.antt =====
-- The counters of `handleRequest` of internal/server/handler.go against the responses.
use chn_resolver_go.Prelude.{
  ℕ, suc, ◌≡◌, refl, ap, Bool, true, false, ◌||◌, List, [], ◌∷◌, Option, none, some, ◌==◌, ◌⊎◌,
  arith, Bool-cases, inl, inr, if◌then◌else◌, is_empty,
}
use chn_resolver_go.Prelude.Int.{ℤ}
use chn_resolver_go.Text.{Text}
use chn_resolver_go.Dns.{
  Msg, rcode_format_error, rcode_server_failure, rcode_name_error, rcode_success,
}
use chn_resolver_go.Cache.{Value}
use chn_resolver_go.Upstream
use chn_resolver_go.Server.Relay.{
  budget, is_made, forward_loop-err, forward_loop-ok, forward_loop-over,
}
use chn_resolver_go.Server.{
  Request, Question, Reply, Response, built, relayed, Counter, noerror, nxdomain, nodata, servfail,
  Attempt, rcode_reply, rcode_bad_vers, build_positive, build_negative, apply_edns, synthesize,
  forward_loop, forward, has_bad_version, is_foreign, conclude, handle_questions, handle_request,
}

-- The counters of answers, `AnswersNOERROR` to `AnswersSERVFAIL`.
abbrev pub is_answer_counter : Counter → Bool
is_answer_counter noerror = true
is_answer_counter nxdomain = true
is_answer_counter nodata = true
is_answer_counter servfail = true
is_answer_counter _ = false

unfoldable pub answers : List Counter → ℕ
answers [] = 0
answers (c ∷ cs) = if is_answer_counter c then suc (answers cs) else answers cs

-- Whether the response is an answer of this server: not one relayed, and not the refusal of a request
-- that it does not read.
abbrev pub is_refusal : Option ℕ → Bool
is_refusal none = false
is_refusal (some rcode) = rcode == rcode_format_error || rcode == rcode_bad_vers

abbrev pub own_answers : Response → ℕ
own_answers (built r) = if is_refusal r.rcode then 0 else 1
own_answers (relayed id m) = 0

Reply-outcomes :
    (x : Upstream.Reply)
    → ((e : Upstream.Err) × (x ≡ Upstream.err e)) ⊎ ((m : Msg) × (x ≡ Upstream.ok m))
Reply-outcomes (Upstream.err e) = inl (e, refl)
Reply-outcomes (Upstream.ok m) = inr (m, refl)

forward_loop-answers :
    (timeout : ℤ) (req : Request) (i : ℕ) (attempts : List Attempt)
    → answers (forward_loop timeout req i attempts).1
      ≡ own_answers (forward_loop timeout req i attempts).0
unfolding forward_loop answers rcode_reply
forward_loop-answers timeout req i [] = refl
forward_loop-answers timeout req i (a ∷ rest) = elim (Bool-cases (is_made timeout a)) [
  | inr over ↦ rw (forward_loop-over timeout req i a rest over) refl
  | inl made ↦ elim (Reply-outcomes (a.exchange (budget timeout a))) [
    | inl (e, x) ↦
        rw (forward_loop-err timeout req i a rest e made x)
          (forward_loop-answers timeout req (suc i) rest)
    | inr (m, x) ↦ rw (forward_loop-ok timeout req i a rest m made x) refl
  ]
]

apply_edns-rcode : (req : Request) (r : Reply) → (apply_edns req r).rcode ≡ r.rcode
unfolding apply_edns
apply_edns-rcode req r = ground arith

synthesize-answers :
    (req : Request) (q : Question) (v : Value)
    → (answers (synthesize req q v).1 ≡ 1) × (is_refusal (synthesize req q v).0.rcode ≡ false)
unfolding synthesize answers build_positive build_negative rcode_reply apply_edns
synthesize-answers req q v = elim (Bool-cases (is_empty v.addrs)) [
  | inr some_addrs ↦
      rw (some_addrs, synthesize)
        (refl, ap is_refusal (apply_edns-rcode req (build_positive req q v.addrs v.ttl)))
  | inl no_addrs ↦ elim (Bool-cases (v.rcode == rcode_name_error)) [
    | inl nx ↦
        rw (no_addrs, nx, synthesize)
          (
            refl,
            ap is_refusal (apply_edns-rcode req (build_negative req rcode_name_error v.soa v.ttl)),
          )
    | inr other ↦ elim (Bool-cases (v.rcode == rcode_success)) [
      | inl empty ↦
          rw (no_addrs, other, empty, synthesize)
            (
              refl,
              ap is_refusal (apply_edns-rcode req (build_negative req rcode_success v.soa v.ttl)),
            )
      | inr failed ↦
          rw (no_addrs, other, failed, synthesize)
            (refl, ap is_refusal (apply_edns-rcode req (rcode_reply req rcode_server_failure)))
    ]
  ]
]

conclude-answers :
    (req : Request) (q : Question) (o : Option Value)
    → answers (conclude req q o).1 ≡ own_answers (conclude req q o).0
unfolding conclude answers rcode_reply
conclude-answers req q none = refl
conclude-answers req q (some v) =
    let (one, own) = synthesize-answers req q v in ground (arith, one, own)

handle_questions-answers :
    (lookup : Text → ℕ → Option Value) (timeout : ℤ) (attempts : List Attempt) (req : Request)
    (qs : List Question)
    → answers (handle_questions lookup timeout attempts req qs).1
      ≡ own_answers (handle_questions lookup timeout attempts req qs).0
unfolding handle_questions answers forward rcode_reply
handle_questions-answers lookup timeout attempts req [] = refl
handle_questions-answers lookup timeout attempts req (q ∷ others) =
    elim (Bool-cases (has_bad_version req)) [
      | inl bad ↦ rw (bad, handle_questions) refl
      | inr good ↦ elim (Bool-cases (is_foreign req q others)) [
        | inl away ↦ rw (good, away, handle_questions) (forward_loop-answers timeout req 0 attempts)
        | inr here ↦
            rw (good, here, handle_questions) (conclude-answers req q (lookup q.name q.qtype))
      ]
    ]

-- Of every request, whatever it is and whatever the lookup and the upstreams give: one answer counter
-- is counted when the response is an answer of this server, and none when it is a relayed message, a
-- FORMERR or a BADVERS.
pub handle_request-answers :
    (lookup : Text → ℕ → Option Value) (timeout : ℤ) (attempts : List Attempt) (req : Request)
    → answers (handle_request lookup timeout attempts req).1
      ≡ own_answers (handle_request lookup timeout attempts req).0
unfolding handle_request
handle_request-answers lookup timeout attempts req =
    handle_questions-answers lookup timeout attempts req req.question
