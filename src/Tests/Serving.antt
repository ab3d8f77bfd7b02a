-- ===== src/Tests/Serving.antt =====
-- internal/server/handler.go and forward.go on one request.
use chn_resolver_go.Prelude.{
  ℕ, ◌≡◌, refl, arith, false, [], ◌∷◌, ◌++◌, Option, none, some, length, inr,
}
use chn_resolver_go.Prelude.Int.{pos, negsuc, ltz}
use chn_resolver_go.Net.{v4}
use chn_resolver_go.Text.{Text, codes}
use chn_resolver_go.Dns.{Msg, rcode_server_failure}
use chn_resolver_go.Cache.{Value}
use chn_resolver_go.Upstream
use chn_resolver_go.Upstream.{err_timeout, collect_addrs}
use chn_resolver_go.Server.{
  Question, Request, Attempt, built, relayed, upstream_result, servfail, rcode_reply,
  build_positive, forward,
}
use chn_resolver_go.Server.Answers.{collect_addrs-build_positive}
use chn_resolver_go.Server.Relay.{failures, forward-relayed, forward-failed}
use chn_resolver_go.Tests.Caching.{value}

abbrev pub question : Question
question = record { name = codes "example.org."; qtype = 1; qclass = 1 }

abbrev pub request : Request
request = record {
  id = 7;
  opcode = 0;
  question = question ∷ [];
  opt = some (record { version = 0; udp_size = 4096 });
}

abbrev message : Msg
message = record { rcode = 0; truncated = false; answer = []; ns = [] }

-- An upstream that times out, one that replies, and one whose turn comes after the deadline.
abbrev slow : Attempt
slow = record { ctx_done = false; remaining = none; exchange = λ _. Upstream.err err_timeout }

abbrev good : Attempt
good = record { ctx_done = false; remaining = some (pos 9); exchange = λ _. Upstream.ok message }

abbrev late : Attempt
late = record { ctx_done = false; remaining = some (negsuc 3); exchange = λ _. Upstream.ok message }

-- A lookup that finds one address.
abbrev pub found : Text → ℕ → Option Value
found name qtype = some value

collect_addrs-build_positive_example :
    collect_addrs 1 [] 0 (build_positive request question (v4 7 ∷ v4 9 ∷ []) 60).answer
    ≡ (v4 7 ∷ v4 9 ∷ [], 60)
collect_addrs-build_positive_example =
    collect_addrs-build_positive request question (v4 7) (v4 9 ∷ []) 60
      ((omega arith, refl), ((omega arith, refl), tt))

forward-relayed_example : forward (pos 5) ((slow ∷ []) ++ (good ∷ late ∷ [])) request ≡ (
  relayed 7 message,
  failures 0 (err_timeout ∷ []) ++ (upstream_result (length (slow ∷ [])) "forwarded" ∷ []),
)
unfolding ltz
forward-relayed_example =
    forward-relayed (pos 5) request (slow ∷ []) (err_timeout ∷ []) good (late ∷ []) message
      (refl, refl, tt) refl refl

forward-failed_example : forward (pos 5) ((slow ∷ []) ++ (late ∷ good ∷ [])) request ≡ (
  built (rcode_reply request rcode_server_failure),
  failures 0 (err_timeout ∷ []) ++ (servfail ∷ []),
)
unfolding ltz
forward-failed_example =
    forward-failed (pos 5) request (slow ∷ []) (late ∷ good ∷ []) (err_timeout ∷ [])
      (refl, refl, tt) (inr (late, good ∷ [], refl, refl))
