-- ===== src/Server/Relay.antt =====
-- `forward` of internal/server/forward.go.
use chn_resolver_go.Prelude.{
  ℕ, suc, ◌+◌, ◌≡◌, refl, ap, ◌∙◌, Bool, true, false, not, ◌||◌, List, [], ◌∷◌, ◌++◌, none, some,
  arith, length, inl, inr, if◌then◌else◌, ◌⊎◌,
}
use chn_resolver_go.Prelude.Int.{ℤ, pos, ltz}
use chn_resolver_go.Dns.{Msg, rcode_server_failure}
use chn_resolver_go.Upstream
use chn_resolver_go.Upstream.{Err, category}
use chn_resolver_go.Server.{
  Request, built, relayed, Counter, servfail, upstream_result, upstream_failure, Attempt,
  rcode_reply, forward_loop, forward,
}

-- The budget of an attempt, and whether it is made.
abbrev pub budget : ℤ → Attempt → ℤ
budget timeout a = elim a.remaining [
  | none ↦ timeout
  | some rem ↦ if ltz rem timeout then rem else timeout
]

abbrev pub is_made : ℤ → Attempt → Bool
is_made timeout a = not (a.ctx_done || not (ltz (pos 0) (budget timeout a)))

-- Upstreams that are asked and fail, with their errors.
abbrev pub Fails : ℤ → List Attempt → List Err → Type 0
Fails timeout [] [] = Unit
Fails timeout [] (e ∷ es) = ⊥
Fails timeout (a ∷ attempts) [] = ⊥
Fails timeout (a ∷ attempts) (e ∷ es) =
    (is_made timeout a ≡ true)
    × (a.exchange (budget timeout a) ≡ Upstream.err e)
    × Fails timeout attempts es

-- Their counters, from upstream `i` on.
unfoldable pub failures : ℕ → List Err → List Counter
failures i [] = []
failures i (e ∷ es) = upstream_failure i (category e) ∷ failures (suc i) es

pub forward_loop-err :
    (timeout : ℤ) (req : Request) (i : ℕ) (a : Attempt) (rest : List Attempt) (e : Err)
    → is_made timeout a ≡ true
    → a.exchange (budget timeout a) ≡ Upstream.err e
    → forward_loop timeout req i (a ∷ rest) ≡ (
      (forward_loop timeout req (suc i) rest).0,
      upstream_failure i (category e) ∷ (forward_loop timeout req (suc i) rest).1,
    )
unfolding forward_loop
forward_loop-err timeout req i a rest e made x =
    let goes : (a.ctx_done || not (ltz (pos 0) (budget timeout a))) ≡ false =
      ground (arith, made) in
    rw (goes, x, forward_loop) refl

pub forward_loop-ok :
    (timeout : ℤ) (req : Request) (i : ℕ) (a : Attempt) (rest : List Attempt) (m : Msg)
    → is_made timeout a ≡ true
    → a.exchange (budget timeout a) ≡ Upstream.ok m
    → forward_loop timeout req i (a ∷ rest) ≡ (relayed req.id m, upstream_result i "forwarded" ∷ [])
unfolding forward_loop
forward_loop-ok timeout req i a rest m made x =
    let goes : (a.ctx_done || not (ltz (pos 0) (budget timeout a))) ≡ false =
      ground (arith, made) in
    rw (goes, x, forward_loop) refl

pub forward_loop-over :
    (timeout : ℤ) (req : Request) (i : ℕ) (a : Attempt) (rest : List Attempt)
    → is_made timeout a ≡ false
    → forward_loop timeout req i (a ∷ rest)
      ≡ (built (rcode_reply req rcode_server_failure), servfail ∷ [])
unfolding forward_loop
forward_loop-over timeout req i a rest over =
    let stops : (a.ctx_done || not (ltz (pos 0) (budget timeout a))) ≡ true =
      ground (arith, over) in
    rw (stops, forward_loop) refl

add_none : (i : ℕ) → i ≡ i + 0
add_none i = omega arith

from_zero : (i : ℕ) → 0 + i ≡ i
from_zero i = omega arith

after_one : (i n : ℕ) → suc i + n ≡ i + suc n
after_one i n = omega arith

-- Failing upstreams in front only add their counters.
forward_loop-Fails :
    (timeout : ℤ) (req : Request) (i : ℕ) (front rest : List Attempt) (es : List Err)
    → Fails timeout front es
    → forward_loop timeout req i (front ++ rest) ≡ (
      (forward_loop timeout req (i + length front) rest).0,
      failures i es ++ (forward_loop timeout req (i + length front) rest).1,
    )
unfolding failures
forward_loop-Fails timeout req i [] rest [] h =
    ap (λ j. ((forward_loop timeout req j rest).0, (forward_loop timeout req j rest).1))
      (add_none i)
forward_loop-Fails timeout req i [] rest (e ∷ es) h = absurd h
forward_loop-Fails timeout req i (a ∷ front) rest [] h = absurd h
forward_loop-Fails timeout req i (a ∷ front) rest (e ∷ es) h =
    forward_loop-err timeout req i a (front ++ rest) e h.0 h.1
    ∙ ap (λ r. (r.0, upstream_failure i (category e) ∷ r.1))
        (forward_loop-Fails timeout req (suc i) front rest es h.2)
    ∙ ap
        (λ j. (
          (forward_loop timeout req j rest).0,
          upstream_failure i (category e)
              ∷ (failures (suc i) es ++ (forward_loop timeout req j rest).1),
        ))
        (after_one i (length front))

-- When the upstreams in front are asked in time and fail, and the next one is asked in time and
-- answers, `forward` relays its message with the client's ID, and counts the failures and the answer,
-- each with its upstream, whatever stands behind.
pub forward-relayed :
    (timeout : ℤ) (req : Request) (front : List Attempt) (es : List Err) (a : Attempt)
    (behind : List Attempt) (m : Msg)
    → Fails timeout front es
    → is_made timeout a ≡ true
    → a.exchange (budget timeout a) ≡ Upstream.ok m
    → forward timeout (front ++ (a ∷ behind)) req
      ≡ (relayed req.id m, failures 0 es ++ (upstream_result (length front) "forwarded" ∷ []))
unfolding forward
forward-relayed timeout req front es a behind m h made x =
    forward_loop-Fails timeout req 0 front (a ∷ behind) es h
    ∙ ap (λ r. (r.0, failures 0 es ++ r.1))
        (forward_loop-ok timeout req (0 + length front) a behind m made x)
    ∙ ap (λ j. (relayed req.id m, failures 0 es ++ (upstream_result j "forwarded" ∷ [])))
        (from_zero (length front))

-- When the upstreams in front are asked in time and fail, and then none is left or there is no time
-- for the next one, `forward` answers SERVFAIL, and counts the failures and the answer.
pub forward-failed :
    (timeout : ℤ) (req : Request) (front rest : List Attempt) (es : List Err)
    → Fails timeout front es
    → (rest ≡ [])
      ⊎ ((a : Attempt) × (behind : List Attempt) × (rest ≡ a ∷ behind)
          × (is_made timeout a ≡ false))
    → forward timeout (front ++ rest) req
      ≡ (built (rcode_reply req rcode_server_failure), failures 0 es ++ (servfail ∷ []))
unfolding forward forward_loop
forward-failed timeout req front rest es h (inl e) =
    forward_loop-Fails timeout req 0 front rest es h ∙ rw e refl
forward-failed timeout req front rest es h (inr (a, behind, e, over)) =
    forward_loop-Fails timeout req 0 front rest es h
    ∙ rw e (
        ap (λ r. (r.0, failures 0 es ++ r.1))
          (forward_loop-over timeout req (0 + length front) a behind over))
