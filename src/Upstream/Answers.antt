-- ===== src/Upstream/Answers.antt =====
-- What a result of `Chase` of internal/upstream/chase.go looks like.
use Prim.Native.String.{String}
use chn_resolver_go.Prelude.{
  ℕ, ◌≡◌, refl, subst, Bool, true, false, not, ◌&&◌, List, [], ◌∷◌, arith, elem, Distinct,
  Bool-cases, inl, inr, Option, none, ◌⊎◌, is_empty, ◌==◌,
}
use chn_resolver_go.Net.{Addr, Addr-discrete}
use chn_resolver_go.Text.{Text}
use chn_resolver_go.Dns.{Soa, Msg, rcode_success, rcode_name_error}
use chn_resolver_go.Prelude.Int.{ltz, pos}
use chn_resolver_go.Policy
use chn_resolver_go.Policy.{State, failure, no_data, nx_domain, answer, is_answer}
use chn_resolver_go.Upstream.{
  Chaser, Round, Next, finish, follow, look_up, chase, normalize, dedup_loop, dedup_addrs, base,
  read_reply, collect_addrs, fail, extract_soa, collect_targets, exchange, hop_budget, Err, Reply,
  ok, err,
}
use chn_resolver_go.Upstream.Runs.{
  Run, exhausted, cancelled, again, too_deep, finished, followed, chase_loop-Run,
}

elem-dedup_loop :
    (a : Addr) (seen xs : List Addr)
    → elem Addr-discrete a (dedup_loop seen xs)
      ≡ (elem Addr-discrete a xs && not (elem Addr-discrete a seen))
unfolding dedup_loop elem
elem-dedup_loop a seen [] = refl
elem-dedup_loop a seen (x ∷ xs) =
    ground (arith, elem-dedup_loop a seen xs, elem-dedup_loop a (x ∷ seen) xs)

dedup_loop-Distinct : (seen xs : List Addr) → Distinct Addr-discrete (dedup_loop seen xs)
unfolding dedup_loop elem
dedup_loop-Distinct seen [] = tt
dedup_loop-Distinct seen (x ∷ xs) = ground (
  arith,
  elem-dedup_loop x (x ∷ seen) xs,
  dedup_loop-Distinct seen xs,
  dedup_loop-Distinct (x ∷ seen) xs,
)

is_empty-dedup_addrs : (xs : List Addr) → is_empty (dedup_addrs xs) ≡ is_empty xs
unfolding dedup_addrs dedup_loop elem
is_empty-dedup_addrs [] = refl
is_empty-dedup_addrs (x ∷ xs) = refl

-- A SOA belongs to a negative state, addresses to an answer.
abbrev pub is_negative : State → Bool
is_negative no_data = true
is_negative nx_domain = true
is_negative _ = false

-- What the selection relies on: addresses, at least one and none twice, come with an answer and
-- with nothing else; an SOA comes with a negative state only.
pub record IsSound (c : Chaser) (r : Policy.Result) : Type 0 where
  pub server : r.server ≡ c.addr
  pub addresses : is_empty r.addrs ≡ not (is_answer r.state)
  pub distinct : Distinct Addr-discrete r.addrs
  pub no_soa : is_negative r.state ≡ false → r.soa ≡ none

Reply-cases : (x : Reply) → ((e : Err) × (x ≡ err e)) ⊎ ((m : Msg) × (x ≡ ok m))
Reply-cases (err e) = inl (e, refl)
Reply-cases (ok m) = inr (m, refl)

abbrev SoundNext : Chaser → Next → Type 0
SoundNext c (finish r) = IsSound c r
SoundNext c (follow ts) = Unit

module _ (c : Chaser) where
  fail-IsSound : (category : String) → IsSound c (fail c category)
  unfolding base
  fail-IsSound category = record {
    server = refl;
    addresses = refl;
    distinct = tt;
    no_soa = λ _. refl;
  }

  no_data-IsSound : (s : Option Soa) → IsSound c (record (base c) { state = no_data; soa = s })
  unfolding base
  no_data-IsSound s = record { server = refl; addresses = refl; distinct = tt; no_soa = λ e. cc }

  nx_domain-IsSound : (s : Option Soa) → IsSound c (record (base c) { state = nx_domain; soa = s })
  unfolding base
  nx_domain-IsSound s = record { server = refl; addresses = refl; distinct = tt; no_soa = λ e. cc }

  answer-IsSound :
      (addrs : List Addr) (ttl : ℕ)
      → is_empty addrs ≡ false
      → IsSound c (record (base c) { state = answer; addrs = dedup_addrs addrs; min_ttl = ttl })
  unfolding base
  answer-IsSound addrs ttl e = record {
    server = refl;
    addresses = rw (is_empty-dedup_addrs addrs) e;
    distinct = unfold dedup_addrs in dedup_loop-Distinct [] addrs;
    no_soa = λ _. refl;
  }

  read_reply-IsSound : (cur : Text) (m : Msg) → SoundNext c (read_reply c cur m)
  unfolding read_reply
  read_reply-IsSound cur m = elim (Bool-cases (m.rcode == rcode_success)) [
    | inr bad ↦ elim (Bool-cases (m.rcode == rcode_name_error)) [
      | inl nx ↦ rw (bad, nx, read_reply) (nx_domain-IsSound (extract_soa m.ns))
      | inr other ↦ rw (bad, other, read_reply) (fail-IsSound _)
    ]
    | inl good ↦ elim (Bool-cases (is_empty (collect_addrs c.qtype [] 0 m.answer).0)) [
      | inr some_addr ↦
          rw (good, some_addr, read_reply)
            (answer-IsSound (collect_addrs c.qtype [] 0 m.answer).0
              (collect_addrs c.qtype [] 0 m.answer).1 some_addr)
      | inl none_yet ↦ elim (Bool-cases (is_empty (collect_targets cur [] m.answer))) [
        | inl stop ↦ rw (good, none_yet, stop, read_reply) (no_data-IsSound (extract_soa m.ns))
        | inr more ↦ rw (good, none_yet, more, read_reply) tt
      ]
    ]
  ]

  look_up-IsSound : (r : Round) (cur : Text) → SoundNext c (look_up c r cur)
  unfolding look_up
  look_up-IsSound r cur = elim (Bool-cases (not (ltz (pos 0) (hop_budget r c.attempt_timeout)))) [
    | inl late ↦ rw (late, look_up) (fail-IsSound _)
    | inr early ↦
        elim (Reply-cases (
          exchange r (record { name = cur; qtype = c.qtype; udp_size = c.udp_size })
            (hop_budget r c.attempt_timeout))) [
              | inl (e, h) ↦ rw (early, h, look_up) (fail-IsSound _)
              | inr (m, h) ↦ rw (early, h, look_up) (read_reply-IsSound cur m)
            ]
  ]

  Run-IsSound :
      (rounds : ℕ → Round) {hops i : ℕ} {seen pending names : List Text} {r : Policy.Result}
      → Run c rounds hops i seen pending r names
      → IsSound c r
  Run-IsSound rounds exhausted = unfold base in no_data-IsSound none
  Run-IsSound rounds (cancelled e h) = fail-IsSound _
  Run-IsSound rounds (again q run) = Run-IsSound rounds run
  Run-IsSound rounds (too_deep q) = fail-IsSound _
  Run-IsSound rounds (finished {i} {cur} q f) =
      subst (SoundNext c) f (look_up-IsSound (rounds i) cur)
  Run-IsSound rounds (followed q f run) = Run-IsSound rounds run

-- A result of `Chase` carries the upstream's address; it has addresses exactly when its state is an
-- answer, none of them twice; and it has an SOA in a negative state only.
pub chase-IsSound :
    (c : Chaser) (rounds : ℕ → Round) (max_hops : ℕ) (qname : Text)
    → IsSound c (chase c rounds max_hops qname).0
unfolding chase
chase-IsSound c rounds max_hops qname =
    Run-IsSound c rounds (chase_loop-Run c rounds max_hops 0 [] (normalize qname ∷ []))
