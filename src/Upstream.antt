-- ===== src/Upstream.antt =====
-- internal/upstream/client.go and chase.go: one exchange with an upstream, and the chase of CNAMEs.
-- The network, the clock and the context are what each round of the chase observes.
use Prim.Native.String.{String, ◌++◌ as str_append}
pub mod Runs
pub mod Bounds
pub mod Ttl
pub mod Answers
use mathlib.Core.List.{reverse}
use mathlib.Core.Option
use chn_resolver_go.Prelude.{
  ℕ, zero, suc, Bool, true, false, not, ◌&&◌, ◌||◌, List, [], ◌∷◌, ◌++◌, Option, none, some, ltb,
  ◌==◌, if◌then◌else◌, length, elem, is_empty,
}
use chn_resolver_go.Prelude.Int.{ℤ, pos, ltz}
use chn_resolver_go.Net.{Addr, Addr-discrete, unmap, value}
use chn_resolver_go.Text.{Text, Text-discrete, trim_space, trim_suffix, to_lower, equal_fold, codes}
use chn_resolver_go.Dns.{Soa, Body, Rr, Msg, rcode_success, rcode_name_error}
use chn_resolver_go.Policy
use chn_resolver_go.Policy.{State, failure, no_data, nx_domain, answer}

-- The errors that meet here: the three of this package, and the two of `ctx.Err()`.
pub data Err : Type 0 where
  err_timeout err_network err_canceled ctx_canceled ctx_deadline : Err

-- `Category`
unfoldable pub category : Err → String
category err_timeout = "timeout"
category err_canceled = "canceled"
category _ = "network"

-- What is asked. `DO` is cleared and recursion is desired in every query.
pub record Query : Type 0 where
  pub name : Text
  pub qtype : ℕ
  pub udp_size : ℕ

-- What `dns.Client.Exchange` returns: a reply, an error that is a timeout, or another error.
pub data Raw : Type 0 where
  reply : Msg → Raw
  timed_out broken : Raw

pub data Reply : Type 0 where
  ok : Msg → Reply
  err : Err → Reply

-- What one round observes: `ctx.Err()` at its start, the time to the deadline if there is one,
-- `ctx.Err()` at the start of the exchange and before the retry, and the network.
pub record Round : Type 0 where
  pub ctx_err : Option Err
  pub remaining : Option ℤ
  pub ctx_err_exchange : Option Err
  pub ctx_err_retry : Option Err
  pub udp : Query → ℤ → Raw
  pub tcp : Query → ℤ → Raw

-- `exchangeNet`
unfoldable pub exchange_net : Raw → Reply
exchange_net (reply m) = ok m
exchange_net timed_out = err err_timeout
exchange_net broken = err err_network

-- `Exchange`
unfoldable pub exchange : Round → Query → ℤ → Reply
exchange r q budget = elim r.ctx_err_exchange [
  | some _ ↦ err err_canceled
  | none ↦ elim (exchange_net (r.udp q budget)) [
    | err e ↦ err e
    | ok resp ↦ elim resp.truncated [
      | true ↦ elim r.ctx_err_retry [
        | some _ ↦ err err_canceled
        | none ↦ exchange_net (r.tcp q budget)
      ]
      | false ↦ ok resp
    ]
  ]
]

-- `hopBudget`
unfoldable pub hop_budget : Round → ℤ → ℤ
hop_budget r attempt =
    let attempt : ℤ = elim r.remaining [
      | none ↦ attempt
      | some rem ↦ if ltz rem attempt then rem else attempt
    ] in
    if ltz attempt (pos 0) then pos 0 else attempt

-- `normalize`
unfoldable pub normalize : Text → Text
normalize name = to_lower (trim_suffix (trim_space name) (codes ".")) ++ codes "."

-- `netip.AddrFromSlice`
unfoldable pub addr_from_slice : List ℕ → Option Addr
addr_from_slice bs =
    if length bs == 4
    then some (Addr.v4 (value (reverse bs)))
    else if length bs == 16
    then some (Addr.v6 (value (reverse bs)))
    else none

-- `rrAddr`
unfoldable pub rr_addr : Rr → Option Addr
rr_addr rr = elim rr.body [
  | Body.a bs ↦ Option.map unmap (addr_from_slice bs)
  | Body.aaaa bs ↦ addr_from_slice bs
  | _ ↦ none
]

-- `extractSOA`
unfoldable pub extract_soa : List Rr → Option Soa
extract_soa [] = none
extract_soa (rr ∷ ns) = let rest = extract_soa ns in elim rr.body [ Body.soa s ↦ some s | _ ↦ rest ]

-- `dedupAddrs`: the loop, with the map of the addresses seen.
unfoldable pub dedup_loop : List Addr → List Addr → List Addr
dedup_loop seen [] = []
dedup_loop seen (a ∷ addrs) = elim (elem Addr-discrete a seen) [
  | true ↦ dedup_loop seen addrs
  | false ↦ a ∷ dedup_loop (a ∷ seen) addrs
]

unfoldable pub dedup_addrs : List Addr → List Addr
dedup_addrs = dedup_loop []

-- The loop that collects the addresses of the queried type and their TTL.
unfoldable pub collect_addrs : ℕ → List Addr → ℕ → List Rr → List Addr × ℕ
collect_addrs qtype addrs min_ttl [] = (addrs, min_ttl)
collect_addrs qtype addrs min_ttl (rr ∷ rrs) =
    let found = if rr.rrtype == qtype then rr_addr rr else none in
    collect_addrs qtype (elim found [ none ↦ addrs | some ip ↦ addrs ++ ip ∷ [] ])
      (elim found [
        | none ↦ min_ttl
        | some _ ↦ if min_ttl == 0 || ltb rr.ttl min_ttl then rr.ttl else min_ttl
      ])
      rrs

-- The target that a record gives for the current name: a CNAME of it, normalized.
unfoldable pub cname_target : Text → Rr → Option Text
cname_target cur rr = elim rr.body [
  | Body.cname target ↦ if equal_fold rr.name cur then some (normalize target) else none
  | _ ↦ none
]

-- The loop that collects the targets, without repetition.
unfoldable pub collect_targets : Text → List Text → List Rr → List Text
collect_targets cur targets [] = targets
collect_targets cur targets (rr ∷ rrs) =
    collect_targets cur
      (elim (cname_target cur rr) [
        | none ↦ targets
        | some t ↦
            if not (is_empty t) && not (elem Text-discrete t targets)
            then targets ++ t ∷ []
            else targets
      ])
      rrs

-- The loop that appends the targets that were not looked up yet.
unfoldable pub enqueue : List Text → List Text → List Text → List Text
enqueue seen pending [] = pending
enqueue seen pending (t ∷ targets) =
    enqueue seen (if not (elem Text-discrete t seen) then pending ++ t ∷ [] else pending) targets

-- The arguments of `Chase` that do not change.
pub record Chaser : Type 0 where
  pub addr : Addr
  pub qtype : ℕ
  pub attempt_timeout : ℤ
  pub udp_size : ℕ
  pub rcode_name : ℕ → String

-- The result at the start of `Chase`.
unfoldable pub base : Chaser → Policy.Result
base c = record {
  server = c.addr;
  server_china = false;
  addrs = [];
  state = failure;
  soa = none;
  min_ttl = 0;
  err_category = "";
}

abbrev pub fail : Chaser → String → Policy.Result
fail c category = record (base c) { state = failure; err_category = category }

-- What a reply leads to: a final result, or the targets to follow.
pub data Next : Type 0 where
  finish : Policy.Result → Next
  follow : List Text → Next

-- The part of a round behind the exchange.
unfoldable pub read_reply : Chaser → Text → Msg → Next
read_reply c cur resp =
    let (addrs, min_ttl) = collect_addrs c.qtype [] 0 resp.answer in
    let targets = collect_targets cur [] resp.answer in
    if resp.rcode == rcode_success
    then (if not (is_empty addrs)
        then finish
            (record (base c) { state = answer; addrs = dedup_addrs addrs; min_ttl = min_ttl })
        else if is_empty targets
        then finish (record (base c) { state = no_data; soa = extract_soa resp.ns })
        else follow targets)
    else if resp.rcode == rcode_name_error
    then finish (record (base c) { state = nx_domain; soa = extract_soa resp.ns })
    else finish (fail c (str_append "rcode-" (c.rcode_name resp.rcode)))

-- The part of a round behind the test of the depth.
unfoldable pub look_up : Chaser → Round → Text → Next
look_up c r cur =
    let budget = hop_budget r c.attempt_timeout in
    if not (ltz (pos 0) budget)
    then finish (fail c "timeout")
    else elim (exchange r (record { name = cur; qtype = c.qtype; udp_size = c.udp_size }) budget) [
      | err e ↦ finish (fail c (category e))
      | ok resp ↦ read_reply c cur resp
    ]

-- The loop of `Chase`: `hops` is `maxHops - lookups`, and `i` counts the rounds. The names looked
-- up come with the result.
unfoldable pub chase_loop :
    Chaser → (ℕ → Round) → ℕ → ℕ → List Text → List Text → Policy.Result × List Text
chase_loop c rounds hops i seen [] = (record (base c) { state = no_data }, [])
chase_loop c rounds zero i seen (cur ∷ pending) = elim (rounds i).ctx_err [
  | some e ↦ (fail c (category e), [])
  | none ↦ elim (elem Text-discrete cur seen) [
    | true ↦ chase_loop c rounds zero (suc i) seen pending
    | false ↦ (fail c "cname-maxdepth", [])
  ]
]
chase_loop c rounds (suc hops) i seen (cur ∷ pending) = elim (rounds i).ctx_err [
  | some e ↦ (fail c (category e), [])
  | none ↦ elim (elem Text-discrete cur seen) [
    | true ↦ chase_loop c rounds (suc hops) (suc i) seen pending
    | false ↦ elim (look_up c (rounds i) cur) [
      | finish r ↦ (r, cur ∷ [])
      | follow targets ↦
          let (r, names) =
            chase_loop c rounds hops (suc i) (cur ∷ seen) (enqueue (cur ∷ seen) pending targets) in
          (r, cur ∷ names)
    ]
  ]
]

-- `Chase`
unfoldable pub chase : Chaser → (ℕ → Round) → ℕ → Text → Policy.Result × List Text
chase c rounds max_hops qname = chase_loop c rounds max_hops 0 [] (normalize qname ∷ [])
