-- ===== src/Server.antt =====
-- internal/server/handler.go, forward.go and `truncateForUDP` of server.go: what a request leads to. A
-- counter of internal/metrics is the list of its increments, in their order.
pub mod Answers
pub mod Relay
pub mod Counting
pub mod Listener
pub mod Admission
pub mod Drain
pub mod Frames
pub mod Reads
pub mod Framing
pub mod Endings
use Prim.Native.String.{String}
use mathlib.Core.List.{reverse}
use mathlib.Core.Option
use chn_resolver_go.Prelude.{
  ℕ, suc, Bool, true, false, not, ◌&&◌, ◌||◌, List, [], ◌∷◌, ◌++◌, map, Option, none, some, ltb,
  leb, ◌==◌, if◌then◌else◌, is_empty,
}
use chn_resolver_go.Prelude.Int.{ℤ, pos, ltz}
use chn_resolver_go.Net.{Addr, bytes}
use chn_resolver_go.Text.{Text}
use chn_resolver_go.Dns.{
  Soa, Body, Rr, Msg, rcode_success, rcode_format_error, rcode_server_failure, rcode_name_error,
  type_a, type_aaaa,
}
use chn_resolver_go.Policy.{PolicyName}
use chn_resolver_go.Cache.{Value}
use chn_resolver_go.Upstream
use chn_resolver_go.Upstream.{category}

abbrev pub class_inet : ℕ
class_inet = 1

abbrev pub opcode_query : ℕ
opcode_query = 0

abbrev pub rcode_bad_vers : ℕ
rcode_bad_vers = 16

-- `dns.MinMsgSize`
abbrev pub min_msg_size : ℕ
min_msg_size = 512

abbrev pub max_udp_payload : ℕ
max_udp_payload = 1232

pub record Question : Type 0 where
  pub name : Text
  pub qtype : ℕ
  pub qclass : ℕ

-- The OPT record of a request.
pub record Opt : Type 0 where
  pub version : ℕ
  pub udp_size : ℕ

-- What the handlers read of a request.
pub record Request : Type 0 where
  pub id : ℕ
  pub opcode : ℕ
  pub question : List Question
  pub opt : Option Opt

-- A reply that `SetReply(request)` begins, with what the handlers set on it. A code that they do not
-- set is left as `SetReply` leaves it; `edns` is the size given to `SetEdns0`, with DO cleared.
pub record Reply : Type 0 where
  pub request : Request
  pub rcode : Option ℕ
  pub recursion_available : Bool
  pub compress : Bool
  pub answer : List Rr
  pub ns : List Soa
  pub edns : Option ℕ

-- A reply of this server, or a message of an upstream, with the client's ID.
pub data Response : Type 0 where
  built : Reply → Response
  relayed : ℕ → Msg → Response

-- The counters that the handlers touch.
pub data Counter : Type 0 where
  form_err forwarded resolved noerror nxdomain nodata servfail : Counter
  by_policy : PolicyName → Counter
  upstream_result upstream_failure : ℕ → String → Counter

abbrev pub set_reply : Request → Reply
set_reply req = record {
  request = req;
  rcode = none;
  recursion_available = false;
  compress = false;
  answer = [];
  ns = [];
  edns = none;
}

-- `rcodeReply`
unfoldable pub rcode_reply : Request → ℕ → Reply
rcode_reply req rcode = record (set_reply req) { rcode = some rcode }

-- `a.AsSlice()`
unfoldable pub as_slice : Addr → List ℕ
as_slice (Addr.v4 n) = reverse (bytes 4 n)
as_slice (Addr.v6 n) = reverse (bytes 16 n)

-- The record that `buildPositive` makes of an address.
unfoldable pub address_record : Question → ℕ → Addr → Rr
address_record q ttl a = record {
  name = q.name;
  rrtype = q.qtype;
  ttl = ttl;
  body = if q.qtype == type_a then Body.a (as_slice a) else Body.aaaa (as_slice a);
}

-- `buildPositive`
unfoldable pub build_positive : Request → Question → List Addr → ℕ → Reply
build_positive req q addrs ttl = record (set_reply req) {
  recursion_available = true;
  compress = true;
  answer = map (address_record q ttl) addrs;
}

-- `buildNegative`: a copy of the SOA with the TTL.
unfoldable pub build_negative : Request → ℕ → Option Soa → ℕ → Reply
build_negative req rcode soa ttl = record (set_reply req) {
  recursion_available = true;
  rcode = some rcode;
  ns = elim soa [ none ↦ [] | some s ↦ record s { ttl = ttl } ∷ [] ];
}

-- The size of `applyEDNS`.
unfoldable pub edns_size : ℕ → ℕ
edns_size advertised =
    let size : ℕ = if ltb max_udp_payload advertised then max_udp_payload else advertised in
    if ltb size min_msg_size then min_msg_size else size

-- `applyEDNS`
unfoldable pub apply_edns : Request → Reply → Reply
apply_edns req resp = elim req.opt [
  | none ↦ resp
  | some opt ↦ elim resp.edns [
    | some _ ↦ resp
    | none ↦ record resp { edns = some (edns_size opt.udp_size) }
  ]
]

-- `synthesize`
unfoldable pub synthesize : Request → Question → Value → Reply × List Counter
synthesize req q v =
    let (resp, counters) : Reply × List Counter =
      if not (is_empty v.addrs)
      then (build_positive req q v.addrs v.ttl, by_policy v.policy ∷ noerror ∷ [])
      else if v.rcode == rcode_name_error
      then (build_negative req rcode_name_error v.soa v.ttl, nxdomain ∷ [])
      else if v.rcode == rcode_success
      then (build_negative req rcode_success v.soa v.ttl, nodata ∷ [])
      else (rcode_reply req rcode_server_failure, servfail ∷ []) in
    (apply_edns req resp, counters)

-- What the loop of `forward` observes at an upstream: the context, the time to its deadline, and the
-- exchange within a budget.
pub record Attempt : Type 0 where
  pub ctx_done : Bool
  pub remaining : Option ℤ
  pub exchange : ℤ → Upstream.Reply

-- The loop of `forward` from upstream `i` on.
unfoldable pub forward_loop : ℤ → Request → ℕ → List Attempt → Response × List Counter
forward_loop timeout req i [] = (built (rcode_reply req rcode_server_failure), servfail ∷ [])
forward_loop timeout req i (a ∷ rest) =
    let budget : ℤ = elim a.remaining [
      | none ↦ timeout
      | some rem ↦ if ltz rem timeout then rem else timeout
    ] in
    let (response, counters) = forward_loop timeout req (suc i) rest in
    if a.ctx_done || not (ltz (pos 0) budget)
    then (built (rcode_reply req rcode_server_failure), servfail ∷ [])
    else elim (a.exchange budget) [
      | Upstream.err e ↦ (response, upstream_failure i (category e) ∷ counters)
      | Upstream.ok m ↦ (relayed req.id m, upstream_result i "forwarded" ∷ [])
    ]

-- `forward`
unfoldable pub forward : ℤ → List Attempt → Request → Response × List Counter
forward timeout attempts req = forward_loop timeout req 0 attempts

abbrev pub is_address : ℕ → Bool
is_address qtype = qtype == type_a || qtype == type_aaaa

-- An OPT record of a version that is not 0.
unfoldable pub has_bad_version : Request → Bool
has_bad_version req = elim req.opt [ none ↦ false | some opt ↦ not (opt.version == 0) ]

-- The test for the forwarder, for the first question and the others.
unfoldable pub is_foreign : Request → Question → List Question → Bool
is_foreign req q others =
    not (is_empty others)
    || not (q.qclass == class_inet)
    || not (req.opcode == opcode_query)
    || not (is_address q.qtype)

-- The end of `handleRequest`, with the result of `Lookup`, `none` for its error.
unfoldable pub conclude : Request → Question → Option Value → Response × List Counter
conclude req q none = (built (rcode_reply req rcode_server_failure), servfail ∷ [])
conclude req q (some v) =
    let (resp, counters) = synthesize req q v in (built resp, resolved ∷ counters)

-- `handleRequest`, by the questions of the request; `lookup` is `Lookup` of the service.
unfoldable pub handle_questions :
    (Text → ℕ → Option Value) → ℤ → List Attempt → Request → List Question → Response × List Counter
handle_questions lookup timeout attempts req [] =
    (built (rcode_reply req rcode_format_error), form_err ∷ [])
handle_questions lookup timeout attempts req (q ∷ others) =
    let (response, counters) = forward timeout attempts req in
    if has_bad_version req
    then (built (record (rcode_reply req rcode_bad_vers) { edns = some max_udp_payload }), [])
    else if is_foreign req q others
    then (response, forwarded ∷ counters)
    else conclude req q (lookup q.name q.qtype)

unfoldable pub handle_request :
    (Text → ℕ → Option Value) → ℤ → List Attempt → Request → Response × List Counter
handle_request lookup timeout attempts req =
    handle_questions lookup timeout attempts req req.question

-- The size of `truncateForUDP`. The arithmetic is on uint16, which all of it fits.
unfoldable pub truncate_size : Request → ℕ → ℕ
truncate_size req max_payload = elim req.opt [
  | none ↦ min_msg_size
  | some opt ↦
      if leb min_msg_size opt.udp_size && leb opt.udp_size max_payload
      then opt.udp_size
      else if ltb max_payload opt.udp_size
      then max_payload
      else min_msg_size
]
