-- ===== src/Engine.antt =====
-- internal/engine/engine.go: the fan-out to all upstreams, the early answer, and the final result.
-- The channel and the context are a list of events, in the order in which the `select` of `Resolve`
-- takes them.
pub mod Early
pub mod Final
pub mod Loop
pub mod Termination
pub mod Chased
pub mod Fan
pub mod Sharing
pub mod Progress
pub mod Agreement
use Prim.Native.String.{String}
use mathlib.Core.Option
use chn_resolver_go.Prelude.{
  ℕ, suc, Bool, true, false, not, ◌&&◌, ◌||◌, List, [], ◌∷◌, ◌++◌, Option, none, some, ltb, ◌==◌,
  if◌then◌else◌, length,
}
use chn_resolver_go.Prelude.Int.{ℤ}
use chn_resolver_go.Net.{Addr}
use chn_resolver_go.Text.{Text}
use chn_resolver_go.Dns.{Soa, rcode_success, rcode_server_failure}
use chn_resolver_go.China.{Index, index_contains}
use chn_resolver_go.Overrides.{OverrideSet, matches}
use chn_resolver_go.Policy
use chn_resolver_go.Policy.{
  State, PolicyName, unset, is_answer, select, select_ttl, finalize_negative,
}

pub record Assets : Type 0 where
  pub china : Index
  pub overrides : OverrideSet

-- `assets.China.Contains`. An index out of range, which would panic, does not occur.
unfoldable pub is_china : Assets → Addr → Bool
is_china assets a = Option.get_or (index_contains assets.china a) false

-- `assets.Overrides.Match`
unfoldable pub is_override : Assets → Text → Bool
is_override assets qname = matches assets.overrides qname

-- An upstream without its transport.
pub record Upstream : Type 0 where
  pub addr : Addr
  pub port : ℕ
  pub in_china : Bool

-- The attempt timeout is in nanoseconds; the call-back is the list of `Call` below.
pub record Engine : Type 0 where
  pub upstreams : List Upstream
  pub attempt_timeout : ℤ
  pub max_hops : ℤ
  pub udp_size : ℕ
  pub assets : Assets

-- `New`
unfoldable pub new : Assets → List Upstream → ℤ → ℤ → ℕ → Engine
new assets upstreams attempt_timeout max_hops udp_size = record {
  upstreams = upstreams;
  attempt_timeout = attempt_timeout;
  max_hops = max_hops;
  udp_size = udp_size;
  assets = assets;
}

-- `UpdateAssets`
unfoldable pub update_assets : Engine → Assets → Engine
update_assets e assets = record e { assets = assets }

pub record Report : Type 0 where
  pub server : Addr
  pub state : State
  pub latency : ℕ
  pub err_category : String

pub record Result : Type 0 where
  pub policy : PolicyName
  pub addrs : List Addr
  pub rcode : ℕ
  pub soa : Option Soa
  pub ttl : ℕ
  pub complete : Bool
  pub reports : List Report

pub record Outcome : Type 0 where
  pub result : Policy.Result
  pub latency : ℕ
  pub idx : ℕ

-- What the goroutine of an upstream sends: the result of `Chase`, under the upstream's own address
-- and class.
unfoldable pub send_outcome : Upstream → Policy.Result → ℕ → ℕ → Outcome
send_outcome u r latency idx = record {
  result = record r { server = u.addr; server_china = u.in_china };
  latency = latency;
  idx = idx;
}

-- The inner loop of `earlyStable`, with its two flags.
unfoldable pub stable_addrs : Assets → Bool → Bool × Bool → List Addr → Bool × Bool
stable_addrs assets server_china flags [] = flags
stable_addrs assets server_china (cn_china, nc_non_china) (a ∷ addrs) =
    let is_cn = is_china assets a in
    stable_addrs assets server_china
      (
        if server_china && is_cn then true else cn_china,
        if not server_china && not is_cn then true else nc_non_china,
      )
      addrs

unfoldable pub stable_results : Assets → Bool × Bool → List Policy.Result → Bool × Bool
stable_results assets flags [] = flags
stable_results assets flags (r ∷ rs) =
    stable_results assets
      (if is_answer r.state then stable_addrs assets r.server_china flags r.addrs else flags) rs

-- `earlyStable`
unfoldable pub early_stable : Assets → Text → List Policy.Result → Bool
early_stable assets qname results =
    let (cn_china, nc_non_china) = stable_results assets (false, false) results in
    cn_china && nc_non_china

-- The first loop of `finalize`.
unfoldable pub has_answer : List Policy.Result → Bool
has_answer [] = false
has_answer (r ∷ rs) = if is_answer r.state then true else has_answer rs

-- `finalize`
unfoldable pub finalize : Assets → Text → List Policy.Result → List Report → Bool → Result
finalize assets qname results reports complete =
    let sel = select qname results (is_china assets) (is_override assets) in
    let (rcode, soa, agreed) = finalize_negative results in
    let out : Result = record {
      policy = unset;
      addrs = [];
      rcode = rcode_success;
      soa = none;
      ttl = 0;
      complete = complete;
      reports = reports;
    } in
    if has_answer results
    then record out {
      policy = sel.policy;
      addrs = sel.addrs;
      rcode = rcode_success;
      ttl = (select_ttl sel.addrs results).0;
    }
    else if agreed
    then record out { rcode = rcode; soa = soa }
    else record out { rcode = rcode_server_failure }

-- What the `select` takes: an outcome from the channel, or the end of the context.
pub data Event : Type 0 where
  arrive : Outcome → Event
  ctx_done : Event

unfoldable pub report_of : Outcome → Report
report_of o = record {
  server = o.result.server;
  state = o.result.state;
  latency = o.latency;
  err_category = o.result.err_category;
}

-- The calls of `OnResult`.
pub record Call : Type 0 where
  pub idx : ℕ
  pub state : State
  pub category : String

-- What a call of `Resolve` leaves.
pub record Resolved : Type 0 where
  pub result : Result
  pub calls : List Call

-- The loop of `Resolve`; `none` is a loop that still waits when the events are over.
unfoldable pub resolve_loop :
    Assets → Text → ℕ → List Policy.Result → List Report → List Call → List Event → Option Resolved
resolve_loop assets qname n results reports calls [] =
    if ltb (length results) n
    then none
    else some (record { result = finalize assets qname results reports true; calls = calls })
resolve_loop assets qname n results reports calls (event ∷ events) = elim (ltb (length results) n) [
  | false ↦ some (record { result = finalize assets qname results reports true; calls = calls })
  | true ↦ elim event [
    | ctx_done ↦
        some (record { result = finalize assets qname results reports false; calls = calls })
    | arrive o ↦
        let call : Call = record {
          idx = o.idx;
          state = o.result.state;
          category = o.result.err_category;
        } in
        let calls = calls ++ call ∷ [] in
        let results = results ++ o.result ∷ [] in
        let reports = reports ++ report_of o ∷ [] in
        let rest = resolve_loop assets qname n results reports calls events in
        if length results == n
        then some (record { result = finalize assets qname results reports true; calls = calls })
        else if early_stable assets qname results
        then some (record { result = finalize assets qname results reports false; calls = calls })
        else rest
  ]
]

-- `Resolve`, for `n` upstreams.
unfoldable pub resolve : Assets → Text → ℕ → List Event → Option Resolved
resolve assets qname n events = resolve_loop assets qname n [] [] [] events
