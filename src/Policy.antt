-- ===== src/Policy.antt =====
-- internal/policy/policy.go: the selection rules over the results of all upstreams. A Go map with
-- addresses for keys is the list of its keys, or an association list, and a nil slice is `[]`.
pub mod Dedup
pub mod Evidence
pub mod Choice
pub mod Order
pub mod Ttl
pub mod Negative
use Prim.Native.String.{String}
use mathlib.Core.List.{lookup}
use chn_resolver_go.Prelude.{
  ℕ, Bool, true, false, not, ◌&&◌, ◌||◌, List, [], ◌∷◌, ◌++◌, Option, none, some, ltb,
  if◌then◌else◌, elem, select_if, is_empty,
}
use chn_resolver_go.Net.{Addr, Addr-discrete}
use chn_resolver_go.Dns.{Soa, rcode_success, rcode_server_failure, rcode_name_error}

pub data State : Type 0 where
  failure no_data nx_domain answer : State

pub record Result : Type 0 where
  pub server : Addr
  pub server_china : Bool
  pub addrs : List Addr
  pub state : State
  pub soa : Option Soa
  pub min_ttl : ℕ
  pub err_category : String

-- The four policy names; `unset` is the empty string of a result that no policy chose.
pub data PolicyName : Type 0 where
  unset override prefer_china all_non_china fallback_china : PolicyName

pub record SelectResult : Type 0 where
  pub policy : PolicyName
  pub addrs : List Addr

-- `s == StateAnswer`
abbrev pub is_answer : State → Bool
is_answer answer = true
is_answer _ = false

-- `dedup`: the loop, with the map of the addresses seen.
unfoldable pub dedup_loop : List Addr → List Addr → List Addr
dedup_loop seen [] = []
dedup_loop seen (a ∷ rest) = elim (elem Addr-discrete a seen) [
  | true ↦ dedup_loop seen rest
  | false ↦ a ∷ dedup_loop (a ∷ seen) rest
]

unfoldable pub dedup : List Addr → List Addr
dedup = dedup_loop []

-- `filter`
unfoldable pub filter : List Addr → (Addr → Bool) → List Addr
filter addrs keep = select_if keep addrs

-- The three slices that `Select` fills.
pub record Buckets : Type 0 where
  pub cn : List Addr
  pub non_cn : List Addr
  pub all : List Addr

-- One round of the loop of `Select`.
unfoldable pub collect_one : Buckets → Result → Buckets
collect_one b r =
    if is_answer r.state
    then (if r.server_china
        then record b { all = b.all ++ r.addrs; cn = b.cn ++ r.addrs }
        else record b { all = b.all ++ r.addrs; non_cn = b.non_cn ++ r.addrs })
    else b

unfoldable pub collect : Buckets → List Result → Buckets
collect b [] = b
collect b (r ∷ rs) = collect (collect_one b r) rs

-- The rules of `Select`, once the loop is over.
unfoldable pub choose : List ℕ → Buckets → (Addr → Bool) → (List ℕ → Bool) → SelectResult
choose qname b is_china is_override =
    let cn_ips_china = filter b.cn is_china in
    let non_cn_ips_non_china = filter b.non_cn (λ a. not (is_china a)) in
    let all_china = filter b.all is_china in
    if not (is_empty cn_ips_china) && not (is_empty non_cn_ips_non_china)
    then (if is_override qname
        then record { policy = override; addrs = dedup non_cn_ips_non_china }
        else record { policy = prefer_china; addrs = dedup cn_ips_china })
    else if is_empty all_china
    then (if not (is_empty b.non_cn)
        then record { policy = all_non_china; addrs = dedup b.non_cn }
        else record { policy = all_non_china; addrs = dedup b.all })
    else if not (is_empty cn_ips_china)
    then record { policy = fallback_china; addrs = dedup cn_ips_china }
    else record { policy = fallback_china; addrs = dedup all_china }

unfoldable pub select : List ℕ → List Result → (Addr → Bool) → (List ℕ → Bool) → SelectResult
select qname results is_china is_override =
    choose qname (collect (record { cn = []; non_cn = []; all = [] }) results) is_china is_override

-- `firstSOA`
unfoldable pub first_soa : List Result → Option Soa
first_soa [] = none
first_soa (r ∷ rs) = elim r.soa [ some s ↦ some s | none ↦ first_soa rs ]

-- The loop of `FinalizeNegative`: the NXDOMAIN results and the NODATA results, in order.
unfoldable pub split_negative : List Result → List Result × List Result
split_negative [] = ([], [])
split_negative (r ∷ rs) =
    let (nx, nodata) = split_negative rs in
    elim r.state [ nx_domain ↦ (r ∷ nx, nodata) | no_data ↦ (nx, r ∷ nodata) | _ ↦ (nx, nodata) ]

-- `FinalizeNegative`: the response code, the SOA, and whether the results agree.
unfoldable pub finalize_negative : List Result → ℕ × Option Soa × Bool
finalize_negative results =
    let (nx, nodata) = split_negative results in
    if not (is_empty nx) && is_empty nodata
    then (rcode_name_error, first_soa nx, true)
    else if is_empty nx && not (is_empty nodata)
    then (rcode_success, first_soa nodata, true)
    else (rcode_server_failure, none, false)

-- The inner loop of `SelectTTL`: the first owner of an address keeps it.
unfoldable pub own : List (Addr × ℕ) → ℕ → List Addr → List (Addr × ℕ)
own owner ttl [] = owner
own owner ttl (a ∷ rest) =
    own (elim (lookup Addr-discrete a owner) [ none ↦ (a, ttl) ∷ owner | some _ ↦ owner ]) ttl rest

unfoldable pub owners : List (Addr × ℕ) → List Result → List (Addr × ℕ)
owners owner [] = owner
owners owner (r ∷ rs) = owners (if is_answer r.state then own owner r.min_ttl r.addrs else owner) rs

-- The last loop of `SelectTTL`, with its variables `ttl` and `found`.
unfoldable pub least_ttl : List (Addr × ℕ) → ℕ → Bool → List Addr → ℕ × Bool
least_ttl owner ttl found [] = (ttl, found)
least_ttl owner ttl found (a ∷ rest) = elim (lookup Addr-discrete a owner) [
  | none ↦ least_ttl owner ttl found rest
  | some t ↦
      least_ttl owner (if not found || ltb t ttl then t else ttl)
        (if not found || ltb t ttl then true else found) rest
]

unfoldable pub select_ttl : List Addr → List Result → ℕ × Bool
select_ttl addrs results = least_ttl (owners [] results) 0 false addrs
