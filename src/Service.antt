-- ===== src/Service.antt =====
-- internal/resolve/service.go: a lookup through the cache and the engine, and the part of `Do` in
-- internal/cache/flight.go that the caller runs who starts the flight. The engine is a function from
-- the query to its result, which `Engine.resolve` computes.
pub mod Lifetime
pub mod Again
pub mod Served
use mathlib.Core.Option
use chn_resolver_go.Prelude.{
  ℕ, suc, ◌+◌, Bool, true, false, not, ◌||◌, List, [], ◌∷◌, Option, none, some, ltb, leb, ◌==◌,
  if◌then◌else◌, is_empty,
}
use chn_resolver_go.Text.{Text, trim_space, trim_suffix, to_lower, codes}
use chn_resolver_go.Dns.{Soa, rcode_server_failure}
use chn_resolver_go.Engine
use chn_resolver_go.Cache.{Key, Value, Cache, get, set_locked}

pub record Service : Type 0 where
  pub cache_on : Bool
  pub min_ttl : ℕ
  pub max_ttl : ℕ
  pub neg_min_ttl : ℕ
  pub neg_max_ttl : ℕ

unfoldable pub clamp : ℕ → ℕ → ℕ → ℕ
clamp v lo hi = if ltb v lo then lo else (if ltb hi v then hi else v)

-- `fromEngine`. The expiry is the zero time.
unfoldable pub from_engine : Engine.Result → Value
from_engine res = record {
  rcode = res.rcode;
  addrs = res.addrs;
  soa = res.soa;
  ttl = res.ttl;
  policy = res.policy;
  expires = 0;
}

-- The lifetime of a negative answer by its SOA.
unfoldable pub negative_ttl : Soa → ℕ
negative_ttl soa = if ltb soa.minttl soa.ttl then soa.minttl else soa.ttl

-- `resolve`: the value, and whether it is cacheable.
unfoldable pub resolve : Service → Engine.Result → Value × Bool
resolve s res =
    let v = from_engine res in
    if not res.complete || (res.rcode == rcode_server_failure)
    then (v, false)
    else (if not (is_empty res.addrs)
        then (record v { ttl = clamp res.ttl s.min_ttl s.max_ttl }, true)
        else elim res.soa [
          | none ↦ (v, false)
          | some soa ↦
              (record v { ttl = clamp (negative_ttl soa) s.neg_min_ttl s.neg_max_ttl }, true)
        ])

-- `normalizeName`
unfoldable pub normalize_name : Text → Text
normalize_name name =
    let n = to_lower (trim_suffix (trim_space name) (codes ".")) in
    if is_empty n then codes "." else n

-- `Do` for the caller that starts the flight.
unfoldable pub lead : Cache → Key → Value × Bool → (ℕ → ℕ) → Option (Cache × Value)
lead c key (v, cacheable) clock =
    if cacheable then Option.map (λ c'. (c', v)) (set_locked c key v clock) else some (c, v)

-- What `Lookup` does with the result of `Get`.
unfoldable pub proceed :
    Key → Value × Bool → (ℕ → ℕ) → Option (Cache × Option Value) → Option (Cache × Value)
proceed key fresh clock none = none
proceed key fresh clock (some (c, none)) = lead c key fresh clock
proceed key fresh clock (some (c, some v)) =
    if leb v.ttl 1 then lead (record c { misses = c.misses + 1 }) key fresh clock else some (c, v)

-- `Lookup`, while no other caller looks the key up.
unfoldable pub lookup :
    Service → Cache → (Text → ℕ → Engine.Result) → Text → ℕ → ℕ → (ℕ → ℕ) → Option (Cache × Value)
lookup s c engine qname qtype now clock =
    let key : Key = record { name = normalize_name qname; qtype = qtype } in
    let fresh = resolve s (engine qname qtype) in
    if s.cache_on then proceed key fresh clock (get c key now) else some (c, fresh.0)
