-- ===== src/Service/Lifetime.antt =====
-- `resolve` of internal/resolve/service.go.
use chn_resolver_go.Prelude.{
  ℕ, ◌≤◌, ◌≡◌, ◌≢◌, true, false, some, is_empty, arith, Bool-cases, Option-cases, ◌⊎◌, inl, inr,
}
use chn_resolver_go.Dns.{Soa, rcode_server_failure}
use chn_resolver_go.Engine
use chn_resolver_go.Cache.{Value}
use chn_resolver_go.Service.{Service, clamp, from_engine, negative_ttl, resolve}

pub clamp-between : (v lo hi : ℕ) → lo ≤ hi → (lo ≤ clamp v lo hi) × (clamp v lo hi ≤ hi)
unfolding clamp
clamp-between v lo hi h = ground (arith, h)

-- The answer that may be stored, with the bounds of its lifetime.
unfoldable pub IsCacheable : Service → Engine.Result → Value → Type 0
IsCacheable s res v =
    (res.complete ≡ true)
    × (v.rcode ≡ res.rcode)
    × (res.rcode ≢ rcode_server_failure)
    × (v.addrs ≡ res.addrs)
    × (((is_empty res.addrs ≡ false) × (s.min_ttl ≤ v.ttl) × (v.ttl ≤ s.max_ttl))
        ⊎ ((is_empty res.addrs ≡ true)
            × ((soa : Soa) × (res.soa ≡ some soa)
                × (v.ttl ≡ clamp (negative_ttl soa) s.neg_min_ttl s.neg_max_ttl))
            × (s.neg_min_ttl ≤ v.ttl)
            × (v.ttl ≤ s.neg_max_ttl)))

-- With ordered bounds, a value that `resolve` marks cacheable comes from a complete result that is no
-- SERVFAIL, with its code and addresses; its TTL is within the bounds: of a positive answer those for
-- addresses, of a negative one, which has an SOA, the clamped lesser of the SOA's two TTLs.
pub resolve-IsCacheable :
    (s : Service) (res : Engine.Result)
    → s.min_ttl ≤ s.max_ttl
    → s.neg_min_ttl ≤ s.neg_max_ttl
    → (resolve s res).1 ≡ true
    → IsCacheable s res (resolve s res).0
unfolding IsCacheable resolve from_engine
resolve-IsCacheable s res h k cacheable = elim (Option-cases res.soa) [
  | inl e ↦ ground (arith, e, cacheable, clamp-between res.ttl s.min_ttl s.max_ttl h)
  | inr (soa, e) ↦
      let kept = clamp-between res.ttl s.min_ttl s.max_ttl h in
      let negative = clamp-between (negative_ttl soa) s.neg_min_ttl s.neg_max_ttl k in
      elim (Bool-cases (is_empty res.addrs)) [
        | inl n ↦ ground (arith, e, n, cacheable, negative, soa)
        | inr n ↦ ground (arith, e, n, cacheable, kept)
      ]
]
