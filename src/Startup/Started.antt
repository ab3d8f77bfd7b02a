-- ===== src/Startup/Started.antt =====
-- `main` of cmd/chn-resolver/main.go after a configuration was accepted: the conversions of its
-- numbers.
use Prim.Native.Nat.{◌*◌}
use native.Mathlib.Nat.{mod-eq_of_lt}
use chn_resolver_go.Prelude.{
  ℕ, suc, ◌^◌, ◌≤◌, ◌<◌, ◌≡◌, refl, ap, true, false, List, [], ◌∷◌, map, is_empty, All, arith, ◌⊎◌,
  inl, inr,
}
use chn_resolver_go.Prelude.Int.{ℤ, pos, negsuc, ltz, ◌≤ℤ◌, quotient, wrap}
use chn_resolver_go.Prelude.Result.{ok}
use chn_resolver_go.Config.{Raw, Config, second}
use chn_resolver_go.Config
use chn_resolver_go.Config.Build.{build}
use chn_resolver_go.Config.Steps.{Between}
use chn_resolver_go.Config.Valid.{build-IsValid}
use chn_resolver_go.Engine.{Assets, Upstream, Engine}
use chn_resolver_go.Engine
use chn_resolver_go.Cache.{Value}
use chn_resolver_go.Cache
use chn_resolver_go.Cache.Invariant
use chn_resolver_go.Cache.Invariant.{new-IsValid}
use chn_resolver_go.Service.{resolve}
use chn_resolver_go.Service.Lifetime.{IsCacheable, resolve-IsCacheable}
use chn_resolver_go.Startup.{classify, classify_upstreams, Running}
use chn_resolver_go.Startup.Wiring.{service_of, engine_of, whole_seconds, capacity, start}

wrap-Between : (w lo hi : ℕ) (z : ℤ) → hi < 2 ^ w → Between lo hi z → pos (wrap w z) ≡ z
unfolding wrap ltz
wrap-Between w lo hi (pos n) small between =
    let within : n < 2 ^ w = ground (arith, small, between) in ap pos (mod-eq_of_lt within)
wrap-Between w lo hi (negsuc n) small between = ground (arith, between)

capacity_lem : (z : ℤ) → pos 1 ≤ℤ z → pos (capacity z) ≡ z
unfolding ltz
capacity_lem (pos n) h = refl
capacity_lem (negsuc n) h = ground (arith, h)

ports_kept :
    (assets : Assets) (us : List Config.Upstream)
    → All (λ u. Between 1 65535 u.port) us
    → map (λ u. pos (Upstream.port u)) (classify_upstreams assets us) ≡ map (λ u. u.port) us
unfolding classify_upstreams classify
ports_kept assets [] h = refl
ports_kept assets (u ∷ us) (h, hs) =
    ground (arith, wrap-Between 16 1 65535 u.port (omega arith) h, ports_kept assets us hs)

-- What `main` starts with: nothing of the configuration is lost in a conversion.
pub record IsStarted (c : Config) (r : Running) : Type 0 where
  pub ports_same :
      map (λ u. pos (Upstream.port u)) r.engine.upstreams ≡ map (λ u. u.port) c.upstreams
  pub size_same : pos r.engine.udp_size ≡ c.udp_payload_size
  pub entries_same : pos r.cache.max_entries ≡ c.max_entries
  pub cache_valid : Cache.Invariant.IsValid r.cache

-- From a configuration that `build` accepted, the engine gets the ports and the payload size of the
-- configuration as they are, and the cache, which is valid, its capacity.
pub start-IsStarted :
    (raw : Raw) (assets : Assets) {c : Config} → build raw ≡ ok c → IsStarted c (start c assets)
unfolding start engine_of Engine.new Cache.new
start-IsStarted raw assets {c = c} h =
    let valid = (build-IsValid raw h).0 in
    record {
      ports_same = ports_kept assets c.upstreams valid.ports_between;
      size_same =
          wrap-Between 16 512 4096 c.udp_payload_size (omega arith) valid.sound.size_between;
      entries_same = capacity_lem c.max_entries valid.sound.some_entries;
      cache_valid = new-IsValid (capacity c.max_entries);
    }

-- A duration that is not negative and below 2^32 seconds.
abbrev pub IsShort : ℤ → Type 0
IsShort d = (pos 0 ≤ℤ d) × (ltz d (pos (2 ^ 32 * second)) ≡ true)

whole_seconds-≤ : (a b : ℤ) → IsShort a → IsShort b → a ≤ℤ b → whole_seconds a ≤ whole_seconds b
unfolding wrap quotient ltz
whole_seconds-≤ (pos a) (pos b) s t h = ground (arith, s, t, h)
whole_seconds-≤ (pos a) (negsuc b) s t h = ground (arith, t)
whole_seconds-≤ (negsuc a) b s t h = ground (arith, s)

-- The rounding of a bound.
whole_seconds-between :
    (d : ℤ)
    → IsShort d
    → (pos (whole_seconds d * second) ≤ℤ d) × (ltz d (pos (suc (whole_seconds d) * second)) ≡ true)
unfolding wrap quotient ltz
whole_seconds-between (pos n) s = ground (arith, s)
whole_seconds-between (negsuc n) s = ground (arith, s)

-- A lifetime between two configured durations; the lower one may be cut to a whole second.
abbrev pub Lasts : ℤ → ℤ → Value → Type 0
Lasts lo hi v = (ltz lo (pos (suc v.ttl * second)) ≡ true) × (pos (v.ttl * second) ≤ℤ hi)

Lasts-between :
    (lo hi : ℤ) (v : Value)
    → IsShort lo
    → IsShort hi
    → whole_seconds lo ≤ v.ttl
    → v.ttl ≤ whole_seconds hi
    → Lasts lo hi v
unfolding ltz
Lasts-between (pos lo) (pos hi) v s t h k =
    ground (arith, whole_seconds-between (pos lo) s, whole_seconds-between (pos hi) t, h, k)
Lasts-between (pos lo) (negsuc hi) v s t h k = ground (arith, t)
Lasts-between (negsuc lo) hi v s t h k = ground (arith, s)

-- The TTLs of a configuration that are not negative and fit 32 bits in seconds.
pub record AreShort (c : Config) : Type 0 where
  pub min_short : IsShort c.min_ttl
  pub max_short : IsShort c.max_ttl
  pub neg_min_short : IsShort c.neg_min_ttl
  pub neg_max_short : IsShort c.neg_max_ttl

-- Under an accepted configuration whose four TTLs are not negative and below 2^32 seconds, a result that
-- `resolve` of the service marks cacheable lives between the configured TTLs: those for answers when it
-- has addresses, those for negative answers otherwise, the lower one cut to a whole second.
pub build-Lasts :
    (raw : Raw) (res : Engine.Result) {c : Config}
    → build raw ≡ ok c
    → AreShort c
    → (resolve (service_of c) res).1 ≡ true
    → ((is_empty res.addrs ≡ false) × Lasts c.min_ttl c.max_ttl (resolve (service_of c) res).0)
      ⊎ ((is_empty res.addrs ≡ true)
          × Lasts c.neg_min_ttl c.neg_max_ttl (resolve (service_of c) res).0)
unfolding service_of IsCacheable
build-Lasts raw res {c = c} h short cacheable =
    let sound = (build-IsValid raw h).0.sound in
    let (complete, same_code, no_failure, same_addrs, lifetime) =
      resolve-IsCacheable (service_of c) res
        (whole_seconds-≤ c.min_ttl c.max_ttl short.min_short short.max_short sound.ttls_ordered)
        (whole_seconds-≤ c.neg_min_ttl c.neg_max_ttl short.neg_min_short short.neg_max_short
          sound.neg_ttls_ordered)
        cacheable in
    let v = (resolve (service_of c) res).0 in
    elim lifetime [
      | inl (some_addr, lo, hi) ↦
          inl (some_addr, Lasts-between _ _ v short.min_short short.max_short lo hi)
      | inr (no_addr, soa, lo, hi) ↦
          inr (no_addr, Lasts-between _ _ v short.neg_min_short short.neg_max_short lo hi)
    ]
