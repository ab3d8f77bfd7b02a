-- ===== src/Tests/Caching.antt =====
-- internal/cache/cache.go with room for two entries, and internal/resolve/service.go above it.
use mathlib.Core.List.{lookup}
use chn_resolver_go.Prelude.{
  ℕ, ◌+◌, ◌-◌, ◌*◌, ◌≡◌, refl, ap, arith, elem, ℕ_discrete, true, false, [], ◌∷◌, none, some, inl,
  inr,
}
use chn_resolver_go.Net.{v4}
use chn_resolver_go.Text.{
  Text, Text-discrete, codes, trim_space, trim_left, trim_suffix, has_prefix, has_suffix, is_space,
  drop, lower, to_lower,
}
use chn_resolver_go.Policy.{prefer_china}
use chn_resolver_go.Engine
use chn_resolver_go.Cache.{
  Key, Key-discrete, Value, Element, Cache, second, seconds_left, get, set, is_expired,
}
use chn_resolver_go.Cache.Index.{find_key}
use chn_resolver_go.Cache.Invariant.{IsValid}
use chn_resolver_go.Cache.Evict.{Has}
use chn_resolver_go.Cache.Stored.{get-set}
use chn_resolver_go.Service.{
  Service, resolve, from_engine, clamp, normalize_name, lookup as service_lookup,
}
use chn_resolver_go.Service.Lifetime.{IsCacheable, resolve-IsCacheable}
use chn_resolver_go.Service.Again.{key_of, lookup-lookup}
use chn_resolver_go.Service.Served.{Serves, lookup-Serves}

abbrev pub key : Key
key = record { name = codes "example.org"; qtype = 1 }

abbrev pub value : Value
value = record {
  rcode = 0;
  addrs = v4 7 ∷ [];
  soa = none;
  ttl = 60;
  policy = prefer_china;
  expires = 0;
}

-- A clock that stands at 5 ns.
abbrev clock : ℕ → ℕ
clock i = 5

-- Two entries, the front one the last used.
abbrev pub entry : ℕ → Text → ℕ → Element
entry id name expires = record {
  id = id;
  key = record { name = name; qtype = 1 };
  value = record value { expires = expires };
}

abbrev pub full : Cache
full = record {
  max_entries = 2;
  ll = entry 1 (codes "b") 900 ∷ entry 0 (codes "a") 800 ∷ [];
  items =
      (record { name = codes "b"; qtype = 1 }, 1)
      ∷ (record { name = codes "a"; qtype = 1 }, 0)
      ∷ [];
  next_id = 2;
  hits = 0;
  misses = 0;
  evictions = 0;
}

pub full-IsValid : IsValid full
unfolding lookup find_key elem ℕ_discrete
full-IsValid = record {
  indexed = record {
    ids = (refl, (refl, tt));
    keys = (ground arith, (refl, tt));
    fresh = (omega arith, (omega arith, tt));
    index = λ k. ground arith;
  };
  bounded = omega arith;
}

get-set_example :
    (c' c'' : Cache) × (set full key value 60 clock ≡ some c')
    × (get c' key 9
        ≡ some (
          c'',
          some (record value {
            ttl = seconds_left (clock 0 + 60 * second - 9);
            expires = clock 0 + 60 * second;
          }),
        ))
get-set_example =
    get-set full key value 60 clock 9 full-IsValid (omega arith) (λ i. omega arith) (omega arith)

absent : find_key key full.ll ≡ none
unfolding find_key Key-discrete Text-discrete ℕ_discrete
absent = refl

full-live : (i : ℕ) (el : Element) → Has el full.ll → is_expired (clock i) el ≡ false
unfolding Has
full-live i el (inl e) = ground (arith, e)
full-live i el (inr (inl e)) = ground (arith, e)
full-live i el (inr (inr h)) = absurd h

abbrev service : Service
service = record { cache_on = true; min_ttl = 5; max_ttl = 3600; neg_min_ttl = 1; neg_max_ttl = 60 }

abbrev answered : Engine.Result
answered = record {
  policy = prefer_china;
  addrs = v4 7 ∷ [];
  rcode = 0;
  soa = none;
  ttl = 2;
  complete = true;
  reports = [];
}

abbrev stored : Value
stored = record value { ttl = 5 }

abbrev engine : Text → ℕ → Engine.Result
engine name qtype = answered

abbrev failing : Text → ℕ → Engine.Result
failing name qtype = record answered { addrs = []; rcode = 2 }

-- The TTL of 2 is lifted to the lower bound.
resolve_run : resolve service answered ≡ (stored, true)
unfolding resolve from_engine clamp
resolve_run = refl

resolve-IsCacheable_example : IsCacheable service answered (resolve service answered).0
resolve-IsCacheable_example =
    resolve-IsCacheable service answered (omega arith) (omega arith) (ap (λ r. r.1) resolve_run)

abbrev qname : Text
qname = codes "Example.org."

lookup-Serves_example :
    Serves true
      (key_of qname 1)
      (resolve service (engine qname 1))
      9
      clock
      full
      (service_lookup service full engine qname 1 9 clock)
lookup-Serves_example = lookup-Serves service full engine qname 1 9 clock full-IsValid

absent_qname : find_key (key_of qname 1) full.ll ≡ none
unfolding find_key Key-discrete Text-discrete ℕ_discrete normalize_name trim_space trim_left
    is_space trim_suffix has_suffix drop has_prefix to_lower lower
absent_qname = refl

lookup-lookup_example :
    (c' c'' : Cache) × (service_lookup service full engine qname 1 9 clock ≡ some (c', stored))
    × (service_lookup service c' failing qname 1 9 clock
        ≡ some (
          c'',
          record stored {
            ttl = seconds_left (clock 0 + 5 * second - 9);
            expires = clock 0 + 5 * second;
          },
        ))
lookup-lookup_example =
    lookup-lookup service full engine failing qname 1 9 9 clock clock stored full-IsValid
      (omega arith) refl absent_qname resolve_run (omega arith) (λ i. omega arith) (omega arith)
      (omega arith)
