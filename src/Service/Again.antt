-- ===== src/Service/Again.antt =====
-- A lookup through internal/resolve/service.go, and one behind it.
use mathlib.Core.Option
use chn_resolver_go.Prelude.{
  ℕ, ◌+◌, ◌-◌, ◌*◌, ◌≤◌, ◌<◌, ◌≡◌, refl, ◌∙◌, ap, true, false, none, some, leb, arith, ◌^◌,
}
use chn_resolver_go.Text.{Text}
use chn_resolver_go.Engine
use chn_resolver_go.Cache.{Key, Value, Cache, second, seconds_left, get, set}
use chn_resolver_go.Cache.Index.{find_key}
use chn_resolver_go.Cache.Invariant.{IsValid, recount-IsValid, get-absent}
use chn_resolver_go.Cache.Stored.{get-set}
use chn_resolver_go.Service.{Service, resolve, normalize_name, lead, proceed, lookup}

-- The key of a query.
abbrev pub key_of : Text → ℕ → Key
key_of qname qtype = record { name = normalize_name qname; qtype = qtype }

pub lookup-cached :
    (s : Service) (c : Cache) (engine : Text → ℕ → Engine.Result) (qname : Text) (qtype now : ℕ)
    (clock : ℕ → ℕ)
    → s.cache_on ≡ true
    → lookup s c engine qname qtype now clock
      ≡ proceed
          (key_of qname qtype)
          (resolve s (engine qname qtype))
          clock
          (get c (key_of qname qtype) now)
unfolding lookup
lookup-cached s c engine qname qtype now clock on = ground (arith, on)

-- A whole second that is left counts two when a part of the next one is left too.
seconds_left-more :
    (r : ℕ) → second < r → r ≤ 4_294_967_295 * second → leb (seconds_left r) 1 ≡ false
unfolding seconds_left
seconds_left-more r h k = ground (arith, h, k)

-- With the cache on, valid, and with room for at least one entry: a lookup of an absent key whose
-- result is cacheable, with a TTL that fits uint32 and a clock that stays before the expiry,
-- returns it and stores it; a later lookup, while more than one second of its TTL is left, returns
-- the stored value with the seconds left, whatever the engine would say by then.
pub lookup-lookup :
    (s : Service) (c : Cache) (engine later : Text → ℕ → Engine.Result) (qname : Text)
    (qtype now soon : ℕ) (clock clock' : ℕ → ℕ) (v : Value)
    → IsValid c
    → 1 ≤ c.max_entries
    → s.cache_on ≡ true
    → find_key (key_of qname qtype) c.ll ≡ none
    → resolve s (engine qname qtype) ≡ (v, true)
    → v.ttl < 2 ^ 32
    → ((i : ℕ) → clock i < clock 0 + v.ttl * second)
    → clock 0 ≤ soon
    → soon + second < clock 0 + v.ttl * second
    → (c' c'' : Cache) × (lookup s c engine qname qtype now clock ≡ some (c', v))
      × (lookup s c' later qname qtype soon clock'
          ≡ some (
            c'',
            record v {
              ttl = seconds_left (clock 0 + v.ttl * second - soon);
              expires = clock 0 + v.ttl * second;
            },
          ))
unfolding lead proceed set
lookup-lookup s c engine later qname qtype now soon clock clock' v w one on absent answer small
      ticks after early =
    let key : Key = key_of qname qtype in
    let missed : Cache = record c { misses = c.misses + 1 } in
    let valid : IsValid missed = recount-IsValid c c.hits (c.misses + 1) c.evictions w in
    let (c', c'', stored, got) =
      get-set missed key v v.ttl clock soon valid one ticks (omega (arith, early)) in
    let left : leb (seconds_left (clock 0 + v.ttl * second - soon)) 1 ≡ false =
      seconds_left-more (clock 0 + v.ttl * second - soon) (omega (arith, early))
        (ground (arith, small, after)) in
    (
      c',
      c'',
      lookup-cached s c engine qname qtype now clock on
          ∙ ap (proceed key (resolve s (engine qname qtype)) clock)
              (get-absent c key now w.indexed absent)
          ∙ ap (λ r. lead missed key r clock) answer
          ∙ ap (Option.map (λ c. (c, v))) stored,
      lookup-cached s c' later qname qtype soon clock' on
          ∙ ap (proceed key (resolve s (later qname qtype)) clock') got
          ∙ rw left refl,
    )
