-- ===== src/Service/Served.antt =====
-- `Lookup` of internal/resolve/service.go on what the cache is for its user.
use mathlib.Core.Option
use chn_resolver_go.Prelude.{
  ℕ, ◌+◌, ◌≤◌, ◌<◌, ◌≡◌, refl, sym, ap, ◌∙◌, subst, ◌⊎◌, Bool, true, false, Option, none, some, leb,
  arith, Bool-cases, inl, inr,
}
use chn_resolver_go.Text.{Text}
use chn_resolver_go.Engine
use chn_resolver_go.Cache.{Key, Value, Cache, set}
use chn_resolver_go.Cache.Invariant.{IsValid, IsKept, recount-IsValid, get-IsValid}
use chn_resolver_go.Cache.Set.{IsStored, set-IsValid}
use chn_resolver_go.Cache.Spec.{Lru}
use chn_resolver_go.Cache.Spec
use chn_resolver_go.Cache.Refines.{view, get-Agrees, set-Wrote}
use chn_resolver_go.Service.{Service, resolve, lead, proceed, lookup}
use chn_resolver_go.Service.Again.{key_of, lookup-cached}

-- Of a lookup of `key` at `now`: `fresh` is what the engine gives, and whether that is cacheable; `clock`
-- is read when it is stored.
module _ (cache_on : Bool) (key : Key) (fresh : Value × Bool) (now : ℕ) (clock : ℕ → ℕ) where
  -- The list has nothing to serve: no live entry, or one with a second left at most.
  abbrev pub Misses : Lru → Lru → Type 0
  Misses l l' =
      (Spec.get l key now ≡ (l', none))
      ⊎ ((old : Value) × (Spec.get l key now ≡ (l', some old)) × (old.ttl ≤ 1))

  -- What a lookup makes of the list, and what it returns.
  pub data Served (l : Lru) : Lru → Value → Type 0 where
    uncached : cache_on ≡ false → Served l l fresh.0
    hit :
        {l' : Lru} {v : Value}
        → cache_on ≡ true
        → Spec.get l key now ≡ (l', some v)
        → 1 < v.ttl
        → Served l l' v
    stored :
        {l' : Lru}
        → cache_on ≡ true
        → Misses l l'
        → fresh.1 ≡ true
        → Served l (Spec.set l' key fresh.0 fresh.0.ttl clock) fresh.0
    passed : {l' : Lru} → cache_on ≡ true → Misses l l' → fresh.1 ≡ false → Served l l' fresh.0

  abbrev pub Serves : Cache → Option (Cache × Value) → Type 0
  Serves c r =
      (c' : Cache) × (v : Value) × (r ≡ some (c', v))
      × IsValid c'
      × (c'.max_entries ≡ c.max_entries)
      × Served (view c) (view c') v

  lead-Serves :
      (c c1 : Cache)
      → cache_on ≡ true
      → IsValid c1
      → c1.max_entries ≡ c.max_entries
      → Misses (view c) (view c1)
      → Serves c (lead c1 key fresh clock)
  unfolding lead set IsStored
  lead-Serves c c1 on w same missed = elim (Bool-cases fresh.1) [
    | inl cacheable ↦
        let (c', e, viewed) = set-Wrote c1 key fresh.0 fresh.0.ttl clock w in
        let (valid, kept) =
          subst (IsStored c1.max_entries) e (set-IsValid c1 key fresh.0 fresh.0.ttl clock w) in
        (
          c',
          fresh.0,
          rw (cacheable, lead) (ap (Option.map (λ c. (c, fresh.0))) e),
          valid,
          kept ∙ same,
          subst (λ l. Served (view c) l fresh.0) (sym viewed) (Served.stored on missed cacheable),
        )
    | inr not_cacheable ↦
        (c1, fresh.0, rw (not_cacheable, lead) refl, w, same, Served.passed on missed not_cacheable)
  ]

  proceed-Serves :
      (c c1 : Cache) (found : Option Value)
      → cache_on ≡ true
      → IsValid c1
      → c1.max_entries ≡ c.max_entries
      → Spec.get (view c) key now ≡ (view c1, found)
      → Serves c (proceed key fresh clock (some (c1, found)))
  unfolding proceed view
  proceed-Serves c c1 none on w same e = lead-Serves c c1 on w same (inl e)
  proceed-Serves c c1 (some old) on w same e = elim (Bool-cases (leb old.ttl 1)) [
    | inl late ↦ rw late (
        lead-Serves c (record c1 { misses = c1.misses + 1 }) on
          (recount-IsValid c1 c1.hits (c1.misses + 1) c1.evictions w) same
          (inr (old, e, ground (arith, late))))
    | inr live ↦ rw live (c1, old, refl, w, same, Served.hit on e (ground (arith, live)))
  ]

-- `Lookup` on a valid cache does not fault and leaves it valid with its capacity. Without the cache it
-- returns the engine's value and changes nothing. Else it returns what `Get` of the cache's specification
-- has for the key, if that has a TTL above one second; or, if it has nothing or less, the engine's value,
-- which the specification's `Set` then stores, for its TTL, exactly when it is cacheable.
pub lookup-Serves :
    (s : Service) (c : Cache) (engine : Text → ℕ → Engine.Result) (qname : Text) (qtype now : ℕ)
    (clock : ℕ → ℕ)
    → IsValid c
    → Serves s.cache_on
        (key_of qname qtype)
        (resolve s (engine qname qtype))
        now
        clock
        c
        (lookup s c engine qname qtype now clock)
unfolding lookup IsKept
lookup-Serves s c engine qname qtype now clock w =
    let key = key_of qname qtype in
    let fresh = resolve s (engine qname qtype) in
    elim (Bool-cases s.cache_on) [
      | inr off ↦ (c, fresh.0, rw (off, lookup) refl, w, refl, Served.uncached off)
      | inl on ↦
          let (c1, found, e, met) = get-Agrees c key now w in
          let (valid, same) = subst (IsKept c.max_entries) e (get-IsValid c key now w) in
          let (c', v, f, valid', same', served) =
            proceed-Serves s.cache_on key fresh now clock c c1 found on valid same (sym met) in
          (
            c',
            v,
            lookup-cached s c engine qname qtype now clock on ∙ ap (proceed key fresh clock) e ∙ f,
            valid',
            same',
            served,
          )
    ]
