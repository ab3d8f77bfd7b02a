-- ===== src/Cache/Stored.antt =====
-- A `Set` of internal/cache/cache.go and a `Get` behind it.
use mathlib.Core.List.{reverse}
use chn_resolver_go.Prelude.{
  ℕ, suc, ◌+◌, ◌-◌, ◌*◌, ◌≤◌, ◌<◌, ◌≡◌, refl, sym, ◌∙◌, ap, subst, true, false, List, [], ◌∷◌,
  arith, length, Distinct, Option, some, ◌⊎◌, inl, inr, Option-cases, Bool-cases, ltb,
}
use chn_resolver_go.Cache.{
  Key, Key-discrete, Value, Element, Cache, second, remove, is_expired, seconds_left, get,
  find_victim, victim, back, evict_locked, set,
}
use chn_resolver_go.Cache.Index.{keys, find_key, drop_key, IsIndexed, deref-find_key, find_key-elem}
use chn_resolver_go.Cache.Moves.{length-drop_key, front-IsIndexed}
use chn_resolver_go.Cache.Invariant.{IsValid, get-live}
use chn_resolver_go.Cache.Evict.{
  Has, Has-reverse, Has-find_key, Has-key, back-Has, find_victim-Has, victim-Has, evicted,
  evicted-IsIndexed, evict_locked-one, evict_locked-none,
}
use chn_resolver_go.Cache.Set.{stamped, fresh, pushed, set-present, set-absent, pushed-IsIndexed}

pub find_victim-expired :
    (clock : ℕ → ℕ) (k : ℕ) (els : List Element) (el : Element)
    → (find_victim clock k els).0 ≡ some el
    → (i : ℕ) × (is_expired (clock i) el ≡ true)
unfolding find_victim
find_victim-expired clock k [] el e = cc
find_victim-expired clock k (x ∷ els) el e = elim (Bool-cases (is_expired (clock k) x)) [
  | inl h ↦ (k, ground (arith, h, e))
  | inr h ↦ find_victim-expired clock (suc k) els el (ground (arith, h, e))
]

victim-cases :
    (clock : ℕ → ℕ) (k : ℕ) (ll : List Element) (u : Element)
    → victim clock k ll ≡ some u
    → ((find_victim clock k (reverse ll)).0 ≡ some u) ⊎ (back ll ≡ some u)
unfolding victim
victim-cases clock k ll u e = elim (Option-cases (find_victim clock k (reverse ll)).0) [
  | inl n ↦ inr (sym (rw (n, victim) refl) ∙ e)
  | inr (z, found) ↦ inl (found ∙ (sym (rw (found, victim) refl) ∙ e))
]

-- A live entry in front of another one is not the victim.
victim-spares :
    (clock : ℕ → ℕ) (k : ℕ) (el : Element) (ll : List Element) (u : Element)
    → 0 < length ll
    → ((i : ℕ) → is_expired (clock i) el ≡ false)
    → victim clock k (el ∷ ll) ≡ some u
    → Has u ll
unfolding back Has
victim-spares clock k el [] u more live e = absurd (omega (arith, more))
victim-spares clock k el (x ∷ ll) u more live e = elim (victim-cases clock k (el ∷ x ∷ ll) u e) [
  | inr last ↦ back-Has u (x ∷ ll) last
  | inl found ↦
      let els : List Element = reverse (el ∷ x ∷ ll) in
      let (i, expired) = find_victim-expired clock k els u found in
      elim (Has-reverse u (el ∷ x ∷ ll) (find_victim-Has clock k els u found)) [
        | inr there ↦ there
        | inl same ↦ cc (sym expired ∙ ap (is_expired (clock i)) same, live i)
      ]
]

front_key : (el : Element) (ll : List Element) → find_key el.key (el ∷ ll) ≡ some el
unfolding find_key
front_key el ll = ground arith

-- An entry that stays when another one goes.
kept_key :
    (u : Element) (el : Element) (ll : List Element)
    → Distinct Key-discrete (keys (el ∷ ll))
    → Has u ll
    → find_key el.key (drop_key u.key (el ∷ ll)) ≡ some el
unfolding find_key drop_key
kept_key u el ll d h = ground (arith, Has-key u ll h, d.0)

-- The value is stored: the state after `Set` has it under its key.
Stored : Key → Value → Option Cache → Type 0
Stored k v o =
    (c : Cache) × (el : Element) × (o ≡ some c)
    × IsValid c
    × (find_key k c.ll ≡ some el)
    × (el.value ≡ v)

Stored-pushed :
    (c : Cache) (clock : ℕ → ℕ) (el : Element)
    → IsIndexed (pushed c el)
    → 1 ≤ c.max_entries
    → length c.ll ≤ c.max_entries
    → ((i : ℕ) → is_expired (clock i) el ≡ false)
    → Stored el.key el.value (evict_locked clock 1 (pushed c el))
unfolding find_key remove Stored
Stored-pushed c clock el w one bound live = elim (Bool-cases (ltb (length c.ll) c.max_entries)) [
  | inl room ↦ (
    pushed c el,
    el,
    evict_locked-none clock 1 (pushed c el) (ground (arith, room)),
    record { indexed = w; bounded = ground (arith, room) },
    front_key el c.ll,
    refl,
  )
  | inr full ↦
      let length_full : length c.ll ≡ c.max_entries = ground (arith, full, bound) in
      let (u, taken, there) = victim-Has clock 1 (el ∷ c.ll) (omega arith) in
      let other : Has u c.ll =
        victim-spares clock 1 el c.ll u (omega (arith, length_full, one)) live taken in
      let (w', shorter) = evicted-IsIndexed (pushed c el) u w there in
      (
        evicted (pushed c el) u,
        el,
        evict_locked-one clock 1 (pushed c el) u w (omega (arith, length_full)) taken there,
        record { indexed = w'; bounded = omega (arith, shorter, length_full) },
        rw (deref-find_key u.key (el ∷ c.ll) u w.ids (Has-find_key u (el ∷ c.ll) w.keys there)).1
            (kept_key u el c.ll w.keys other),
        refl,
      )
]

Stored-kept :
    (c : Cache) (v : Value) (ttl : ℕ) (clock : ℕ → ℕ) (el : Element)
    → IsValid c
    → find_key el.key c.ll ≡ some el
    → Stored el.key (stamped v ttl clock) (set c el.key v ttl clock)
unfolding Stored
Stored-kept c v ttl clock el w e =
    let el' : Element = record el { value = stamped v ttl clock } in
    let c' : Cache = record c { ll = el' ∷ drop_key el.key c.ll } in
    (
      c',
      el',
      set-present c el.key v ttl clock w.indexed el e,
      record {
        indexed = front-IsIndexed w.indexed el el' e refl refl;
        bounded = ground (arith, length-drop_key el.key c.ll el e, w.bounded);
      },
      front_key el' (drop_key el.key c.ll),
      refl,
    )

set-Stored :
    (c : Cache) (k : Key) (v : Value) (ttl : ℕ) (clock : ℕ → ℕ)
    → IsValid c
    → 1 ≤ c.max_entries
    → ((i : ℕ) → clock i < clock 0 + ttl * second)
    → Stored k (stamped v ttl clock) (set c k v ttl clock)
set-Stored c k v ttl clock w one ticks =
    let u : Value = stamped v ttl clock in
    elim (Option-cases (find_key k c.ll)) [
      | inl e ↦ rw (set-absent c k v ttl clock w.indexed e) (
          Stored-pushed c clock (fresh c k u) (pushed-IsIndexed c k v ttl clock w.indexed u e) one
            w.bounded (λ i. ground (arith, ticks i)))
      | inr (el, e) ↦
          subst (λ k. find_key k c.ll ≡ some el → Stored k u (set c k v ttl clock))
            (find_key-elem k c.ll el e).1 (Stored-kept c v ttl clock el w) e
    ]

-- After `Set` on a valid cache that may hold an entry, with a clock that stays before the expiry, `Get`
-- before the expiry returns the value, with the seconds that are left for its TTL.
pub get-set :
    (c : Cache) (k : Key) (v : Value) (ttl : ℕ) (clock : ℕ → ℕ) (now : ℕ)
    → IsValid c
    → 1 ≤ c.max_entries
    → ((i : ℕ) → clock i < clock 0 + ttl * second)
    → now < clock 0 + ttl * second
    → (c' c'' : Cache) × (set c k v ttl clock ≡ some c')
      × (get c' k now
          ≡ some (
            c'',
            some (record v {
              ttl = seconds_left (clock 0 + ttl * second - now);
              expires = clock 0 + ttl * second;
            }),
          ))
unfolding Stored
get-set c k v ttl clock now w one ticks early =
    let (c', el, stored, w', found, same) = set-Stored c k v ttl clock w one ticks in
    let live : is_expired now el ≡ false =
      ground (arith, ap (λ (x : Value). x.expires) same, early) in
    let c'' : Cache = record c' { ll = el ∷ drop_key k c'.ll; hits = c'.hits + 1 } in
    (
      c',
      c'',
      stored,
      get-live c' k now w'.indexed el found live
          ∙ ap (λ (x : Value). some (c'', some (record x { ttl = seconds_left (x.expires - now) })))
              same,
    )
