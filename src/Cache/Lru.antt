-- ===== src/Cache/Lru.antt =====
-- Which entries of internal/cache/cache.go a `Set` keeps, when none has expired.
use mathlib.Core.List.{reverse}
use chn_resolver_go.Prelude.{
  ℕ, zero, suc, ◌+◌, ◌*◌, ◌≤◌, ◌<◌, ◌≡◌, refl, sym, ◌∙◌, ap, true, false, List, [], ◌∷◌, arith,
  length, elem, Distinct, none, some, inl, inr, ℕ_discrete, Option-cases, Bool-cases, ltb,
}
use chn_resolver_go.Cache.{
  Key, Value, Element, Cache, second, unlink, remove, is_expired, find_victim, victim, back, set,
}
use chn_resolver_go.Cache.Index.{ids, find_key, IsIndexed}
use chn_resolver_go.Cache.Invariant.{IsValid}
use chn_resolver_go.Cache.Evict.{
  Has, Has-reverse, back-Has, find_victim-Has, back-some, evicted, evict_locked-one,
  evict_locked-none,
}
use chn_resolver_go.Cache.Stored.{find_victim-expired}
use chn_resolver_go.Cache.Set.{stamped, fresh, pushed, set-absent, pushed-IsIndexed}

Has-id : (u : Element) (ll : List Element) → Has u ll → elem ℕ_discrete u.id (ids ll) ≡ true
unfolding Has elem
Has-id u [] h = absurd h
Has-id u (x ∷ ll) (inl e) = ground (arith, e)
Has-id u (x ∷ ll) (inr h) = ground (arith, Has-id u ll h)

-- The first elements of a list.
unfoldable pub take : ℕ → List Element → List Element
take zero ll = []
take (suc n) [] = []
take (suc n) (x ∷ ll) = x ∷ take n ll

unlink-back :
    (x : Element) (ll : List Element) (u : Element)
    → Distinct ℕ_discrete (ids (x ∷ ll))
    → back (x ∷ ll) ≡ some u
    → unlink u.id (x ∷ ll) ≡ take (length ll) (x ∷ ll)
unfolding back unlink take
unlink-back x [] u d e = ground (arith, e)
unlink-back x (y ∷ ll) u d e =
    ground (arith, unlink-back y ll u d.1 e, Has-id u (y ∷ ll) (back-Has u (y ∷ ll) e), d.0)

take-all : (n : ℕ) (ll : List Element) → length ll ≤ n → take n ll ≡ ll
unfolding take
take-all zero [] h = refl
take-all zero (x ∷ ll) h = absurd (omega (arith, h))
take-all (suc n) [] h = refl
take-all (suc n) (x ∷ ll) h = ap (λ l. x ∷ l) (take-all n ll (omega (arith, h)))

-- Without an expired entry a round takes the back.
victim-back :
    (clock : ℕ → ℕ) (k : ℕ) (ll : List Element)
    → ((i : ℕ) (el : Element) → Has el ll → is_expired (clock i) el ≡ false)
    → victim clock k ll ≡ back ll
unfolding victim
victim-back clock k ll live = elim (Option-cases (find_victim clock k (reverse ll)).0) [
  | inl n ↦ rw (n, victim) refl
  | inr (u, found) ↦
      let (i, expired) = find_victim-expired clock k (reverse ll) u found in
      let there : Has u ll = Has-reverse u ll (find_victim-Has clock k (reverse ll) u found) in
      cc (expired, live i u there)
]

-- When nothing in a valid cache has expired, the new value neither, and the key is new, the list after
-- `Set` is the new entry and the most recently used ones, cut to the capacity.
pub ll-set :
    (c : Cache) (k : Key) (v : Value) (ttl : ℕ) (clock : ℕ → ℕ)
    → IsValid c
    → find_key k c.ll ≡ none
    → ((i : ℕ) → clock i < clock 0 + ttl * second)
    → ((i : ℕ) (el : Element) → Has el c.ll → is_expired (clock i) el ≡ false)
    → (c' : Cache) × (set c k v ttl clock ≡ some c')
      × (c'.ll ≡ take c.max_entries (fresh c k (stamped v ttl clock) ∷ c.ll))
unfolding Has remove
ll-set c k v ttl clock w absent ticks live =
    let el : Element = fresh c k (stamped v ttl clock) in
    let p : Cache = pushed c el in
    let v' : IsIndexed p =
      pushed-IsIndexed c k v ttl clock w.indexed (stamped v ttl clock) absent in
    elim (Bool-cases (ltb (length c.ll) c.max_entries)) [
      | inl room ↦ (
        p,
        set-absent c k v ttl clock w.indexed absent
            ∙ evict_locked-none clock 1 p (ground (arith, room)),
        sym (take-all c.max_entries p.ll (ground (arith, room))),
      )
      | inr full ↦
          let length_full : length c.ll ≡ c.max_entries = ground (arith, full, w.bounded) in
          let (u, last) = back-some el c.ll in
          let taken : victim clock 1 p.ll ≡ some u =
            victim-back clock 1 p.ll (λ i z h. elim h [
              | inl same ↦ ap (is_expired (clock i)) same ∙ ground (arith, ticks i)
              | inr there ↦ live i z there
            ])
            ∙ last in
          (
            evicted p u,
            set-absent c k v ttl clock w.indexed absent
                ∙ evict_locked-one clock 1 p u v' (omega (arith, length_full)) taken
                    (back-Has u p.ll last),
            unlink-back el c.ll u v'.ids last ∙ rw length_full refl,
          )
    ]
