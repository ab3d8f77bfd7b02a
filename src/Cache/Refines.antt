-- ===== src/Cache/Refines.antt =====
-- The operations of internal/cache/cache.go, seen as operations of a list of keys and values.
use mathlib.Core.List.{reverse}
use chn_resolver_go.Prelude.{
  ℕ, suc, ◌+◌, ◌-◌, ◌≡◌, refl, sym, ap, ◌∙◌, true, false, List, [], ◌∷◌, map, map-reverse,
  length-map, Option, none, some, ltb, if◌then◌else◌, arith, length, inl, inr, Option-cases,
  Bool-cases,
}
use chn_resolver_go.Cache.{
  Key, Key-discrete, Value, Element, Cache, second, remove, is_expired, find_victim, victim, back,
  seconds_left,
}
use chn_resolver_go.Cache
use chn_resolver_go.Cache.Index.{find_key, drop_key, deref-find_key, find_key-elem}
use chn_resolver_go.Cache.Invariant.{IsValid, get-absent, get-expired, get-live}
use chn_resolver_go.Cache.Evict.{
  Has-find_key, victim-Has, evicted, evict_locked-one, evict_locked-none,
}
use chn_resolver_go.Cache.Set.{stamped, fresh, pushed, set-present, set-absent, pushed-IsIndexed}
use chn_resolver_go.Cache.Spec.{
  Entry, Lru, is_late, read, Entry, find, without, stale_key, last_key, drop_or, evict, write,
}
use chn_resolver_go.Cache.Spec

abbrev pub entry : Element → Entry
entry el = (el.key, el.value)

-- What a cache is for its user.
unfoldable pub view : Cache → Lru
view c = record { capacity = c.max_entries; entries = map entry c.ll }

value_of : Option Element → Option Value
value_of none = none
value_of (some el) = some el.value

find-map : (k : Key) (ll : List Element) → find k (map entry ll) ≡ value_of (find_key k ll)
unfolding find find_key value_of
find-map k [] = refl
find-map k (x ∷ ll) = ground (arith, find-map k ll)

without-map : (k : Key) (ll : List Element) → without k (map entry ll) ≡ map entry (drop_key k ll)
unfolding without drop_key
without-map k [] = refl
without-map k (x ∷ ll) = ground (arith, without-map k ll)

-- An operation that returns, with the list of the specification and its value.
abbrev pub Agrees : Option (Cache × Option Value) → Lru × Option Value → Type 0
Agrees r s = (c' : Cache) × (v : Option Value) × (r ≡ some (c', v)) × ((view c', v) ≡ s)

module _ (c : Cache) (k : Key) (now : ℕ) where
  looked_up :
      {found : Option Element}
      → find_key k c.ll ≡ found
      → Spec.get (view c) k now ≡ read (view c) k now (value_of found)
  unfolding Spec.get view
  looked_up e = ap (read (view c) k now) (find-map k c.ll ∙ ap value_of e)

  read_late :
      (v : Value)
      → is_late now v ≡ true
      → read (view c) k now (some v)
        ≡ (record (view c) { entries = without k (view c).entries }, none)
  unfolding view
  read_late v x = rw x refl

  read_live :
      (v : Value)
      → is_late now v ≡ false
      → read (view c) k now (some v) ≡ (
        record (view c) { entries = (k, v) ∷ without k (view c).entries },
        some (record v { ttl = seconds_left (v.expires - now) }),
      )
  unfolding view
  read_live v x = rw x refl

agreed :
    {r : Option (Cache × Option Value)} {s : Lru × Option Value} (c' : Cache) (v : Option Value)
    → r ≡ some (c', v)
    → s ≡ (view c', v)
    → Agrees r s
agreed c' v e f = (c', v, e, sym f)

pub get-Agrees :
    (c : Cache) (k : Key) (now : ℕ)
    → IsValid c
    → Agrees (Cache.get c k now) (Spec.get (view c) k now)
unfolding view remove value_of
get-Agrees c k now w = elim (Option-cases (find_key k c.ll)) [
  | inl e ↦
      agreed (record c { misses = c.misses + 1 }) none (get-absent c k now w.indexed e)
        (looked_up c k now e)
  | inr (el, e) ↦
      let same_key = (find_key-elem k c.ll el e).1 in
      let rest = without-map k c.ll in
      elim (Bool-cases (is_expired now el)) [
        | inl x ↦
            agreed (record (remove c el) { evictions = c.evictions + 1; misses = c.misses + 1 })
              none (get-expired c k now w.indexed el e x)
              (looked_up c k now e
                ∙ read_late c k now el.value x
                ∙ ap (λ es. (record { capacity = c.max_entries; entries = es }, none))
                    (rest ∙ ap (map entry) (sym (deref-find_key k c.ll el w.indexed.ids e).1)))
        | inr x ↦
            agreed (record c { ll = el ∷ drop_key k c.ll; hits = c.hits + 1 })
              (some (record el.value { ttl = seconds_left (el.value.expires - now) }))
              (get-live c k now w.indexed el e x)
              (looked_up c k now e
                ∙ read_live c k now el.value x
                ∙ ap
                    (λ es. (
                      record { capacity = c.max_entries; entries = es },
                      some (record el.value { ttl = seconds_left (el.value.expires - now) }),
                    ))
                    (ap (λ q. (q, el.value) ∷ without k (map entry c.ll)) (sym same_key)
                      ∙ ap (λ es. (el.key, el.value) ∷ es) rest))
      ]
]

key_of : Option Element → Option Key
key_of none = none
key_of (some el) = some el.key

stale_key-map :
    (clock : ℕ → ℕ) (i : ℕ) (els : List Element)
    → stale_key clock i (map entry els) ≡ key_of (find_victim clock i els).0
unfolding stale_key find_victim key_of
stale_key-map clock i [] = refl
stale_key-map clock i (el ∷ els) = ground (arith, stale_key-map clock (suc i) els)

last_key-map : (ll : List Element) → last_key (map entry ll) ≡ key_of (back ll)
unfolding last_key back key_of
last_key-map [] = refl
last_key-map (el ∷ []) = refl
last_key-map (el ∷ x ∷ ll) = last_key-map (x ∷ ll)

evict-map :
    (clock : ℕ → ℕ) (ll : List Element) (u : Element)
    → victim clock 1 ll ≡ some u
    → evict clock (map entry ll) ≡ without u.key (map entry ll)
unfolding evict victim key_of
evict-map clock ll u e =
    let stale =
      ap (stale_key clock 1) (sym (map-reverse entry ll)) ∙ stale_key-map clock 1 (reverse ll) in
    ap (λ k. drop_or k (last_key (map entry ll)) (map entry ll)) stale
    ∙ ap (λ k. drop_or (key_of (find_victim clock 1 (reverse ll)).0) k (map entry ll))
        (last_key-map ll)
    ∙ ground (arith, e)

-- What a `Set` that returns leaves for its user.
abbrev pub Wrote : Option Cache → Lru → Type 0
Wrote r s = (c' : Cache) × (r ≡ some c') × (view c' ≡ s)

module _ (c : Cache) (k : Key) (v : Value) (ttl : ℕ) (clock : ℕ → ℕ) (w : IsValid c) where
  looked_up_set :
      {found : Option Element}
      → find_key k c.ll ≡ found
      → Spec.set (view c) k v ttl clock ≡ record (view c) {
        entries = write (view c) k (stamped v ttl clock) clock (value_of found);
      }
  unfolding Spec.set view
  looked_up_set e =
      ap (λ found. record (view c) { entries = write (view c) k (stamped v ttl clock) clock found })
        (find-map k c.ll ∙ ap value_of e)

  written : List Entry → Lru
  written es = record { capacity = c.max_entries; entries = es }

  set_known :
      (el : Element)
      → find_key k c.ll ≡ some el
      → Wrote (Cache.set c k v ttl clock) (Spec.set (view c) k v ttl clock)
  unfolding view value_of written
  set_known el e = (
    record c { ll = record el { value = stamped v ttl clock } ∷ drop_key k c.ll },
    set-present c k v ttl clock w.indexed el e,
    sym (
        looked_up_set e
        ∙ ap written (
            ap (λ q. (q, stamped v ttl clock) ∷ without k (map entry c.ll))
              (sym (find_key-elem k c.ll el e).1)
            ∙ ap (λ es. (el.key, stamped v ttl clock) ∷ es) (without-map k c.ll))),
  )

  set_new :
      find_key k c.ll ≡ none → Wrote (Cache.set c k v ttl clock) (Spec.set (view c) k v ttl clock)
  unfolding view value_of written remove
  set_new e =
      let el : Element = fresh c k (stamped v ttl clock) in
      let p : Cache = pushed c el in
      let es : List Entry = map entry p.ll in
      let p_valid = pushed-IsIndexed c k v ttl clock w.indexed (stamped v ttl clock) e in
      let counted : length es ≡ suc (length c.ll) = length-map entry p.ll in
      let stored = set-absent c k v ttl clock w.indexed e in
      elim (Bool-cases (ltb c.max_entries (length es))) [
        | inr room ↦ (
          p,
          stored ∙ evict_locked-none clock 1 p (ground (arith, room, counted)),
          sym (looked_up_set e ∙ ap (λ b. written (if b then evict clock es else es)) room),
        )
        | inl over ↦
            let full : length p.ll ≡ suc c.max_entries = ground (arith, over, counted, w.bounded) in
            let (u, taken, there) = victim-Has clock 1 p.ll (omega arith) in
            let gone =
              deref-find_key u.key p.ll u p_valid.ids (Has-find_key u p.ll p_valid.keys there) in
            (
              evicted p u,
              stored ∙ evict_locked-one clock 1 p u p_valid full taken there,
              sym (
                  looked_up_set e
                  ∙ ap (λ b. written (if b then evict clock es else es)) over
                  ∙ ap written (
                      evict-map clock p.ll u taken
                      ∙ without-map u.key p.ll
                      ∙ ap (map entry) (sym gone.1))),
            )
      ]

  pub set-Wrote : Wrote (Cache.set c k v ttl clock) (Spec.set (view c) k v ttl clock)
  set-Wrote = elim (Option-cases (find_key k c.ll)) [
    | inl e ↦ set_new e
    | inr (el, e) ↦ set_known el e
  ]
