-- ===== src/Cache/Set.antt =====
-- `Set` of internal/cache/cache.go by its branches.
use chn_resolver_go.Prelude.{
  ℕ, suc, ◌+◌, ◌*◌, ◌≡◌, refl, subst, false, List, [], ◌∷◌, arith, elem, Option, none, some, inl,
  inr, Option-cases,
}
use chn_resolver_go.Cache.{
  Key, Key-discrete, Value, Element, Cache, second, unlink, evict_locked, assign, set_locked, set,
}
use chn_resolver_go.Cache.Index.{keys, find_key, drop_key, IsIndexed, deref-find_key, find_key-elem}
use chn_resolver_go.Cache.Moves.{length-drop_key, front-IsIndexed, push-IsIndexed}
use chn_resolver_go.Cache.Invariant.{IsValid}
use chn_resolver_go.Cache.Evict.{IsSettled, evict_locked-IsSettled}

-- The value with its expiry, the new element, and the list with it.
abbrev pub stamped : Value → ℕ → (ℕ → ℕ) → Value
stamped v ttl clock = record v { ttl = ttl; expires = clock 0 + ttl * second }

abbrev pub fresh : Cache → Key → Value → Element
fresh c k v = record { id = c.next_id; key = k; value = v }

abbrev pub pushed : Cache → Element → Cache
pushed c el = record c {
  ll = el ∷ c.ll;
  items = (el.key, el.id) ∷ c.items;
  next_id = suc c.next_id;
}

unlink-assign : (i : ℕ) (v : Value) (ll : List Element) → unlink i (assign i v ll) ≡ unlink i ll
unfolding unlink assign
unlink-assign i v [] = refl
unlink-assign i v (x ∷ ll) = ground (arith, unlink-assign i v ll)

find_key-none :
    (k : Key) (ll : List Element) → find_key k ll ≡ none → elem Key-discrete k (keys ll) ≡ false
unfolding find_key elem
find_key-none k [] e = refl
find_key-none k (x ∷ ll) e = ground (arith, find_key-none k ll)

module _ (c : Cache) (k : Key) (v : Value) (ttl : ℕ) (clock : ℕ → ℕ) (w : IsIndexed c) where
  pub set-present :
      (el : Element)
      → find_key k c.ll ≡ some el
      → set c k v ttl clock
        ≡ some (record c { ll = record el { value = stamped v ttl clock } ∷ drop_key k c.ll })
  unfolding set set_locked
  set-present el e =
      let found = deref-find_key k c.ll el w.ids e in
      rw
        (
          w.index k,
          e,
          found.0,
          unlink-assign el.id (stamped v ttl clock) c.ll,
          found.1,
          set,
          set_locked,
        )
        refl

  pub set-absent :
      find_key k c.ll ≡ none
      → set c k v ttl clock ≡ evict_locked clock 1 (pushed c (fresh c k (stamped v ttl clock)))
  unfolding set set_locked
  set-absent e = rw (w.index k, e, set, set_locked) refl

  pub pushed-IsIndexed : (u : Value) → find_key k c.ll ≡ none → IsIndexed (pushed c (fresh c k u))
  pushed-IsIndexed u e = push-IsIndexed w (fresh c k u) refl (find_key-none k c.ll e)

-- A `Set` does not fault, and leaves a valid cache of the same capacity.
unfoldable pub IsStored : ℕ → Option Cache → Type 0
IsStored n none = ⊥
IsStored n (some c) = IsValid c × (c.max_entries ≡ n)

IsStored-settled : (c : Cache) (o : Option Cache) → IsSettled c o → IsStored c.max_entries o
unfolding IsStored IsSettled
IsStored-settled c none h = h
IsStored-settled c (some c') h = (h.0, h.1)

set-kept :
    (c : Cache) (v : Value) (ttl : ℕ) (clock : ℕ → ℕ) (el : Element)
    → IsValid c
    → find_key el.key c.ll ≡ some el
    → IsStored c.max_entries (set c el.key v ttl clock)
unfolding IsStored
set-kept c v ttl clock el w e = rw (set-present c el.key v ttl clock w.indexed el e) (
  record {
    indexed = front-IsIndexed w.indexed el (record el { value = stamped v ttl clock }) e refl refl;
    bounded = ground (arith, length-drop_key el.key c.ll el e, w.bounded);
  },
  refl,
)

-- `Set` on a valid cache, whatever the clock reads, follows no pointer out of the list, ends its
-- evictions, and leaves the cache valid and within the same capacity.
pub set-IsValid :
    (c : Cache) (k : Key) (v : Value) (ttl : ℕ) (clock : ℕ → ℕ)
    → IsValid c
    → IsStored c.max_entries (set c k v ttl clock)
set-IsValid c k v ttl clock w =
    let u : Value = stamped v ttl clock in
    elim (Option-cases (find_key k c.ll)) [
      | inl e ↦ rw (set-absent c k v ttl clock w.indexed e) (
          IsStored-settled (pushed c (fresh c k u)) (evict_locked clock 1 (pushed c (fresh c k u)))
            (evict_locked-IsSettled clock 1 (pushed c (fresh c k u))
              (pushed-IsIndexed c k v ttl clock w.indexed u e)))
      | inr (el, e) ↦
          subst (λ k. find_key k c.ll ≡ some el → IsStored c.max_entries (set c k v ttl clock))
            (find_key-elem k c.ll el e).1 (set-kept c v ttl clock el w) e
    ]
