-- ===== src/Cache/Invariant.antt =====
-- The invariant of internal/cache/cache.go, and the single steps: `New`, `Flush`, `Get`. Cache.Evict has
-- the eviction loop.
use mathlib.Core.List.{lookup}
use chn_resolver_go.Prelude.{
  ℕ, suc, ◌+◌, ◌-◌, ◌≤◌, ◌≡◌, refl, subst, true, false, ◌∷◌, arith, length, Option, none, some, inl,
  inr, Option-cases, Bool-cases,
}
use chn_resolver_go.Cache.{
  Key, Value, Element, Cache, remove, new, is_expired, seconds_left, get, flush,
}
use chn_resolver_go.Cache.Index.{find_key, drop_key, IsIndexed, deref-find_key, find_key-elem}
use chn_resolver_go.Cache.Moves.{length-drop_key, remove-IsIndexed, front-IsIndexed}

pub record IsValid (c : Cache) : Type 0 where
  pub indexed : IsIndexed c
  pub bounded : length c.ll ≤ c.max_entries

pub new-IsValid : (n : ℕ) → IsValid (new n)
unfolding new lookup find_key
new-IsValid n = record {
  indexed = record { ids = tt; keys = tt; fresh = tt; index = λ k. refl };
  bounded = omega arith;
}

pub flush-IsValid : (c : Cache) → IsValid c → IsValid (flush c)
unfolding flush lookup find_key
flush-IsValid c v = record {
  indexed = record { ids = tt; keys = tt; fresh = tt; index = λ k. refl };
  bounded = omega arith;
}

-- What `get` does, by the entry of the key.
module _ (c : Cache) (k : Key) (now : ℕ) (v : IsIndexed c) where
  pub get-absent :
      find_key k c.ll ≡ none → get c k now ≡ some (record c { misses = c.misses + 1 }, none)
  unfolding get
  get-absent e = rw (v.index k, e, get) refl

  pub get-expired :
      (el : Element)
      → find_key k c.ll ≡ some el
      → is_expired now el ≡ true
      → get c k now
        ≡ some (record (remove c el) { evictions = c.evictions + 1; misses = c.misses + 1 }, none)
  unfolding get
  get-expired el e x = rw (v.index k, e, (deref-find_key k c.ll el v.ids e).0, x, get) refl

  pub get-live :
      (el : Element)
      → find_key k c.ll ≡ some el
      → is_expired now el ≡ false
      → get c k now
        ≡ some (
          record c { ll = el ∷ drop_key k c.ll; hits = c.hits + 1 },
          some (record el.value { ttl = seconds_left (el.value.expires - now) }),
        )
  unfolding get
  get-live el e x =
      let found = deref-find_key k c.ll el v.ids e in
      rw (v.index k, e, found.0, x, found.1, get) refl

-- The result of an operation that may fault: it has none, and leaves a valid cache of the same
-- capacity.
unfoldable pub IsKept : ℕ → Option (Cache × Option Value) → Type 0
IsKept n none = ⊥
IsKept n (some (c, v)) = IsValid c × (c.max_entries ≡ n)

-- The counters do not matter.
pub recount-IsValid :
    (c : Cache) (h m e : ℕ) → IsValid c → IsValid (record c { hits = h; misses = m; evictions = e })
recount-IsValid c h m e v = record {
  indexed = record {
    ids = v.indexed.ids;
    keys = v.indexed.keys;
    fresh = v.indexed.fresh;
    index = v.indexed.index;
  };
  bounded = v.bounded;
}

pub remove-length :
    (c : Cache) (el : Element)
    → IsIndexed c
    → find_key el.key c.ll ≡ some el
    → suc (length (remove c el).ll) ≡ length c.ll
unfolding remove
remove-length c el v e =
    rw (deref-find_key el.key c.ll el v.ids e).1 (length-drop_key el.key c.ll el e)

get-present :
    (c : Cache) (now : ℕ) (el : Element)
    → IsValid c
    → find_key el.key c.ll ≡ some el
    → IsKept c.max_entries (get c el.key now)
unfolding IsKept remove
get-present c now el v e = elim (Bool-cases (is_expired now el)) [
  | inl x ↦ rw (get-expired c el.key now v.indexed el e x) (
    recount-IsValid (remove c el) c.hits (c.misses + 1) (c.evictions + 1) (record {
      indexed = remove-IsIndexed v.indexed el e;
      bounded = ground (arith, remove-length c el v.indexed e, v.bounded);
    }),
    refl,
  )
  | inr x ↦ rw (get-live c el.key now v.indexed el e x) (
    recount-IsValid (record c { ll = el ∷ drop_key el.key c.ll }) (c.hits + 1) c.misses c.evictions
        (record {
          indexed = front-IsIndexed v.indexed el el e refl refl;
          bounded = ground (arith, length-drop_key el.key c.ll el e, v.bounded);
        }),
    refl,
  )
]

-- `Get` on a valid cache follows no pointer out of the list, and leaves the cache valid with the same
-- capacity.
pub get-IsValid : (c : Cache) (k : Key) (now : ℕ) → IsValid c → IsKept c.max_entries (get c k now)
unfolding IsKept
get-IsValid c k now v = elim (Option-cases (find_key k c.ll)) [
  | inl e ↦
      rw (get-absent c k now v.indexed e)
        (recount-IsValid c c.hits (c.misses + 1) c.evictions v, refl)
  | inr (el, e) ↦
      let same : el.key ≡ k = (find_key-elem k c.ll el e).1 in
      subst (λ k. find_key k c.ll ≡ some el → IsKept c.max_entries (get c k now)) same
        (get-present c now el v) e
]
