-- ===== src/Cache/Evict.antt =====
-- `evictLocked` of internal/cache/cache.go: its victims and its loop.
use mathlib.Core.List.{reverse, reverse-cons}
use chn_resolver_go.Prelude.{
  ℕ, zero, suc, ◌+◌, ◌≤◌, ◌<◌, ◌≡◌, refl, subst, true, List, [], ◌∷◌, ◌++◌, arith, length, elem,
  Distinct, Option, none, some, ◌⊎◌, inl, inr, Option-cases, Bool-cases, ltb, ltb→lt, lt→ltb,
}
use chn_resolver_go.Cache.{
  Key-discrete, Element, Cache, remove, find_victim, victim, back, evict_loop, evict_locked,
}
use chn_resolver_go.Cache.Index.{keys, find_key, IsIndexed}
use chn_resolver_go.Cache.Moves.{remove-IsIndexed}
use chn_resolver_go.Cache.Invariant.{IsValid, remove-length}

unfoldable pub Has : Element → List Element → Type 0
Has el [] = ⊥
Has el (x ∷ ll) = (el ≡ x) ⊎ Has el ll

Has-snoc : (el x : Element) (ll : List Element) → Has el (ll ++ (x ∷ [])) → (el ≡ x) ⊎ Has el ll
unfolding Has
Has-snoc el x [] h = ground (arith, h)
Has-snoc el x (y ∷ ll) (inl e) = inr (inl e)
Has-snoc el x (y ∷ ll) (inr h) = elim (Has-snoc el x ll h) [ inl e ↦ inl e | inr m ↦ inr (inr m) ]

pub Has-reverse : (el : Element) (ll : List Element) → Has el (reverse ll) → Has el ll
unfolding Has
Has-reverse el [] h = h
Has-reverse el (x ∷ ll) h =
    let back : Has el (reverse ll ++ (x ∷ [])) = subst (Has el) (reverse-cons x ll) h in
    elim (Has-snoc el x (reverse ll) back) [ inl e ↦ inl e | inr m ↦ inr (Has-reverse el ll m) ]

pub Has-key :
    (el : Element) (ll : List Element) → Has el ll → elem Key-discrete el.key (keys ll) ≡ true
unfolding Has elem
Has-key el [] h = absurd h
Has-key el (x ∷ ll) (inl e) = ground (arith, e)
Has-key el (x ∷ ll) (inr h) = ground (arith, Has-key el ll h)

-- With distinct keys an element is the entry of its key.
pub Has-find_key :
    (el : Element) (ll : List Element)
    → Distinct Key-discrete (keys ll)
    → Has el ll
    → find_key el.key ll ≡ some el
unfolding Has find_key
Has-find_key el [] d h = absurd h
Has-find_key el (x ∷ ll) d (inl e) = ground (arith, e)
Has-find_key el (x ∷ ll) d (inr h) = ground (arith, Has-find_key el ll d.1 h, Has-key el ll h, d.0)

pub find_victim-Has :
    (clock : ℕ → ℕ) (k : ℕ) (els : List Element) (el : Element)
    → (find_victim clock k els).0 ≡ some el
    → Has el els
unfolding Has find_victim
find_victim-Has clock k [] el e = cc
find_victim-Has clock k (x ∷ els) el e = ground (arith, find_victim-Has clock (suc k) els el)

pub back-Has : (el : Element) (ll : List Element) → back ll ≡ some el → Has el ll
unfolding Has back
back-Has el [] e = cc
back-Has el (x ∷ []) e = ground (arith, e)
back-Has el (x ∷ y ∷ ll) e = inr (back-Has el (y ∷ ll) e)

pub back-some : (x : Element) (ll : List Element) → (el : Element) × (back (x ∷ ll) ≡ some el)
unfolding back
back-some x [] = (x, refl)
back-some x (y ∷ ll) = back-some y ll

-- A round finds its victim whenever the list is not empty.
pub victim-Has :
    (clock : ℕ → ℕ) (k : ℕ) (ll : List Element)
    → 0 < length ll
    → (el : Element) × (victim clock k ll ≡ some el) × Has el ll
unfolding victim
victim-Has clock k [] h = absurd (omega (arith, h))
victim-Has clock k (x ∷ ll) h = elim (Option-cases (find_victim clock k (reverse (x ∷ ll))).0) [
  | inl e ↦ let (el, last) = back-some x ll in (el, rw (e, victim) last, back-Has el (x ∷ ll) last)
  | inr (el, e) ↦ (
    el,
    rw (e, victim) refl,
    Has-reverse el (x ∷ ll) (find_victim-Has clock k (reverse (x ∷ ll)) el e),
  )
]

-- The state after one round.
abbrev pub evicted : Cache → Element → Cache
evicted c el = record (remove c el) { evictions = c.evictions + 1 }

pub evicted-IsIndexed :
    (c : Cache) (el : Element)
    → IsIndexed c
    → Has el c.ll
    → IsIndexed (evicted c el) × (suc (length (evicted c el).ll) ≡ length c.ll)
evicted-IsIndexed c el v h =
    let e : find_key el.key c.ll ≡ some el = Has-find_key el c.ll v.keys h in
    let w : IsIndexed (remove c el) = remove-IsIndexed v el e in
    (
      record { ids = w.ids; keys = w.keys; fresh = w.fresh; index = w.index },
      remove-length c el v e,
    )

evict_loop-more :
    (clock : ℕ → ℕ) (k fuel : ℕ) (c : Cache) (el : Element)
    → c.max_entries < length c.ll
    → victim clock k c.ll ≡ some el
    → evict_loop clock k (suc fuel) c
      ≡ evict_loop clock (find_victim clock k (reverse c.ll)).1 fuel (evicted c el)
unfolding evict_loop
evict_loop-more clock k fuel c el more e = rw (lt→ltb c.max_entries (length c.ll) more, e) refl

evict_loop-done :
    (clock : ℕ → ℕ) (k fuel : ℕ) (c : Cache)
    → length c.ll ≤ c.max_entries
    → evict_loop clock k fuel c ≡ some c
unfolding evict_loop
evict_loop-done clock k zero c h = refl
evict_loop-done clock k (suc fuel) c h = ground (arith, h)

-- The eviction did not fault: the cache is valid, has its capacity, and each entry it lost is
-- counted.
unfoldable pub IsSettled : Cache → Option Cache → Type 0
IsSettled c none = ⊥
IsSettled c (some c') =
    IsValid c'
    × (c'.max_entries ≡ c.max_entries)
    × (c'.evictions + length c'.ll ≡ c.evictions + length c.ll)

IsSettled-evicted :
    (c : Cache) (el : Element)
    → suc (length (evicted c el).ll) ≡ length c.ll
    → (o : Option Cache) → IsSettled (evicted c el) o
    → IsSettled c o
unfolding IsSettled remove
IsSettled-evicted c el shorter none h = h
IsSettled-evicted c el shorter (some c') h = (h.0, h.1, omega (arith, h.2, shorter))

evict_loop-IsSettled :
    (clock : ℕ → ℕ) (k fuel : ℕ) (c : Cache)
    → IsIndexed c
    → length c.ll ≤ c.max_entries + fuel
    → IsSettled c (evict_loop clock k fuel c)
unfolding IsSettled remove
evict_loop-IsSettled clock k zero c v h =
    rw (evict_loop-done clock k 0 c (omega (arith, h)))
      (record { indexed = v; bounded = omega (arith, h) }, refl, refl)
evict_loop-IsSettled clock k (suc fuel) c v h =
    elim (Bool-cases (ltb c.max_entries (length c.ll))) [
      | inl e ↦
          let more : c.max_entries < length c.ll = ltb→lt c.max_entries (length c.ll) e in
          let (el, taken, there) = victim-Has clock k c.ll (omega (arith, more)) in
          let (w, shorter) = evicted-IsIndexed c el v there in
          let k' : ℕ = (find_victim clock k (reverse c.ll)).1 in
          rw (evict_loop-more clock k fuel c el more taken) (
            IsSettled-evicted c el shorter (evict_loop clock k' fuel (evicted c el))
              (evict_loop-IsSettled clock k' fuel (evicted c el) w (omega (arith, h, shorter))))
      | inr e ↦
          let less : length c.ll ≤ c.max_entries = ground (arith, e) in
          rw (evict_loop-done clock k (suc fuel) c less)
            (record { indexed = v; bounded = less }, refl, refl)
    ]

pub evict_locked-IsSettled :
    (clock : ℕ → ℕ) (k : ℕ) (c : Cache) → IsIndexed c → IsSettled c (evict_locked clock k c)
unfolding evict_locked
evict_locked-IsSettled clock k c v = evict_loop-IsSettled clock k (length c.ll) c v (omega arith)

-- One entry too many: one round.
pub evict_locked-one :
    (clock : ℕ → ℕ) (k : ℕ) (c : Cache) (el : Element)
    → IsIndexed c
    → length c.ll ≡ suc c.max_entries
    → victim clock k c.ll ≡ some el
    → Has el c.ll
    → evict_locked clock k c ≡ some (evicted c el)
unfolding evict_locked remove
evict_locked-one clock k c el v h e there =
    let (w, shorter) = evicted-IsIndexed c el v there in
    rw (h, evict_loop-more clock k c.max_entries c el (omega (arith, h)) e)
      (evict_loop-done clock (find_victim clock k (reverse c.ll)).1 c.max_entries (evicted c el)
        (omega (arith, h, shorter)))

pub evict_locked-none :
    (clock : ℕ → ℕ) (k : ℕ) (c : Cache)
    → length c.ll ≤ c.max_entries
    → evict_locked clock k c ≡ some c
unfolding evict_locked
evict_locked-none clock k c h = evict_loop-done clock k (length c.ll) c h
