-- ===== src/Cache/Sweep.antt =====
-- `sweep` of internal/cache/cache.go.
use mathlib.Core.List.{reverse, reverse-cons, map-append}
use chn_resolver_go.Prelude.{
  ℕ, ◌+◌, ◌≤◌, ◌≡◌, refl, sym, ap, ◌∙◌, subst, any-append, Bool, true, false, ◌&&◌, List, [], ◌∷◌,
  ◌++◌, arith, length, elem, elem-append, Distinct, any, Option, none, some, ite, inl, inr,
  if◌then◌else◌, Bool-cases,
}
use chn_resolver_go.Cache.{Key, Key-discrete, Element, Cache, remove, is_expired, sweep_loop, sweep}
use chn_resolver_go.Cache.Index.{
  keys, find_key, drop_key, IsIndexed, deref-find_key, find_key-drop_key,
}
use chn_resolver_go.Cache.Moves.{remove-IsIndexed}
use chn_resolver_go.Cache.Invariant.{IsValid, remove-length}
use chn_resolver_go.Cache.Evict.{Has, Has-reverse, Has-find_key, Has-key, evicted}

-- An element of the list has the key, and has expired.
unfoldable pub gone : ℕ → Key → List Element → Bool
gone now k els = any (λ el. is_expired now el && ite (Key-discrete k el.key) true false) els

-- The entry without its expired value.
abbrev pub unexpired : ℕ → Option Element → Option Element
unexpired now none = none
unexpired now (some el) = if is_expired now el then none else some el

-- The loop over elements that are entries, each with its own key.
record IsSwept (now : ℕ) (els : List Element) (c c' : Cache) : Type 0 where
  indexed : IsIndexed c'
  entries : (k : Key) → find_key k c'.ll ≡ (if gone now k els then none else find_key k c.ll)
  capacity : c'.max_entries ≡ c.max_entries
  shorter : length c'.ll ≤ length c.ll
  counted : c'.evictions + length c'.ll ≡ c.evictions + length c.ll

sweep_loop-IsSwept :
    (now : ℕ) (els : List Element) (c : Cache)
    → IsIndexed c
    → Distinct Key-discrete (keys els)
    → ((el : Element) → Has el els → find_key el.key c.ll ≡ some el)
    → IsSwept now els c (sweep_loop now els c)
unfolding sweep_loop gone any Has remove
sweep_loop-IsSwept now [] c v d here = record {
  indexed = v;
  entries = λ k. refl;
  capacity = refl;
  shorter = omega arith;
  counted = refl;
}
sweep_loop-IsSwept now (el ∷ els) c v d here = elim (Bool-cases (is_expired now el)) [
  | inr live ↦
      let r : IsSwept now els c (sweep_loop now els c) =
        sweep_loop-IsSwept now els c v d.1 (λ x h. here x (inr h)) in
      rw (live, sweep_loop)
        (record {
          indexed = r.indexed;
          entries = λ k. ground (arith, r.entries k, live);
          capacity = r.capacity;
          shorter = r.shorter;
          counted = r.counted;
        })
  | inl late ↦
      let e : find_key el.key c.ll ≡ some el = here el (inl refl) in
      let w : IsIndexed (remove c el) = remove-IsIndexed v el e in
      let next : Cache = evicted c el in
      let dropped : next.ll ≡ drop_key el.key c.ll = (deref-find_key el.key c.ll el v.ids e).1 in
      let r : IsSwept now els next (sweep_loop now els next) =
        sweep_loop-IsSwept now els next
          (record { ids = w.ids; keys = w.keys; fresh = w.fresh; index = w.index }) d.1
          (λ x h.
            ap (find_key x.key) dropped
            ∙ find_key-drop_key el.key x.key c.ll v.keys
            ∙ ground (arith, here x (inr h), Has-key x els h, d.0)) in
      rw (late, sweep_loop)
        (record {
          indexed = r.indexed;
          entries = λ k. ground (
            arith,
            r.entries k,
            late,
            ap (find_key k) dropped,
            find_key-drop_key el.key k c.ll v.keys,
          );
          capacity = r.capacity;
          shorter = ground (arith, r.shorter, remove-length c el v e);
          counted = ground (arith, r.counted, remove-length c el v e);
        })
]

pub gone-reverse : (now : ℕ) (k : Key) (ll : List Element) → gone now k (reverse ll) ≡ gone now k ll
unfolding gone any
gone-reverse now k [] = refl
gone-reverse now k (x ∷ ll) =
    ap (gone now k) (reverse-cons x ll)
    ∙ any-append (λ el. is_expired now el && ite (Key-discrete k el.key) true false) (reverse ll)
        (x ∷ [])
    ∙ ground (arith, gone-reverse now k ll)

pub gone-absent :
    (now : ℕ) (k : Key) (ll : List Element)
    → elem Key-discrete k (keys ll) ≡ false
    → gone now k ll ≡ false
unfolding gone any elem
gone-absent now k [] e = refl
gone-absent now k (x ∷ ll) e = ground (arith, gone-absent now k ll)

gone-find_key :
    (now : ℕ) (k : Key) (ll : List Element)
    → Distinct Key-discrete (keys ll)
    → (if gone now k ll then none else find_key k ll) ≡ unexpired now (find_key k ll)
unfolding gone any find_key
gone-find_key now k [] d = refl
gone-find_key now k (x ∷ ll) d =
    ground (arith, gone-find_key now k ll d.1, gone-absent now k ll, d.0)

elem-keys_reverse :
    (k : Key) (ll : List Element)
    → elem Key-discrete k (keys (reverse ll)) ≡ elem Key-discrete k (keys ll)
unfolding elem
elem-keys_reverse k [] = refl
elem-keys_reverse k (x ∷ ll) =
    ap (λ l. elem Key-discrete k (keys l)) (reverse-cons x ll)
    ∙ ap (elem Key-discrete k) (map-append (λ (el : Element). el.key) (reverse ll) (x ∷ []))
    ∙ elem-append Key-discrete k (keys (reverse ll)) (x.key ∷ [])
    ∙ ground (arith, elem-keys_reverse k ll)

Distinct-snoc :
    (k : Key) (ks : List Key)
    → elem Key-discrete k ks ≡ false
    → Distinct Key-discrete ks
    → Distinct Key-discrete (ks ++ (k ∷ []))
unfolding elem
Distinct-snoc k [] e d = (refl, tt)
Distinct-snoc k (x ∷ ks) e d =
    ground (arith, Distinct-snoc k ks, elem-append Key-discrete x ks (k ∷ []), e, d)

pub Distinct-reverse :
    (ll : List Element)
    → Distinct Key-discrete (keys ll)
    → Distinct Key-discrete (keys (reverse ll))
Distinct-reverse [] d = tt
Distinct-reverse (x ∷ ll) d =
    subst (Distinct Key-discrete)
      (sym
        (ap keys (reverse-cons x ll) ∙ map-append (λ (el : Element). el.key) (reverse ll) (x ∷ [])))
      (Distinct-snoc x.key (keys (reverse ll)) (elem-keys_reverse x.key ll ∙ d.0)
        (Distinct-reverse ll d.1))

-- A sweep of a valid cache keeps it valid, with the same capacity; it takes out the entries that have
-- expired and no other, with the map; and counts each of them as an eviction.
pub sweep-unexpired :
    (c : Cache) (now : ℕ)
    → IsValid c
    → IsValid (sweep now c)
      × ((k : Key) → find_key k (sweep now c).ll ≡ unexpired now (find_key k c.ll))
      × ((sweep now c).max_entries ≡ c.max_entries)
      × ((sweep now c).evictions + length (sweep now c).ll ≡ c.evictions + length c.ll)
unfolding sweep
sweep-unexpired c now v =
    let r : IsSwept now (reverse c.ll) c (sweep now c) =
      sweep_loop-IsSwept now (reverse c.ll) c v.indexed (Distinct-reverse c.ll v.indexed.keys)
        (λ el h. Has-find_key el c.ll v.indexed.keys (Has-reverse el c.ll h)) in
    (
      record { indexed = r.indexed; bounded = rw r.capacity (omega (arith, r.shorter, v.bounded)) },
      λ k.
          r.entries k
          ∙ ap (λ b. if b then none else find_key k c.ll) (gone-reverse now k c.ll)
          ∙ gone-find_key now k c.ll v.indexed.keys,
      r.capacity,
      r.counted,
    )
