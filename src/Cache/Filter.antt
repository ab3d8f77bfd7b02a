-- ===== src/Cache/Filter.antt =====
-- `sweep` of internal/cache/cache.go as a filter of the list.
use mathlib.Core.List.{reverse}
use chn_resolver_go.Prelude.{
  ℕ, ◌≡◌, refl, subst, sym, ap, ◌∙◌, Bool, true, false, not, ◌&&◌, List, [], ◌∷◌, map, arith, elem,
  Distinct, any, select_if, some, ite, inl, inr, Bool-cases,
}
use chn_resolver_go.Cache.{Key, Key-discrete, Element, Cache, remove, is_expired, sweep_loop, sweep}
use chn_resolver_go.Cache.Index.{
  keys, find_key, drop_key, IsIndexed, deref-find_key, find_key-drop_key,
}
use chn_resolver_go.Cache.Moves.{remove-IsIndexed}
use chn_resolver_go.Cache.Invariant.{IsValid}
use chn_resolver_go.Cache.Evict.{Has, Has-reverse, Has-find_key, Has-key, evicted}
use chn_resolver_go.Cache.Sweep.{gone, gone-reverse, gone-absent, Distinct-reverse}
use chn_resolver_go.Cache.Spec.{is_late, Entry}
use chn_resolver_go.Cache.Spec
use chn_resolver_go.Cache.Refines.{entry, view}

select-agree :
    (p q : Element → Bool) (ll : List Element)
    → ((x : Element) → Has x ll → p x ≡ q x)
    → select_if p ll ≡ select_if q ll
unfolding select_if Has
select-agree p q [] h = refl
select-agree p q (x ∷ ll) h =
    ground (arith, h x (inl refl), select-agree p q ll (λ y t. h y (inr t)))

keep_all : (ll : List Element) → select_if (λ x. true) ll ≡ ll
unfolding select_if
keep_all [] = refl
keep_all (x ∷ ll) = ap (λ l. x ∷ l) (keep_all ll)

select-select :
    (p q : Element → Bool) (ll : List Element)
    → select_if p (select_if q ll) ≡ select_if (λ x. q x && p x) ll
unfolding select_if
select-select p q [] = refl
select-select p q (x ∷ ll) = ground (arith, select-select p q ll)

abbrev other : Key → Element → Bool
other k x = not (ite (Key-discrete k x.key) true false)

select-other :
    (k : Key) (ll : List Element)
    → elem Key-discrete k (keys ll) ≡ false
    → select_if (other k) ll ≡ ll
unfolding select_if elem
select-other k [] h = refl
select-other k (x ∷ ll) h = ground (arith, select-other k ll)

drop_key-select :
    (k : Key) (ll : List Element)
    → Distinct Key-discrete (keys ll)
    → drop_key k ll ≡ select_if (other k) ll
unfolding select_if drop_key
drop_key-select k [] d = refl
drop_key-select k (x ∷ ll) d = ground (arith, drop_key-select k ll d.1, select-other k ll, d.0)

abbrev left : ℕ → List Element → Element → Bool
left now els x = not (gone now x.key els)

sweep_loop-select :
    (now : ℕ) (els : List Element) (c : Cache)
    → IsIndexed c
    → Distinct Key-discrete (keys els)
    → ((el : Element) → Has el els → find_key el.key c.ll ≡ some el)
    → ((sweep_loop now els c).ll ≡ select_if (left now els) c.ll)
      × ((sweep_loop now els c).max_entries ≡ c.max_entries)
unfolding sweep_loop gone any Has remove
sweep_loop-select now [] c v d here = (sym (keep_all c.ll), refl)
sweep_loop-select now (el ∷ els) c v d here = elim (Bool-cases (is_expired now el)) [
  | inr live ↦
      let (same, capacity) = sweep_loop-select now els c v d.1 (λ x h. here x (inr h)) in
      let agree =
        select-agree (left now els) (left now (el ∷ els)) c.ll (λ x h. ground (arith, live)) in
      rw (live, sweep_loop) (same ∙ agree, capacity)
  | inl late ↦
      let e : find_key el.key c.ll ≡ some el = here el (inl refl) in
      let w : IsIndexed (remove c el) = remove-IsIndexed v el e in
      let next : Cache = evicted c el in
      let dropped : next.ll ≡ drop_key el.key c.ll = (deref-find_key el.key c.ll el v.ids e).1 in
      let (same, capacity) =
        sweep_loop-select now els next
          (record { ids = w.ids; keys = w.keys; fresh = w.fresh; index = w.index }) d.1
          (λ x h.
            ap (find_key x.key) dropped
            ∙ find_key-drop_key el.key x.key c.ll v.keys
            ∙ ground (arith, here x (inr h), Has-key x els h, d.0)) in
      let agree =
        select-agree (λ x. other el.key x && left now els x) (left now (el ∷ els)) c.ll
          (λ x h. ground (arith, late)) in
      rw (late, sweep_loop)
        (
          same
              ∙ ap (select_if (left now els)) (dropped ∙ drop_key-select el.key c.ll v.keys)
              ∙ select-select (left now els) (other el.key) c.ll
              ∙ agree,
          capacity,
        )
]

gone-Has :
    (now : ℕ) (x : Element) (ll : List Element)
    → Distinct Key-discrete (keys ll)
    → Has x ll
    → gone now x.key ll ≡ is_expired now x
unfolding gone any Has
gone-Has now x [] d h = absurd h
gone-Has now x (y ∷ ll) d (inl e) =
    subst (λ z. gone now z.key (y ∷ ll) ≡ is_expired now z) (sym e)
      (ground (arith, gone-absent now y.key ll d.0))
gone-Has now x (y ∷ ll) d (inr h) = ground (arith, gone-Has now x ll d.1 h, Has-key x ll h, d.0)

map-select :
    (now : ℕ) (ll : List Element)
    → map entry (select_if (λ x. not (is_expired now x)) ll)
      ≡ select_if (λ e. not (is_late now e.1)) (map entry ll)
unfolding select_if
map-select now [] = refl
map-select now (x ∷ ll) = ground (arith, map-select now ll)

pub view-sweep : (c : Cache) (now : ℕ) → IsValid c → view (sweep now c) ≡ Spec.sweep now (view c)
unfolding sweep view Spec.sweep
view-sweep c now v =
    let (swept, capacity) =
      sweep_loop-select now (reverse c.ll) c v.indexed (Distinct-reverse c.ll v.indexed.keys)
        (λ el h. Has-find_key el c.ll v.indexed.keys (Has-reverse el c.ll h)) in
    let agree =
      select-agree (left now (reverse c.ll)) (λ x. not (is_expired now x)) c.ll
        (λ x h. ap not (gone-reverse now x.key c.ll ∙ gone-Has now x c.ll v.indexed.keys h)) in
    let capped : ℕ → Spec.Lru =
      λ n. record { capacity = n; entries = map entry (sweep now c).ll } in
    let listed : List Entry → Spec.Lru = λ es. record { capacity = c.max_entries; entries = es } in
    ap capped capacity ∙ ap listed (ap (map entry) (swept ∙ agree) ∙ map-select now c.ll)
