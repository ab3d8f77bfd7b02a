-- ===== src/Cache/Trace.antt =====
-- Any calls of internal/cache/cache.go, one after the other, as its lock orders them.
use mathlib.Core.Option
use chn_resolver_go.Prelude.{arith, ℕ, ◌≡◌, refl, ap, ◌∙◌, subst, List, [], ◌∷◌, Option, none, some}
use chn_resolver_go.Cache.{Key, Value, Cache}
use chn_resolver_go.Cache
use chn_resolver_go.Cache.Invariant.{IsValid, IsKept, get-IsValid, flush-IsValid}
use chn_resolver_go.Cache.Set.{IsStored, set-IsValid}
use chn_resolver_go.Cache.Sweep.{sweep-unexpired}
use chn_resolver_go.Cache.Spec.{Lru}
use chn_resolver_go.Cache.Spec
use chn_resolver_go.Cache.Refines.{view, get-Agrees, set-Wrote}
use chn_resolver_go.Cache.Filter.{view-sweep}

pub data Op : Type 0 where
  read : Key → ℕ → Op
  write : Key → Value → ℕ → (ℕ → ℕ) → Op
  sweep : ℕ → Op
  flush : Op

-- A call, with the value that it returns.
unfoldable pub call : Op → Cache → Option (Cache × Option Value)
call (read k now) c = Cache.get c k now
call (write k v ttl clock) c = Option.map (λ c'. (c', none)) (Cache.set c k v ttl clock)
call (sweep now) c = some (Cache.sweep now c, none)
call flush c = some (Cache.flush c, none)

-- The call, as the specification has it.
unfoldable pub call_spec : Op → Lru → Lru × Option Value
call_spec (read k now) s = Spec.get s k now
call_spec (write k v ttl clock) s = (Spec.set s k v ttl clock, none)
call_spec (sweep now) s = (Spec.sweep now s, none)
call_spec flush s = (Spec.flush s, none)

-- The calls, with what they return.
unfoldable pub run : List Op → Cache → Option (Cache × List (Option Value))
run [] c = some (c, [])
run (op ∷ ops) c = elim (call op c) [
  | none ↦ none
  | some (c', v) ↦ Option.map (λ r. (r.0, v ∷ r.1)) (run ops c')
]

unfoldable pub run_spec : List Op → Lru → Lru × List (Option Value)
run_spec [] s = (s, [])
run_spec (op ∷ ops) s =
    let (s', v) = call_spec op s in let (s'', vs) = run_spec ops s' in (s'', v ∷ vs)

-- A call that does not fault and does what the specification does.
record Refines (op : Op) (c : Cache) : Type 0 where
  after : Cache
  returned : Option Value
  called : call op c ≡ some (after, returned)
  valid : IsValid after
  meets : (view after, returned) ≡ call_spec op (view c)

call-Refines : (op : Op) (c : Cache) → IsValid c → Refines op c
unfolding call call_spec IsKept IsStored view Cache.flush Spec.flush
call-Refines (read k now) c w =
    let (c', v, e, met) = get-Agrees c k now w in
    record {
      after = c';
      returned = v;
      called = e;
      valid = (subst (IsKept c.max_entries) e (get-IsValid c k now w)).0;
      meets = met;
    }
call-Refines (write k v ttl clock) c w =
    let (c', e, viewed) = set-Wrote c k v ttl clock w in
    record {
      after = c';
      returned = none;
      called = ap (Option.map (λ c'. (c', none))) e;
      valid = (subst (IsStored c.max_entries) e (set-IsValid c k v ttl clock w)).0;
      meets = ap (λ s. (s, none)) viewed;
    }
call-Refines (sweep now) c w = record {
  after = Cache.sweep now c;
  returned = none;
  called = refl;
  valid = (sweep-unexpired c now w).0;
  meets = ap (λ s. (s, none)) (view-sweep c now w);
}
call-Refines flush c w = record {
  after = Cache.flush c;
  returned = none;
  called = refl;
  valid = flush-IsValid c w;
  meets = refl;
}

next_spec : List Op → Lru × Option Value → Lru × List (Option Value)
next_spec ops (s, v) = let (s', vs) = run_spec ops s in (s', v ∷ vs)

-- Any sequence of `Get`, `Set`, `sweep` and `Flush` on a valid cache, at any readings of the clock, runs
-- without a fault and leaves a valid cache; what it returns and what it leaves are those of the same
-- calls on a list of keys and values with the most recently used first.
pub run-view :
    (ops : List Op) (c : Cache)
    → IsValid c
    → (c' : Cache) × (vs : List (Option Value)) × (run ops c ≡ some (c', vs))
      × IsValid c'
      × ((view c', vs) ≡ run_spec ops (view c))
unfolding run run_spec next_spec
run-view [] c w = (c, [], refl, w, refl)
run-view (op ∷ ops) c w =
    let r = call-Refines op c w in
    let (c', vs, ran, valid, met) = run-view ops r.after r.valid in
    (
      c',
      r.returned ∷ vs,
      ground (arith, r.called, ran),
      valid,
      ap (λ q. (q.0, r.returned ∷ q.1)) met ∙ ap (next_spec ops) r.meets,
    )
