-- ===== src/Flight/Reached.antt =====
-- The callers of `Do` of internal/cache/flight.go after any steps.
use mathlib.Core.List.{lookup}
use chn_resolver_go.Prelude.{
  ℕ, ◌≡◌, refl, sym, ◌∙◌, subst, Bool, true, false, List, [], ◌∷◌, ◌++◌, Option, none, some, arith,
  if◌then◌else◌, ℕ_discrete, elem, Option-cases, inl, inr, some_inj,
}
use chn_resolver_go.Cache.{Key, Value, Cache, delete, set, set_locked}
use chn_resolver_go.Cache.Invariant.{IsValid}
use chn_resolver_go.Cache.Set.{IsStored, set-IsValid}
use chn_resolver_go.Flight.{
  State, start, land, Step, enters, lands, closes, wakes, leaves, Steps, none_yet, one_more,
}
use chn_resolver_go.Flight.Safety.{marks, IsSafe}
use chn_resolver_go.Flight.Preserved.{
  start-IsSafe, enter-IsSafe, land-IsSafe, close-IsSafe, wake-IsSafe, leave-IsSafe,
}

land-IsStored :
    (c : Cache) (key : Key) (r : Value × Bool) (clock : ℕ → ℕ)
    → IsValid c
    → (o : Option Cache) → (if r.1 then set_locked c key r.0 clock else some c) ≡ o
    → IsStored c.max_entries o
unfolding set IsStored
land-IsStored c key (v, true) clock w o e =
    subst (IsStored c.max_entries) e (set-IsValid c key v v.ttl clock w)
land-IsStored c key (v, false) clock w o e = subst (IsStored c.max_entries) e (w, refl)

-- The second section of a safe whole does not fault, and leaves it safe.
pub land-total :
    (s : State) (key : Key) (f : ℕ) (before after : List (Key × ℕ)) (r : Value × Bool)
    (clock : ℕ → ℕ)
    → IsSafe s
    → s.leading ≡ before ++ ((key, f) ∷ after)
    → (s' : State) × (land s key f (before ++ after) r clock ≡ some s') × IsSafe s'
unfolding land IsStored
land-total s key f before after (v, cacheable) clock w e =
    let store : Option Cache = if cacheable then set_locked s.cache key v clock else some s.cache in
    elim (Option-cases store) [
      | inl n ↦ absurd (land-IsStored s.cache key (v, cacheable) clock w.cache none n)
      | inr (c, o) ↦
          let valid : IsStored s.cache.max_entries (some c) =
            land-IsStored s.cache key (v, cacheable) clock w.cache (some c) o in
          (
            record s {
              cache = c;
              flights = delete key s.flights;
              leading = before ++ after;
              closing = (f, v) ∷ s.closing;
            },
            rw (o, land) refl,
            land-IsSafe s w key f before after v c e valid.0,
          )
    ]

pub Step-IsSafe : {s t : State} → Step s t → IsSafe s → IsSafe t
Step-IsSafe {s} (enters key) w = enter-IsSafe s key w
Step-IsSafe {s} (lands key f before after r clock e o) w =
    let (s', o', w') = land-total s key f before after r clock w e in
    subst IsSafe (some_inj (sym o' ∙ o)) w'
Step-IsSafe {s} (closes f v before after e) w = close-IsSafe s w f v before after e
Step-IsSafe {s} (wakes f v before after e found) w = wake-IsSafe s w f v before after e found
Step-IsSafe {s} (leaves f before after e) w = leave-IsSafe s w f before after e

Steps-IsSafe_any : {s t : State} → Steps s t → IsSafe s → IsSafe t
Steps-IsSafe_any none_yet w = w
Steps-IsSafe_any (one_more steps step) w = Step-IsSafe step (Steps-IsSafe_any steps w)

-- After any steps from a valid cache without callers: the cache is valid; the leaders are those of
-- the map, at most one for each key; the flight of every waiter runs, closes or is closed; a
-- flight has one place among these; and whoever returns without an error returns the one value of
-- a closed flight.
pub Steps-IsSafe : (c : Cache) (s : State) → IsValid c → Steps (start c) s → IsSafe s
Steps-IsSafe c s v steps = Steps-IsSafe_any steps (start-IsSafe c v)

pub marks-lookup :
    (f : ℕ) (l : List (ℕ × Value))
    → elem ℕ_discrete f (marks l) ≡ true
    → (v : Value) × (lookup ℕ_discrete f l ≡ some v)
unfolding lookup elem
marks-lookup f [] e = cc
marks-lookup f ((g, v) ∷ l) e = elim (ℕ_discrete f g) [
  | yes same ↦ (v, ground (arith, same))
  | no other ↦
      let (w, found) = marks-lookup f l (ground (arith, other, e)) in
      (w, ground (arith, other, found))
]
