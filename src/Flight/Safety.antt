-- ===== src/Flight/Safety.antt =====
-- What is to hold of the callers of `Do` of internal/cache/flight.go, and the lists that it speaks of.
use mathlib.Core.List.{lookup, map-append}
use chn_resolver_go.Prelude.{
  ℕ, ◌<◌, ◌≡◌, refl, true, false, List, [], ◌∷◌, ◌++◌, map, none, some, arith, All, ℕ_discrete,
  elem, elem-append, Distinct,
}
use chn_resolver_go.Cache.{Key, Key-discrete, Value, delete}
use chn_resolver_go.Cache.Invariant.{IsValid}
use chn_resolver_go.Flight.{State}

abbrev pub numbers : List (Key × ℕ) → List ℕ
numbers = map (λ p. p.1)

abbrev pub flight_keys : List (Key × ℕ) → List Key
flight_keys = map (λ p. p.0)

abbrev pub marks : List (ℕ × Value) → List ℕ
marks = map (λ p. p.0)

-- The flights that run, close, or are closed.
abbrev pub known : State → List ℕ
known s = numbers s.leading ++ (marks s.closing ++ marks s.closed)

-- The map has the running flights, at most one for each key; a flight has one place; a waiter's
-- flight is known; and what a flight returns is its one value.
pub record IsSafe (s : State) : Type 0 where
  pub cache : IsValid s.cache
  pub flights : s.flights ≡ s.leading
  pub keys : Distinct Key-discrete (flight_keys s.leading)
  pub places : Distinct ℕ_discrete (known s)
  pub fresh : (f : ℕ) → elem ℕ_discrete f (known s) ≡ true → f < s.next_flight
  pub attended : (f : ℕ) → elem ℕ_discrete f s.waiting ≡ true → elem ℕ_discrete f (known s) ≡ true
  pub agreed : All (λ (r : ℕ × Value). lookup ℕ_discrete r.0 s.closed ≡ some r.1) s.returned

pub lookup-numbers :
    (key : Key) (l : List (Key × ℕ)) (f : ℕ)
    → lookup Key-discrete key l ≡ some f
    → elem ℕ_discrete f (numbers l) ≡ true
unfolding lookup elem
lookup-numbers key [] f e = cc
lookup-numbers key ((k, i) ∷ l) f e = ground (arith, lookup-numbers key l f)

pub lookup-absent :
    (key : Key) (l : List (Key × ℕ))
    → lookup Key-discrete key l ≡ none
    → elem Key-discrete key (flight_keys l) ≡ false
unfolding lookup elem
lookup-absent key [] e = refl
lookup-absent key ((k, i) ∷ l) e = ground (arith, lookup-absent key l)

lookup-marks :
    (f : ℕ) (l : List (ℕ × Value)) (v : Value)
    → lookup ℕ_discrete f l ≡ some v
    → elem ℕ_discrete f (marks l) ≡ true
unfolding lookup elem
lookup-marks f [] v e = cc
lookup-marks f ((k, i) ∷ l) v e = ground (arith, lookup-marks f l v)

delete-absent :
    (key : Key) (l : List (Key × ℕ))
    → elem Key-discrete key (flight_keys l) ≡ false
    → delete key l ≡ l
unfolding delete elem
delete-absent key [] e = refl
delete-absent key ((k, i) ∷ l) e = ground (arith, delete-absent key l)

-- Deleting the key of a leader takes that leader out.
pub delete-leader :
    (key : Key) (f : ℕ) (before after : List (Key × ℕ))
    → Distinct Key-discrete (flight_keys (before ++ ((key, f) ∷ after)))
    → delete key (before ++ ((key, f) ∷ after)) ≡ before ++ after
unfolding delete elem
delete-leader key f [] after d = ground (arith, delete-absent key after d.0)
delete-leader key f ((k, i) ∷ before) after d = ground (
  arith,
  delete-leader key f before after d.1,
  map-append (λ (p : Key × ℕ). p.0) before ((key, f) ∷ after),
  elem-append Key-discrete k (flight_keys before) (key ∷ flight_keys after),
  d.0,
)

pub All-take_out :
    {A : Type 0} (P : A → Type 0) (x : A) (before after : List A)
    → All P (before ++ (x ∷ after))
    → All P (before ++ after)
All-take_out P x [] after h = h.1
All-take_out P x (y ∷ before) after h = (h.0, All-take_out P x before after h.1)

pub elem-take_out :
    (f x : ℕ) (before after : List ℕ)
    → elem ℕ_discrete f (before ++ after) ≡ true
    → elem ℕ_discrete f (before ++ (x ∷ after)) ≡ true
unfolding elem
elem-take_out f x before after h =
    ground
      (arith, elem-append ℕ_discrete f before (x ∷ after), elem-append ℕ_discrete f before after)

-- What a returned value agrees with stays when another flight is closed.
pub agreed-close :
    (f : ℕ) (v : Value) (closed : List (ℕ × Value)) (returned : List (ℕ × Value))
    → elem ℕ_discrete f (marks closed) ≡ false
    → All (λ (r : ℕ × Value). lookup ℕ_discrete r.0 closed ≡ some r.1) returned
    → All (λ (r : ℕ × Value). lookup ℕ_discrete r.0 ((f, v) ∷ closed) ≡ some r.1) returned
unfolding lookup
agreed-close f v closed [] e h = tt
agreed-close f v closed ((g, w) ∷ returned) e h =
    (ground (arith, lookup-marks g closed w h.0, e), agreed-close f v closed returned e h.1)
