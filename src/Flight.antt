-- ===== src/Flight.antt =====
-- `Do` of internal/cache/flight.go under concurrent callers, as steps of the whole: each section under
-- the lock is one step, and so are the close of `done` and a return from the `select`.
pub mod Distinctness
pub mod Safety
pub mod Preserved
pub mod Reached
pub mod Drained
use mathlib.Core.List.{lookup}
use mathlib.Core.Option
use chn_resolver_go.Prelude.{
  ℕ, suc, ◌≡◌, Bool, List, [], ◌∷◌, ◌++◌, Option, none, some, if◌then◌else◌, ℕ_discrete,
}
use chn_resolver_go.Cache.{Key, Key-discrete, Value, Cache, delete, set_locked}

-- The cache with its flights, and where the callers of `Do` stand: a flight has a number that
-- stands for its pointer.
pub record State : Type 0 where
  pub cache : Cache
  pub flights : List (Key × ℕ)
  pub next_flight : ℕ
  -- those that run `fn`, with their key
  pub leading : List (Key × ℕ)
  -- those that have left the second section, with the value
  pub closing : List (ℕ × Value)
  -- the flights whose `done` is closed
  pub closed : List (ℕ × Value)
  -- those in the `select`
  pub waiting : List ℕ
  -- the returns without an error
  pub returned : List (ℕ × Value)

unfoldable pub start : Cache → State
start c = record {
  cache = c;
  flights = [];
  next_flight = 0;
  leading = [];
  closing = [];
  closed = [];
  waiting = [];
  returned = [];
}

-- The first section: wait for the flight of the key, or lead a new one.
unfoldable pub enter : State → Key → State
enter s key = elim (lookup Key-discrete key s.flights) [
  | some f ↦ record s { waiting = f ∷ s.waiting }
  | none ↦ record s {
    flights = (key, s.next_flight) ∷ s.flights;
    leading = (key, s.next_flight) ∷ s.leading;
    next_flight = suc s.next_flight;
  }
]

-- The second section, of the leader of a flight; `others` are the other leaders.
unfoldable pub land : State → Key → ℕ → List (Key × ℕ) → Value × Bool → (ℕ → ℕ) → Option State
land s key f others (v, cacheable) clock =
    Option.map
      (λ c. record s {
        cache = c;
        flights = delete key s.flights;
        leading = others;
        closing = (f, v) ∷ s.closing;
      })
      (if cacheable then set_locked s.cache key v clock else some s.cache)

-- `close(f.done)`, and the return of the leader.
unfoldable pub close : State → ℕ → Value → List (ℕ × Value) → State
close s f v others = record s {
  closing = others;
  closed = (f, v) ∷ s.closed;
  returned = (f, v) ∷ s.returned;
}

-- One step of the whole.
pub data Step : State → State → Type 0 where
  enters : {s : State} (key : Key) → Step s (enter s key)
  lands :
      {s s' : State} (key : Key) (f : ℕ) (before after : List (Key × ℕ)) (r : Value × Bool)
      (clock : ℕ → ℕ)
      → s.leading ≡ before ++ ((key, f) ∷ after)
      → land s key f (before ++ after) r clock ≡ some s'
      → Step s s'
  closes :
      {s : State} (f : ℕ) (v : Value) (before after : List (ℕ × Value))
      → s.closing ≡ before ++ ((f, v) ∷ after)
      → Step s (close s f v (before ++ after))
  -- a waiter takes the value of its flight, which is closed
  wakes :
      {s : State} (f : ℕ) (v : Value) (before after : List ℕ)
      → s.waiting ≡ before ++ (f ∷ after)
      → lookup ℕ_discrete f s.closed ≡ some v
      → Step s (record s { waiting = before ++ after; returned = (f, v) ∷ s.returned })
  -- a waiter whose context ends first returns its error
  leaves :
      {s : State} (f : ℕ) (before after : List ℕ)
      → s.waiting ≡ before ++ (f ∷ after)
      → Step s (record s { waiting = before ++ after })

pub data Steps : State → State → Type 0 where
  none_yet : {s : State} → Steps s s
  one_more : {s t u : State} → Steps s t → Step t u → Steps s u
