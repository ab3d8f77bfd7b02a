-- ===== src/Tests/Flights.antt =====
-- internal/cache/flight.go with two callers of one key.
use mathlib.Core.List.{lookup}
use chn_resolver_go.Prelude.{◌≡◌, refl, [], ◌∷◌, false}
use chn_resolver_go.Cache.{Key-discrete, delete}
use chn_resolver_go.Flight.{
  State, start, enter, land, close, enters, lands, closes, Steps, none_yet, one_more,
}
use chn_resolver_go.Flight.Safety.{IsSafe}
use chn_resolver_go.Flight.Reached.{Steps-IsSafe}
use chn_resolver_go.Flight.Drained.{pending}
use chn_resolver_go.Tests.Caching.{key, value, full, full-IsValid}

abbrev led : State
led = record (start full) { flights = (key, 0) ∷ []; leading = (key, 0) ∷ []; next_flight = 1 }

abbrev joined : State
joined = record led { waiting = 0 ∷ [] }

abbrev closed : State
closed = record (start full) {
  next_flight = 1;
  closed = (0, value) ∷ [];
  waiting = 0 ∷ [];
  returned = (0, value) ∷ [];
}

-- The first leads, the second joins, and the value is not cacheable.
run : Steps (start full) closed
unfolding start enter land close lookup delete Key-discrete
run =
    one_more
      (one_more (one_more (one_more none_yet (enters key)) (enters key))
        (lands {s = joined} key 0 [] [] (value, false) (λ i. 5) refl refl))
      (closes 0 value [] [] refl)

Steps-IsSafe_example : IsSafe closed
Steps-IsSafe_example = Steps-IsSafe full closed full-IsValid run

pending_run : pending joined ≡ 2
unfolding pending start
pending_run = refl
