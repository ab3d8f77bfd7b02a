-- ===== src/Cache/Janitor.antt =====
-- `RunJanitor` of internal/cache/cache.go: its ticker and its context are a list of events.
use chn_resolver_go.Prelude.{ℕ, ◌≡◌, refl, List, [], ◌∷◌, map, none, some}
use chn_resolver_go.Cache.{Cache, sweep}
use chn_resolver_go.Cache.Trace.{Op, call, run}

-- A tick, with the time at which the sweep runs; or the end of the context.
pub data Event : Type 0 where
  tick : ℕ → Event
  ctx_done : Event

-- `RunJanitor`, up to its return or its last event.
unfoldable pub run_janitor : Cache → List Event → Cache
run_janitor c [] = c
run_janitor c (ctx_done ∷ events) = c
run_janitor c (tick now ∷ events) = run_janitor (sweep now c) events

-- The times of the ticks before the end of the context.
unfoldable pub ticks : List Event → List ℕ
ticks [] = []
ticks (ctx_done ∷ events) = []
ticks (tick now ∷ events) = now ∷ ticks events

-- The janitor is a sequence of calls of `sweep`, and so one that the specification describes.
pub run-run_janitor :
    (c : Cache) (events : List Event)
    → run (map Op.sweep (ticks events)) c
      ≡ some (run_janitor c events, map (λ _. none) (ticks events))
unfolding run call run_janitor ticks
run-run_janitor c [] = refl
run-run_janitor c (ctx_done ∷ events) = refl
run-run_janitor c (tick now ∷ events) = rw (run-run_janitor (sweep now c) events) refl
