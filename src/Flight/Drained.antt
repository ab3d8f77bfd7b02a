-- ===== src/Flight/Drained.antt =====
-- How the callers of `Do` of internal/cache/flight.go come to their returns.
use chn_resolver_go.Prelude.{ℕ, ◌+◌, ◌≡◌, List, length}
use chn_resolver_go.Cache.{Cache}
use chn_resolver_go.Flight.{State, Steps}
use chn_resolver_go.Flight.Safety.{IsSafe}

-- The callers that have not returned.
unfoldable pub pending : State → ℕ
pending s = length s.leading + length s.closing + length s.waiting

-- A later state: safe, with the callers in it that returned a value instead.
record Later (s t : State) : Type 0 where
  steps : Steps s t
  safe : IsSafe t
  kept : length t.returned + pending t ≡ length s.returned + pending s
