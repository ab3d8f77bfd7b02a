-- ===== src/Metrics/Racing.antt =====
-- `m.counter(dst, name).Add(1)` of internal/metrics/metrics.go by callers that overlap, over one map. A
-- look at the map, the part under the lock and the addition are one step each. Go promises that for the
-- last two; a look outside the lock beside an insert is a data race, which may stop the process.
use Prim.Native.String.{String}
use chn_resolver_go.Prelude.{◌≡◌, true, false, List, [], ◌∷◌, ◌++◌}
use chn_resolver_go.Metrics.{Named, has, insert_locked, count_known}

-- A caller is about to look, has missed the counter, or has it.
pub data Phase : Type 0 where
  looking missed found : Phase

-- The map, the callers with their names, and the names whose additions are done.
pub record Shared : Type 0 where
  pub dst : Named
  pub callers : List (Phase × String)
  pub added : List String

unfoldable pub unused : Shared
unused = record { dst = []; callers = []; added = [] }

unfoldable pub enter : String → Shared → Shared
enter name s = record s { callers = (looking, name) ∷ s.callers }

-- What a caller goes on to.
unfoldable pub turn : Phase → String → List (Phase × String) → Shared → Shared
turn p name others s = record s { callers = (p, name) ∷ others }

-- The section under `mu`.
unfoldable pub insert : String → List (Phase × String) → Shared → Shared
insert name others s = record s { dst = insert_locked name s.dst; callers = (found, name) ∷ others }

-- `Add(1)`, and the end of the call.
unfoldable pub add : String → List (Phase × String) → Shared → Shared
add name others s = record s {
  dst = count_known name s.dst;
  callers = others;
  added = name ∷ s.added;
}

pub data Step : Shared → Shared → Type 0 where
  calls : {s : Shared} (name : String) → Step s (enter name s)
  finds :
      {s : Shared} (name : String) (before after : List (Phase × String))
      → s.callers ≡ before ++ (looking, name) ∷ after
      → has name s.dst ≡ true
      → Step s (turn found name (before ++ after) s)
  misses :
      {s : Shared} (name : String) (before after : List (Phase × String))
      → s.callers ≡ before ++ (looking, name) ∷ after
      → has name s.dst ≡ false
      → Step s (turn missed name (before ++ after) s)
  inserts :
      {s : Shared} (name : String) (before after : List (Phase × String))
      → s.callers ≡ before ++ (missed, name) ∷ after
      → Step s (insert name (before ++ after) s)
  adds :
      {s : Shared} (name : String) (before after : List (Phase × String))
      → s.callers ≡ before ++ (found, name) ∷ after
      → Step s (add name (before ++ after) s)

pub data Steps : Shared → Type 0 where
  begin : Steps unused
  move : {s t : Shared} → Steps s → Step s t → Steps t
