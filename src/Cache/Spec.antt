-- ===== src/Cache/Spec.antt =====
-- What internal/cache/cache.go promises, without identities, map and counters: a list of keys with their
-- values, the most recently used first, and a capacity.
use mathlib.Core.List.{reverse}
use chn_resolver_go.Prelude.{
  ℕ, suc, ◌+◌, ◌-◌, ◌*◌, Bool, not, List, [], ◌∷◌, Option, none, some, ltb, leb, if◌then◌else◌,
  length, ite, select_if,
}
use chn_resolver_go.Cache.{Key, Key-discrete, Value, second, seconds_left}

abbrev pub Entry : Type 0
Entry = Key × Value

pub record Lru : Type 0 where
  pub capacity : ℕ
  pub entries : List Entry

unfoldable pub find : Key → List Entry → Option Value
find k [] = none
find k ((q, v) ∷ es) = ite (Key-discrete k q) (some v) (find k es)

unfoldable pub without : Key → List Entry → List Entry
without k [] = []
without k ((q, v) ∷ es) = ite (Key-discrete k q) es ((q, v) ∷ without k es)

abbrev pub is_late : ℕ → Value → Bool
is_late now v = leb v.expires now

-- An expired entry is dropped; a live one becomes the most recent, and tells the seconds it has left.
abbrev pub read : Lru → Key → ℕ → Option Value → Lru × Option Value
read s k now none = (s, none)
read s k now (some v) =
    if is_late now v then (record s { entries = without k s.entries }, none) else (
      record s { entries = (k, v) ∷ without k s.entries },
      some (record v { ttl = seconds_left (v.expires - now) }),
    )

unfoldable pub get : Lru → Key → ℕ → Lru × Option Value
get s k now = read s k now (find k s.entries)

-- The oldest key that has expired, over the entries from the oldest on, each at its own reading.
unfoldable pub stale_key : (ℕ → ℕ) → ℕ → List Entry → Option Key
stale_key clock i [] = none
stale_key clock i ((k, v) ∷ es) =
    let rest = stale_key clock (suc i) es in if is_late (clock i) v then some k else rest

unfoldable pub last_key : List Entry → Option Key
last_key [] = none
last_key ((k, v) ∷ []) = some k
last_key ((k, v) ∷ e ∷ es) = last_key (e ∷ es)

abbrev pub drop_or : Option Key → Option Key → List Entry → List Entry
drop_or (some k) last es = without k es
drop_or none (some k) es = without k es
drop_or none none es = es

-- One entry goes: the oldest expired one, else the oldest.
unfoldable pub evict : (ℕ → ℕ) → List Entry → List Entry
evict clock es = drop_or (stale_key clock 1 (reverse es)) (last_key es) es

-- A known key gets the value and becomes the most recent; a new one may push another out.
abbrev pub write : Lru → Key → Value → (ℕ → ℕ) → Option Value → List Entry
write s k v clock (some old) = (k, v) ∷ without k s.entries
write s k v clock none =
    let es : List Entry = (k, v) ∷ s.entries in
    if ltb s.capacity (length es) then evict clock es else es

unfoldable pub set : Lru → Key → Value → ℕ → (ℕ → ℕ) → Lru
set s k v ttl clock =
    let v : Value = record v { ttl = ttl; expires = clock 0 + ttl * second } in
    record s { entries = write s k v clock (find k s.entries) }

unfoldable pub flush : Lru → Lru
flush s = record s { entries = [] }

unfoldable pub sweep : ℕ → Lru → Lru
sweep now s = record s { entries = select_if (λ e. not (is_late now e.1)) s.entries }

unfoldable pub len : Lru → ℕ
len s = length s.entries
