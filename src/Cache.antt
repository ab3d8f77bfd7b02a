-- ===== src/Cache.antt =====
-- internal/cache/cache.go: the LRU list, the map into it, expiry and eviction. A list element has an
-- identity, which stands for its pointer; the map holds identities. `none` is a fault: a pointer
-- that is not in the list. Times are in nanoseconds, as readings of the injected clock.
pub mod Index
pub mod Moves
pub mod Invariant
pub mod Evict
pub mod Set
pub mod Stored
pub mod Lru
pub mod Sweep
pub mod Spec
pub mod Refines
pub mod Filter
pub mod Trace
pub mod Janitor
use mathlib.Core.List.{reverse, lookup}
use chn_resolver_go.Prelude.{
  ℕ, zero, suc, ◌+◌, ◌-◌, ◌*◌, ◌/◌, ◌%◌, ◌^◌, Bool, true, false, not, ◌&&◌, ◌||◌, List, [], ◌∷◌,
  ◌++◌, Option, none, some, ltb, leb, ◌==◌, if◌then◌else◌, length, is_empty, ite, ℕ_discrete,
}
use chn_resolver_go.Net.{Addr}
use chn_resolver_go.Text.{Text, Text-discrete}
use chn_resolver_go.Dns.{Soa, rcode_server_failure}
use chn_resolver_go.Policy.{PolicyName}

pub record Key : Type 0 where
  pub name : Text
  pub qtype : ℕ

unfoldable pub Key-discrete : Discrete Key
unfolding ℕ_discrete Text-discrete
Key-discrete = hlevel (ℕ_discrete, Text-discrete)

pub record Value : Type 0 where
  pub rcode : ℕ
  pub addrs : List Addr
  pub soa : Option Soa
  pub ttl : ℕ
  pub policy : PolicyName
  pub expires : ℕ

-- `IsNegative`
unfoldable pub is_negative : Value → Bool
is_negative v = is_empty v.addrs && not (v.rcode == rcode_server_failure)

-- A `*list.Element` with its `*entry`.
pub record Element : Type 0 where
  pub id : ℕ
  pub key : Key
  pub value : Value

-- `Cache`, without its lock: every operation holds it from its start to its end. The head of `ll`
-- is the front, the most recently used entry.
pub record Cache : Type 0 where
  pub max_entries : ℕ
  pub ll : List Element
  pub items : List (Key × ℕ)
  pub next_id : ℕ
  pub hits : ℕ
  pub misses : ℕ
  pub evictions : ℕ

-- `New`
unfoldable pub new : ℕ → Cache
new max_entries = record {
  max_entries = max_entries;
  ll = [];
  items = [];
  next_id = 0;
  hits = 0;
  misses = 0;
  evictions = 0;
}

abbrev pub second : ℕ
second = 1_000_000_000

-- The element behind a pointer.
unfoldable pub deref : ℕ → List Element → Option Element
deref i [] = none
deref i (el ∷ ll) = ite (ℕ_discrete i el.id) (some el) (deref i ll)

-- `ll.Remove(el)`
unfoldable pub unlink : ℕ → List Element → List Element
unlink i [] = []
unlink i (el ∷ ll) = ite (ℕ_discrete i el.id) ll (el ∷ unlink i ll)

-- `delete(items, key)`
unfoldable pub delete : Key → List (Key × ℕ) → List (Key × ℕ)
delete key [] = []
delete key ((k, i) ∷ items) =
    ite (Key-discrete key k) (delete key items) ((k, i) ∷ delete key items)

-- `remove`
unfoldable pub remove : Cache → Element → Cache
remove c el = record c { items = delete el.key c.items; ll = unlink el.id c.ll }

-- `!v.Expires.After(now)`
abbrev pub is_expired : ℕ → Element → Bool
is_expired now el = leb el.value.expires now

-- The remaining lifetime in whole seconds, rounded up, as a uint32.
unfoldable pub seconds_left : ℕ → ℕ
seconds_left remaining = ((remaining + second - 1) / second) % 2 ^ 32

-- `Get`
unfoldable pub get : Cache → Key → ℕ → Option (Cache × Option Value)
get c key now = elim (lookup Key-discrete key c.items) [
  | none ↦ some (record c { misses = c.misses + 1 }, none)
  | some i ↦ elim (deref i c.ll) [
    | none ↦ none
    | some el ↦
        if is_expired now el
        then some
            (record (remove c el) { evictions = c.evictions + 1; misses = c.misses + 1 }, none)
        else some (
          record c { ll = el ∷ unlink el.id c.ll; hits = c.hits + 1 },
          some (record el.value { ttl = seconds_left (el.value.expires - now) }),
        )
  ]
]

-- The scan of `evictLocked` from the back, one reading of the clock for each element: the first
-- that has expired, and the readings used.
unfoldable pub find_victim : (ℕ → ℕ) → ℕ → List Element → Option Element × ℕ
find_victim clock k [] = (none, k)
find_victim clock k (el ∷ els) =
    let rest = find_victim clock (suc k) els in
    if is_expired (clock k) el then (some el, suc k) else rest

-- `ll.Back()`
unfoldable pub back : List Element → Option Element
back [] = none
back (el ∷ []) = some el
back (el ∷ f ∷ ll) = back (f ∷ ll)

-- The element that a round takes: an expired one, else the least recently used.
unfoldable pub victim : (ℕ → ℕ) → ℕ → List Element → Option Element
victim clock k ll = elim (find_victim clock k (reverse ll)).0 [ some el ↦ some el | none ↦ back ll ]

-- The loop of `evictLocked`, which removes one element in each round. Fuel: the length of the list.
unfoldable pub evict_loop : (ℕ → ℕ) → ℕ → ℕ → Cache → Option Cache
evict_loop clock k zero c = some c
evict_loop clock k (suc fuel) c =
    let rest : Option Cache = elim (victim clock k c.ll) [
      | none ↦ none
      | some el ↦
          evict_loop clock (find_victim clock k (reverse c.ll)).1 fuel
            (record (remove c el) { evictions = c.evictions + 1 })
    ] in
    if ltb c.max_entries (length c.ll) then rest else some c

unfoldable pub evict_locked : (ℕ → ℕ) → ℕ → Cache → Option Cache
evict_locked clock k c = evict_loop clock k (length c.ll) c

-- The new value in the element behind a pointer.
unfoldable pub assign : ℕ → Value → List Element → List Element
assign i v [] = []
assign i v (el ∷ ll) = ite (ℕ_discrete i el.id) (record el { value = v } ∷ ll) (el ∷ assign i v ll)

-- `setLocked`: the first reading of the clock sets the expiry.
unfoldable pub set_locked : Cache → Key → Value → (ℕ → ℕ) → Option Cache
set_locked c key v clock =
    let v : Value = record v { expires = clock 0 + v.ttl * second } in
    elim (lookup Key-discrete key c.items) [
      | some i ↦ elim (deref i c.ll) [
        | none ↦ none
        | some el ↦ some (record c { ll = record el { value = v } ∷ unlink i (assign i v c.ll) })
      ]
      | none ↦
          let el : Element = record { id = c.next_id; key = key; value = v } in
          evict_locked clock 1 (record c {
            ll = el ∷ c.ll;
            items = (key, c.next_id) ∷ c.items;
            next_id = suc c.next_id;
          })
    ]

-- `Set`
unfoldable pub set : Cache → Key → Value → ℕ → (ℕ → ℕ) → Option Cache
set c key v ttl clock = set_locked c key (record v { ttl = ttl }) clock

-- `Len`
unfoldable pub len : Cache → ℕ
len c = length c.ll

-- `Flush`
unfoldable pub flush : Cache → Cache
flush c = record c { ll = []; items = [] }

-- The loop of `sweep`, from the back to the front.
unfoldable pub sweep_loop : ℕ → List Element → Cache → Cache
sweep_loop now [] c = c
sweep_loop now (el ∷ els) c =
    sweep_loop now els
      (if is_expired now el then record (remove c el) { evictions = c.evictions + 1 } else c)

-- `sweep`
unfoldable pub sweep : ℕ → Cache → Cache
sweep now c = sweep_loop now (reverse c.ll) c
