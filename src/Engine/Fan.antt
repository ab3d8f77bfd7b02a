-- ===== src/Engine/Fan.antt =====
-- The goroutines and the channel of `Resolve` in internal/engine/engine.go, step by step. A goroutine is
-- the outcome that it is going to send.
use chn_resolver_go.Prelude.{
  ℕ, suc, ◌<◌, ◌≡◌, Bool, true, false, List, [], ◌∷◌, ◌++◌, map, none, if◌then◌else◌, length,
}
use chn_resolver_go.Text.{Text}
use chn_resolver_go.Upstream.{chase}
use chn_resolver_go.Engine.{Assets, Event, arrive, ctx_done, Outcome, send_outcome, resolve}
use chn_resolver_go.Engine.Chased.{Asked}

-- The channel has room for `n` outcomes; `taken` are those that the loop took, `ctx_over` is the end of
-- the context, and `stopped` that the loop saw it.
pub record Fan : Type 0 where
  pub n : ℕ
  pub asking : List Outcome
  pub channel : List Outcome
  pub taken : List Outcome
  pub ctx_over : Bool
  pub stopped : Bool

-- The outcomes of the goroutines, from upstream `i` on.
unfoldable pub fan_out : ℕ → Text → ℕ → List Asked → List Outcome
fan_out max_hops qname i [] = []
fan_out max_hops qname i (a ∷ asked) =
    send_outcome a.upstream (chase a.chaser a.rounds max_hops qname).0 a.latency i
    ∷ fan_out max_hops qname (suc i) asked

unfoldable pub start : List Outcome → Fan
start outcomes = record {
  n = length outcomes;
  asking = outcomes;
  channel = [];
  taken = [];
  ctx_over = false;
  stopped = false;
}

-- What the `select` has taken so far.
unfoldable pub events : Fan → List Event
events s = map arrive s.taken ++ (if s.stopped then ctx_done ∷ [] else [])

-- The loop has not returned.
abbrev pub Waits : Assets → Text → Fan → Type 0
Waits assets qname s = resolve assets qname s.n (events s) ≡ none

-- One element is picked out of a list.
pub data Picks (o : Outcome) : List Outcome → List Outcome → Type 0 where
  here : {rest : List Outcome} → Picks o (o ∷ rest) rest
  there : {p : Outcome} {os rest : List Outcome} → Picks o os rest → Picks o (p ∷ os) (p ∷ rest)

unfoldable pub sent : Outcome → List Outcome → Fan → Fan
sent o rest s = record s { asking = rest; channel = s.channel ++ o ∷ [] }

unfoldable pub received : Outcome → List Outcome → Fan → Fan
received o rest s = record s { channel = rest; taken = s.taken ++ o ∷ [] }

-- A step of a goroutine or of the loop.
pub data Step (assets : Assets) (qname : Text) : Fan → Fan → Type 0 where
  send :
      {s : Fan} {o : Outcome} {rest : List Outcome}
      → Picks o s.asking rest
      → length s.channel < s.n
      → Step assets qname s (sent o rest s)
  receive :
      {s : Fan} {o : Outcome} {rest : List Outcome}
      → Waits assets qname s
      → s.channel ≡ o ∷ rest
      → Step assets qname s (received o rest s)
  stop :
      {s : Fan}
      → Waits assets qname s
      → s.ctx_over ≡ true
      → Step assets qname s (record s { stopped = true })

-- A run of `k` steps, in which the context may end at any time.
pub data Run (assets : Assets) (qname : Text) (first : Fan) : ℕ → Fan → Type 0 where
  begin : Run assets qname first 0 first
  move :
      {k : ℕ} {s t : Fan}
      → Run assets qname first k s
      → Step assets qname s t
      → Run assets qname first (suc k) t
  expire :
      {k : ℕ} {s : Fan}
      → Run assets qname first k s
      → Run assets qname first k (record s { ctx_over = true })
