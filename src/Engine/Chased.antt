-- ===== src/Engine/Chased.antt =====
-- `finalize` of internal/engine/engine.go over what the goroutines of `Resolve` send, each the result of
-- `Chase` of internal/upstream/chase.go under its upstream's address and class.
use chn_resolver_go.Prelude.{
  ℕ, ◌≡◌, refl, Bool, true, not, List, [], ◌∷◌, map, arith, any, All, is_empty,
}
use chn_resolver_go.Net.{Addr}
use chn_resolver_go.Text.{Text}
use chn_resolver_go.Policy
use chn_resolver_go.Policy.{is_answer, select}
use chn_resolver_go.Policy.Evidence.{every_side, has}
use chn_resolver_go.Policy.Choice.{is_empty-select}
use chn_resolver_go.Upstream.{Chaser, Round, chase}
use chn_resolver_go.Upstream.Answers.{chase-IsSound}
use chn_resolver_go.Engine.{Assets, Upstream, Report, is_china, is_override, send_outcome, finalize}
use chn_resolver_go.Engine.Final.{answered, has_answer-eq}

-- An upstream with what its goroutine observes.
pub record Asked : Type 0 where
  pub upstream : Upstream
  pub chaser : Chaser
  pub rounds : ℕ → Round
  pub latency : ℕ

-- What it sends.
abbrev pub sent : ℕ → Text → Asked → Policy.Result
sent max_hops qname a =
    (send_outcome a.upstream (chase a.chaser a.rounds max_hops qname).0 a.latency 0).result

-- Addresses come with an answer, and with nothing else.
abbrev HasItsAddrs : Policy.Result → Type 0
HasItsAddrs r = is_empty r.addrs ≡ not (is_answer r.state)

sent-HasItsAddrs :
    (max_hops : ℕ) (qname : Text) (asked : List Asked)
    → All HasItsAddrs (map (sent max_hops qname) asked)
unfolding send_outcome
sent-HasItsAddrs max_hops qname [] = tt
sent-HasItsAddrs max_hops qname (a ∷ asked) = (
  (chase-IsSound a.chaser a.rounds max_hops qname).addresses,
  sent-HasItsAddrs max_hops qname asked,
)

any-true : (addrs : List Addr) → any (λ _. true) addrs ≡ not (is_empty addrs)
unfolding any
any-true [] = refl
any-true (a ∷ addrs) = refl

has-answered :
    (rs : List Policy.Result) → All HasItsAddrs rs → has every_side (λ _. true) rs ≡ answered rs
unfolding any
has-answered [] h = refl
has-answered (r ∷ rs) h = ground (arith, has-answered rs h.1, any-true r.addrs, h.0)

-- Over what the goroutines send, the final result has addresses exactly when some upstream answered:
-- an answer is never emptied by the rules, and no failure brings an address.
pub finalize-answered :
    (assets : Assets) (qname : Text) (max_hops : ℕ) (asked : List Asked) (reports : List Report)
    (complete : Bool)
    → let rs = map (sent max_hops qname) asked in
      is_empty (finalize assets qname rs reports complete).addrs ≡ not (answered rs)
unfolding finalize
finalize-answered assets qname max_hops asked reports complete =
    let rs : List Policy.Result = map (sent max_hops qname) asked in
    ground (
      arith,
      has_answer-eq rs,
      is_empty-select qname rs (is_china assets) (is_override assets),
      has-answered rs (sent-HasItsAddrs max_hops qname asked),
    )
