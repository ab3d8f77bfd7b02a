-- ===== src/Tests/Fanning.antt =====
-- Two schedules of two upstreams.
use chn_resolver_go.Prelude.{
  ◌+◌, ◌*◌, ◌≤◌, ◌≡◌, refl, true, List, [], ◌∷◌, arith, some, elem, length,
}
use chn_resolver_go.Net.{Addr, Addr-discrete, unmap, before}
use chn_resolver_go.China.{index_contains, contains, sort_search, search_between}
use chn_resolver_go.Engine.{
  Outcome, Resolved, early_stable, stable_results, stable_addrs, is_china, resolve_loop, resolve,
}
use chn_resolver_go.Engine.Loop.{after}
use chn_resolver_go.Engine.Fan.{
  Fan, start, events, here, there, sent, received, Step, Run, begin, move,
}
use chn_resolver_go.Engine.Progress.{Run-bounded, Run-returned}
use chn_resolver_go.Engine.Agreement.{complete-finalize, complete_agree}
use chn_resolver_go.Tests.Resolution.{assets, qname, outcome, home, foreign}

abbrev first : Outcome
first = outcome 0 home

abbrev second : Outcome
second = outcome 1 foreign

abbrev both : List Outcome
both = first ∷ second ∷ []

-- One after the other.
abbrev in_order : Fan
in_order =
    received second [] (sent second [] (received first [] (sent first (second ∷ []) (start both))))

-- The second is first.
abbrev turned : Fan
turned =
    received first []
      (received second (first ∷ []) (sent first [] (sent second (first ∷ []) (start both))))

in_order_run : Run assets qname (start both) 4 in_order
unfolding start sent received events resolve resolve_loop early_stable stable_results stable_addrs
    is_china index_contains unmap contains sort_search search_between before
in_order_run =
    move
      (move (move (move begin (Step.send here (omega arith))) (Step.receive refl refl))
        (Step.send here (omega arith)))
      (Step.receive refl refl)

turned_run : Run assets qname (start both) 4 turned
unfolding start sent received events resolve resolve_loop early_stable stable_results stable_addrs
    is_china index_contains unmap contains sort_search search_between before
turned_run =
    move
      (move
        (move (move begin (Step.send (there here) (omega arith))) (Step.send here (omega arith)))
        (Step.receive refl refl))
      (Step.receive refl refl)

in_order_returns :
    resolve assets qname in_order.n (events in_order) ≡ some (after assets qname both true)
unfolding start sent received events resolve resolve_loop early_stable stable_results stable_addrs
    is_china index_contains unmap contains sort_search search_between before
in_order_returns = refl

turned_returns :
    resolve assets qname turned.n (events turned)
    ≡ some (after assets qname (second ∷ first ∷ []) true)
unfolding start sent received events resolve resolve_loop early_stable stable_results stable_addrs
    is_china index_contains unmap contains sort_search search_between before
turned_returns = refl

-- Nothing is left to do.
in_order_still : (t : Fan) → ¬ Step assets qname in_order t
unfolding start sent received
in_order_still t (Step.send h _) = elim h [ ]
in_order_still t (Step.receive w e) = cc e
in_order_still t (Step.stop w over) = cc over

Run-bounded_example :
    (4 ≤ 2 * length both + 1) × (length in_order.channel + length in_order.asking ≤ in_order.n)
Run-bounded_example = Run-bounded assets qname both in_order_run

Run-returned_example :
    (in_order.asking ≡ [])
    × ((d : Resolved) × (resolve assets qname in_order.n (events in_order) ≡ some d))
Run-returned_example = Run-returned assets qname both in_order_run in_order_still

complete_agree_example :
    let d = (after assets qname both true).result in
    let e = (after assets qname (second ∷ first ∷ []) true).result in
    (d.rcode ≡ e.rcode)
    × (d.policy ≡ e.policy)
    × ((a : Addr) → elem Addr-discrete a d.addrs ≡ elem Addr-discrete a e.addrs)
complete_agree_example =
    complete_agree assets qname both in_order_run turned_run in_order_returns turned_returns
      (complete-finalize assets qname _ _ true) (complete-finalize assets qname _ _ true)
