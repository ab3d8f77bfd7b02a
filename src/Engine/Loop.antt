-- ===== src/Engine/Loop.antt =====
-- The loop of `Resolve` of internal/engine/engine.go: what it returns, and why.
use mathlib.Core.List.{map-append}
use chn_resolver_go.Prelude.{
  ℕ, suc, ◌≤◌, ◌<◌, ◌≡◌, refl, ◌∙◌, sym, ap, Bool, true, false, List, [], ◌∷◌, ◌++◌, map, arith,
  if◌then◌else◌, Option, none, some, length, length-append, ◌==◌, ==_iff, some_inj, Bool-cases, inl,
  inr, append_assoc, append-nil, dec_lt,
}
use chn_resolver_go.Text.{Text}
use chn_resolver_go.Policy
use chn_resolver_go.Engine.{
  Assets, Event, arrive, ctx_done, Outcome, report_of, Call, Resolved, finalize, early_stable,
  resolve_loop, resolve,
}

-- The results, reports and calls of the outcomes taken so far.
abbrev pub results_of : List Outcome → List Policy.Result
results_of = map (λ o. o.result)

abbrev pub call_of : Outcome → Call
call_of o = record { idx = o.idx; state = o.result.state; category = o.result.err_category }

-- Why the loop returned after these outcomes, and whether the result counts as complete.
pub data Ending (assets : Assets) (qname : Text) (n : ℕ) (taken : List Outcome) (rest : List Event)
    : Bool → Type 0 where
  all_in : length taken ≡ n → Ending assets qname n taken rest true
  stable :
      length taken < n
      → early_stable assets qname (results_of taken) ≡ true
      → Ending assets qname n taken rest false
  stopped :
      (later : List Event)
      → length taken < n
      → rest ≡ ctx_done ∷ later
      → Ending assets qname n taken rest false

-- What `Resolve` returns after these outcomes.
abbrev pub after : Assets → Text → List Outcome → Bool → Resolved
after assets qname taken complete = record {
  result = finalize assets qname (results_of taken) (map report_of taken) complete;
  calls = map call_of taken;
}

-- A return that took the outcomes `old ++ new`, the new ones from the front of the events.
pub record Returns (assets : Assets) (qname : Text) (n : ℕ) (old : List Outcome)
    (events : List Event) (d : Resolved) : Type 0 where
  pub new : List Outcome
  pub rest : List Event
  pub complete : Bool
  pub arrivals : events ≡ map arrive new ++ rest
  pub returned : d ≡ after assets qname (old ++ new) complete
  pub ending : Ending assets qname n (old ++ new) rest complete

length-results_of : (os : List Outcome) → length (results_of os) ≡ length os
length-results_of [] = refl
length-results_of (o ∷ os) = ap suc (length-results_of os)

module _ (assets : Assets) (qname : Text) (n : ℕ) where
  -- The loop after these outcomes.
  abbrev pub loop : List Outcome → List Event → Option Resolved
  loop old events =
      resolve_loop assets qname n (results_of old) (map report_of old) (map call_of old) events

  pub loop-arrive :
      (old : List Outcome) (o : Outcome) (events : List Event)
      → length old < n
      → loop old (arrive o ∷ events) ≡ (
          if length (old ++ o ∷ []) == n
          then some (after assets qname (old ++ o ∷ []) true)
          else if early_stable assets qname (results_of (old ++ o ∷ []))
          then some (after assets qname (old ++ o ∷ []) false)
          else loop (old ++ o ∷ []) events)
  unfolding resolve_loop
  loop-arrive old o events h = ground (
    arith,
    length-results_of old,
    length-results_of (old ++ o ∷ []),
    map-append (λ (o : Outcome). o.result) old (o ∷ []),
    map-append report_of old (o ∷ []),
    map-append call_of old (o ∷ []),
  )

  pub loop-done :
      (old : List Outcome) (events : List Event)
      → length old < n
      → loop old (ctx_done ∷ events) ≡ some (after assets qname old false)
  unfolding resolve_loop
  loop-done old events h = ground (arith, length-results_of old)

  loop-full :
      (old : List Outcome) (events : List Event)
      → length old ≡ n
      → loop old events ≡ some (after assets qname old true)
  unfolding resolve_loop
  loop-full old [] h = ground (arith, length-results_of old)
  loop-full old (e ∷ events) h = ground (arith, length-results_of old)

  loop-wait : (old : List Outcome) → length old < n → loop old [] ≡ none
  unfolding resolve_loop
  loop-wait old h = ground (arith, length-results_of old)

  -- One more outcome in front of a return.
  later :
      (old : List Outcome) (o : Outcome) (events : List Event) {d : Resolved}
      → Returns assets qname n (old ++ o ∷ []) events d
      → Returns assets qname n old (arrive o ∷ events) d
  later old o events r =
      let regroup : (old ++ o ∷ []) ++ r.new ≡ old ++ (o ∷ r.new) =
        append_assoc old (o ∷ []) r.new in
      record {
        new = o ∷ r.new;
        rest = r.rest;
        complete = r.complete;
        arrivals = ap (◌∷◌ (arrive o)) r.arrivals;
        returned = rw (← regroup) r.returned;
        ending = rw (← regroup) r.ending;
      }

  at_once :
      (old : List Outcome) (o : Outcome) (events : List Event) (complete : Bool) {d : Resolved}
      → d ≡ after assets qname (old ++ o ∷ []) complete
      → Ending assets qname n (old ++ o ∷ []) events complete
      → Returns assets qname n old (arrive o ∷ events) d
  at_once old o events complete e ending = record {
    new = o ∷ [];
    rest = events;
    complete = complete;
    arrivals = refl;
    returned = e;
    ending = ending;
  }

  now :
      (old : List Outcome) (events : List Event) (complete : Bool) {d : Resolved}
      → d ≡ after assets qname old complete
      → Ending assets qname n old events complete
      → Returns assets qname n old events d
  now old events complete e ending = record {
    new = [];
    rest = events;
    complete = complete;
    arrivals = refl;
    returned = rw (append-nil old) e;
    ending = rw (append-nil old) ending;
  }

  arrive-Returns :
      (old : List Outcome) (o : Outcome) (events : List Event) (d : Resolved)
      → length old < n
      → (loop (old ++ o ∷ []) events ≡ some d → Returns assets qname n (old ++ o ∷ []) events d)
      → loop old (arrive o ∷ events) ≡ some d
      → Returns assets qname n old (arrive o ∷ events) d
  arrive-Returns old o events d h again e =
      let step = sym (loop-arrive old o events h) ∙ e in
      elim (Bool-cases (length (old ++ o ∷ []) == n)) [
        | inl all ↦
            at_once old o events true (sym (some_inj (rw all at step)))
              (all_in ((==_iff _ n).0 all))
        | inr few ↦ elim (Bool-cases (early_stable assets qname (results_of (old ++ o ∷ [])))) [
          | inl early ↦
              at_once old o events false (sym (some_inj (rw (few, early) at step)))
                (stable (ground (arith, length-append old (o ∷ []))) early)
          | inr open_yet ↦ later old o events (again (rw (few, open_yet) at step))
        ]
      ]

  loop-Returns :
      (old : List Outcome) (events : List Event) (d : Resolved)
      → length old ≤ n
      → loop old events ≡ some d
      → Returns assets qname n old events d
  loop-Returns old [] d h e = elim (dec_lt (length old) n) [
    | yes more ↦ absurd (ground (arith, loop-wait old more))
    | no full ↦
        let all : length old ≡ n = omega arith in
        now old [] true (some_inj (sym e ∙ loop-full old [] all)) (all_in all)
  ]
  loop-Returns old (arrive o ∷ events) d h e = elim (dec_lt (length old) n) [
    | yes more ↦
        arrive-Returns old o events d more
          (loop-Returns (old ++ o ∷ []) events d (omega (arith, length-append old (o ∷ [])))) e
    | no full ↦
        let all : length old ≡ n = omega arith in
        now old _ true (some_inj (sym e ∙ loop-full old _ all)) (all_in all)
  ]
  loop-Returns old (ctx_done ∷ events) d h e = elim (dec_lt (length old) n) [
    | yes more ↦
        now old _ false (some_inj (sym e ∙ loop-done old events more)) (stopped events more refl)
    | no full ↦
        let all : length old ≡ n = omega arith in
        now old _ true (some_inj (sym e ∙ loop-full old _ all)) (all_in all)
  ]

  -- When `Resolve` returns, it returns what `finalize` makes of the outcomes that it took, in their
  -- order: all of them, or as many as make the branch stable, or those before the context ended; it is
  -- complete only with all of them, and it made one call of `OnResult` for each.
  pub resolve-Returns :
      (events : List Event) (d : Resolved)
      → resolve assets qname n events ≡ some d
      → Returns assets qname n [] events d
  unfolding resolve
  resolve-Returns events d e = loop-Returns [] events d (omega arith) e
