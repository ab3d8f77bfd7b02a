-- ===== src/Engine/Termination.antt =====
-- When the loop of `Resolve` of internal/engine/engine.go returns.
use chn_resolver_go.Prelude.{
  ℕ, ◌+◌, ◌≤◌, ◌<◌, ◌≡◌, refl, true, false, List, [], ◌∷◌, ◌++◌, map, arith, some, length,
  length-append, ◌==◌, Bool-cases, inl, inr, ◌⊎◌, append_assoc,
}
use chn_resolver_go.Text.{Text}
use chn_resolver_go.Engine.{
  Assets, Event, arrive, ctx_done, Outcome, Resolved, early_stable, stable_results, resolve,
}
use chn_resolver_go.Engine.Loop.{results_of, after, loop, loop-arrive, loop-done}

module _ (assets : Assets) (qname : Text) (n : ℕ) where
  -- The reasons to return after the new outcomes, seen from the ones before.
  abbrev Due : List Outcome → List Outcome → List Event → Type 0
  Due old new rest =
      (n ≤ length old + length new)
      ⊎ ((early_stable assets qname (results_of (old ++ new)) ≡ true) × (0 < length new))
      ⊎ ((later : List Event) × (rest ≡ ctx_done ∷ later))

  Due-step :
      (old : List Outcome) (o : Outcome) (new : List Outcome) (rest : List Event)
      → early_stable assets qname (results_of (old ++ o ∷ [])) ≡ false
      → Due old (o ∷ new) rest
      → Due (old ++ o ∷ []) new rest
  Due-step old o new rest e (inl all) = inl (omega (arith, length-append old (o ∷ [])))
  Due-step old o [] rest e (inr (inl early)) = cc
  Due-step old o (x ∷ new) rest e (inr (inl early)) =
      inr (inl (rw (append_assoc old (o ∷ []) (x ∷ new)) early.0, omega arith))
  Due-step old o new rest e (inr (inr stop)) = inr (inr stop)

  loop_total :
      (old new : List Outcome) (rest : List Event)
      → length old < n
      → Due old new rest
      → (d : Resolved) × (loop assets qname n old (map arrive new ++ rest) ≡ some d)
  loop_total old [] rest h (inl all) = absurd (omega arith)
  loop_total old [] rest h (inr (inl early)) = absurd (omega (arith, early.1))
  loop_total old [] rest h (inr (inr (later, e))) =
      (after assets qname old false, rw e (loop-done assets qname n old later h))
  loop_total old (o ∷ new) rest h why =
      rw (loop-arrive assets qname n old o (map arrive new ++ rest) h)
        (elim (Bool-cases (length (old ++ o ∷ []) == n)) [
          | inl all ↦ (after assets qname (old ++ o ∷ []) true, ground arith)
          | inr few ↦ elim (Bool-cases (early_stable assets qname (results_of (old ++ o ∷ [])))) [
            | inl early ↦ (after assets qname (old ++ o ∷ []) false, ground arith)
            | inr open_yet ↦
                rw (few, open_yet)
                  (loop_total (old ++ o ∷ []) new rest (ground (arith, length-append old (o ∷ [])))
                    (Due-step old o new rest open_yet why))
          ]
        ])

early_stable-nil : (assets : Assets) (qname : Text) → early_stable assets qname [] ≡ false
unfolding early_stable stable_results
early_stable-nil assets qname = refl

-- `Resolve` with at least one upstream returns once all outcomes are in, or the results in are stable,
-- or the context ends behind them, whatever comes later.
pub resolve_total :
    (assets : Assets) (qname : Text) (n : ℕ) (new : List Outcome) (rest : List Event)
    → 0 < n
    → (n ≤ length new)
      ⊎ (early_stable assets qname (results_of new) ≡ true)
      ⊎ ((later : List Event) × (rest ≡ ctx_done ∷ later))
    → (d : Resolved) × (resolve assets qname n (map arrive new ++ rest) ≡ some d)
unfolding resolve
resolve_total assets qname n new rest h (inl all) =
    loop_total assets qname n [] new rest h (inl (omega arith))
resolve_total assets qname n [] rest h (inr (inl early)) = cc (early_stable-nil assets qname)
resolve_total assets qname n (o ∷ new) rest h (inr (inl early)) =
    loop_total assets qname n [] (o ∷ new) rest h (inr (inl (early, omega arith)))
resolve_total assets qname n new rest h (inr (inr stop)) =
    loop_total assets qname n [] new rest h (inr (inr stop))
