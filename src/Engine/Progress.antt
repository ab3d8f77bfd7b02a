-- ===== src/Engine/Progress.antt =====
-- How the goroutines and the loop of `Resolve` in internal/engine/engine.go come to their ends.
use chn_resolver_go.Prelude.{
  ℕ, zero, suc, ◌+◌, ◌*◌, ◌≤◌, ◌≡◌, refl, sym, true, false, List, [], ◌∷◌, arith, some, length,
  length-append, if◌then◌else◌, dec_lt, Bool-cases, Option-cases, ◌⊎◌, subst, inl, inr,
}
use chn_resolver_go.Text.{Text}
use chn_resolver_go.Engine.{Assets, Event, ctx_done, Outcome, Resolved, resolve_loop, resolve}
use chn_resolver_go.Engine.Termination.{resolve_total}
use chn_resolver_go.Engine.Fan.{
  Fan, start, events, Waits, Picks, here, there, sent, received, Step, Run, begin, move, expire,
}
use chn_resolver_go.Engine.Sharing.{IsShared-length, Run-IsShared}

-- The steps that are left: two for a goroutine, one for an outcome in the channel, and the stop.
unfoldable pub left : Fan → ℕ
left s = 2 * length s.asking + length s.channel + (if s.stopped then 0 else 1)

length-Picks :
    {o : Outcome} {os rest : List Outcome} → Picks o os rest → length os ≡ suc (length rest)
length-Picks here = refl
length-Picks (there h) = omega (arith, length-Picks h)

module _ (assets : Assets) (qname : Text) where
  Returned : Fan → Type 0
  Returned s = (d : Resolved) × (resolve assets qname s.n (events s) ≡ some d)

  -- Without an upstream the loop returns at once.
  none_asked :
      (n : ℕ) (es : List Event) → n ≤ 0 → (d : Resolved) × (resolve assets qname n es ≡ some d)
  unfolding resolve resolve_loop
  none_asked zero [] h = (_, refl)
  none_asked zero (e ∷ es) h = (_, refl)
  none_asked (suc n) es h = absurd (omega (arith, h))

  full-Returned : (s : Fan) → s.n ≤ length s.taken → Returned s
  unfolding Returned events
  full-Returned s full = elim (dec_lt 0 s.n) [
    | yes some_asked ↦ resolve_total assets qname s.n s.taken _ some_asked (inl full)
    | no nobody ↦ none_asked s.n _ (omega (arith, nobody))
  ]

  stopped-Returned : (s : Fan) → s.stopped ≡ true → Returned s
  unfolding Returned events
  stopped-Returned s over = elim (dec_lt 0 s.n) [
    | yes some_asked ↦
        rw over
          (resolve_total assets qname s.n s.taken (ctx_done ∷ []) some_asked (inr (inr ([], refl))))
    | no nobody ↦ none_asked s.n _ (omega (arith, nobody))
  ]

  Waits-stopped : (s : Fan) → Waits assets qname s → s.stopped ≡ false
  unfolding Returned
  Waits-stopped s w = elim (Bool-cases s.stopped) [
    | inl over ↦ let (d, e) = stopped-Returned s over in cc (w, e)
    | inr more ↦ more
  ]

  Step-left : {s t : Fan} → Step assets qname s t → suc (left t) ≡ left s
  unfolding left sent received
  Step-left {s = s} (Step.send {o = o} {rest = rest} h small) =
      omega (arith, length-Picks h, length-append s.channel (o ∷ []))
  Step-left {s = s} (Step.receive w e) = ground (arith, e)
  Step-left {s = s} (Step.stop w over) = ground (arith, Waits-stopped s w)

  Run-left :
      (outcomes : List Outcome) {k : ℕ} {s : Fan}
      → Run assets qname (start outcomes) k s
      → k + left s ≡ 2 * length outcomes + 1
  unfolding left start
  Run-left outcomes begin = omega arith
  Run-left outcomes (move run step) = omega (arith, Run-left outcomes run, Step-left step)
  Run-left outcomes (expire run) = Run-left outcomes run

  -- A run has at most two steps for each upstream and one for the end of the context, and the channel has
  -- room for every outcome that is still to be sent: no goroutine waits for the loop, which may have
  -- returned.
  pub Run-bounded :
      (outcomes : List Outcome) {k : ℕ} {s : Fan}
      → Run assets qname (start outcomes) k s
      → (k ≤ 2 * length outcomes + 1) × (length s.channel + length s.asking ≤ s.n)
  Run-bounded outcomes run = (
    omega (arith, Run-left outcomes run),
    omega (arith, IsShared-length (Run-IsShared assets qname outcomes run)),
  )

  send_or_none :
      (s : Fan) (os : List Outcome)
      → s.asking ≡ os
      → length s.channel + length s.asking ≤ s.n
      → (s.asking ≡ []) ⊎ ((t : Fan) × Step assets qname s t)
  send_or_none s [] e room = inl e
  send_or_none s (o ∷ rest) e room = inr (
    sent o rest s,
    Step.send (subst (λ l. Picks o l rest) (sym e) here) (ground (arith, e, room)),
  )

  receive_or_none :
      (s : Fan) (os : List Outcome)
      → s.channel ≡ os
      → Waits assets qname s
      → (s.channel ≡ []) ⊎ ((t : Fan) × Step assets qname s t)
  receive_or_none s [] e w = inl e
  receive_or_none s (o ∷ rest) e w = inr (received o rest s, Step.receive w e)

  -- A run that no step continues has no goroutine left, and `Resolve` has returned.
  pub Run-returned :
      (outcomes : List Outcome) {k : ℕ} {s : Fan}
      → Run assets qname (start outcomes) k s
      → ((t : Fan) → ¬ Step assets qname s t)
      → (s.asking ≡ []) × ((d : Resolved) × (resolve assets qname s.n (events s) ≡ some d))
  unfolding Returned
  Run-returned outcomes {s = s} run still =
      elim (send_or_none s s.asking refl (Run-bounded outcomes run).1) [
        | inr (t, step) ↦ absurd (still t step)
        | inl quiet ↦ (
          quiet,
          elim (Option-cases (resolve assets qname s.n (events s))) [
            | inr back ↦ back
            | inl waiting ↦ elim (receive_or_none s s.channel refl waiting) [
              | inr (t, step) ↦ absurd (still t step)
              | inl empty ↦ full-Returned s (
                  ground
                    (arith, quiet, empty, IsShared-length (Run-IsShared assets qname outcomes run)))
            ]
          ],
        )
      ]
