-- ===== src/Upstream/Bounds.antt =====
-- The names that `Chase` of internal/upstream/chase.go looks up.
use chn_resolver_go.Prelude.{
  ℕ, suc, ◌≤◌, ◌≡◌, true, false, List, [], ◌∷◌, arith, length, elem, Distinct,
}
use chn_resolver_go.Text.{Text, Text-discrete}
use chn_resolver_go.Policy
use chn_resolver_go.Upstream.{Chaser, Round, chase, normalize}
use chn_resolver_go.Upstream.Runs.{
  Run, exhausted, cancelled, again, too_deep, finished, followed, chase_loop-Run,
}

-- The names looked up are new, and no more than the hops left.
abbrev Fresh : List Text → ℕ → List Text → Type 0
Fresh seen hops names =
    (length names ≤ hops)
    × Distinct Text-discrete names
    × ((t : Text) → elem Text-discrete t names ≡ true → elem Text-discrete t seen ≡ false)

Fresh-nil : (seen : List Text) (hops : ℕ) → Fresh seen hops []
unfolding elem
Fresh-nil seen hops = (omega arith, tt, λ t m. cc)

-- A new name in front of names that are new after it.
Fresh-cons :
    (seen : List Text) (hops : ℕ) (cur : Text) (names : List Text)
    → elem Text-discrete cur seen ≡ false
    → Fresh (cur ∷ seen) hops names
    → Fresh seen (suc hops) (cur ∷ names)
unfolding elem
Fresh-cons seen hops cur names e (short, apart, new) =
    (omega arith, (ground (arith, new cur), apart), λ t m. ground (arith, new t))

Fresh-Run :
    (c : Chaser) (rounds : ℕ → Round) {hops i : ℕ} {seen pending names : List Text}
    {r : Policy.Result}
    → Run c rounds hops i seen pending r names
    → Fresh seen hops names
Fresh-Run c rounds {hops} {seen} exhausted = Fresh-nil seen hops
Fresh-Run c rounds {hops} {seen} (cancelled e h) = Fresh-nil seen hops
Fresh-Run c rounds (again q run) = Fresh-Run c rounds run
Fresh-Run c rounds {seen} (too_deep q) = Fresh-nil seen 0
Fresh-Run c rounds (finished {h} {seen} {cur} q f) =
    Fresh-cons seen h cur [] q (Fresh-nil (cur ∷ seen) h)
Fresh-Run c rounds (followed {h} {seen} {names} {cur} q f run) =
    Fresh-cons seen h cur names q (Fresh-Run c rounds run)

-- Whatever the network answers, `Chase` looks up at most `maxHops` names, and none of them twice.
pub chase_bounds :
    (c : Chaser) (rounds : ℕ → Round) (max_hops : ℕ) (qname : Text)
    → (length (chase c rounds max_hops qname).1 ≤ max_hops)
      × Distinct Text-discrete (chase c rounds max_hops qname).1
unfolding chase
chase_bounds c rounds max_hops qname =
    let (short, apart, new) =
      Fresh-Run c rounds (chase_loop-Run c rounds max_hops 0 [] (normalize qname ∷ [])) in
    (short, apart)
