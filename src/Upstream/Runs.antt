-- ===== src/Upstream/Runs.antt =====
-- The loop of `Chase` of internal/upstream/chase.go as a relation: how a run may go.
use chn_resolver_go.Prelude.{
  ℕ, zero, suc, ◌≡◌, refl, true, false, List, [], ◌∷◌, elem, Bool-cases, Option-cases, inl, inr,
  some, ◌⊎◌,
}
use chn_resolver_go.Text.{Text, Text-discrete}
use chn_resolver_go.Policy
use chn_resolver_go.Policy.{no_data}
use chn_resolver_go.Upstream.{
  Chaser, Round, Err, Next, finish, follow, category, fail, base, look_up, chase_loop, enqueue,
}

module _ (c : Chaser) (rounds : ℕ → Round) where
  -- The hops left, the round, the names seen, the names pending; the result, the names looked up.
  pub data Run : ℕ → ℕ → List Text → List Text → Policy.Result → List Text → Type 0 where
    exhausted :
        {h i : ℕ} {seen : List Text} → Run h i seen [] (record (base c) { state = no_data }) []
    cancelled :
        {h i : ℕ} {seen pending : List Text} {cur : Text} (e : Err)
        → (rounds i).ctx_err ≡ some e
        → Run h i seen (cur ∷ pending) (fail c (category e)) []
    again :
        {h i : ℕ} {seen pending names : List Text} {cur : Text} {r : Policy.Result}
        → elem Text-discrete cur seen ≡ true
        → Run h (suc i) seen pending r names
        → Run h i seen (cur ∷ pending) r names
    too_deep :
        {i : ℕ} {seen pending : List Text} {cur : Text}
        → elem Text-discrete cur seen ≡ false
        → Run zero i seen (cur ∷ pending) (fail c "cname-maxdepth") []
    finished :
        {h i : ℕ} {seen pending : List Text} {cur : Text} {r : Policy.Result}
        → elem Text-discrete cur seen ≡ false
        → look_up c (rounds i) cur ≡ finish r
        → Run (suc h) i seen (cur ∷ pending) r (cur ∷ [])
    followed :
        {h i : ℕ} {seen pending names targets : List Text} {cur : Text} {r : Policy.Result}
        → elem Text-discrete cur seen ≡ false
        → look_up c (rounds i) cur ≡ follow targets
        → Run h (suc i) (cur ∷ seen) (enqueue (cur ∷ seen) pending targets) r names
        → Run (suc h) i seen (cur ∷ pending) r (cur ∷ names)

  Next-cases :
      (x : Next) → ((r : Policy.Result) × (x ≡ finish r)) ⊎ ((ts : List Text) × (x ≡ follow ts))
  Next-cases (finish r) = inl (r, refl)
  Next-cases (follow ts) = inr (ts, refl)

  -- The function computes a run.
  pub chase_loop-Run :
      (hops i : ℕ) (seen pending : List Text)
      → Run hops i seen pending
          (chase_loop c rounds hops i seen pending).0
          (chase_loop c rounds hops i seen pending).1
  unfolding chase_loop
  chase_loop-Run hops i seen [] = exhausted
  chase_loop-Run zero i seen (cur ∷ pending) = elim (Option-cases (rounds i).ctx_err) [
    | inr (e, h) ↦ rw (h, chase_loop) (cancelled e h)
    | inl h ↦ elim (Bool-cases (elem Text-discrete cur seen)) [
      | inl q ↦ rw (h, q, chase_loop) (again q (chase_loop-Run zero (suc i) seen pending))
      | inr q ↦ rw (h, q, chase_loop) (too_deep q)
    ]
  ]
  chase_loop-Run (suc hops) i seen (cur ∷ pending) = elim (Option-cases (rounds i).ctx_err) [
    | inr (e, h) ↦ rw (h, chase_loop) (cancelled e h)
    | inl h ↦ elim (Bool-cases (elem Text-discrete cur seen)) [
      | inl q ↦ rw (h, q, chase_loop) (again q (chase_loop-Run (suc hops) (suc i) seen pending))
      | inr q ↦ elim (Next-cases (look_up c (rounds i) cur)) [
        | inl (r, f) ↦ rw (h, q, f, chase_loop) (finished q f)
        | inr (ts, f) ↦
            rw (h, q, f, chase_loop)
              (followed q f
                (chase_loop-Run hops (suc i) (cur ∷ seen) (enqueue (cur ∷ seen) pending ts)))
      ]
    ]
  ]
