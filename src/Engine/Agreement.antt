-- ===== src/Engine/Agreement.antt =====
-- `Resolve` of internal/engine/engine.go under two schedules of its goroutines.
use mathlib.Core.List.{Perm}
use mathlib.Core.List.Perm
use chn_resolver_go.Prelude.{
  ℕ, ◌+◌, ◌≤◌, ◌≡◌, refl, sym, ap, ◌∙◌, subst, Bool-cases, inl, inr, Bool, true, false, List, [],
  ◌∷◌, ◌++◌, map, arith, some, elem, if◌then◌else◌, append-nil, length,
}
use chn_resolver_go.Net.{Addr, Addr-discrete}
use chn_resolver_go.Text.{Text}
use chn_resolver_go.Policy
use chn_resolver_go.Engine.{
  Assets, Event, arrive, ctx_done, Outcome, Resolved, Report, has_answer, report_of, finalize,
  resolve,
}
use chn_resolver_go.Engine.Loop.{results_of, Ending, resolve-Returns}
use chn_resolver_go.Engine.Final.{finalize-perm}
use chn_resolver_go.Engine.Fan.{Fan, start, events, Run}
use chn_resolver_go.Engine.Sharing.{IsShared-length, Run-IsShared}

arrive_inj : {o p : Outcome} {es fs : List Event} → arrive o ∷ es ≡ arrive p ∷ fs → o ≡ p
arrive_inj e = cc e

tail_eq : {a b : Event} {es fs : List Event} → a ∷ es ≡ b ∷ fs → es ≡ fs
tail_eq e = cc e

-- The outcomes at the front of the events of a state, if they are as many as it took.
fronts_eq :
    (xs ys : List Outcome) (over : Bool) (rest : List Event)
    → map arrive xs ++ (if over then ctx_done ∷ [] else []) ≡ map arrive ys ++ rest
    → length xs ≤ length ys
    → xs ≡ ys
fronts_eq [] [] over rest e h = refl
fronts_eq [] (y ∷ ys) true rest e h = cc e
fronts_eq [] (y ∷ ys) false rest e h = cc e
fronts_eq (x ∷ xs) [] over rest e h = absurd (omega (arith, h))
fronts_eq (x ∷ xs) (y ∷ ys) over rest e h =
    cc (arrive_inj e, fronts_eq xs ys over rest (tail_eq e) (omega (arith, h)))

pub complete-finalize :
    (assets : Assets) (qname : Text) (rs : List Policy.Result) (reports : List Report) (c : Bool)
    → (finalize assets qname rs reports c).complete ≡ c
unfolding finalize
complete-finalize assets qname rs reports c = elim (Bool-cases (has_answer rs)) [
  | inl e ↦ rw e refl
  | inr e ↦ elim (Bool-cases ((Policy.finalize_negative rs).2)) [
    | inl f ↦ rw (e, f) refl
    | inr f ↦ rw (e, f) refl
  ]
]

all_in-length :
    {assets : Assets} {qname : Text} {n : ℕ} {taken : List Outcome} {rest : List Event} {c : Bool}
    → Ending assets qname n taken rest c
    → c ≡ true
    → length taken ≡ n
all_in-length (Ending.all_in full) e = full
all_in-length (Ending.stable _ _) e = cc e
all_in-length (Ending.stopped _ _ _) e = cc e

none_left : (os ps : List Outcome) → length os + length ps ≤ 0 → os ++ ps ≡ []
none_left [] [] h = refl
none_left [] (p ∷ ps) h = absurd (omega (arith, h))
none_left (o ∷ os) ps h = absurd (omega (arith, h))

-- What a complete return is made of.
record IsComplete (assets : Assets) (qname : Text) (outcomes : List Outcome) (d : Resolved)
    : Type 0 where
  taken : List Outcome
  reports : List Report
  made : d.result ≡ finalize assets qname (results_of taken) reports true
  all_taken : Perm taken outcomes

module _ (assets : Assets) (qname : Text) (outcomes : List Outcome) where
  Run-IsComplete :
      {k : ℕ} {s : Fan} {d : Resolved}
      → Run assets qname (start outcomes) k s
      → resolve assets qname s.n (events s) ≡ some d
      → d.result.complete ≡ true
      → IsComplete assets qname outcomes d
  unfolding events
  Run-IsComplete {s = s} {d = d} run e full =
      let v = Run-IsShared assets qname outcomes run in
      let r = resolve-Returns assets qname s.n (events s) d e in
      let whole : r.complete ≡ true =
        sym (
          ap (λ (x : Resolved). x.result.complete) r.returned
          ∙ complete-finalize assets qname (results_of r.new) (map report_of r.new) r.complete)
        ∙ full in
      let count = all_in-length r.ending whole in
      let same : s.taken ≡ r.new =
        fronts_eq s.taken r.new s.stopped r.rest r.arrivals
          (omega (arith, count, IsShared-length v)) in
      record {
        taken = r.new;
        reports = map report_of r.new;
        made = ap (λ (x : Resolved). x.result) r.returned ∙ rw whole refl;
        all_taken =
            subst (λ l. Perm l outcomes)
              (ap (◌++◌ s.taken) (
                  none_left s.channel s.asking
                    (omega (arith, count, IsShared-length v, ap length same)))
                ∙ append-nil s.taken
                ∙ same)
              v.shared;
      }

  -- Two runs over the same outcomes that return a complete result, however their goroutines are
  -- scheduled, return the same code, the same policy and the same set of addresses.
  pub complete_agree :
      {k j : ℕ} {s t : Fan} {d e : Resolved}
      → Run assets qname (start outcomes) k s
      → Run assets qname (start outcomes) j t
      → resolve assets qname s.n (events s) ≡ some d
      → resolve assets qname t.n (events t) ≡ some e
      → d.result.complete ≡ true
      → e.result.complete ≡ true
      → (d.result.rcode ≡ e.result.rcode)
        × (d.result.policy ≡ e.result.policy)
        × ((a : Addr) → elem Addr-discrete a d.result.addrs ≡ elem Addr-discrete a e.result.addrs)
  complete_agree run other back over full whole =
      let c = Run-IsComplete run back full in
      let o = Run-IsComplete other over whole in
      rw (c.made, o.made)
        (finalize-perm assets qname c.reports o.reports true
          (Perm.map (λ (x : Outcome). x.result) (Perm.trans c.all_taken (Perm.symm o.all_taken))))
