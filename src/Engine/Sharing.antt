-- ===== src/Engine/Sharing.antt =====
-- The outcomes of the goroutines of `Resolve` in internal/engine/engine.go: where each of them is.
use mathlib.Core.Logic.{∥∥₁_elim}
use mathlib.Core.List.{Perm, Permᴰ}
use mathlib.Core.List.Perm
use chn_resolver_go.Prelude.{
  ℕ, suc, ◌+◌, ◌≡◌, refl, sym, ap, ◌∙◌, subst, List, [], ◌∷◌, ◌++◌, arith, length, length-append,
  append_assoc,
}
use chn_resolver_go.Text.{Text}
use chn_resolver_go.Engine.{Assets, Outcome}
use chn_resolver_go.Engine.Fan.{
  Fan, start, Picks, here, there, sent, received, Step, Run, begin, move, expire,
}

-- Every outcome is taken, or in the channel, or still to be sent.
abbrev pub all_of : Fan → List Outcome
all_of s = s.taken ++ (s.channel ++ s.asking)

Picks-perm : {o : Outcome} {os rest : List Outcome} → Picks o os rest → Perm os (o ∷ rest)
Picks-perm {o = o} here = Perm.refl _
Picks-perm {o = o} (there {p = p} {rest = rest} h) =
    Perm.trans (Perm.cons p (Picks-perm h)) (Perm.swap o p rest)

length-permᴰ : {os ps : List Outcome} → Permᴰ os ps → length os ≡ length ps
length-permᴰ Permᴰ.nil = refl
length-permᴰ (Permᴰ.cons e d) = ap suc (length-permᴰ d)
length-permᴰ (Permᴰ.swap e f) = refl
length-permᴰ (Permᴰ.trans d e) = length-permᴰ d ∙ length-permᴰ e

length-perm : {os ps : List Outcome} → Perm os ps → length os ≡ length ps
length-perm p = ∥∥₁_elim p (hlevel) length-permᴰ

pub record IsShared (outcomes : List Outcome) (s : Fan) : Type 0 where
  pub shared : Perm (all_of s) outcomes
  pub room : s.n ≡ length outcomes

-- How many there are of each kind.
pub IsShared-length :
    {outcomes : List Outcome} {s : Fan}
    → IsShared outcomes s
    → length s.taken + (length s.channel + length s.asking) ≡ s.n
IsShared-length {outcomes = outcomes} {s = s} v = omega (
  arith,
  length-perm v.shared,
  length-append s.taken (s.channel ++ s.asking),
  length-append s.channel s.asking,
  v.room,
)

module _ (assets : Assets) (qname : Text) (outcomes : List Outcome) where
  Step-IsShared : {s t : Fan} → Step assets qname s t → IsShared outcomes s → IsShared outcomes t
  unfolding sent received
  Step-IsShared {s = s} (Step.send {o = o} {rest = rest} h small) v = record {
    shared =
        Perm.trans
          (Perm.append_left s.taken (
            subst (λ l. Perm l (s.channel ++ s.asking)) (sym (append_assoc s.channel (o ∷ []) rest))
              (Perm.append_left s.channel (Perm.symm (Picks-perm h)))))
          v.shared;
    room = v.room;
  }
  Step-IsShared {s = s} (Step.receive {o = o} {rest = rest} w e) v = record {
    shared =
        subst (λ l. Perm l outcomes)
          (ap (λ c. s.taken ++ (c ++ s.asking)) e
            ∙ sym (append_assoc s.taken (o ∷ []) (rest ++ s.asking)))
          v.shared;
    room = v.room;
  }
  Step-IsShared (Step.stop w over) v = record { shared = v.shared; room = v.room }

  pub Run-IsShared : {k : ℕ} {s : Fan} → Run assets qname (start outcomes) k s → IsShared outcomes s
  unfolding start
  Run-IsShared begin = record { shared = Perm.refl outcomes; room = refl }
  Run-IsShared (move run step) = Step-IsShared step (Run-IsShared run)
  Run-IsShared (expire run) =
      let v = Run-IsShared run in record { shared = v.shared; room = v.room }
