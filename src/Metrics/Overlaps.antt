-- ===== src/Metrics/Overlaps.antt =====
-- The values of the counters of internal/metrics/metrics.go after calls of `counter` that overlap.
use Prim.Native.String.{String}
use text.Mathlib.Text.{◌==◌ as same_name}
use chn_resolver_go.Prelude.{
  ℕ, ◌+◌, ◌%◌, ◌^◌, ◌≡◌, refl, ◌∙◌, subst, true, List, [], ◌∷◌, ◌++◌, arith, if◌then◌else◌, All,
  All-append, All-split,
}
use chn_resolver_go.Metrics.{Named, has, insert_locked, count_known}
use chn_resolver_go.Metrics.Named.{
  value, has-count_known, has-insert_locked, has_kept, value-insert_locked, value-count_known-has,
}
use chn_resolver_go.Metrics.Racing.{
  Phase, looking, missed, found, Shared, unused, enter, turn, insert, add, Step, Steps, begin, move,
}

-- How often a name was added.
unfoldable pub times : String → List String → ℕ
times k [] = 0
times k (n ∷ ns) = (if same_name k n then 1 else 0) + times k ns

-- A caller that has its counter has one that is in the map.
abbrev pub HasCounter : Named → Phase × String → Type 0
HasCounter dst (found, name) = has name dst ≡ true
HasCounter dst (looking, name) = Unit
HasCounter dst (missed, name) = Unit

pub record IsCounted (s : Shared) : Type 0 where
  pub values : (k : String) → value k s.dst ≡ times k s.added % 2 ^ 64
  pub backed : All (HasCounter s.dst) s.callers

-- The callers keep their counters when the map keeps its names.
backed_on :
    (dst dst' : Named) (callers : List (Phase × String))
    → ((k : String) → has k dst ≡ true → has k dst' ≡ true)
    → All (HasCounter dst) callers
    → All (HasCounter dst') callers
backed_on dst dst' [] kept h = tt
backed_on dst dst' ((looking, n) ∷ callers) kept (c, h) = (tt, backed_on dst dst' callers kept h)
backed_on dst dst' ((missed, n) ∷ callers) kept (c, h) = (tt, backed_on dst dst' callers kept h)
backed_on dst dst' ((found, n) ∷ callers) kept (c, h) =
    (kept n c, backed_on dst dst' callers kept h)

-- One caller, and the others.
others :
    (s : Shared) (c : Phase × String) (before after : List (Phase × String))
    → s.callers ≡ before ++ c ∷ after
    → All (HasCounter s.dst) s.callers
    → HasCounter s.dst c × All (HasCounter s.dst) (before ++ after)
others s c before after e h =
    let (front, (own, back)) =
      All-split (HasCounter s.dst) before (c ∷ after) (subst (All (HasCounter s.dst)) e h) in
    (own, All-append (HasCounter s.dst) before after front back)

Step-IsCounted : {s t : Shared} → Step s t → IsCounted s → IsCounted t
unfolding enter turn insert add times
Step-IsCounted {s = s} (Step.calls name) v = record { values = v.values; backed = (tt, v.backed) }
Step-IsCounted {s = s} (Step.finds name before after e known) v = record {
  values = v.values;
  backed = (known, (others s (looking, name) before after e v.backed).1);
}
Step-IsCounted {s = s} (Step.misses name before after e unknown) v = record {
  values = v.values;
  backed = (tt, (others s (looking, name) before after e v.backed).1);
}
Step-IsCounted {s = s} (Step.inserts name before after e) v = record {
  values = λ k. value-insert_locked k name s.dst ∙ v.values k;
  backed = (
    has-insert_locked name s.dst,
    backed_on s.dst (insert_locked name s.dst) (before ++ after) (λ k. has_kept k name s.dst)
        (others s (missed, name) before after e v.backed).1,
  );
}
Step-IsCounted {s = s} (Step.adds name before after e) v =
    let (known, rest) = others s (found, name) before after e v.backed in
    record {
      values = λ k. value-count_known-has k name s.dst known ∙ ground (arith, v.values k);
      backed =
          backed_on s.dst (count_known name s.dst) (before ++ after)
            (λ k h. has-count_known k name s.dst ∙ h) rest;
    }

-- However the calls of `counter` on a map overlap, each counter ends at the number of the additions that
-- were made under its name, modulo 2^64, so that none is lost or made twice; and a caller that is about
-- to add has a counter of the map. A look at the map outside the lock is taken as one step, which Go
-- does not promise beside an insert.
pub Steps-IsCounted : {s : Shared} → Steps s → IsCounted s
unfolding unused value times
Steps-IsCounted begin = record { values = λ k. refl; backed = tt }
Steps-IsCounted (move steps step) = Step-IsCounted step (Steps-IsCounted steps)
