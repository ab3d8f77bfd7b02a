-- ===== src/China/Merge.antt =====
-- `merge` of internal/china/index.go.
use chn_resolver_go.Prelude.{
  ℕ, suc, ◌+◌, ◌≤◌, ◌<◌, ◌≡◌, refl, Bool, true, false, ◌||◌, List, [], ◌∷◌, arith, any, All,
  Bool-cases, inl, inr,
}
use chn_resolver_go.Net.{before}
use chn_resolver_go.China.{
  Span, insert_span, sort_spans, touches, absorb, merge_loop, merge_sorted, merge,
}
use chn_resolver_go.China.Rank.{rank, before-rank, IsSpan, holds, covered, next_addr-le}

-- Spans of one family, each behind the one before it, from rank `b` on.
abbrev pub IsAscending : Bool → ℕ → List Span → Type 0
IsAscending four b [] = Unit
IsAscending four b (s ∷ ss) =
    (b ≤ rank s.lo) × IsSpan four s × IsAscending four (suc (rank s.hi)) ss

-- Spans of one family, by their lower ends.
abbrev IsSorted : Bool → ℕ → List Span → Type 0
IsSorted four b [] = Unit
IsSorted four b (s ∷ ss) = (b ≤ rank s.lo) × IsSpan four s × IsSorted four (rank s.lo) ss

module _ (four : Bool) where
  insert_span-IsSorted :
      (b : ℕ) (s : Span) (ss : List Span)
      → IsSpan four s
      → b ≤ rank s.lo
      → IsSorted four b ss
      → IsSorted four b (insert_span s ss)
  unfolding insert_span
  insert_span-IsSorted b s [] h k o = (k, h, tt)
  insert_span-IsSorted b s (t ∷ ts) h k o = elim (Bool-cases (before t.lo s.lo)) [
    | inl e ↦ rw e (
      o.0,
      o.1,
      insert_span-IsSorted (rank t.lo) s ts h (ground (arith, before-rank t.lo s.lo)) o.2,
    )
    | inr e ↦ rw e (k, h, (ground (arith, before-rank t.lo s.lo), o.1, o.2))
  ]

  sort_spans-IsSorted : (ss : List Span) → All (IsSpan four) ss → IsSorted four 0 (sort_spans ss)
  unfolding sort_spans
  sort_spans-IsSorted [] h = tt
  sort_spans-IsSorted (s ∷ ss) h =
      insert_span-IsSorted 0 s (sort_spans ss) h.0 (omega arith) (sort_spans-IsSorted ss h.1)

covered-insert_span :
    (s : Span) (ss : List Span) (x : ℕ) → covered (insert_span s ss) x ≡ (holds x s || covered ss x)
unfolding insert_span any
covered-insert_span s [] x = refl
covered-insert_span s (t ∷ ts) x = ground (arith, covered-insert_span s ts x)

covered-sort_spans : (ss : List Span) (x : ℕ) → covered (sort_spans ss) x ≡ covered ss x
unfolding sort_spans any
covered-sort_spans [] x = refl
covered-sort_spans (s ∷ ss) x =
    ground (arith, covered-insert_span s (sort_spans ss) x, covered-sort_spans ss x)

module _ (four : Bool) where
  -- Two spans that touch, the second not below the first, have no gap between them.
  touches-le :
      (cur s : Span)
      → IsSpan four cur
      → IsSpan four s
      → touches cur s ≡ true
      → rank s.lo ≤ rank cur.hi + 1
  unfolding touches
  touches-le cur s h k e = ground (
    arith,
    before-rank cur.hi s.lo h.hi_valid k.lo_valid,
    next_addr-le cur.hi s.lo h.hi_valid (ground arith),
  )

  absorb-IsSpan :
      (cur s : Span)
      → IsSpan four cur
      → IsSpan four s
      → rank cur.lo ≤ rank s.lo
      → IsSpan four (absorb cur s)
  unfolding absorb
  absorb-IsSpan cur s h k o = elim (Bool-cases (before cur.hi s.hi)) [
    | inl e ↦ rw e (record {
      lo_family = h.lo_family;
      hi_family = k.hi_family;
      lo_valid = h.lo_valid;
      hi_valid = k.hi_valid;
      ordered = omega arith;
    })
    | inr e ↦ rw e h
  ]

  lo-absorb : (cur s : Span) → (absorb cur s).lo ≡ cur.lo
  unfolding absorb
  lo-absorb cur s = ground arith

  IsSorted-mono : (b c : ℕ) (ss : List Span) → c ≤ b → IsSorted four b ss → IsSorted four c ss
  IsSorted-mono b c [] h o = tt
  IsSorted-mono b c (s ∷ ss) h o = (omega arith, o.1, o.2)

  holds-absorb :
      (cur s : Span) (x : ℕ)
      → IsSpan four cur
      → IsSpan four s
      → rank cur.lo ≤ rank s.lo
      → touches cur s ≡ true
      → holds x (absorb cur s) ≡ (holds x cur || holds x s)
  unfolding absorb
  holds-absorb cur s x h k o e =
      ground (arith, touches-le cur s h k e, before-rank cur.hi s.hi h.hi_valid k.hi_valid)

  merge_loop_touching :
      (cur s : Span) (rest : List Span)
      → touches cur s ≡ true
      → merge_loop cur (s ∷ rest) ≡ merge_loop (absorb cur s) rest
  unfolding merge_loop
  merge_loop_touching cur s rest e = rw (e, merge_loop) refl

  merge_loop_apart :
      (cur s : Span) (rest : List Span)
      → touches cur s ≡ false
      → merge_loop cur (s ∷ rest) ≡ cur ∷ merge_loop s rest
  unfolding merge_loop
  merge_loop_apart cur s rest e = rw (e, merge_loop) refl

  -- Spans that do not touch leave a gap.
  apart-lt :
      (cur s : Span)
      → IsSpan four cur
      → IsSpan four s
      → touches cur s ≡ false
      → rank cur.hi < rank s.lo
  unfolding touches
  apart-lt cur s h k e = ground (arith, before-rank cur.hi s.lo h.hi_valid k.lo_valid)

  absorb-IsSorted :
      (cur s : Span) (rest : List Span)
      → IsSorted four (rank cur.lo) (s ∷ rest)
      → IsSorted four (rank (absorb cur s).lo) rest
  absorb-IsSorted cur s rest o =
      rw (lo-absorb cur s) (IsSorted-mono (rank s.lo) (rank cur.lo) rest o.0 o.2)

  -- The loop yields ascending spans that hold what it was given.
  merge_loop-IsAscending :
      (b : ℕ) (cur : Span) (rest : List Span)
      → b ≤ rank cur.lo
      → IsSpan four cur
      → IsSorted four (rank cur.lo) rest
      → IsAscending four b (merge_loop cur rest)
  merge_loop-IsAscending b cur [] p h o = unfold merge_loop in (p, h, tt)
  merge_loop-IsAscending b cur (s ∷ rest) p h o = elim (Bool-cases (touches cur s)) [
    | inl e ↦ rw (merge_loop_touching cur s rest e) (
        merge_loop-IsAscending b (absorb cur s) rest (rw (lo-absorb cur s) p)
          (absorb-IsSpan cur s h o.1 o.0) (absorb-IsSorted cur s rest o))
    | inr e ↦
        rw (merge_loop_apart cur s rest e)
          (p, h, merge_loop-IsAscending (suc (rank cur.hi)) s rest (apart-lt cur s h o.1 e) o.1 o.2)
  ]

  covered-merge_loop :
      (cur : Span) (rest : List Span) (x : ℕ)
      → IsSpan four cur
      → IsSorted four (rank cur.lo) rest
      → covered (merge_loop cur rest) x ≡ (holds x cur || covered rest x)
  unfolding any
  covered-merge_loop cur [] x h o = unfold merge_loop in refl
  covered-merge_loop cur (s ∷ rest) x h o = elim (Bool-cases (touches cur s)) [
    | inl e ↦ rw (merge_loop_touching cur s rest e) (
        ground (
          arith,
          covered-merge_loop (absorb cur s) rest x (absorb-IsSpan cur s h o.1 o.0)
              (absorb-IsSorted cur s rest o),
          holds-absorb cur s x h o.1 o.0 e,
        ))
    | inr e ↦
        rw (merge_loop_apart cur s rest e) (ground (arith, covered-merge_loop s rest x o.1 o.2))
  ]

  merge_sorted-eq :
      (b : ℕ) (ss : List Span)
      → IsSorted four b ss
      → IsAscending four b (merge_sorted ss)
        × ((x : ℕ) → covered (merge_sorted ss) x ≡ covered ss x)
  unfolding merge_sorted any
  merge_sorted-eq b [] o = (tt, λ x. refl)
  merge_sorted-eq b (s ∷ ss) o =
      (merge_loop-IsAscending b s ss o.0 o.1 o.2, λ x. covered-merge_loop s ss x o.1 o.2)

  -- `merge` over spans of one family yields ascending, disjoint spans that hold the same addresses.
  pub merge_lem :
      (ss : List Span)
      → All (IsSpan four) ss
      → IsAscending four 0 (merge ss) × ((x : ℕ) → covered (merge ss) x ≡ covered ss x)
  unfolding merge
  merge_lem [] h = (tt, λ x. refl)
  merge_lem (s ∷ []) h = ((omega arith, h.0, tt), λ x. refl)
  merge_lem (s ∷ t ∷ ss) h =
      let (up, eq) = merge_sorted-eq 0 (sort_spans (s ∷ t ∷ ss)) (sort_spans-IsSorted four _ h) in
      (ground (arith, up), λ x. ground (arith, eq x, covered-sort_spans (s ∷ t ∷ ss) x))
