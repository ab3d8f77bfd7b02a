-- ===== src/Metrics/Named.antt =====
-- The named counters of internal/metrics/metrics.go, seen by name.
use Prim.Native.String.{String}
use text.Mathlib.Text.{◌==◌ as same_name}
use text.Mathlib.TextEquality.{eq_iff}
use chn_resolver_go.Prelude.{
  ℕ, ◌≡◌, refl, sym, ap, subst, true, false, [], ◌∷◌, arith, if◌then◌else◌, Bool-cases, inl, inr,
}
use chn_resolver_go.Metrics.{Named, add_one, has, insert_locked, counter, count_name, count_known}

unfoldable pub value : String → Named → ℕ
value k [] = 0
value k ((q, n) ∷ rest) = if same_name k q then n else value k rest

-- `n` stands for the name that was counted: a test against it or against an equal name is the same.
same_as : (k n q : String) → same_name n q ≡ true → same_name k q ≡ same_name k n
same_as k n q e = ap (same_name k) (sym ((eq_iff n q).0 e))

differs : (k n q : String) → same_name n q ≡ false → same_name k q ≡ true → same_name k n ≡ false
differs k n q e f = elim (Bool-cases (same_name k n)) [
  | inr g ↦ g
  | inl g ↦ cc (e, subst (λ z. same_name z q ≡ true) ((eq_iff k n).0 g) f)
]

pub has-count_known : (k n : String) (l : Named) → has k (count_known n l) ≡ has k l
unfolding has count_known
has-count_known k n [] = refl
has-count_known k n ((q, m) ∷ rest) = ground (arith, has-count_known k n rest)

pub value-count_known :
    (k n : String) (l : Named)
    → has k l ≡ true
    → value k (count_known n l) ≡ (if same_name k n then add_one (value k l) else value k l)
unfolding value has count_known
value-count_known k n [] h = cc
value-count_known k n ((q, m) ∷ rest) h = elim (Bool-cases (same_name n q)) [
  | inl e ↦ rw (e, count_known) (ground (arith, same_as k n q e))
  | inr e ↦ rw (e, count_known) (ground (arith, h, differs k n q e, value-count_known k n rest))
]

value-count_known-other :
    (k n : String) (l : Named) → same_name k n ≡ false → value k (count_known n l) ≡ value k l
unfolding value count_known
value-count_known-other k n [] h = refl
value-count_known-other k n ((q, m) ∷ rest) h = elim (Bool-cases (same_name n q)) [
  | inl e ↦ rw (e, count_known) (ground (arith, same_as k n q e, h))
  | inr e ↦ rw (e, count_known) (ground (arith, value-count_known-other k n rest h))
]

-- The name that is counted is there, another may be missing.
pub value-count_known-has :
    (k n : String) (l : Named)
    → has n l ≡ true
    → value k (count_known n l) ≡ (if same_name k n then add_one (value k l) else value k l)
value-count_known-has k n l h = elim (Bool-cases (same_name k n)) [
  | inl e ↦ value-count_known k n l (subst (λ q. has q l ≡ true) (sym ((eq_iff k n).0 e)) h)
  | inr e ↦ rw e (value-count_known-other k n l e)
]

value-absent : (k : String) (l : Named) → has k l ≡ false → value k l ≡ 0
unfolding value has
value-absent k [] h = refl
value-absent k ((q, n) ∷ rest) h = ground (arith, h, value-absent k rest)

same_name_refl : (n : String) → same_name n n ≡ true
same_name_refl n = (eq_iff n n).1 refl

pub has-insert_locked : (n : String) (l : Named) → has n (insert_locked n l) ≡ true
unfolding insert_locked has
has-insert_locked n l = elim (Bool-cases (has n l)) [
  | inl e ↦ rw (e, insert_locked) e
  | inr e ↦ ground (arith, e, same_name_refl n)
]

pub has_kept : (k n : String) (l : Named) → has k l ≡ true → has k (insert_locked n l) ≡ true
unfolding insert_locked has
has_kept k n l h = ground (arith, h)

-- A new counter is at zero, as a missing one is.
pub value-insert_locked : (k n : String) (l : Named) → value k (insert_locked n l) ≡ value k l
unfolding insert_locked value
value-insert_locked k n l = elim (Bool-cases (has n l)) [
  | inl e ↦ rw (e, insert_locked) refl
  | inr e ↦ elim (Bool-cases (same_name k n)) [
    | inl f ↦
        let none_yet = value-absent k l (subst (λ q. has q l ≡ false) (sym ((eq_iff k n).0 f)) e) in
        ground (arith, e, f, none_yet)
    | inr f ↦ ground (arith, e, f)
  ]
]

pub value-count_name :
    (k n : String) (l : Named)
    → value k (count_name n l) ≡ (if same_name k n then add_one (value k l) else value k l)
unfolding count_name counter
value-count_name k n l = elim (Bool-cases (has n l)) [
  | inl e ↦ rw (e, counter) (value-count_known-has k n l e)
  | inr e ↦
      rw (e, counter)
        (subst
          (λ v.
            value k (count_known n (insert_locked n l)) ≡ (if same_name k n then add_one v else v))
          (value-insert_locked k n l)
          (value-count_known-has k n (insert_locked n l) (has-insert_locked n l)))
]
