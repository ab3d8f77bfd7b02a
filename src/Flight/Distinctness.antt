-- ===== src/Flight/Distinctness.antt =====
-- One element among others that are distinct, wherever it stands.
use chn_resolver_go.Prelude.{
  ◌≡◌, sym, ap, ◌∙◌, subst, append_assoc, false, List, [], ◌∷◌, ◌++◌, arith, elem, Distinct,
  elem-append,
}

module _ {ℓ} {A : Type ℓ} (dec : Discrete A) where
  pub take_out :
      (x : A) (before after : List A)
      → Distinct dec (before ++ (x ∷ after))
      → (elem dec x (before ++ after) ≡ false) × Distinct dec (before ++ after)
  unfolding elem
  take_out x [] after d = d
  take_out x (y ∷ before) after d = ground (
    arith,
    take_out x before after d.1,
    elem-append dec y before (x ∷ after),
    elem-append dec y before after,
    d.0,
  )

  pub put_in :
      (x : A) (before after : List A)
      → elem dec x (before ++ after) ≡ false
      → Distinct dec (before ++ after)
      → Distinct dec (before ++ (x ∷ after))
  unfolding elem
  put_in x [] after e d = (e, d)
  put_in x (y ∷ before) after e d = ground (
    arith,
    put_in x before after,
    elem-append dec y before (x ∷ after),
    elem-append dec y before after,
    d.0,
    e,
  )

  -- An element moves from the middle of the first part to the head of the second.
  pub moved :
      (x : A) (before after rest : List A)
      → Distinct dec ((before ++ (x ∷ after)) ++ rest)
      → Distinct dec ((before ++ after) ++ (x ∷ rest))
  moved x before after rest d =
      let whole : Distinct dec (before ++ (x ∷ (after ++ rest))) =
        subst (Distinct dec) (append_assoc before (x ∷ after) rest) d in
      let (e, apart) = take_out x before (after ++ rest) whole in
      put_in x (before ++ after) rest (ap (elem dec x) (append_assoc before after rest) ∙ e)
        (subst (Distinct dec) (sym (append_assoc before after rest)) apart)

  pub elem-moved :
      (a x : A) (before after rest : List A)
      → elem dec a ((before ++ (x ∷ after)) ++ rest) ≡ elem dec a ((before ++ after) ++ (x ∷ rest))
  unfolding elem
  elem-moved a x before after rest = ground (
    arith,
    elem-append dec a (before ++ (x ∷ after)) rest,
    elem-append dec a before (x ∷ after),
    elem-append dec a (before ++ after) (x ∷ rest),
    elem-append dec a before after,
  )

pub regroup : {A : Type 0} (a b c d : List A) → ((a ++ b) ++ c) ++ d ≡ a ++ ((b ++ c) ++ d)
regroup a b c d = ap (λ l. l ++ d) (append_assoc a b c) ∙ append_assoc a (b ++ c) d
