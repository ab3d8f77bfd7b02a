-- ===== src/Prelude/Lists.antt =====
-- Lists measured by native numbers, and sets kept as lists without repetition.
use Prim.Native.Nat.{ℕ, zero, suc, ◌+◌}
use mathlib.Core.Path.{◌≡◌, refl, sym, ap, ◌∙◌}
use mathlib.Core.Logic.{ite}
use mathlib.Core.Bool.{Bool, true, false, ◌&&◌, ◌||◌}
use mathlib.Core.List.{List, [], ◌∷◌, ◌++◌, map, reverse, reverse-cons, map-append}
use mathlib.Core.Option.{Option, none, some}
use native.Mathlib.Omega.{arith}
use chn_resolver_go.Prelude.Tests.{if◌then◌else◌}

module _ {ℓ} {A : Type ℓ} where
  abbrev pub length : List A → ℕ
  length [] = 0
  length (x ∷ xs) = suc (length xs)

  abbrev pub get_elem? : List A → ℕ → Option A
  get_elem? [] i = none
  get_elem? (x ∷ xs) zero = some x
  get_elem? (x ∷ xs) (suc i) = get_elem? xs i

  pub length-append : (xs ys : List A) → length (xs ++ ys) ≡ length xs + length ys
  length-append [] ys = omega arith
  length-append (x ∷ xs) ys = omega (arith, length-append xs ys)

  abbrev pub is_empty : List A → Bool
  is_empty [] = true
  is_empty (x ∷ xs) = false

  -- Some element passes the test.
  unfoldable pub any : (A → Bool) → List A → Bool
  any p [] = false
  any p (x ∷ xs) = p x || any p xs

  pub any-append : (p : A → Bool) (xs ys : List A) → any p (xs ++ ys) ≡ (any p xs || any p ys)
  unfolding any
  any-append p [] ys = refl
  any-append p (x ∷ xs) ys = ground (arith, any-append p xs ys)

  -- `for _, a := range xs { if keep(a) { out = append(out, a) } }`
  unfoldable pub select_if : (A → Bool) → List A → List A
  select_if p [] = []
  select_if p (x ∷ xs) = if p x then x ∷ select_if p xs else select_if p xs

  abbrev pub All {κ} : (A → Type κ) → List A → Type κ
  All P [] = Unit
  All P (x ∷ xs) = P x × All P xs

  pub All-append {κ} : (P : A → Type κ) (xs ys : List A) → All P xs → All P ys → All P (xs ++ ys)
  All-append P [] ys h k = k
  All-append P (x ∷ xs) ys (h, hs) k = (h, All-append P xs ys hs k)

  pub All-split {κ} : (P : A → Type κ) (xs ys : List A) → All P (xs ++ ys) → All P xs × All P ys
  All-split P [] ys h = (tt, h)
  All-split P (x ∷ xs) ys (h, hs) = let (front, back) = All-split P xs ys hs in ((h, front), back)

pub length-map {ℓ κ} :
    {A : Type ℓ} {B : Type κ} (f : A → B) (xs : List A) → length (map f xs) ≡ length xs
length-map f [] = refl
length-map f (x ∷ xs) = ap suc (length-map f xs)

pub map-reverse {ℓ κ} :
    {A : Type ℓ} {B : Type κ} (f : A → B) (xs : List A) → map f (reverse xs) ≡ reverse (map f xs)
map-reverse f [] = refl
map-reverse f (x ∷ xs) =
    ap (map f) (reverse-cons x xs)
    ∙ map-append f (reverse xs) (x ∷ [])
    ∙ ap (λ ys. ys ++ f x ∷ []) (map-reverse f xs)
    ∙ sym (reverse-cons (f x) (map f xs))

-- Sets as lists: a Go `map[A]struct{}` by its keys.
module _ {ℓ} {A : Type ℓ} (dec : Discrete A) where
  unfoldable pub elem : A → List A → Bool
  elem a [] = false
  elem a (x ∷ xs) = ite (dec a x) true (elem a xs)

  abbrev pub Distinct : List A → Type 0
  Distinct [] = Unit
  Distinct (x ∷ xs) = (elem x xs ≡ false) × Distinct xs

  pub elem-append : (a : A) (xs ys : List A) → elem a (xs ++ ys) ≡ (elem a xs || elem a ys)
  unfolding elem
  elem-append a [] ys = refl
  elem-append a (x ∷ xs) ys = ground (arith, elem-append a xs ys)

  -- A filter keeps exactly the elements that pass.
  pub elem-select_if :
      (p : A → Bool) (a : A) (xs : List A) → elem a (select_if p xs) ≡ (elem a xs && p a)
  unfolding elem select_if
  elem-select_if p a [] = refl
  elem-select_if p a (x ∷ xs) = ground (arith, elem-select_if p a xs)

  -- An element that is not among `b` and `xs` adds no `b` in front of a list.
  pub elem-apart :
      (a b : A) (xs ys : List A)
      → elem a (b ∷ xs) ≡ false
      → elem b ys ≡ false
      → (elem a xs ≡ false) × (elem b (a ∷ ys) ≡ false)
  unfolding elem
  elem-apart a b xs ys h k = ground (arith, h, k)
