-- ===== src/Prelude/Result.antt =====
-- Errors as values, for the loaders and the configuration.
use mathlib.Core.Path.{◌≡◌, refl}
use mathlib.Core.Logic.{◌⊎◌, inl, inr}
use mathlib.Core.Bool.{Bool, true, false}
use mathlib.Core.Option.{Option, none, some}

pub data Result {ℓ} (E A : Type ℓ) : Type ℓ where
  err : E → Result E A
  ok : A → Result E A

infixl 5 ◌>>=◌ ◌>>◌
abbrev pub ◌>>=◌ {ℓ} : {E A B : Type ℓ} → Result E A → (A → Result E B) → Result E B
first >>= next = elim first [ err e ↦ err e | ok a ↦ next a ]

abbrev pub ◌>>◌ {ℓ} : {E B : Type ℓ} → Result E (Unit {ℓ}) → Result E B → Result E B
check >> rest = elim check [ err e ↦ err e | ok _ ↦ rest ]

-- `if c { return nil, e }`
abbrev pub fail_if {ℓ} : {E : Type ℓ} → Bool → E → Result E (Unit {ℓ})
fail_if c e = elim c [ true ↦ err e | false ↦ ok tt ]

-- `if a, err := …; err != nil { return nil, e }`
abbrev pub or_fail {ℓ} : {E A : Type ℓ} → Option A → E → Result E A
or_fail found e = elim found [ none ↦ err e | some a ↦ ok a ]

module _ {ℓ} {E A B : Type ℓ} (next : A → Result E B) where
  -- What a chain went through when it succeeds.
  pub >>=-eq-ok :
      (first : Result E A) {last : B}
      → (first >>= next) ≡ ok last
      → (middle : A) × (first ≡ ok middle) × (next middle ≡ ok last)
  >>=-eq-ok (err e) chain = cc
  >>=-eq-ok (ok middle) chain = (middle, refl, chain)

pub fail_if-eq-ok {ℓ} :
    {E B : Type ℓ} (c : Bool) (e : E) (rest : Result E B) {last : B}
    → (fail_if c e >> rest) ≡ ok last
    → (c ≡ false) × (rest ≡ ok last)
fail_if-eq-ok true e rest chain = cc
fail_if-eq-ok false e rest chain = (refl, chain)

pub or_fail-eq-ok {ℓ} :
    {E A : Type ℓ} (found : Option A) (e : E) {a : A} → or_fail found e ≡ ok a → found ≡ some a
or_fail-eq-ok none e failed = cc
or_fail-eq-ok (some b) e same = cc

pub ok_inj {ℓ} : {E A : Type ℓ} {r : Result E A} {a b : A} → r ≡ ok a → r ≡ ok b → a ≡ b
ok_inj h k = cc

pub Result-cases {ℓ} :
    {E A : Type ℓ} (r : Result E A) → ((e : E) × (r ≡ err e)) ⊎ ((a : A) × (r ≡ ok a))
Result-cases (err e) = inl (e, refl)
Result-cases (ok a) = inr (a, refl)
