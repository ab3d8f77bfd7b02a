-- ===== src/Policy/Ttl.antt =====
-- `SelectTTL` of internal/policy/policy.go, against the first owners of the addresses.
use mathlib.Core.List.{lookup}
use chn_resolver_go.Prelude.{
  ◌≡◌, refl, Bool, true, false, not, ◌&&◌, ◌||◌, List, [], ◌∷◌, arith, elem, any, ◌≤◌,
  if◌then◌else◌, ℕ, Option, none, some, ltb, ◌==◌, ◌⊎◌, ◌∙◌, ap, subst, Option-cases, inl, inr,
}
use mathlib.Core.Path.{fun_ext}
use chn_resolver_go.Net.{Addr, Addr-discrete}
use chn_resolver_go.Policy.{Result, is_answer, own, owners, least_ttl, select_ttl}
use chn_resolver_go.Policy.Evidence.{every_side, offers}

-- The TTL of the first result that answered with the address.
unfoldable pub first_owner : List Result → Addr → Option ℕ
first_owner [] a = none
first_owner (r ∷ rs) a =
    if is_answer r.state && elem Addr-discrete a r.addrs then some r.min_ttl else first_owner rs a

abbrev or_else : Option ℕ → Option ℕ → Option ℕ
or_else (some t) o = some t
or_else none o = o

lookup-own :
    (a : Addr) (owner : List (Addr × ℕ)) (ttl : ℕ) (xs : List Addr)
    → lookup Addr-discrete a (own owner ttl xs)
      ≡ or_else (lookup Addr-discrete a owner) (if elem Addr-discrete a xs then some ttl else none)
unfolding own lookup elem
lookup-own a owner ttl [] = ground arith
lookup-own a owner ttl (x ∷ xs) =
    ground (arith, lookup-own a owner ttl xs, lookup-own a ((x, ttl) ∷ owner) ttl xs)

lookup-owners :
    (a : Addr) (owner : List (Addr × ℕ)) (rs : List Result)
    → lookup Addr-discrete a (owners owner rs)
      ≡ or_else (lookup Addr-discrete a owner) (first_owner rs a)
unfolding owners first_owner
lookup-owners a owner [] = ground arith
lookup-owners a owner (r ∷ rs) = ground (
  arith,
  lookup-own a owner r.min_ttl r.addrs,
  lookup-owners a owner rs,
  lookup-owners a (own owner r.min_ttl r.addrs) rs,
)

abbrev pub is_some : Option ℕ → Bool
is_some none = false
is_some (some t) = true

-- The owner's TTL is `t`.
abbrev pub is_at : ℕ → Option ℕ → Bool
is_at t none = false
is_at t (some u) = t == u

module _ (owner : List (Addr × ℕ)) where
  least_ttl-found :
      (ttl : ℕ) (found : Bool) (xs : List Addr)
      → (least_ttl owner ttl found xs).1
        ≡ (found || any (λ a. is_some (lookup Addr-discrete a owner)) xs)
  unfolding least_ttl any
  least_ttl-found ttl found [] = ground arith
  least_ttl-found ttl found (x ∷ xs) = elim (Option-cases (lookup Addr-discrete x owner)) [
    | inl e ↦ ground (arith, least_ttl-found ttl found xs)
    | inr (t, e) ↦ ground (
      arith,
      least_ttl-found (if not found || ltb t ttl then t else ttl)
          (if not found || ltb t ttl then true else found) xs,
    )
  ]

  -- The result stays below the current least TTL and every TTL still to come.
  least_ttl-le :
      (ttl : ℕ) (found : Bool) (xs : List Addr)
      → (found ≡ true → (least_ttl owner ttl found xs).0 ≤ ttl)
        × ((a : Addr) (t : ℕ)
            → elem Addr-discrete a xs ≡ true
            → lookup Addr-discrete a owner ≡ some t
            → (least_ttl owner ttl found xs).0 ≤ t)
  unfolding least_ttl elem
  least_ttl-le ttl found [] = (λ f. ground arith, λ a t m l. cc)
  least_ttl-le ttl found (x ∷ xs) = elim (Option-cases (lookup Addr-discrete x owner)) [
    | inl e ↦
        let (low, rest) = least_ttl-le ttl found xs in
        (λ f. ground (arith, low f), λ a t m l. ground (arith, rest a t))
    | inr (u, e) ↦
        let (low, rest) =
          least_ttl-le (if not found || ltb u ttl then u else ttl)
            (if not found || ltb u ttl then true else found) xs in
        (λ f. ground (arith, low), λ a t m l. ground (arith, low, rest a t))
  ]

  -- And it is one of those.
  least_ttl-at :
      (ttl : ℕ) (found : Bool) (xs : List Addr)
      → (least_ttl owner ttl found xs).1 ≡ true
      → (found ≡ true) × ((least_ttl owner ttl found xs).0 ≡ ttl)
        ⊎ (any (λ a. is_at (least_ttl owner ttl found xs).0 (lookup Addr-discrete a owner)) xs
            ≡ true)
  unfolding least_ttl any
  least_ttl-at ttl found [] h = ground arith
  least_ttl-at ttl found (x ∷ xs) h = elim (Option-cases (lookup Addr-discrete x owner)) [
    | inl e ↦ ground (arith, least_ttl-at ttl found xs)
    | inr (t, e) ↦ ground (
      arith,
      least_ttl-at (if not found || ltb t ttl then t else ttl)
          (if not found || ltb t ttl then true else found) xs,
    )
  ]

lookup-first_owner :
    (rs : List Result) (a : Addr) → lookup Addr-discrete a (owners [] rs) ≡ first_owner rs a
unfolding lookup
lookup-first_owner rs a = lookup-owners a [] rs

is_some-first_owner :
    (rs : List Result) (a : Addr) → is_some (first_owner rs a) ≡ offers every_side rs a
unfolding first_owner any
is_some-first_owner [] a = refl
is_some-first_owner (r ∷ rs) a = ground (arith, is_some-first_owner rs a)

-- What `SelectTTL` promises of its result: whether an address is owned, and the least TTL.
pub record IsLeast (addrs : List Addr) (results : List Result) (r : ℕ × Bool) : Type 0 where
  pub found : r.1 ≡ any (offers every_side results) addrs
  pub below :
      (a : Addr) (t : ℕ)
      → elem Addr-discrete a addrs ≡ true
      → first_owner results a ≡ some t
      → r.0 ≤ t
  pub attained : r.1 ≡ true → any (λ a. is_at r.0 (first_owner results a)) addrs ≡ true

-- `SelectTTL` reports whether some address was returned by an answering server, and the least TTL: the
-- TTL of an address is that of the first answering result with it, the least is below all of them, and
-- one of the addresses has it.
pub select_ttl-IsLeast :
    (addrs : List Addr) (results : List Result) → IsLeast addrs results (select_ttl addrs results)
unfolding select_ttl
select_ttl-IsLeast addrs results = record {
  found =
      least_ttl-found owner 0 false addrs
      ∙ ap (λ (p : Addr → Bool). any p addrs)
          (fun_ext
            (λ a. ap is_some (lookup-first_owner results a) ∙ is_some-first_owner results a));
  below = λ a t m o. (least_ttl-le owner 0 false addrs).1 a t m (lookup-first_owner results a ∙ o);
  attained = λ h. elim (least_ttl-at owner 0 false addrs h) [
    | inl (f, _) ↦ cc
    | inr here ↦
        subst (λ (g : Addr → Option ℕ). any (λ a. is_at r (g a)) addrs ≡ true)
          (fun_ext (lookup-first_owner results)) here
  ];
}
  where
    owner : List (Addr × ℕ)
    owner = owners [] results

    r : ℕ
    r = (least_ttl owner 0 false addrs).0
