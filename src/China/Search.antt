-- ===== src/China/Search.antt =====
-- The binary search of `contains` of internal/china/index.go.
use mathlib.Core.Option
use chn_resolver_go.Prelude.{
  ℕ, zero, suc, ◌+◌, ◌-◌, ◌/◌, ◌≤◌, ◌<◌, ◌≡◌, refl, Bool, true, false, not, List, [], ◌∷◌, leb,
  arith, any, if◌then◌else◌, length, get_elem?, Bool-cases, inl, inr, Option, none, some, dec_lt,
  ◌==◌, lt→ltb,
}
use chn_resolver_go.Net.{Addr, before, IsAddr}
use chn_resolver_go.China.{Span, search_between, sort_search, contains}
use chn_resolver_go.China.Rank.{rank, before-rank, covered}
use chn_resolver_go.China.Merge.{IsAscending}

-- `r` is the first of the indices below `n` that pass the test, or `n`.
pub record IsFirst (n : ℕ) (p : ℕ → Bool) (r : ℕ) : Type 0 where
  pub bound : r ≤ n
  pub below : (m : ℕ) → m < r → p m ≡ false
  pub here : r < n → p r ≡ true

module _ (n : ℕ) (p : ℕ → Bool) (f : ℕ → Option Bool) (reads : (m : ℕ) → m < n → f m ≡ some (p m))
    (rising : (m k : ℕ) → m ≤ k → k < n → p m ≡ true → p k ≡ true) where
  -- What fails at an index fails at those before it.
  fails : (h m : ℕ) → h < n → m ≤ h → p h ≡ false → p m ≡ false
  fails h m inside le e = ground (arith, rising m h)

  search_between-IsFirst :
      (fuel i j : ℕ)
      → j - i ≤ fuel
      → i ≤ j
      → j ≤ n
      → ((m : ℕ) → m < i → p m ≡ false)
      → (j < n → p j ≡ true)
      → (r : ℕ) × (search_between fuel i j f ≡ some r) × IsFirst n p r
  unfolding search_between
  search_between-IsFirst zero i j e ij jn low high =
      let same : i ≡ j = omega arith in
      (
        i,
        refl,
        record { bound = omega arith; below = low; here = λ h. rw same (high (omega arith)) },
      )
  search_between-IsFirst (suc k) i j e ij jn low high = elim (dec_lt i j) [
    | no done ↦
        let same : i ≡ j = omega arith in
        (
          i,
          ground arith,
          record { bound = omega arith; below = low; here = λ h. rw same (high (omega arith)) },
        )
    | yes more ↦
        let h : ℕ = (i + j) / 2 in
        let inside : h < n = omega arith in
        elim (Bool-cases (p h)) [
          | inl q ↦
              rw (lt→ltb i j more, reads h inside, q, search_between)
                (search_between-IsFirst k i h (omega arith) (omega arith) (omega arith) low
                  (λ _. q))
          | inr q ↦
              rw (lt→ltb i j more, reads h inside, q, search_between)
                (search_between-IsFirst k (h + 1) j (omega arith) (omega arith) jn
                  (λ m lt. fails h m inside (omega arith) q) high)
        ]
  ]

  sort_search-IsFirst : (r : ℕ) × (sort_search n f ≡ some r) × IsFirst n p r
  unfolding sort_search
  sort_search-IsFirst =
      search_between-IsFirst n 0 n (omega arith) (omega arith) (omega arith)
        (λ m h. absurd (omega arith)) (λ h. absurd (omega arith))

-- Whether the span at an index ends at the address of rank `x` or behind it.
abbrev ends : List Span → ℕ → ℕ → Bool
ends spans x i = elim (get_elem? spans i) [ none ↦ false | some s ↦ leb x (rank s.hi) ]

module _ (four : Bool) (ip : Addr) (valid : IsAddr ip) where
  reads-ends :
      (b : ℕ) (spans : List Span) (i : ℕ)
      → IsAscending four b spans
      → i < length spans
      → Option.map (λ (s : Span). not (before s.hi ip)) (get_elem? spans i)
        ≡ some (ends spans (rank ip) i)
  reads-ends b [] i a h = elim h [ ]
  reads-ends b (s ∷ ss) zero a h = ground (arith, before-rank s.hi ip a.1.hi_valid valid)
  reads-ends b (s ∷ ss) (suc i) a h = reads-ends (suc (rank s.hi)) ss i a.2 (omega arith)

ends-above :
    (four : Bool) (b x : ℕ) (spans : List Span) (i : ℕ)
    → IsAscending four b spans
    → i < length spans
    → x ≤ b
    → ends spans x i ≡ true
ends-above four b x [] i a h o = elim h [ ]
ends-above four b x (s ∷ ss) zero a h o = ground (arith, a.1.ordered)
ends-above four b x (s ∷ ss) (suc i) a h o =
    ends-above four (suc (rank s.hi)) x ss i a.2 (omega arith) (omega (arith, a.1.ordered))

ends-rising :
    (four : Bool) (b x : ℕ) (spans : List Span) (m k : ℕ)
    → IsAscending four b spans
    → m ≤ k
    → k < length spans
    → ends spans x m ≡ true
    → ends spans x k ≡ true
ends-rising four b x [] m k a h o e = elim o [ ]
ends-rising four b x (s ∷ ss) zero zero a h o e = e
ends-rising four b x (s ∷ ss) zero (suc k) a h o e =
    ends-above four (suc (rank s.hi)) x ss k a.2 (omega arith) (ground arith)
ends-rising four b x (s ∷ ss) (suc m) zero a h o e = absurd (omega arith)
ends-rising four b x (s ∷ ss) (suc m) (suc k) a h o e =
    ends-rising four (suc (rank s.hi)) x ss m k a.2 (omega arith) (omega arith) e

-- What `contains` does with the index that the search found.
abbrev at_index : Addr → List Span → ℕ → Option Bool
at_index ip spans i =
    if i == length spans
    then some false
    else Option.map (λ (s : Span). not (before ip s.lo)) (get_elem? spans i)

covered_below :
    (four : Bool) (b x : ℕ) (spans : List Span)
    → IsAscending four b spans
    → x < b
    → covered spans x ≡ false
unfolding any
covered_below four b x [] a h = refl
covered_below four b x (s ∷ ss) a h =
    ground (arith, covered_below four (suc (rank s.hi)) x ss a.2, a.1.ordered)

-- At the first span that ends at the address or behind it, the lower end decides.
at_index-covered :
    (four : Bool) (ip : Addr) (valid : IsAddr ip) (b : ℕ) (spans : List Span) (r : ℕ)
    → IsAscending four b spans
    → IsFirst (length spans) (ends spans (rank ip)) r
    → at_index ip spans r ≡ some (covered spans (rank ip))
unfolding any
at_index-covered four ip valid b [] zero a f = refl
at_index-covered four ip valid b [] (suc r) a f = absurd (omega (arith, f.bound))
at_index-covered four ip valid b (s ∷ ss) zero a f = ground (
  arith,
  f.here (omega arith),
  before-rank ip s.lo valid a.1.lo_valid,
  covered_below four (suc (rank s.hi)) (rank ip) ss a.2,
  a.1.ordered,
)
at_index-covered four ip valid b (s ∷ ss) (suc r) a f =
    let rest = at_index-covered four ip valid (suc (rank s.hi)) ss r a.2 (record {
      bound = omega (arith, f.bound);
      below = λ m h. f.below (suc m) (omega arith);
      here = λ h. f.here (omega arith);
    }) in
    ground (arith, rest, f.below 0 (omega arith))

-- Over ascending disjoint spans the binary search does not index out of range for an address
-- within its family's bound, and finds it exactly when a span holds it.
pub contains-covered :
    (four : Bool) (ip : Addr) (b : ℕ) (spans : List Span)
    → IsAddr ip
    → IsAscending four b spans
    → contains spans ip ≡ some (covered spans (rank ip))
unfolding contains
contains-covered four ip b spans valid a =
    let (r, found, first) =
      sort_search-IsFirst (length spans) (ends spans (rank ip)) _
        (λ m. reads-ends four ip valid b spans m a)
        (λ m k h o. ends-rising four b (rank ip) spans m k a h o) in
    rw (found, contains) (at_index-covered four ip valid b spans r a first)
