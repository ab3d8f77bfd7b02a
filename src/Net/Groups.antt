-- ===== src/Net/Groups.antt =====
-- The numbers that `net/netip` reads from an IPv4 address and from the groups of an IPv6 one, against their
-- bounds.
use native.Mathlib.Nat.{pow-succ', pow-le-pow_right, mul_assoc, mod-lt}
use chn_resolver_go.Prelude.{
  ℕ, zero, suc, ◌+◌, ◌*◌, ◌/◌, ◌%◌, ◌^◌, ◌<◌, ◌≤◌, ◌≡◌, refl, subst, sym, Bool, true, false, ◌||◌,
  List, [], ◌∷◌, ◌++◌, Option, none, some, ltb, is_empty, length, All, All-append, arith,
  Bool-cases, Option-cases, inl, inr,
}
use chn_resolver_go.Text.{Text}
use chn_resolver_go.Text.Numbers.{span, parse_canonical}
use chn_resolver_go.Net.Parse.{
  octets, parse_v4, hex_number, group_value, Groups, trailing_v4, read_groups, zeros, is_hex,
  hex_value, After, dot, stop, bad, more, ellipsis, after_group, parse_groups,
}

shift : (m b k : ℕ) → m * b ^ suc k ≡ m * b * b ^ k
shift m b k = rw (pow-succ', mul_assoc) refl

pub canonical_le : (top : ℕ) (s : Text) {n : ℕ} → parse_canonical top s ≡ some n → n ≤ top
unfolding parse_canonical
canonical_le top [] h = cc
canonical_le top (c ∷ s) h = ground (arith, h)

octets_lt :
    (k acc m : ℕ) (fs : List Text) {n : ℕ} → acc < m → octets k acc fs ≡ some n → n < m * 256 ^ k
unfolding octets
octets_lt zero acc m [] small h = ground (arith, small, h)
octets_lt zero acc m (f ∷ fs) small h = cc
octets_lt (suc k) acc m [] small h = cc
octets_lt (suc k) acc m (f ∷ fs) small h = elim (Option-cases (parse_canonical 255 f)) [
  | inl e ↦ cc (rw (octets, e) at h)
  | inr (d, e) ↦
      let next =
        octets_lt k (acc * 256 + d) (m * 256) fs (omega (arith, small, canonical_le 255 f e)) in
      rw (shift m 256 k) (next (rw (octets, e) at h))
]

pub parse_v4_lt : (s : Text) {n : ℕ} → parse_v4 s ≡ some n → n < 2 ^ 32
unfolding parse_v4
parse_v4_lt s h = omega (arith, octets_lt 4 0 1 _ (omega arith) h)

-- A list of groups of 16 bits.
abbrev pub AreShort : List ℕ → Type 0
AreShort = All (λ g. g < 2 ^ 16)

pub group_value_lt :
    (acc m : ℕ) (gs : List ℕ)
    → acc < m
    → AreShort gs
    → group_value acc gs < m * (2 ^ 16) ^ length gs
unfolding group_value
group_value_lt acc m [] small h = omega (arith, small)
group_value_lt acc m (g ∷ gs) small (h, hs) =
    rw (shift m (2 ^ 16) (length gs))
      (group_value_lt (acc * 2 ^ 16 + g) (m * 2 ^ 16) gs (omega (arith, small, h)) hs)

pub AreShort-zeros : (k : ℕ) → AreShort (zeros k)
unfolding zeros
AreShort-zeros zero = tt
AreShort-zeros (suc k) = (omega arith, AreShort-zeros k)

pub length-zeros : (k : ℕ) → length (zeros k) ≡ k
unfolding zeros
length-zeros zero = refl
length-zeros (suc k) = omega (arith, length-zeros k)

hex_number_lt :
    (acc m : ℕ) (ds : Text)
    → acc < m
    → All (λ d. is_hex d ≡ true) ds
    → hex_number acc ds < m * 16 ^ length ds
unfolding hex_number
hex_number_lt acc m [] small h = omega (arith, small)
hex_number_lt acc m (d ∷ ds) small (h, hs) =
    let digit : hex_value d < 16 = ground (arith, h) in
    rw (shift m 16 (length ds))
      (hex_number_lt (acc * 16 + hex_value d) (m * 16) ds (omega (arith, small, digit)) hs)

span-All : (test : ℕ → Bool) (s : Text) → All (λ c. test c ≡ true) (span test s).0
unfolding span
span-All test [] = tt
span-All test (c ∷ s) = elim (Bool-cases (test c)) [
  | inl e ↦ rw e (e, span-All test s)
  | inr e ↦ rw e tt
]

-- A group of at most four digits.
group_lt :
    (s : Text) → ltb 4 (length (span is_hex s).0) ≡ false → hex_number 0 (span is_hex s).0 < 2 ^ 16
group_lt s h =
    let few : length (span is_hex s).0 ≤ 4 = ground (arith, h) in
    omega (
      arith,
      hex_number_lt 0 1 (span is_hex s).0 (omega arith) (span-All is_hex s),
      pow-le-pow_right {n = 16} (omega arith) few,
    )

abbrev pub FrontShort : Option (List ℕ) → Type 0
FrontShort none = Unit
FrontShort (some gs) = AreShort gs

-- What was read has groups of 16 bits.
abbrev pub ReadShort : Option Groups → Type 0
ReadShort none = Unit
ReadShort (some (front, groups)) = FrontShort front × AreShort groups

trailing_v4-ReadShort :
    (k : ℕ) (front : Option (List ℕ)) (groups : List ℕ) (s : Text)
    → FrontShort front
    → AreShort groups
    → ReadShort (trailing_v4 k front groups s)
unfolding trailing_v4
trailing_v4-ReadShort k front groups s f g = elim (Option-cases (parse_v4 s)) [
  | inl e ↦ ground (arith, e)
  | inr (n, e) ↦
      let lo : n % 2 ^ 16 < 2 ^ 16 = mod-lt n (omega arith) in
      let hi : n / 2 ^ 16 < 2 ^ 16 = omega (arith, parse_v4_lt s e) in
      ground (
        arith,
        e,
        f,
        All-append (λ g. g < 2 ^ 16) groups (n / 2 ^ 16 ∷ n % 2 ^ 16 ∷ []) g (hi, (lo, tt)),
      )
]

read_groups-ReadShort :
    (k : ℕ) (front : Option (List ℕ)) (groups : List ℕ) (s : Text)
    → FrontShort front
    → AreShort groups
    → ReadShort (read_groups k front groups s)
unfolding read_groups
read_groups-ReadShort zero front groups [] f g = (f, g)
read_groups-ReadShort zero front groups (c ∷ s) f g = tt
read_groups-ReadShort (suc k) front groups s f g = elim (Bool-cases wrong) [
  | inl e ↦
      subst (λ b. ReadShort (elim b [ true ↦ none | false ↦ step (after_group rest) ])) (sym e) tt
  | inr e ↦
      subst (λ b. ReadShort (elim b [ true ↦ none | false ↦ step (after_group rest) ])) (sym e)
        (step_lem (read_groups-ReadShort k) (after_group rest)
          (All-append (λ g. g < 2 ^ 16) groups (hex_number 0 digits ∷ []) g (small e, tt)))
]
  where
    digits : Text
    digits = (span is_hex s).0

    rest : Text
    rest = (span is_hex s).1

    wrong : Bool
    wrong = is_empty digits || ltb 4 (length digits)

    groups' : List ℕ
    groups' = groups ++ hex_number 0 digits ∷ []

    small : wrong ≡ false → hex_number 0 digits < 2 ^ 16
    small e = group_lt s (ground (arith, e))

    gap : Option (List ℕ) → Text → Option Groups
    gap front t = elim front [
      | some _ ↦ none
      | none ↦ elim (is_empty t) [
        | true ↦ some (some groups', [])
        | false ↦ read_groups k (some groups') [] t
      ]
    ]

    step : After → Option Groups
    step x = elim x [
      | dot ↦ trailing_v4 (suc k) front groups s
      | stop ↦ some (front, groups')
      | bad ↦ none
      | more t ↦ read_groups k front groups' t
      | ellipsis t ↦ gap front t
    ]

    Again : Type 0
    Again =
        (front : Option (List ℕ)) (groups : List ℕ) (s : Text)
        → FrontShort front
        → AreShort groups
        → ReadShort (read_groups k front groups s)

    gap_lem : Again → (o : Option (List ℕ)) (t : Text) → AreShort groups' → ReadShort (gap o t)
    gap_lem ih (some _) t g' = tt
    gap_lem ih none [] g' = (g', tt)
    gap_lem ih none (c ∷ t) g' = ih (some groups') [] (c ∷ t) g' tt

    step_lem : Again → (x : After) → AreShort groups' → ReadShort (step x)
    step_lem ih dot g' = trailing_v4-ReadShort (suc k) front groups s f g
    step_lem ih stop g' = (f, g')
    step_lem ih bad g' = tt
    step_lem ih (more t) g' = ih front groups' t f g'
    step_lem ih (ellipsis t) g' = gap_lem ih front t g'

pub parse_groups-ReadShort : (s : Text) → ReadShort (parse_groups s)
unfolding parse_groups
parse_groups-ReadShort [] = read_groups-ReadShort 8 none [] [] tt tt
parse_groups-ReadShort (c ∷ []) = read_groups-ReadShort 8 none [] (c ∷ []) tt tt
parse_groups-ReadShort (c ∷ d ∷ s) = ground (
  arith,
  read_groups-ReadShort 8 none [] (c ∷ d ∷ s) tt tt,
  read_groups-ReadShort 8 (some []) [] s tt tt,
)
