-- ===== src/Overrides/Wildcard.antt =====
-- The wildcard entries of internal/overrides/overrides.go.
use mathlib.Core.List.{reverse, reverse-append, reverse-reverse}
use chn_resolver_go.Prelude.{
  ℕ, ◌≡◌, ◌≢◌, ◌↔◌, refl, ◌∙◌, sym, ap, true, false, not, ◌&&◌, [], ◌∷◌, ◌++◌, arith, is_empty,
  elem, length, length-append, Bool-cases, inl, inr,
}
use chn_resolver_go.Text.{Text, has_prefix, has_suffix, codes}
use chn_resolver_go.Overrides.{normalize, add_wildcards, new_loop, new, match_suffix, matches}

has_prefix-split : (s t : Text) → has_prefix s t ≡ true → (r : Text) × (s ≡ t ++ r)
unfolding has_prefix
has_prefix-split s [] h = (s, refl)
has_prefix-split [] (d ∷ t) h = cc
has_prefix-split (c ∷ s) (d ∷ t) h =
    let (r, e) = has_prefix-split s t (ground arith) in (r, ground arith)

has_prefix-append : (t r : Text) → has_prefix (t ++ r) t ≡ true
unfolding has_prefix
has_prefix-append [] r = refl
has_prefix-append (d ∷ t) r = ground (arith, has_prefix-append t r)

-- `HasSuffix` holds exactly of the texts that end so.
pub has_suffix-split : (s t : Text) → has_suffix s t ≡ true → (front : Text) × (s ≡ front ++ t)
unfolding has_suffix
has_suffix-split s t h =
    let (r, e) = has_prefix-split (reverse s) (reverse t) h in
    (
      reverse r,
      sym (reverse-reverse s)
          ∙ ap reverse e
          ∙ reverse-append (reverse t) r
          ∙ ap (◌++◌ (reverse r)) (reverse-reverse t),
    )

pub has_suffix-append : (front t : Text) → has_suffix (front ++ t) t ≡ true
unfolding has_suffix
has_suffix-append front t =
    rw (reverse-append front t) (has_prefix-append (reverse t) (reverse front))

matches-one :
    (w qname : Text)
    → matches (new [] (w ∷ [])) qname ≡ (
        not (is_empty (normalize qname))
        && not (is_empty (normalize w))
        && has_suffix (normalize qname) (codes "." ++ normalize w))
unfolding matches new new_loop add_wildcards match_suffix elem
matches-one w qname = ground arith

is_empty-false : (t : Text) → t ≢ [] → is_empty t ≡ false
is_empty-false [] h = absurd (h refl)
is_empty-false (c ∷ t) h = refl

is_empty-append_cons : (s : Text) (c : ℕ) (t : Text) → is_empty (s ++ c ∷ t) ≡ false
is_empty-append_cons [] c t = refl
is_empty-append_cons (d ∷ s) c t = refl

matches_split :
    (w qname : Text)
    → matches (new [] (w ∷ [])) qname ≡ true
    → (front : Text) × (normalize qname ≡ front ++ (codes "." ++ normalize w))
matches_split w qname m =
    has_suffix-split (normalize qname) (codes "." ++ normalize w)
      (ground (arith, matches-one w qname))

-- A set of one wildcard whose normalized suffix is not empty matches exactly the names that are some
-- front, a dot and the suffix.
pub matches_subdomain :
    (w qname : Text)
    → normalize w ≢ []
    → (matches (new [] (w ∷ [])) qname ≡ true)
      ↔ ((front : Text) × (normalize qname ≡ front ++ (codes "." ++ normalize w)))
matches_subdomain w qname h = (
  matches_split w qname,
  λ (front, e).
      rw (matches-one w qname, e, is_empty-false (normalize w) h)
        (ground (
          arith,
          is_empty-append_cons front 46 (normalize w),
          has_suffix-append front (codes "." ++ normalize w),
        )),
)

not_own_suffix : (front t : Text) → t ≢ front ++ (codes "." ++ t)
not_own_suffix front t e = omega (arith, ap length e, length-append front (codes "." ++ t))

-- A set of one wildcard does not match a name that normalizes to the suffix itself.
pub matches_apex :
    (w qname : Text) → normalize qname ≡ normalize w → matches (new [] (w ∷ [])) qname ≡ false
matches_apex w qname e = elim (Bool-cases (matches (new [] (w ∷ [])) qname)) [
  | inr no_match ↦ no_match
  | inl h ↦
      let (front, f) = matches_split w qname h in
      absurd (not_own_suffix front (normalize w) (sym e ∙ f))
]
