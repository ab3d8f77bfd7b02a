-- ===== src/Overrides/Entries.antt =====
-- `Match` of internal/overrides/overrides.go after `LoadFrom`, against the entries of the lines.
use chn_resolver_go.Prelude.{
  ◌≡◌, refl, Bool, false, not, ◌&&◌, ◌||◌, List, [], ◌∷◌, ◌++◌, arith, some, if◌then◌else◌,
  is_empty, elem, any, any-append, ◌⊎◌, inl, inr,
}
use chn_resolver_go.Text.{Text, Text-discrete, has_suffix, codes, eq_text}
use chn_resolver_go.Overrides.{
  OverrideSet, normalize, add_wildcards, new_loop, new, Entry, skip, name, suffix, parse_line,
  load_loop, load_from, match_suffix, matches,
}

-- An exact entry fits its own name; an empty entry fits nothing.
abbrev pub fits_name : Text → Text → Bool
fits_name q t = not (is_empty (normalize t)) && eq_text q (normalize t)

-- A wildcard entry fits the names that end in a dot and its suffix.
abbrev pub fits_suffix : Text → Text → Bool
fits_suffix q t = not (is_empty (normalize t)) && has_suffix q (codes "." ++ normalize t)

abbrev pub fits : Text → Entry → Bool
fits q skip = false
fits q (name t) = fits_name q t
fits q (suffix t) = fits_suffix q t

-- The test of `Match` on a normalized name.
abbrev hits : OverrideSet → Text → Bool
hits s q = elem Text-discrete q s.exact || match_suffix q s.wildcard

match_suffix-append :
    (q : Text) (xs ys : List Text)
    → match_suffix q (xs ++ ys) ≡ (match_suffix q xs || match_suffix q ys)
unfolding match_suffix
match_suffix-append q [] ys = refl
match_suffix-append q (x ∷ xs) ys = ground (arith, match_suffix-append q xs ys)

with_suffix : OverrideSet → Text → OverrideSet
with_suffix s w =
    if is_empty (normalize w) then s else record s { wildcard = s.wildcard ++ normalize w ∷ [] }

with_name : OverrideSet → Text → OverrideSet
with_name s e = if is_empty (normalize e) then s else record s { exact = normalize e ∷ s.exact }

hits-with_suffix :
    (q : Text) (s : OverrideSet) (w : Text)
    → hits (with_suffix s w) q ≡ (hits s q || fits_suffix q w)
unfolding with_suffix match_suffix
hits-with_suffix q s w = ground (arith, match_suffix-append q s.wildcard (normalize w ∷ []))

hits-with_name :
    (q : Text) (s : OverrideSet) (e : Text) → hits (with_name s e) q ≡ (hits s q || fits_name q e)
unfolding with_name elem
hits-with_name q s e = ground arith

Entry-cases :
    (e : Entry) → (e ≡ skip) ⊎ (((t : Text) × (e ≡ name t)) ⊎ ((t : Text) × (e ≡ suffix t)))
Entry-cases skip = inl refl
Entry-cases (name t) = inr (inl (t, refl))
Entry-cases (suffix t) = inr (inr (t, refl))

hits-add_wildcards :
    (q : Text) (s : OverrideSet) (ws : List Text)
    → hits (add_wildcards s ws) q ≡ (hits s q || any (fits_suffix q) ws)
unfolding add_wildcards any with_suffix
hits-add_wildcards q s [] = ground arith
hits-add_wildcards q s (w ∷ ws) =
    ground (arith, hits-add_wildcards q (with_suffix s w) ws, hits-with_suffix q s w)

hits-new_loop :
    (q : Text) (s : OverrideSet) (es ws : List Text)
    → hits (new_loop s es ws) q ≡ (hits s q || any (fits_name q) es || any (fits_suffix q) ws)
unfolding new_loop any elem with_name
hits-new_loop q s [] ws = ground (arith, hits-add_wildcards q s ws)
hits-new_loop q s (e ∷ es) ws =
    ground (arith, hits-new_loop q (with_name s e) es ws, hits-with_name q s e)

hits-load_loop :
    (q : Text) (exact wildcard lines : List Text)
    → hits (load_loop exact wildcard lines) q ≡ (
        any (fits_name q) exact
        || any (fits_suffix q) wildcard
        || any (λ line. fits q (parse_line line)) lines)
unfolding load_loop any
hits-load_loop q exact wildcard [] =
    unfold new match_suffix elem in
    ground (arith, hits-new_loop q (record { exact = []; wildcard = [] }) exact wildcard)
hits-load_loop q exact wildcard (line ∷ lines) = elim (Entry-cases (parse_line line)) [
  | inl e ↦ ground (arith, hits-load_loop q exact wildcard lines)
  | inr (inl (t, e)) ↦
      rw (e, load_loop)
        (ground (
          arith,
          hits-load_loop q (exact ++ t ∷ []) wildcard lines,
          any-append (fits_name q) exact (t ∷ []),
        ))
  | inr (inr (t, e)) ↦
      rw (e, load_loop)
        (ground (
          arith,
          hits-load_loop q exact (wildcard ++ t ∷ []) lines,
          any-append (fits_suffix q) wildcard (t ∷ []),
        ))
]

-- After `LoadFrom` without a scanner error, `Match` accepts a name exactly when the normalized name is
-- not empty and the entry of some line fits it: an exact entry its own name, a wildcard the names
-- that end in a dot and its suffix.
pub matches-load_from :
    (lines : List Text) (s : OverrideSet) (qname : Text)
    → load_from lines false ≡ some s
    → matches s qname ≡ (
        not (is_empty (normalize qname))
        && any (λ line. fits (normalize qname) (parse_line line)) lines)
unfolding load_from matches any
matches-load_from lines s qname e = ground (arith, hits-load_loop (normalize qname) [] [] lines)
