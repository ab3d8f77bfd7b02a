-- ===== src/China/Scanned.antt =====
-- The loop of `LoadFrom` and `loadFile` in internal/china/loader.go, by what each line parses to.
use chn_resolver_go.Prelude.{
  ℕ, suc, ◌⊎◌, ◌+◌, ◌≡◌, refl, ap, subst, sym, ◌∙◌, Bool, true, false, List, [], ◌∷◌, ◌++◌, length,
  All, arith, append_assoc, append-nil, Option-cases, inl, inr,
}
use chn_resolver_go.Prelude.Result.{Result, ok, err}
use chn_resolver_go.Text.{Text, trim_space}
use chn_resolver_go.Net.Parse.{parse_prefix}
use chn_resolver_go.Net.Bounds.{masked-IsMasked, parse_prefix-IsWithin}
use chn_resolver_go.Overrides.{separators, cut_comment}
use chn_resolver_go.Net.{IsMasked, Prefix}
use chn_resolver_go.China.Lookup.{IsUsable}
use chn_resolver_go.China.Prefixes.{IsPlain}
use chn_resolver_go.China.Lines.{Means, Holds, parse_prefix_line-Means}
use chn_resolver_go.China.Loader.{
  prefix_line, Line, skip, prefix, bad, parse_prefix_line, Error, bad_line, scan_lines,
}

-- The prefixes of the lines.
unfoldable pub prefixes_of : List Text → List Prefix
prefixes_of [] = []
prefixes_of (raw ∷ lines) = elim (parse_prefix_line raw) [
  | prefix p ↦ p ∷ prefixes_of lines
  | skip ↦ prefixes_of lines
  | bad text ↦ prefixes_of lines
]

abbrev pub is_good : Text → Bool
is_good raw = elim (parse_prefix_line raw) [ prefix p ↦ true | skip ↦ true | bad text ↦ false ]

Line-cases : (l : Line) → (l ≡ skip) ⊎ ((p : Prefix) × (l ≡ prefix p)) ⊎ ((t : Text) × (l ≡ bad t))
Line-cases skip = inl refl
Line-cases (prefix p) = inr (inl (p, refl))
Line-cases (bad t) = inr (inr (t, refl))

-- The first line that is no prefix, by its number and its text.
pub record FirstBad (n : ℕ) (lines : List Text) (e : Error) : Type 0 where
  pub before : List Text
  pub line : Text
  pub after : List Text
  pub text : Text
  pub parts : lines ≡ before ++ line ∷ after
  pub good_before : All (λ l. is_good l ≡ true) before
  pub bad_text : parse_prefix_line line ≡ bad text
  pub reported : e ≡ bad_line (n + length before + 1) text

-- The result of the loop: the prefixes of all lines, each of which parses, or the first that does not.
abbrev pub Scanned : ℕ → List Prefix → List Text → Result Error (List Prefix) → Type 0
Scanned n all lines (ok out) = (out ≡ all ++ prefixes_of lines) × All (λ l. is_good l ≡ true) lines
Scanned n all lines (err e) = FirstBad n lines e

FirstBad-cons :
    (n : ℕ) (raw : Text) (lines : List Text) (e : Error)
    → is_good raw ≡ true
    → FirstBad (suc n) lines e
    → FirstBad n (raw ∷ lines) e
FirstBad-cons n raw lines e good f = record {
  before = raw ∷ f.before;
  line = f.line;
  after = f.after;
  text = f.text;
  parts = ap (λ ls. raw ∷ ls) f.parts;
  good_before = (good, f.good_before);
  bad_text = f.bad_text;
  reported = f.reported ∙ ap (λ k. bad_line k f.text) (omega arith);
}

Scanned-skip :
    (n : ℕ) (all : List Prefix) (raw : Text) (lines : List Text) (r : Result Error (List Prefix))
    → parse_prefix_line raw ≡ skip
    → Scanned (suc n) all lines r
    → Scanned n all (raw ∷ lines) r
unfolding prefixes_of
Scanned-skip n all raw lines (ok out) e s = ground (arith, e, s)
Scanned-skip n all raw lines (err why) e s = FirstBad-cons n raw lines why (ground (arith, e)) s

Scanned-prefix :
    (n : ℕ) (all : List Prefix) (raw : Text) (lines : List Text) (r : Result Error (List Prefix))
    (p : Prefix)
    → parse_prefix_line raw ≡ prefix p
    → Scanned (suc n) (all ++ p ∷ []) lines r
    → Scanned n all (raw ∷ lines) r
unfolding prefixes_of
Scanned-prefix n all raw lines (ok out) p e s =
    ground (arith, e, s, append_assoc all (p ∷ []) (prefixes_of lines))
Scanned-prefix n all raw lines (err why) p e s = FirstBad-cons n raw lines why (ground (arith, e)) s

pub scan_lines-Scanned :
    (n : ℕ) (all : List Prefix) (lines : List Text) → Scanned n all lines (scan_lines n all lines)
unfolding scan_lines prefixes_of
scan_lines-Scanned n all [] = (sym (append-nil all), tt)
scan_lines-Scanned n all (raw ∷ lines) = elim (Line-cases (parse_prefix_line raw)) [
  | inl e ↦
      subst (λ l. Scanned n all (raw ∷ lines) (step l)) (sym e)
        (Scanned-skip n all raw lines _ e (scan_lines-Scanned (suc n) all lines))
  | inr (inl (p, e)) ↦
      subst (λ l. Scanned n all (raw ∷ lines) (step l)) (sym e)
        (Scanned-prefix n all raw lines _ p e (scan_lines-Scanned (suc n) (all ++ p ∷ []) lines))
  | inr (inr (t, e)) ↦
      subst (λ l. Scanned n all (raw ∷ lines) (step l)) (sym e)
        (record {
          before = [];
          line = raw;
          after = lines;
          text = t;
          parts = refl;
          good_before = tt;
          bad_text = e;
          reported = ap (λ k. bad_line k t) (omega arith);
        })
]
  where
    step : Line → Result Error (List Prefix)
    step l = elim l [
      | skip ↦ scan_lines (suc n) all lines
      | prefix p ↦ scan_lines (suc n) (all ++ p ∷ []) lines
      | bad text ↦ err (bad_line (suc n) text)
    ]

LineMasked : Line → Type 0
LineMasked skip = Unit
LineMasked (prefix p) = IsMasked p
LineMasked (bad t) = Unit

prefix_line-LineMasked : (line : Text) → LineMasked (prefix_line line)
unfolding LineMasked
prefix_line-LineMasked line = elim (Option-cases (parse_prefix line)) [
  | inl e ↦ rw (e, LineMasked) tt
  | inr (p, e) ↦ rw (e, LineMasked) (masked-IsMasked p (parse_prefix-IsWithin line e))
]

parse_prefix_line-LineMasked : (raw : Text) → LineMasked (parse_prefix_line raw)
unfolding LineMasked parse_prefix_line
parse_prefix_line-LineMasked raw =
    ground (arith, prefix_line-LineMasked (cut_comment separators (trim_space raw)))

parse_prefix_line-IsMasked :
    (raw : Text) {p : Prefix} → parse_prefix_line raw ≡ prefix p → IsMasked p
unfolding LineMasked
parse_prefix_line-IsMasked raw h = subst LineMasked h (parse_prefix_line-LineMasked raw)

pub prefixes_of-IsUsable :
    (lines : List Text) → All IsPlain (prefixes_of lines) → All IsUsable (prefixes_of lines)
unfolding prefixes_of
prefixes_of-IsUsable [] h = tt
prefixes_of-IsUsable (raw ∷ lines) h = elim (Line-cases (parse_prefix_line raw)) [
  | inl e ↦ rw (e, prefixes_of) (prefixes_of-IsUsable lines (rw (e, prefixes_of) at h))
  | inr (inl (p, e)) ↦
      let (plain, rest) = rw (e, prefixes_of) at h in
      rw (e, prefixes_of)
        (
          record { masked = parse_prefix_line-IsMasked raw e; plain = plain },
          prefixes_of-IsUsable lines rest,
        )
  | inr (inr (t, e)) ↦ rw (e, prefixes_of) (prefixes_of-IsUsable lines (rw (e, prefixes_of) at h))
]

pub is_good-Holds :
    (lines : List Text) → All (λ l. is_good l ≡ true) lines → Holds lines (prefixes_of lines)
unfolding prefixes_of
is_good-Holds [] good = Holds.nil
is_good-Holds (raw ∷ lines) (first, good) =
    let means = parse_prefix_line-Means raw in
    elim (Line-cases (parse_prefix_line raw)) [
      | inl e ↦
          rw (e, prefixes_of) (Holds.skipped (subst (Means raw) e means) (is_good-Holds lines good))
      | inr (inl (p, e)) ↦
          rw (e, prefixes_of) (Holds.listed (subst (Means raw) e means) (is_good-Holds lines good))
      | inr (inr (t, e)) ↦ absurd (ground (arith, e, first))
    ]
