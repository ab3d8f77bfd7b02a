-- ===== src/China/Lines.antt =====
-- What a line of a prefix file is, as the comment of `ParsePrefixLine` in internal/china/loader.go has it:
-- blanks around it do not count; it is blank, a comment, or a prefix with a comment behind it or without.
use chn_resolver_go.Prelude.{
  ◌≡◌, refl, sym, ap, ◌∙◌, subst, ◌≢◌, ◌⊎◌, inl, inr, true, List, [], ◌∷◌, ◌++◌, none, some, All,
  arith, is_empty, Bool-cases, Option-cases,
}
use chn_resolver_go.Text.{Text, trim_space, codes, has_prefix, index, take}
use chn_resolver_go.Net.{Prefix}
use chn_resolver_go.Net.Parse.{parse_prefix, masked}
use chn_resolver_go.Overrides.{separators, cut_comment, is_skipped}
use chn_resolver_go.China.Loader.{Line, skip, prefix, bad, prefix_line, parse_prefix_line}

-- A line that is blank or a comment as a whole.
abbrev pub IsComment : Text → Type 0
IsComment line =
    (line ≡ [])
    ⊎ (has_prefix line (codes "#") ≡ true)
    ⊎ (has_prefix line (codes ";") ≡ true)
    ⊎ (has_prefix line (codes "//") ≡ true)

-- What begins a comment behind a prefix: a blank or a tab, and a mark.
abbrev pub marks : List Text
marks = codes " #" ∷ codes "\t#" ∷ codes " ;" ∷ codes "\t;" ∷ codes " //" ∷ codes "\t//" ∷ []

-- The line without the comment that the first of the marks that occurs begins.
pub data Content (line : Text) (seps : List Text) : Text → Type 0 where
  whole : All (λ sep. index line sep ≡ none) seps → Content line seps line
  cut :
      (before after : List Text) (sep : Text) {i : _}
      → seps ≡ before ++ sep ∷ after
      → All (λ sep. index line sep ≡ none) before
      → index line sep ≡ some i
      → Content line seps (trim_space (take i line))

-- What a line stands for.
pub data Means (raw : Text) : Line → Type 0 where
  comment : IsComment (trim_space raw) → Means raw skip
  nothing : ¬ IsComment (trim_space raw) → Content (trim_space raw) marks [] → Means raw skip
  found :
      {text : Text} {p : Prefix}
      → ¬ IsComment (trim_space raw)
      → Content (trim_space raw) marks text
      → text ≢ []
      → parse_prefix text ≡ some p
      → Means raw (prefix (masked p))
  malformed :
      {text : Text}
      → ¬ IsComment (trim_space raw)
      → Content (trim_space raw) marks text
      → text ≢ []
      → parse_prefix text ≡ none
      → Means raw (bad text)

-- Lines that are blank, comments and prefixes, and these prefixes in their order.
pub data Holds : List Text → List Prefix → Type 0 where
  nil : Holds [] []
  skipped :
      {raw : Text} {lines : List Text} {ps : List Prefix}
      → Means raw skip
      → Holds lines ps
      → Holds (raw ∷ lines) ps
  listed :
      {raw : Text} {p : Prefix} {lines : List Text} {ps : List Prefix}
      → Means raw (prefix p)
      → Holds lines ps
      → Holds (raw ∷ lines) (p ∷ ps)

Content-later :
    {line text : Text} (sep : Text) {seps : List Text}
    → index line sep ≡ none
    → Content line seps text
    → Content line (sep ∷ seps) text
Content-later sep e (Content.whole others) = Content.whole (e, others)
Content-later sep e (Content.cut before after mark same others at) =
    Content.cut (sep ∷ before) after mark (ap (◌∷◌ sep) same) (e, others) at

cut_comment-Content : (seps : List Text) (line : Text) → Content line seps (cut_comment seps line)
unfolding cut_comment
cut_comment-Content [] line = Content.whole tt
cut_comment-Content (sep ∷ seps) line = elim (Option-cases (index line sep)) [
  | inl e ↦ rw (e, cut_comment) (Content-later sep e (cut_comment-Content seps line))
  | inr (i, e) ↦ rw (e, cut_comment) (Content.cut [] seps sep refl tt e)
]

is_skipped-IsComment : (line : Text) → is_skipped line ≡ true → IsComment line
unfolding is_skipped
is_skipped-IsComment [] e = inl refl
is_skipped-IsComment (c ∷ line) e = ground (arith, e)

IsComment-is_skipped : (line : Text) → IsComment line → is_skipped line ≡ true
unfolding is_skipped
IsComment-is_skipped line (inl e) = rw (e, is_skipped) refl
IsComment-is_skipped line (inr (inl e)) = ground (arith, e)
IsComment-is_skipped line (inr (inr (inl e))) = ground (arith, e)
IsComment-is_skipped line (inr (inr (inr e))) = ground (arith, e)

prefix_line-Means :
    (raw text : Text)
    → ¬ IsComment (trim_space raw)
    → Content (trim_space raw) marks text
    → text ≢ []
    → Means raw (prefix_line text)
prefix_line-Means raw text no_comment content some_text = elim (Option-cases (parse_prefix text)) [
  | inl e ↦ rw (e, prefix_line) (Means.malformed no_comment content some_text e)
  | inr (p, e) ↦ rw (e, prefix_line) (Means.found no_comment content some_text e)
]

is_empty-nil : (text : Text) → is_empty text ≡ true → text ≡ []
is_empty-nil [] e = refl
is_empty-nil (c ∷ text) e = cc e

pub parse_prefix_line-Means : (raw : Text) → Means raw (parse_prefix_line raw)
unfolding parse_prefix_line
parse_prefix_line-Means raw =
    let line = trim_space raw in
    let text = cut_comment separators line in
    let content : Content line marks text = cut_comment-Content separators line in
    elim (Bool-cases (is_skipped line)) [
      | inl e ↦ rw (e, parse_prefix_line) (Means.comment (is_skipped-IsComment line e))
      | inr e ↦
          let no_comment : ¬ IsComment line = λ h. cc (e, IsComment-is_skipped line h) in
          elim (Bool-cases (is_empty text)) [
            | inl none_left ↦
                rw (e, none_left, parse_prefix_line)
                  (Means.nothing no_comment
                    (subst (Content line marks) (is_empty-nil text none_left) content))
            | inr some_left ↦
                rw (e, some_left, parse_prefix_line)
                  (prefix_line-Means raw text no_comment content
                    (λ h. cc (sym some_left ∙ ap is_empty h)))
          ]
    ]
