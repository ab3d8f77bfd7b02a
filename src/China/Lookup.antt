-- ===== src/China/Lookup.antt =====
-- `Contains` after `Build` of internal/china/index.go.
use chn_resolver_go.Prelude.{
  ℕ, ◌+◌, ◌^◌, ◌/◌, ◌≡◌, refl, ap, ◌∙◌, subst, ◌==◌, Bool, true, false, List, [], ◌∷◌, ◌++◌, arith,
  All, any, some, if◌then◌else◌, length, append_assoc, append-nil, Bool-cases, inl, inr,
}
use chn_resolver_go.Net.{Addr, Prefix, IsAddr, IsMasked, is4, unmap, covers}
use chn_resolver_go.China.{Span, merge, build, build_loop, index_contains, contains}
use chn_resolver_go.China.Rank.{rank, IsSpan, covered}
use chn_resolver_go.China.Merge.{merge_lem}
use chn_resolver_go.China.Search.{contains-covered}
use chn_resolver_go.China.Prefixes.{IsPlain, span_of, is_in, span_of-IsSpan, holds-covers}

-- A prefix as the loader leaves it, whose last address is no IPv4-mapped address.
pub record IsUsable (p : Prefix) : Type 0 where
  pub masked : IsMasked p
  pub plain : IsPlain p

-- The spans of one family, in the order of the prefixes.
spans : Bool → List Prefix → List Span
spans four [] = []
spans four (p ∷ ps) = if is_in four p.addr then span_of p ∷ spans four ps else spans four ps

build_loop-eq :
    (four six : List Span) (m n : ℕ) (ps : List Prefix)
    → build_loop four six m n ps ≡ record {
      v4_spans = merge (four ++ spans true ps);
      v6_spans = merge (six ++ spans false ps);
      v4_input = m + length (spans true ps);
      v6_input = n + length (spans false ps);
    }
unfolding build_loop spans
build_loop-eq four six m n [] = ground (arith, append-nil four, append-nil six)
build_loop-eq four six m n (p ∷ ps) = elim (Bool-cases (is4 p.addr)) [
  | inl e ↦
      rw (e, build_loop, spans)
        (ground (
          arith,
          build_loop-eq (four ++ span_of p ∷ []) six (m + 1) n ps,
          append_assoc four (span_of p ∷ []) (spans true ps),
        ))
  | inr e ↦
      rw (e, build_loop, spans)
        (ground (
          arith,
          build_loop-eq four (six ++ span_of p ∷ []) m (n + 1) ps,
          append_assoc six (span_of p ∷ []) (spans false ps),
        ))
]

family : (four : Bool) (a : Addr) → is_in four a ≡ true → is4 a ≡ four
family true a e = e
family false a e = ground arith

spans-IsSpan :
    (four : Bool) (ps : List Prefix) → All IsUsable ps → All (IsSpan four) (spans four ps)
unfolding spans
spans-IsSpan four [] u = tt
spans-IsSpan four (p ∷ ps) u = elim (Bool-cases (is_in four p.addr)) [
  | inl e ↦
      rw (e, spans)
        (
          subst (λ f. IsSpan f (span_of p)) (family four p.addr e)
              (span_of-IsSpan p.addr p.bits u.0.masked u.0.plain),
          spans-IsSpan four ps u.1,
        )
  | inr e ↦ rw (e, spans) (spans-IsSpan four ps u.1)
]

covered-spans :
    (a : Addr) (ps : List Prefix)
    → All IsUsable ps
    → covered (spans (is4 a) ps) (rank a) ≡ any (λ p. covers p a) ps
unfolding spans any
covered-spans a [] u = refl
covered-spans a (p ∷ ps) u = elim (Bool-cases (is_in (is4 a) p.addr)) [
  | inl e ↦
      rw (e, spans)
        (ground (arith, holds-covers p.addr p.bits a u.0.masked u.0.plain, covered-spans a ps u.1))
  | inr e ↦
      rw (e, spans)
        (ground (arith, holds-covers p.addr p.bits a u.0.masked u.0.plain, covered-spans a ps u.1))
]

-- Unmapping keeps an address within its family's range.
unmap-IsAddr : (a : Addr) → IsAddr a → IsAddr (unmap a)
unfolding unmap
unmap-IsAddr (Addr.v4 n) h = h
unmap-IsAddr (Addr.v6 n) h = elim (Bool-cases (n / 2 ^ 32 == 0xffff)) [
  | inl e ↦ rw e (omega arith)
  | inr e ↦ rw e h
]

-- One family of the index.
family_lookup :
    (ip : Addr) (ps : List Prefix)
    → All IsUsable ps
    → IsAddr ip
    → contains (merge (spans (is4 ip) ps)) ip ≡ some (any (λ p. covers p ip) ps)
family_lookup ip ps u valid =
    let (up, eq) = merge_lem (is4 ip) (spans (is4 ip) ps) (spans-IsSpan (is4 ip) ps u) in
    contains-covered (is4 ip) ip 0 (merge (spans (is4 ip) ps)) valid up
    ∙ ap some (eq (rank ip) ∙ covered-spans ip ps u)

-- Over masked prefixes, where the last address of no IPv6 prefix is IPv4-mapped, `Contains` after
-- `Build` does not index out of range for an address within its family's bound, and reports it
-- exactly when a prefix covers it, with its IPv4 form taken for a mapped one.
pub index_contains-build :
    (ps : List Prefix) (ip : Addr)
    → All IsUsable ps
    → IsAddr ip
    → index_contains (build ps) ip ≡ some (any (λ p. covers p (unmap ip)) ps)
unfolding index_contains build
index_contains-build ps ip u valid =
    let found = family_lookup (unmap ip) ps u (unmap-IsAddr ip valid) in
    rw (build_loop-eq [] [] 0 0 ps) (elim (Bool-cases (is4 (unmap ip))) [
      | inl e ↦ rw e (rw e at found)
      | inr e ↦ rw e (rw e at found)
    ])
