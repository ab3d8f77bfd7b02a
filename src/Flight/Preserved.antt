-- ===== src/Flight/Preserved.antt =====
-- The steps of the callers of `Do` of internal/cache/flight.go, one by one.
use mathlib.Core.List.{lookup, map-append}
use chn_resolver_go.Prelude.{
  ℕ, ◌≡◌, refl, sym, ap, ◌∙◌, subst, true, false, List, ◌∷◌, ◌++◌, none, some, arith, ℕ_discrete,
  elem, elem-append, Distinct, Option-cases, inl, inr,
}
use chn_resolver_go.Cache.{Key, Key-discrete, Value, Cache, delete}
use chn_resolver_go.Cache.Invariant.{IsValid}
use chn_resolver_go.Flight.{State, start, enter, close}
use chn_resolver_go.Flight.Distinctness.{take_out, moved, elem-moved, regroup}
use chn_resolver_go.Flight.Safety.{
  numbers, flight_keys, marks, known, IsSafe, lookup-numbers, lookup-absent, delete-leader,
  elem-take_out, agreed-close,
}

pub start-IsSafe : (c : Cache) → IsValid c → IsSafe (start c)
unfolding start elem
start-IsSafe c v = record {
  cache = v;
  flights = refl;
  keys = tt;
  places = tt;
  fresh = λ f h. cc;
  attended = λ f h. cc;
  agreed = tt;
}

-- One more flight at the head.
pub enter-IsSafe : (s : State) (key : Key) → IsSafe s → IsSafe (enter s key)
unfolding enter elem
enter-IsSafe s key w = elim (Option-cases (lookup Key-discrete key s.flights)) [
  | inr (f, e) ↦
      let leads : elem ℕ_discrete f (numbers s.leading) ≡ true =
        lookup-numbers key s.leading f
          (subst (λ l. lookup Key-discrete key l ≡ some f) w.flights e) in
      rw (e, enter)
        (record {
          cache = w.cache;
          flights = w.flights;
          keys = w.keys;
          places = w.places;
          fresh = w.fresh;
          attended = λ g h. ground (
            arith,
            w.attended g,
            h,
            leads,
            elem-append ℕ_discrete f (numbers s.leading) (marks s.closing ++ marks s.closed),
          );
          agreed = w.agreed;
        })
  | inl e ↦
      let new_key : elem Key-discrete key (flight_keys s.leading) ≡ false =
        lookup-absent key s.leading (subst (λ l. lookup Key-discrete key l ≡ none) w.flights e) in
      rw (e, enter)
        (record {
          cache = w.cache;
          flights = ap (λ l. (key, s.next_flight) ∷ l) w.flights;
          keys = (new_key, w.keys);
          places = (ground (arith, w.fresh s.next_flight), w.places);
          fresh = λ g h. ground (arith, w.fresh g, h);
          attended = λ g h. ground (arith, w.attended g h);
          agreed = w.agreed;
        })
]

module _ (s : State) (w : IsSafe s) where
  -- A leader lands, and leaves a valid cache.
  pub land-IsSafe :
      (key : Key) (f : ℕ) (before after : List (Key × ℕ)) (v : Value) (c : Cache)
      → s.leading ≡ before ++ ((key, f) ∷ after)
      → IsValid c
      → IsSafe (record s {
        cache = c;
        flights = delete key s.flights;
        leading = before ++ after;
        closing = (f, v) ∷ s.closing;
      })
  land-IsSafe key f before after v c e valid =
      let rest : List ℕ = marks s.closing ++ marks s.closed in
      let old : numbers s.leading ≡ numbers before ++ (f ∷ numbers after) =
        ap numbers e ∙ map-append (λ (p : Key × ℕ). p.1) before ((key, f) ∷ after) in
      let new : numbers (before ++ after) ≡ numbers before ++ numbers after =
        map-append (λ (p : Key × ℕ). p.1) before after in
      let same : (g : ℕ)
          → elem ℕ_discrete g (known s)
            ≡ elem ℕ_discrete g (numbers (before ++ after) ++ (f ∷ rest)) =
        λ g.
          ap (λ l. elem ℕ_discrete g (l ++ rest)) old
          ∙ elem-moved ℕ_discrete g f (numbers before) (numbers after) rest
          ∙ ap (λ l. elem ℕ_discrete g (l ++ (f ∷ rest))) (sym new) in
      let keys : Distinct Key-discrete (flight_keys (before ++ ((key, f) ∷ after))) =
        subst (λ l. Distinct Key-discrete (flight_keys l)) e w.keys in
      record {
        cache = valid;
        flights = ap (delete key) (w.flights ∙ e) ∙ delete-leader key f before after keys;
        keys =
            subst (Distinct Key-discrete) (sym (map-append (λ (p : Key × ℕ). p.0) before after))
              (take_out Key-discrete key (flight_keys before) (flight_keys after) (
                subst (Distinct Key-discrete)
                  (map-append (λ (p : Key × ℕ). p.0) before ((key, f) ∷ after)) keys)).1;
        places =
            subst (λ l. Distinct ℕ_discrete (l ++ (f ∷ rest))) (sym new)
              (moved ℕ_discrete f (numbers before) (numbers after) rest
                (subst (λ l. Distinct ℕ_discrete (l ++ rest)) old w.places));
        fresh = λ g h. w.fresh g (same g ∙ h);
        attended = λ g h. sym (same g) ∙ w.attended g h;
        agreed = w.agreed;
      }

  -- A flight is closed, and its leader returns.
  pub close-IsSafe :
      (f : ℕ) (v : Value) (before after : List (ℕ × Value))
      → s.closing ≡ before ++ ((f, v) ∷ after)
      → IsSafe (close s f v (before ++ after))
  unfolding close lookup
  close-IsSafe f v before after e =
      let lead : List ℕ = numbers s.leading in
      let done : List ℕ = marks s.closed in
      let old : known s ≡ ((lead ++ marks before) ++ (f ∷ marks after)) ++ done =
        ap (λ l. lead ++ (l ++ done))
          (ap marks e ∙ map-append (λ (p : ℕ × Value). p.0) before ((f, v) ∷ after))
        ∙ sym (regroup lead (marks before) (f ∷ marks after) done) in
      let new : lead ++ (marks (before ++ after) ++ (f ∷ done))
          ≡ ((lead ++ marks before) ++ marks after) ++ (f ∷ done) =
        ap (λ l. lead ++ (l ++ (f ∷ done))) (map-append (λ (p : ℕ × Value). p.0) before after)
        ∙ sym (regroup lead (marks before) (marks after) (f ∷ done)) in
      let same : (g : ℕ)
          → elem ℕ_discrete g (known s)
            ≡ elem ℕ_discrete g (lead ++ (marks (before ++ after) ++ (f ∷ done))) =
        λ g.
          ap (elem ℕ_discrete g) old
          ∙ elem-moved ℕ_discrete g f (lead ++ marks before) (marks after) done
          ∙ ap (elem ℕ_discrete g) (sym new) in
      let apart : Distinct ℕ_discrete (((lead ++ marks before) ++ marks after) ++ (f ∷ done)) =
        moved ℕ_discrete f (lead ++ marks before) (marks after) done
          (subst (Distinct ℕ_discrete) old w.places) in
      let front : List ℕ = (lead ++ marks before) ++ marks after in
      let unknown : elem ℕ_discrete f done ≡ false =
        ground (
          arith,
          (take_out ℕ_discrete f front done apart).0,
          elem-append ℕ_discrete f front done,
        ) in
      record {
        cache = w.cache;
        flights = w.flights;
        keys = w.keys;
        places = subst (Distinct ℕ_discrete) (sym new) apart;
        fresh = λ g h. w.fresh g (same g ∙ h);
        attended = λ g h. sym (same g) ∙ w.attended g h;
        agreed = (ground arith, agreed-close f v s.closed s.returned unknown w.agreed);
      }

  pub wake-IsSafe :
      (f : ℕ) (v : Value) (before after : List ℕ)
      → s.waiting ≡ before ++ (f ∷ after)
      → lookup ℕ_discrete f s.closed ≡ some v
      → IsSafe (record s { waiting = before ++ after; returned = (f, v) ∷ s.returned })
  wake-IsSafe f v before after e found = record {
    cache = w.cache;
    flights = w.flights;
    keys = w.keys;
    places = w.places;
    fresh = w.fresh;
    attended = λ g h. w.attended g (ap (elem ℕ_discrete g) e ∙ elem-take_out g f before after h);
    agreed = (found, w.agreed);
  }

  pub leave-IsSafe :
      (f : ℕ) (before after : List ℕ)
      → s.waiting ≡ before ++ (f ∷ after)
      → IsSafe (record s { waiting = before ++ after })
  leave-IsSafe f before after e = record {
    cache = w.cache;
    flights = w.flights;
    keys = w.keys;
    places = w.places;
    fresh = w.fresh;
    attended = λ g h. w.attended g (ap (elem ℕ_discrete g) e ∙ elem-take_out g f before after h);
    agreed = w.agreed;
  }
