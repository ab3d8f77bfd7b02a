-- ===== src/Cache/Moves.antt =====
-- The moves of internal/cache/cache.go on the list: an entry removed, moved to the front, put there.
use mathlib.Core.List.{lookup}
use chn_resolver_go.Prelude.{
  ℕ, suc, ◌<◌, ◌≡◌, refl, false, List, [], ◌∷◌, arith, length, elem, Distinct, some, ℕ_discrete,
  All,
}
use chn_resolver_go.Cache.{Key, Key-discrete, Element, Cache, remove}
use chn_resolver_go.Cache.Index.{
  ids, keys, find_key, drop_key, IsIndexed, deref-find_key, lookup-delete, find_key-drop_key,
  find_key-elem,
}

module _ (k : Key) where
  keys-drop_key_absent :
      (q : Key) (ll : List Element)
      → elem Key-discrete q (keys ll) ≡ false
      → elem Key-discrete q (keys (drop_key k ll)) ≡ false
  unfolding drop_key elem
  keys-drop_key_absent q [] h = refl
  keys-drop_key_absent q (x ∷ ll) h = ground (arith, keys-drop_key_absent q ll)

  ids-drop_key_absent :
      (i : ℕ) (ll : List Element)
      → elem ℕ_discrete i (ids ll) ≡ false
      → elem ℕ_discrete i (ids (drop_key k ll)) ≡ false
  unfolding drop_key elem
  ids-drop_key_absent i [] h = refl
  ids-drop_key_absent i (x ∷ ll) h = ground (arith, ids-drop_key_absent i ll)

  drop_key-gone :
      (ll : List Element)
      → Distinct Key-discrete (keys ll)
      → elem Key-discrete k (keys (drop_key k ll)) ≡ false
  unfolding drop_key elem
  drop_key-gone [] d = refl
  drop_key-gone (x ∷ ll) d = ground (arith, drop_key-gone ll d.1)

  drop_key-id_gone :
      (ll : List Element) (el : Element)
      → Distinct ℕ_discrete (ids ll)
      → find_key k ll ≡ some el
      → elem ℕ_discrete el.id (ids (drop_key k ll)) ≡ false
  unfolding drop_key find_key elem
  drop_key-id_gone [] el d e = refl
  drop_key-id_gone (x ∷ ll) el d e =
      ground (arith, drop_key-id_gone ll el d.1, find_key-elem k ll el)

  drop_key-Distinct_keys :
      (ll : List Element)
      → Distinct Key-discrete (keys ll)
      → Distinct Key-discrete (keys (drop_key k ll))
  unfolding drop_key
  drop_key-Distinct_keys [] d = tt
  drop_key-Distinct_keys (x ∷ ll) d =
      ground (arith, drop_key-Distinct_keys ll d.1, keys-drop_key_absent x.key ll d.0)

  drop_key-Distinct_ids :
      (ll : List Element) → Distinct ℕ_discrete (ids ll) → Distinct ℕ_discrete (ids (drop_key k ll))
  unfolding drop_key
  drop_key-Distinct_ids [] d = tt
  drop_key-Distinct_ids (x ∷ ll) d =
      ground (arith, drop_key-Distinct_ids ll d.1, ids-drop_key_absent x.id ll d.0)

  drop_key-fresh :
      (n : ℕ) (ll : List Element)
      → All (λ (el : Element). el.id < n) ll
      → All (λ (el : Element). el.id < n) (drop_key k ll)
  unfolding drop_key
  drop_key-fresh n [] h = tt
  drop_key-fresh n (x ∷ ll) h = ground (arith, drop_key-fresh n ll h.1)

  find_key-fresh :
      (n : ℕ) (ll : List Element) (el : Element)
      → All (λ (el : Element). el.id < n) ll
      → find_key k ll ≡ some el
      → el.id < n
  unfolding find_key
  find_key-fresh n [] el h e = cc
  find_key-fresh n (x ∷ ll) el h e = ground (arith, find_key-fresh n ll el h.1)

  pub length-drop_key :
      (ll : List Element) (el : Element)
      → find_key k ll ≡ some el
      → suc (length (drop_key k ll)) ≡ length ll
  unfolding drop_key find_key
  length-drop_key [] el e = cc
  length-drop_key (x ∷ ll) el e = ground (arith, length-drop_key ll el)

fresh-absent :
    (n : ℕ) (ll : List Element)
    → All (λ (el : Element). el.id < n) ll
    → (elem ℕ_discrete n (ids ll) ≡ false) × All (λ (el : Element). el.id < suc n) ll
unfolding elem
fresh-absent n [] h = (refl, tt)
fresh-absent n (x ∷ ll) h = ground (arith, fresh-absent n ll h.1)

module _ {c : Cache} (v : IsIndexed c) where
  -- Removing an entry that is there removes its key from both.
  pub remove-IsIndexed : (el : Element) → find_key el.key c.ll ≡ some el → IsIndexed (remove c el)
  unfolding remove
  remove-IsIndexed el e = rw (deref-find_key el.key c.ll el v.ids e).1 (record {
    ids = drop_key-Distinct_ids el.key c.ll v.ids;
    keys = drop_key-Distinct_keys el.key c.ll v.keys;
    fresh = drop_key-fresh el.key c.next_id c.ll v.fresh;
    index = λ k.
        ground (
          arith,
          lookup-delete el.key k c.items,
          find_key-drop_key el.key k c.ll v.keys,
          v.index k,
        );
  })

  -- An entry at the front, with another value.
  pub front-IsIndexed :
      (el el' : Element)
      → find_key el.key c.ll ≡ some el
      → el'.id ≡ el.id
      → el'.key ≡ el.key
      → IsIndexed (record c { ll = el' ∷ drop_key el.key c.ll })
  unfolding find_key
  front-IsIndexed el el' e i k = record {
    ids = (rw i (drop_key-id_gone el.key c.ll el v.ids e), drop_key-Distinct_ids el.key c.ll v.ids);
    keys = (rw k (drop_key-gone el.key c.ll v.keys), drop_key-Distinct_keys el.key c.ll v.keys);
    fresh = (
      rw i (find_key-fresh el.key c.next_id c.ll el v.fresh e),
      drop_key-fresh el.key c.next_id c.ll v.fresh,
    );
    index = λ q. ground (arith, v.index q, find_key-drop_key el.key q c.ll v.keys);
  }

  -- A new entry at the front.
  pub push-IsIndexed :
      (el : Element)
      → el.id ≡ c.next_id
      → elem Key-discrete el.key (keys c.ll) ≡ false
      → IsIndexed
          (record c { ll = el ∷ c.ll; items = (el.key, el.id) ∷ c.items; next_id = suc c.next_id })
  unfolding find_key lookup
  push-IsIndexed el i k =
      let (gone, fresh) = fresh-absent c.next_id c.ll v.fresh in
      record {
        ids = (rw i gone, v.ids);
        keys = (k, v.keys);
        fresh = (omega arith, fresh);
        index = λ q. ground (arith, v.index q);
      }
