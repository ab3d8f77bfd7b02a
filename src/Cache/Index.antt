-- ===== src/Cache/Index.antt =====
-- The map and the list of internal/cache/cache.go, seen by key.
use mathlib.Core.List.{lookup}
use chn_resolver_go.Prelude.{
  ℕ, ◌<◌, ◌≡◌, refl, true, false, List, [], ◌∷◌, arith, elem, Distinct, Option, none, some, ite,
  ℕ_discrete, map, All,
}
use chn_resolver_go.Cache.{Key, Key-discrete, Element, Cache, deref, unlink, delete}

abbrev pub ids : List Element → List ℕ
ids = map (λ el. el.id)

abbrev pub keys : List Element → List Key
keys = map (λ el. el.key)

-- The entry of a key, and the list without it.
unfoldable pub find_key : Key → List Element → Option Element
find_key k [] = none
find_key k (el ∷ ll) = ite (Key-discrete k el.key) (some el) (find_key k ll)

unfoldable pub drop_key : Key → List Element → List Element
drop_key k [] = []
drop_key k (el ∷ ll) = ite (Key-discrete k el.key) ll (el ∷ drop_key k ll)

abbrev pub id_of : Option Element → Option ℕ
id_of none = none
id_of (some el) = some el.id

-- The map leads every key to its element, and identities and keys are distinct.
pub record IsIndexed (c : Cache) : Type 0 where
  pub ids : Distinct ℕ_discrete (ids c.ll)
  pub keys : Distinct Key-discrete (keys c.ll)
  pub fresh : All (λ (el : Element). el.id < c.next_id) c.ll
  pub index : (k : Key) → lookup Key-discrete k c.items ≡ id_of (find_key k c.ll)

pub find_key-elem :
    (k : Key) (ll : List Element) (el : Element)
    → find_key k ll ≡ some el
    → (elem ℕ_discrete el.id (ids ll) ≡ true) × (el.key ≡ k)
unfolding find_key elem
find_key-elem k [] el e = cc
find_key-elem k (x ∷ ll) el e = ground (arith, find_key-elem k ll el)

pub find_key-absent :
    (k : Key) (ll : List Element)
    → elem Key-discrete k (keys ll) ≡ false
    → (find_key k ll ≡ none) × (drop_key k ll ≡ ll)
unfolding find_key drop_key elem
find_key-absent k [] h = (refl, refl)
find_key-absent k (x ∷ ll) h = ground (arith, find_key-absent k ll)

-- The pointer of an entry leads to it, and unlinking it drops its key.
pub deref-find_key :
    (k : Key) (ll : List Element) (el : Element)
    → Distinct ℕ_discrete (ids ll)
    → find_key k ll ≡ some el
    → (deref el.id ll ≡ some el) × (unlink el.id ll ≡ drop_key k ll)
unfolding find_key drop_key deref unlink
deref-find_key k [] el d e = cc
deref-find_key k (x ∷ ll) el d e = ground (arith, deref-find_key k ll el d.1, find_key-elem k ll el)

pub lookup-delete :
    (k q : Key) (items : List (Key × ℕ))
    → lookup Key-discrete q (delete k items)
      ≡ ite (Key-discrete q k) none (lookup Key-discrete q items)
unfolding lookup delete
lookup-delete k q [] = ground arith
lookup-delete k q ((j, i) ∷ items) = ground (arith, lookup-delete k q items)

pub find_key-drop_key :
    (k q : Key) (ll : List Element)
    → Distinct Key-discrete (keys ll)
    → find_key q (drop_key k ll) ≡ ite (Key-discrete q k) none (find_key q ll)
unfolding find_key drop_key
find_key-drop_key k q [] d = ground arith
find_key-drop_key k q (x ∷ ll) d =
    ground (arith, find_key-drop_key k q ll d.1, find_key-absent q ll)
