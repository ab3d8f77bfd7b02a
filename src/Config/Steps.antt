-- ===== src/Config/Steps.antt =====
-- The checks of `build` in internal/config/config.go on one value, and on the list of upstreams.
use chn_resolver_go.Prelude.{
  ℕ, suc, ◌≡◌, refl, Bool, true, false, List, [], ◌∷◌, map, none, some, if◌then◌else◌, elem,
  elem-apart, Distinct, All, arith, Bool-cases, inl, inr, subst,
}
use chn_resolver_go.Prelude.Int.{ℤ, pos, ltz, ◌≤ℤ◌}
use chn_resolver_go.Prelude.Result.{ok, >>=-eq-ok, ok_inj}
use chn_resolver_go.Net.{Addr}
use chn_resolver_go.Net.Parse.{parse_addr}
use chn_resolver_go.Text.{Text, Text-discrete, codes}
use chn_resolver_go.Config.{RawUpstream, Role, auto, china, foreign, Upstream}
use chn_resolver_go.Config.Build.{
  Error, is_zero, parse_role, bounded, choice, parse_upstream, parse_upstreams, host, Host-discrete,
  find_duplicate,
}

abbrev pub Between : ℕ → ℕ → ℤ → Type 0
Between lo hi z = (pos lo ≤ℤ z) × (z ≤ℤ pos hi)

pub choice_lem :
    (test : Text → Bool) (e : Error) (s old : Text) {new : Text}
    → test old ≡ true
    → choice test e s old ≡ ok new
    → test new ≡ true
unfolding choice
choice_lem test e s old valid h = ground (arith, valid, h)

unseen :
    (k : Addr × Text) (seen : List (Addr × Text)) (us : List Upstream)
    → All (λ u. elem Host-discrete (host u) (k ∷ seen) ≡ false) us
    → (elem Host-discrete k (map host us) ≡ false)
      × All (λ u. elem Host-discrete (host u) seen ≡ false) us
unfolding elem
unseen k seen [] h = (refl, tt)
unseen k seen (u ∷ us) (h, hs) =
    let (none_later, rest) = unseen k seen us hs in
    let (fresh, apart) = elem-apart Host-discrete (host u) k seen (map host us) h none_later in
    (apart, (fresh, rest))

-- No address of the list was seen, and none occurs twice.
pub find_duplicate-Distinct :
    (seen : List (Addr × Text)) (us : List Upstream)
    → find_duplicate seen us ≡ none
    → All (λ u. elem Host-discrete (host u) seen ≡ false) us × Distinct Host-discrete (map host us)
unfolding find_duplicate elem
find_duplicate-Distinct seen [] h = (tt, tt)
find_duplicate-Distinct seen (u ∷ us) h = elim (Bool-cases (elem Host-discrete (host u) seen)) [
  | inl e ↦ cc (rw (find_duplicate, e) at h)
  | inr e ↦
      let next = rw (find_duplicate, e) at h in
      let (later, distinct) = find_duplicate-Distinct (host u ∷ seen) us next in
      let (apart, unseen_later) = unseen (host u) seen us later in
      ((e, unseen_later), (apart, distinct))
]

-- The words for a role.
abbrev pub words : Role → List Text
words auto = [] ∷ codes "auto" ∷ []
words china = codes "china" ∷ []
words foreign = codes "foreign" ∷ []

-- An upstream is what an entry of the file says: its address, its port or 53, and its role.
pub record IsRead (u : RawUpstream) (up : Upstream) : Type 0 where
  pub address : parse_addr u.addr ≡ some (host up)
  pub port_default : up.port ≡ (if is_zero u.port then pos 53 else u.port)
  pub port_between : Between 1 65535 up.port
  pub role_word : elem Text-discrete u.role (words up.role) ≡ true

-- The upstreams are the entries of the file, in their order.
abbrev pub AllRead : List RawUpstream → List Upstream → Type 0
AllRead [] [] = Unit
AllRead [] (up ∷ ups) = ⊥
AllRead (u ∷ us) [] = ⊥
AllRead (u ∷ us) (up ∷ ups) = IsRead u up × AllRead us ups

parse_role_lem :
    (i : ℕ) (s : Text) {role : Role}
    → parse_role i s ≡ ok role
    → elem Text-discrete s (words role) ≡ true
unfolding parse_role elem
parse_role_lem i [] h = ground (arith, h)
parse_role_lem i (c ∷ s) h = ground (arith, h)

parse_upstream-IsRead :
    (i : ℕ) (u : RawUpstream) {up : Upstream} → parse_upstream i u ≡ ok up → IsRead u up
unfolding parse_upstream bounded ltz
parse_upstream-IsRead i u h = grind (arith, h, parse_role_lem)

pub parse_upstreams-AllRead :
    (i : ℕ) (us : List RawUpstream) {ups : List Upstream}
    → parse_upstreams i us ≡ ok ups
    → AllRead us ups
unfolding parse_upstreams
parse_upstreams-AllRead i [] h = subst (AllRead []) (ok_inj refl h) tt
parse_upstreams-AllRead i (u ∷ us) h =
    let (up, first, next) = >>=-eq-ok _ (parse_upstream i u) h in
    let (rest, later, last) = >>=-eq-ok _ (parse_upstreams (suc i) us) next in
    subst (AllRead (u ∷ us)) (ok_inj refl last)
      (parse_upstream-IsRead i u first, parse_upstreams-AllRead (suc i) us later)

pub AllRead-Between :
    (us : List RawUpstream) (ups : List Upstream)
    → AllRead us ups
    → All (λ up. Between 1 65535 up.port) ups
AllRead-Between [] [] h = tt
AllRead-Between [] (up ∷ ups) h = absurd h
AllRead-Between (u ∷ us) [] h = absurd h
AllRead-Between (u ∷ us) (up ∷ ups) (h, hs) = (h.port_between, AllRead-Between us ups hs)
