-- ===== src/Upstream/Ttl.antt =====
-- The TTL that `Chase` of internal/upstream/chase.go reports beside the addresses.
use chn_resolver_go.Prelude.{
  ℕ, ◌≤◌, ◌<◌, ◌≡◌, refl, true, ◌||◌, List, [], ◌∷◌, ◌++◌, arith, Option-cases, inl, inr, Option,
  none, some, ◌⊎◌, ◌==◌, if◌then◌else◌, ltb, All, any, ◌≢◌, append_assoc, append-nil,
}
use chn_resolver_go.Net.{Addr}
use chn_resolver_go.Dns.{Rr}
use chn_resolver_go.Upstream.{collect_addrs, rr_addr}

-- The address that a record of the queried type carries.
abbrev pub address_of : ℕ → Rr → Option Addr
address_of qtype rr = if rr.rrtype == qtype then rr_addr rr else none

-- The records that carry an address, as addresses and as TTLs, in order.
unfoldable pub addresses : ℕ → List Rr → List Addr
addresses qtype [] = []
addresses qtype (rr ∷ rrs) = elim (address_of qtype rr) [
  | none ↦ addresses qtype rrs
  | some ip ↦ ip ∷ addresses qtype rrs
]

unfoldable pub ttls : ℕ → List Rr → List ℕ
ttls qtype [] = []
ttls qtype (rr ∷ rrs) = elim (address_of qtype rr) [
  | none ↦ ttls qtype rrs
  | some _ ↦ rr.ttl ∷ ttls qtype rrs
]

-- The variable `minTTL` over a list of TTLs.
step_ttl : ℕ → ℕ → ℕ
step_ttl m t = if m == 0 || ltb t m then t else m

run_ttl : ℕ → List ℕ → ℕ
run_ttl m [] = m
run_ttl m (t ∷ ts) = run_ttl (step_ttl m t) ts

collect_addrs-addresses :
    (qtype : ℕ) (old : List Addr) (m : ℕ) (rrs : List Rr)
    → (collect_addrs qtype old m rrs).0 ≡ old ++ addresses qtype rrs
unfolding collect_addrs addresses
collect_addrs-addresses qtype old m [] = ground (arith, append-nil old)
collect_addrs-addresses qtype old m (rr ∷ rrs) = elim (Option-cases (address_of qtype rr)) [
  | inl e ↦ ground (arith, collect_addrs-addresses qtype old m rrs)
  | inr (ip, e) ↦ ground (
    arith,
    collect_addrs-addresses qtype (old ++ ip ∷ []) (if m == 0 || ltb rr.ttl m then rr.ttl else m)
        rrs,
    append_assoc old (ip ∷ []) (addresses qtype rrs),
  )
]

collect_addrs-ttl :
    (qtype : ℕ) (old : List Addr) (m : ℕ) (rrs : List Rr)
    → (collect_addrs qtype old m rrs).1 ≡ run_ttl m (ttls qtype rrs)
unfolding collect_addrs ttls run_ttl step_ttl
collect_addrs-ttl qtype old m [] = refl
collect_addrs-ttl qtype old m (rr ∷ rrs) = elim (Option-cases (address_of qtype rr)) [
  | inl e ↦ ground (arith, collect_addrs-ttl qtype old m rrs)
  | inr (ip, e) ↦ ground (
    arith,
    collect_addrs-ttl qtype (old ++ ip ∷ []) (if m == 0 || ltb rr.ttl m then rr.ttl else m) rrs,
  )
]

abbrev pub IsPositive : ℕ → Type 0
IsPositive t = 0 < t

-- Over positive TTLs the variable stays below all of them, and is the first or one of them.
run_ttl-le :
    (m : ℕ) (ts : List ℕ)
    → 0 < m
    → All IsPositive ts
    → (run_ttl m ts ≤ m) × All (λ t. run_ttl m ts ≤ t) ts
unfolding run_ttl step_ttl
run_ttl-le m [] h p = (omega arith, tt)
run_ttl-le m (t ∷ ts) h p =
    let (low, rest) = run_ttl-le (step_ttl m t) ts (ground arith) p.1 in
    (ground arith, (ground arith, rest))

run_ttl-at : (m : ℕ) (ts : List ℕ) → (run_ttl m ts ≡ m) ⊎ (any (λ t. run_ttl m ts == t) ts ≡ true)
unfolding run_ttl step_ttl any
run_ttl-at m [] = inl refl
run_ttl-at m (t ∷ ts) = ground (arith, run_ttl-at (step_ttl m t) ts)

run_ttl-pos : (m : ℕ) (ts : List ℕ) → 0 < m → All IsPositive ts → 0 < run_ttl m ts
unfolding run_ttl step_ttl
run_ttl-pos m [] h p = h
run_ttl-pos m (t ∷ ts) h p = run_ttl-pos (step_ttl m t) ts (ground arith) p.1

run_ttl-IsMin :
    (ts : List ℕ)
    → All IsPositive ts
    → ts ≢ []
    → All (λ t. run_ttl 0 ts ≤ t) ts × (any (λ t. run_ttl 0 ts == t) ts ≡ true)
unfolding run_ttl step_ttl any
run_ttl-IsMin [] p h = absurd (h refl)
run_ttl-IsMin (t ∷ ts) p h =
    let (low, rest) = run_ttl-le t ts p.0 p.1 in ((low, rest), ground (arith, run_ttl-at t ts))

run_ttl-zero_lost :
    (m : ℕ) (before : List ℕ) (t : ℕ) (ts : List ℕ)
    → All IsPositive (t ∷ ts)
    → 0 < run_ttl m (before ++ (0 ∷ t ∷ ts))
unfolding run_ttl step_ttl
run_ttl-zero_lost m [] t ts p = ground (arith, run_ttl-pos t ts)
run_ttl-zero_lost m (b ∷ before) t ts p = run_ttl-zero_lost (step_ttl m b) before t ts p

-- When the answer has an address record and all of them have positive TTLs, the TTL collected is the
-- least of theirs.
pub collect_addrs-IsMin :
    (qtype : ℕ) (rrs : List Rr)
    → All IsPositive (ttls qtype rrs)
    → ttls qtype rrs ≢ []
    → let ttl = (collect_addrs qtype [] 0 rrs).1 in
      All (λ t. ttl ≤ t) (ttls qtype rrs) × (any (λ t. ttl == t) (ttls qtype rrs) ≡ true)
collect_addrs-IsMin qtype rrs p some_ttl =
    rw (collect_addrs-ttl qtype [] 0 rrs) (run_ttl-IsMin (ttls qtype rrs) p some_ttl)

-- When an address record of TTL 0 comes before one of positive TTL, and all after it are positive, the
-- TTL collected is positive: the zero is lost.
pub zero_ttl_lost :
    (qtype : ℕ) (rrs : List Rr) (before : List ℕ) (t : ℕ) (ts : List ℕ)
    → ttls qtype rrs ≡ before ++ (0 ∷ t ∷ ts)
    → All IsPositive (t ∷ ts)
    → 0 < (collect_addrs qtype [] 0 rrs).1
zero_ttl_lost qtype rrs before t ts e p =
    rw (collect_addrs-ttl qtype [] 0 rrs, e) (run_ttl-zero_lost 0 before t ts p)
