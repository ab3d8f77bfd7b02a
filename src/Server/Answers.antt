-- ===== src/Server/Answers.antt =====
-- The replies of internal/server/handler.go, as internal/upstream reads them, and their sizes.
use mathlib.Core.List.{reverse, reverse-reverse, reverse-cons}
use chn_resolver_go.Prelude.{
  ℕ, ◌≡◌, ◌≤◌, refl, sym, ap, ◌∙◌, true, ◌||◌, List, [], ◌∷◌, ◌++◌, map, none, some, ltb, ◌==◌,
  arith, All, length, length-append, if◌then◌else◌, append_assoc, append-nil, inl, inr,
  Option-cases,
}
use chn_resolver_go.Net.{Addr, IsAddr, is4, bytes, value, unmap}
use chn_resolver_go.Dns.{Rr, type_a, type_aaaa}
use chn_resolver_go.China.Bits.{value-bytes, length-bytes}
use chn_resolver_go.Upstream.{collect_addrs, rr_addr, addr_from_slice}
use chn_resolver_go.Server.{
  Request, Question, Reply, Opt, as_slice, address_record, build_positive, apply_edns, edns_size,
  truncate_size, min_msg_size, max_udp_payload,
}

-- An address that a record of the type can hold.
abbrev pub IsOfType : ℕ → Addr → Type 0
IsOfType qtype a = IsAddr a × (qtype ≡ (if is4 a then type_a else type_aaaa))

len-reverse : (bs : List ℕ) → length (reverse bs) ≡ length bs
len-reverse [] = refl
len-reverse (b ∷ bs) =
    ap length (reverse-cons b bs)
    ∙ length-append (reverse bs) (b ∷ [])
    ∙ omega (arith, len-reverse bs)

addr_from_slice-as_slice : (a : Addr) → IsAddr a → addr_from_slice (as_slice a) ≡ some a
unfolding addr_from_slice as_slice
addr_from_slice-as_slice (Addr.v4 n) h =
    let four : length (reverse (bytes 4 n)) ≡ 4 = len-reverse (bytes 4 n) ∙ length-bytes 4 n in
    let back : value (reverse (reverse (bytes 4 n))) ≡ n =
      ap value (reverse-reverse (bytes 4 n)) ∙ value-bytes 4 n ∙ omega (arith, h) in
    rw (four, back, addr_from_slice) refl
addr_from_slice-as_slice (Addr.v6 n) h =
    let sixteen : length (reverse (bytes 16 n)) ≡ 16 =
      len-reverse (bytes 16 n) ∙ length-bytes 16 n in
    let back : value (reverse (reverse (bytes 16 n))) ≡ n =
      ap value (reverse-reverse (bytes 16 n)) ∙ value-bytes 16 n ∙ omega (arith, h) in
    rw (sixteen, back, addr_from_slice) refl

rr_addr-address_record :
    (q : Question) (ttl : ℕ) (a : Addr)
    → IsOfType q.qtype a
    → rr_addr (address_record q ttl a) ≡ some a
unfolding rr_addr address_record unmap
rr_addr-address_record q ttl (Addr.v4 n) (h, e) =
    ground (arith, e, addr_from_slice-as_slice (Addr.v4 n) h)
rr_addr-address_record q ttl (Addr.v6 n) (h, e) =
    ground (arith, e, addr_from_slice-as_slice (Addr.v6 n) h)

collect_found :
    (qtype : ℕ) (old : List Addr) (m : ℕ) (rr : Rr) (rrs : List Rr) (a : Addr)
    → rr.rrtype ≡ qtype
    → rr_addr rr ≡ some a
    → collect_addrs qtype old m (rr ∷ rrs)
      ≡ collect_addrs qtype (old ++ (a ∷ [])) (if m == 0 || ltb rr.ttl m then rr.ttl else m) rrs
unfolding collect_addrs
collect_found qtype old m rr rrs a t e =
    let test : (rr.rrtype == qtype) ≡ true = ground (arith, t) in rw (test, e, collect_addrs) refl

collect_rest :
    (q : Question) (ttl : ℕ) (old addrs : List Addr)
    → All (IsOfType q.qtype) addrs
    → collect_addrs q.qtype old ttl (map (address_record q ttl) addrs) ≡ (old ++ addrs, ttl)
unfolding collect_addrs address_record
collect_rest q ttl old [] h = ap (λ l. (l, ttl)) (sym (append-nil old))
collect_rest q ttl old (a ∷ addrs) h =
    let rrs : List Rr = map (address_record q ttl) addrs in
    let kept : (if ttl == 0 || ltb ttl ttl then ttl else ttl) ≡ ttl = ground arith in
    collect_found q.qtype old ttl (address_record q ttl a) rrs a refl
      (rr_addr-address_record q ttl a h.0)
    ∙ ap (λ m. collect_addrs q.qtype (old ++ (a ∷ [])) m rrs) kept
    ∙ collect_rest q ttl (old ++ (a ∷ [])) addrs h.1
    ∙ ap (λ l. (l, ttl)) (append_assoc old (a ∷ []) addrs)

-- What `collectAddrs` of this program reads from a positive reply is what the reply was built of: the
-- addresses in their order, and the TTL, for at least one address, all of the type of the question.
pub collect_addrs-build_positive :
    (req : Request) (q : Question) (a : Addr) (addrs : List Addr) (ttl : ℕ)
    → All (IsOfType q.qtype) (a ∷ addrs)
    → collect_addrs q.qtype [] 0 (build_positive req q (a ∷ addrs) ttl).answer ≡ (a ∷ addrs, ttl)
unfolding collect_addrs build_positive address_record
collect_addrs-build_positive req q a addrs ttl h =
    collect_found q.qtype [] 0 (address_record q ttl a) (map (address_record q ttl) addrs) a refl
      (rr_addr-address_record q ttl a h.0)
    ∙ collect_rest q ttl (a ∷ []) addrs h.1

edns_size-between :
    (n : ℕ)
    → (min_msg_size ≤ edns_size n)
      × (edns_size n ≤ max_udp_payload)
      × (min_msg_size ≤ n → n ≤ max_udp_payload → edns_size n ≡ n)
unfolding edns_size
edns_size-between n = ground arith

-- A reply without an OPT, to a request with one, gets an OPT whose size is between the least message
-- size and the maximum payload, and is the advertised one when that is.
pub apply_edns-between :
    (req : Request) (resp : Reply) (opt : Opt)
    → req.opt ≡ some opt
    → resp.edns ≡ none
    → (size : ℕ) × ((apply_edns req resp).edns ≡ some size)
      × (min_msg_size ≤ size)
      × (size ≤ max_udp_payload)
      × (min_msg_size ≤ opt.udp_size → opt.udp_size ≤ max_udp_payload → size ≡ opt.udp_size)
unfolding apply_edns
apply_edns-between req resp opt e n =
    let (low, high, kept) = edns_size-between opt.udp_size in
    (edns_size opt.udp_size, rw (e, n, apply_edns) refl, low, high, kept)

-- A UDP reply is cut to a size between the least message size and the maximum payload.
truncate_size-between :
    (req : Request) (max_payload : ℕ)
    → min_msg_size ≤ max_payload
    → (min_msg_size ≤ truncate_size req max_payload) × (truncate_size req max_payload ≤ max_payload)
unfolding truncate_size
truncate_size-between req max_payload h = elim (Option-cases req.opt) [
  | inl e ↦ ground (arith, e, h)
  | inr (opt, e) ↦ ground (arith, e, h)
]
