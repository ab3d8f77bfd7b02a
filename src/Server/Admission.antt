-- ===== src/Server/Admission.antt =====
-- The listeners of internal/server/server.go in every state that they can reach.
use chn_resolver_go.Prelude.{ℕ, suc, ◌+◌, ◌≤◌, ◌≡◌, refl, ◌∙◌, List, [], ◌∷◌, arith, length}
use chn_resolver_go.Server.Listener.{
  Phase, datagram_busy, conn_busy, released, Intake, waiting, holding, Listener, listen, udp_bad,
  udp_drop, udp_take, udp_start, tcp_accept, tcp_drop, tcp_take, tcp_start, begin, finish, release,
  leave, Begins, Finishes, Turn, Leaves, here, there, Step, Steps, stay, move,
}

-- Whether a goroutine has a token, and whether it counts as in flight.
abbrev pub holds : Phase → ℕ
holds released = 0
holds _ = 1

abbrev pub is_busy : Phase → ℕ
is_busy datagram_busy = 1
is_busy conn_busy = 1
is_busy _ = 0

unfoldable pub total : (Phase → ℕ) → List Phase → ℕ
total weight [] = 0
total weight (t ∷ ts) = weight t + total weight ts

-- Of an intake loop: the tokens it has, and the clients it has counted and not yet handed on.
abbrev pub tokens : Intake → ℕ
tokens holding = 1
tokens _ = 0

abbrev pub pending : Intake → ℕ
pending holding = 1
pending waiting = 1
pending _ = 0

total-Turn :
    (weight : Phase → ℕ) {p q : Phase} {ts us : List Phase}
    → Turn p q ts us
    → total weight us + weight p ≡ total weight ts + weight q
unfolding total
total-Turn weight here = omega arith
total-Turn weight (there t) = omega (arith, total-Turn weight t)

length-Turn : {p q : Phase} {ts us : List Phase} → Turn p q ts us → length us ≡ length ts
length-Turn here = refl
length-Turn (there t) = omega (arith, length-Turn t)

total-Leaves :
    (weight : Phase → ℕ) {ts us : List Phase}
    → Leaves ts us
    → total weight ts ≡ total weight us + weight released
unfolding total
total-Leaves weight here = omega arith
total-Leaves weight (there t) = omega (arith, total-Leaves weight t)

length-Leaves : {ts us : List Phase} → Leaves ts us → length ts ≡ suc (length us)
length-Leaves here = refl
length-Leaves (there t) = omega (arith, length-Leaves t)

-- The semaphore has the tokens of the goroutines and of the loops, and no more than it has room for; the
-- wait group and the gauge count the goroutines; and every client was counted once.
pub record IsAdmitted (s : Listener) : Type 0 where
  pub room : s.sem ≤ s.capacity
  pub held : s.sem ≡ total holds s.tasks + tokens s.udp + tokens s.tcp
  pub waited : s.wg ≡ length s.tasks
  pub gauge : s.inflight ≡ total is_busy s.tasks
  pub counted :
      s.queries_udp + s.queries_tcp
      ≡ s.parse_error + s.dropped + s.started + pending s.udp + pending s.tcp

listen-IsAdmitted : (capacity : ℕ) → IsAdmitted (listen capacity)
unfolding listen total
listen-IsAdmitted capacity = record {
  room = omega arith;
  held = refl;
  waited = refl;
  gauge = refl;
  counted = refl;
}

Step-IsAdmitted : {s t : Listener} → Step s t → IsAdmitted s → IsAdmitted t
unfolding udp_bad udp_drop udp_take udp_start tcp_accept tcp_drop tcp_take tcp_start begin finish
    release leave total
Step-IsAdmitted Step.cancel v = record {
  room = v.room;
  held = v.held;
  waited = v.waited;
  gauge = v.gauge;
  counted = v.counted;
}
Step-IsAdmitted (Step.stop_udp e r) v = ground (arith, v, e, r)
Step-IsAdmitted (Step.stop_tcp e r) v = ground (arith, v, e, r)
Step-IsAdmitted (Step.bad_datagram r) v = ground (arith, v, r)
Step-IsAdmitted (Step.full_datagram r full) v = ground (arith, v, r)
Step-IsAdmitted (Step.take_datagram r free) v = ground (arith, v, r, free)
Step-IsAdmitted (Step.start_datagram h) v = ground (arith, v, h)
Step-IsAdmitted (Step.accepted r) v = ground (arith, v, r)
Step-IsAdmitted (Step.late_conn w) v = ground (arith, v, w)
Step-IsAdmitted (Step.take_conn w free) v = ground (arith, v, w, free)
Step-IsAdmitted (Step.start_conn h) v = ground (arith, v, h)
Step-IsAdmitted (Step.begins Begins.datagram t) v =
    ground (arith, v, total-Turn holds t, total-Turn is_busy t, length-Turn t)
Step-IsAdmitted (Step.begins Begins.query t) v =
    ground (arith, v, total-Turn holds t, total-Turn is_busy t, length-Turn t)
Step-IsAdmitted (Step.finishes Finishes.datagram t) v =
    ground (arith, v, total-Turn holds t, total-Turn is_busy t, length-Turn t)
Step-IsAdmitted (Step.finishes Finishes.query t) v =
    ground (arith, v, total-Turn holds t, total-Turn is_busy t, length-Turn t)
Step-IsAdmitted (Step.closes t) v =
    ground (arith, v, total-Turn holds t, total-Turn is_busy t, length-Turn t)
Step-IsAdmitted (Step.releases t) v =
    ground (arith, v, total-Turn holds t, total-Turn is_busy t, length-Turn t)
Step-IsAdmitted (Step.leaves t) v =
    ground (arith, v, total-Leaves holds t, total-Leaves is_busy t, length-Leaves t)

-- A busy goroutine has its token.
busy_le : (ts : List Phase) → total is_busy ts ≤ total holds ts
unfolding total
busy_le [] = omega arith
busy_le (t ∷ ts) = ground (arith, busy_le ts)

Step-capacity : {s t : Listener} → Step s t → t.capacity ≡ s.capacity
unfolding udp_bad udp_drop udp_take udp_start tcp_accept tcp_drop tcp_take tcp_start begin finish
    release leave
Step-capacity Step.cancel = refl
Step-capacity (Step.stop_udp _ _) = refl
Step-capacity (Step.stop_tcp _ _) = refl
Step-capacity (Step.bad_datagram _) = refl
Step-capacity (Step.full_datagram _ _) = refl
Step-capacity (Step.take_datagram _ _) = refl
Step-capacity (Step.start_datagram _) = refl
Step-capacity (Step.accepted _) = refl
Step-capacity (Step.late_conn _) = refl
Step-capacity (Step.take_conn _ _) = refl
Step-capacity (Step.start_conn _) = refl
Step-capacity (Step.begins _ _) = refl
Step-capacity (Step.finishes _ _) = refl
Step-capacity (Step.closes _) = refl
Step-capacity (Step.releases _) = refl
Step-capacity (Step.leaves _) = refl

pub Steps-kept :
    {s t : Listener} → Steps s t → IsAdmitted s → IsAdmitted t × (t.capacity ≡ s.capacity)
Steps-kept stay v = (v, refl)
Steps-kept (move step steps) v =
    let (w, same) = Steps-kept steps (Step-IsAdmitted step v) in (w, same ∙ Step-capacity step)

-- Whatever the order of the steps: the semaphore holds a token for each goroutine that has not given it
-- back and for each loop about to start one, at most its capacity; the wait group counts the goroutines
-- and the gauge those in `handleRequest`, so that no more queries than the capacity are in flight; and
-- each datagram and connection was a parse error, was dropped, had its goroutine started, or is next.
pub Steps-IsAdmitted :
    (capacity : ℕ) {s : Listener}
    → Steps (listen capacity) s
    → IsAdmitted s × (s.capacity ≡ capacity) × (s.inflight ≤ capacity)
unfolding listen
Steps-IsAdmitted capacity {s = s} steps =
    let (v, same) = Steps-kept steps (listen-IsAdmitted capacity) in
    (v, same, omega (arith, v.room, v.held, v.gauge, busy_le s.tasks, same))
