-- ===== src/Server/Listener.antt =====
-- internal/server/server.go: the intake of datagrams and connections, the semaphore, the wait group and
-- the drain, as steps that may interleave in any order. A goroutine is the phase that it is in.
use chn_resolver_go.Prelude.{ℕ, suc, ◌-◌, ◌<◌, ◌≤◌, ◌≡◌, Bool, true, false, List, [], ◌∷◌}

-- A goroutine of `handleDatagram` before and while it counts as in flight; one of `handleTCPConn` between
-- two queries and in one; and either one with its two deferred calls ahead, or only the last of them.
pub data Phase : Type 0 where
  datagram_new datagram_busy conn_idle conn_busy ending released : Phase

-- Where an intake loop is: it reads, it waits for the semaphore, it has a token for a goroutine that is
-- not started yet, or it has returned.
pub data Intake : Type 0 where
  reading waiting holding stopped : Intake

-- `Server` with the counters that the listeners touch. The semaphore is the number of its tokens;
-- `started` counts the goroutines that were ever started.
pub record Listener : Type 0 where
  pub capacity : ℕ
  pub sem : ℕ
  pub wg : ℕ
  pub inflight : ℕ
  pub tasks : List Phase
  pub udp : Intake
  pub tcp : Intake
  pub cancelled : Bool
  pub queries_udp : ℕ
  pub queries_tcp : ℕ
  pub parse_error : ℕ
  pub dropped : ℕ
  pub started : ℕ

-- `New`, with the loops at their start.
unfoldable pub listen : ℕ → Listener
listen capacity = record {
  capacity = capacity;
  sem = 0;
  wg = 0;
  inflight = 0;
  tasks = [];
  udp = reading;
  tcp = reading;
  cancelled = false;
  queries_udp = 0;
  queries_tcp = 0;
  parse_error = 0;
  dropped = 0;
  started = 0;
}

-- The rounds of `serveUDP`: a datagram that does not unpack, one that finds the semaphore full, and one
-- that takes a token; then the start of its goroutine.
unfoldable pub udp_bad : Listener → Listener
udp_bad s = record s { queries_udp = suc s.queries_udp; parse_error = suc s.parse_error }

unfoldable pub udp_drop : Listener → Listener
udp_drop s = record s { queries_udp = suc s.queries_udp; dropped = suc s.dropped }

unfoldable pub udp_take : Listener → Listener
udp_take s = record s { queries_udp = suc s.queries_udp; sem = suc s.sem; udp = holding }

unfoldable pub udp_start : Listener → Listener
udp_start s = record s {
  wg = suc s.wg;
  tasks = datagram_new ∷ s.tasks;
  udp = reading;
  started = suc s.started;
}

-- The rounds of `serveTCP`: a connection waits for a token, and is closed when its time is over.
unfoldable pub tcp_accept : Listener → Listener
tcp_accept s = record s { queries_tcp = suc s.queries_tcp; tcp = waiting }

unfoldable pub tcp_drop : Listener → Listener
tcp_drop s = record s { dropped = suc s.dropped; tcp = reading }

unfoldable pub tcp_take : Listener → Listener
tcp_take s = record s { sem = suc s.sem; tcp = holding }

unfoldable pub tcp_start : Listener → Listener
tcp_start s = record s {
  wg = suc s.wg;
  tasks = conn_idle ∷ s.tasks;
  tcp = reading;
  started = suc s.started;
}

-- `Inflight.Add(1)` and `Inflight.Add(-1)` around `handleRequest`.
unfoldable pub begin : List Phase → Listener → Listener
begin tasks s = record s { tasks = tasks; inflight = suc s.inflight }

unfoldable pub finish : List Phase → Listener → Listener
finish tasks s = record s { tasks = tasks; inflight = s.inflight - 1 }

-- The deferred `<-s.sem`, then the deferred `wg.Done`.
unfoldable pub release : List Phase → Listener → Listener
release tasks s = record s { tasks = tasks; sem = s.sem - 1 }

unfoldable pub leave : List Phase → Listener → Listener
leave tasks s = record s { tasks = tasks; wg = s.wg - 1 }

pub data Begins : Phase → Phase → Type 0 where
  datagram : Begins datagram_new datagram_busy
  query : Begins conn_idle conn_busy

pub data Finishes : Phase → Phase → Type 0 where
  datagram : Finishes datagram_busy ending
  query : Finishes conn_busy conn_idle

-- One goroutine goes on to another phase.
pub data Turn (p q : Phase) : List Phase → List Phase → Type 0 where
  here : {ts : List Phase} → Turn p q (p ∷ ts) (q ∷ ts)
  there : {t : Phase} {ts us : List Phase} → Turn p q ts us → Turn p q (t ∷ ts) (t ∷ us)

-- One goroutine, in its last phase, ends.
pub data Leaves : List Phase → List Phase → Type 0 where
  here : {ts : List Phase} → Leaves (released ∷ ts) ts
  there : {t : Phase} {ts us : List Phase} → Leaves ts us → Leaves (t ∷ ts) (t ∷ us)

-- A step of an intake loop or of a goroutine, or the end of the context.
pub data Step : Listener → Listener → Type 0 where
  cancel : {s : Listener} → Step s (record s { cancelled = true })
  stop_udp :
      {s : Listener} → s.cancelled ≡ true → s.udp ≡ reading → Step s (record s { udp = stopped })
  stop_tcp :
      {s : Listener} → s.cancelled ≡ true → s.tcp ≡ reading → Step s (record s { tcp = stopped })
  bad_datagram : {s : Listener} → s.udp ≡ reading → Step s (udp_bad s)
  full_datagram : {s : Listener} → s.udp ≡ reading → s.capacity ≤ s.sem → Step s (udp_drop s)
  take_datagram : {s : Listener} → s.udp ≡ reading → s.sem < s.capacity → Step s (udp_take s)
  start_datagram : {s : Listener} → s.udp ≡ holding → Step s (udp_start s)
  accepted : {s : Listener} → s.tcp ≡ reading → Step s (tcp_accept s)
  late_conn : {s : Listener} → s.tcp ≡ waiting → Step s (tcp_drop s)
  take_conn : {s : Listener} → s.tcp ≡ waiting → s.sem < s.capacity → Step s (tcp_take s)
  start_conn : {s : Listener} → s.tcp ≡ holding → Step s (tcp_start s)
  begins :
      {s : Listener} {p q : Phase} {tasks : List Phase}
      → Begins p q
      → Turn p q s.tasks tasks
      → Step s (begin tasks s)
  finishes :
      {s : Listener} {p q : Phase} {tasks : List Phase}
      → Finishes p q
      → Turn p q s.tasks tasks
      → Step s (finish tasks s)
  closes :
      {s : Listener} {tasks : List Phase}
      → Turn conn_idle ending s.tasks tasks
      → Step s (record s { tasks = tasks })
  releases :
      {s : Listener} {tasks : List Phase}
      → Turn ending released s.tasks tasks
      → Step s (release tasks s)
  leaves : {s : Listener} {tasks : List Phase} → Leaves s.tasks tasks → Step s (leave tasks s)

pub data Steps : Listener → Listener → Type 0 where
  stay : {s : Listener} → Steps s s
  move : {s t u : Listener} → Step s t → Steps t u → Steps s u
