-- ===== src/Server/Drain.antt =====
-- The drain of `ListenAndServe` in internal/server/server.go: after both intake loops have returned.
use chn_resolver_go.Prelude.{
  ℕ, ◌+◌, ◌≤◌, ◌≡◌, refl, sym, ap, subst, ◌∙◌, List, [], ◌∷◌, arith, length,
}
use chn_resolver_go.Server.Listener.{
  Phase, datagram_new, datagram_busy, conn_idle, conn_busy, ending, released, stopped, Listener,
  listen, begin, finish, release, leave, Begins, Finishes, Turn, Leaves, here, Step, Steps, stay,
  move,
}
use chn_resolver_go.Server.Admission.{total, holds, is_busy, tokens, Steps-IsAdmitted, Steps-kept}

pub record HasStopped (s : Listener) : Type 0 where
  pub no_udp : s.udp ≡ stopped
  pub no_tcp : s.tcp ≡ stopped

-- After both loops have returned, no goroutine is started.
pub record Drains (s t : Listener) : Type 0 where
  pub over : HasStopped t
  pub fewer : t.wg ≤ s.wg
  pub none_started : t.started ≡ s.started

Step-Drains : {s t : Listener} → Step s t → HasStopped s → Drains s t
unfolding begin finish release leave
Step-Drains Step.cancel h = record {
  over = record { no_udp = h.no_udp; no_tcp = h.no_tcp };
  fewer = omega arith;
  none_started = refl;
}
Step-Drains (Step.stop_udp _ r) h = cc (h.no_udp, r)
Step-Drains (Step.stop_tcp _ r) h = cc (h.no_tcp, r)
Step-Drains (Step.bad_datagram r) h = cc (h.no_udp, r)
Step-Drains (Step.full_datagram r _) h = cc (h.no_udp, r)
Step-Drains (Step.take_datagram r _) h = cc (h.no_udp, r)
Step-Drains (Step.start_datagram r) h = cc (h.no_udp, r)
Step-Drains (Step.accepted r) h = cc (h.no_tcp, r)
Step-Drains (Step.late_conn r) h = cc (h.no_tcp, r)
Step-Drains (Step.take_conn r _) h = cc (h.no_tcp, r)
Step-Drains (Step.start_conn r) h = cc (h.no_tcp, r)
Step-Drains (Step.begins _ _) h = ground (arith, h)
Step-Drains (Step.finishes _ _) h = ground (arith, h)
Step-Drains (Step.closes _) h = ground (arith, h)
Step-Drains (Step.releases _) h = ground (arith, h)
Step-Drains (Step.leaves _) h = ground (arith, h)

Steps-Drains : {s t : Listener} → Steps s t → HasStopped s → Drains s t
Steps-Drains stay h = record { over = h; fewer = omega arith; none_started = refl }
Steps-Drains (move step steps) h =
    let first = Step-Drains step h in
    let rest = Steps-Drains steps first.over in
    record {
      over = rest.over;
      fewer = omega (arith, rest.fewer, first.fewer);
      none_started = rest.none_started ∙ first.none_started;
    }

Steps-append : {s t u : Listener} → Steps s t → Steps t u → Steps s u
Steps-append stay later = later
Steps-append (move step steps) later = move step (Steps-append steps later)

-- The goroutines after the first one are left when it has run to its end.
Clears : Listener → List Phase → Type 0
Clears s ts = (t : Listener) × Steps s t × (t.tasks ≡ ts)

-- A step of the first goroutine, before what clears the rest.
first-Turn :
    (s : Listener) (p : Phase) (ts : List Phase) {q : Phase}
    → s.tasks ≡ p ∷ ts
    → Turn p q s.tasks (q ∷ ts)
first-Turn s p ts {q = q} e = subst (λ l. Turn p q l (q ∷ ts)) (sym e) here

clear_released : (s : Listener) (ts : List Phase) → s.tasks ≡ released ∷ ts → Clears s ts
unfolding Clears leave
clear_released s ts e =
    (leave ts s, move (Step.leaves (subst (λ l. Leaves l ts) (sym e) here)) stay, refl)

clear_ending : (s : Listener) (ts : List Phase) → s.tasks ≡ ending ∷ ts → Clears s ts
unfolding Clears release
clear_ending s ts e =
    let (t, steps, left) = clear_released (release (released ∷ ts) s) ts refl in
    (t, move (Step.releases (first-Turn s ending ts e)) steps, left)

clear_conn : (s : Listener) (ts : List Phase) → s.tasks ≡ conn_idle ∷ ts → Clears s ts
unfolding Clears
clear_conn s ts e =
    let (t, steps, left) = clear_ending (record s { tasks = ending ∷ ts }) ts refl in
    (t, move (Step.closes (first-Turn s conn_idle ts e)) steps, left)

clear_first : (s : Listener) (p : Phase) (ts : List Phase) → s.tasks ≡ p ∷ ts → Clears s ts
unfolding Clears begin finish
clear_first s released ts e = clear_released s ts e
clear_first s ending ts e = clear_ending s ts e
clear_first s conn_idle ts e = clear_conn s ts e
clear_first s conn_busy ts e =
    let (t, steps, left) = clear_conn (finish (conn_idle ∷ ts) s) ts refl in
    (t, move (Step.finishes Finishes.query (first-Turn s conn_busy ts e)) steps, left)
clear_first s datagram_busy ts e =
    let (t, steps, left) = clear_ending (finish (ending ∷ ts) s) ts refl in
    (t, move (Step.finishes Finishes.datagram (first-Turn s datagram_busy ts e)) steps, left)
clear_first s datagram_new ts e =
    let busy = begin (datagram_busy ∷ ts) s in
    let (t, steps, left) = clear_ending (finish (ending ∷ ts) busy) ts refl in
    (
      t,
      move (Step.begins Begins.datagram (first-Turn s datagram_new ts e))
          (move (Step.finishes Finishes.datagram here) steps),
      left,
    )

clear_all : (ts : List Phase) (s : Listener) → s.tasks ≡ ts → Clears s []
unfolding Clears
clear_all [] s e = (s, stay, e)
clear_all (p ∷ ts) s e =
    let (t, steps, left) = clear_first s p ts e in
    let (u, later, none_left) = clear_all ts t left in (u, Steps-append steps later, none_left)

-- After both intake loops have returned, in a state that the listeners can reach, whatever happens next:
-- no goroutine is started and the wait group does not grow; and the goroutines that are left can run to
-- their ends, with the wait group, the semaphore and the gauge at zero, so that the drain can complete.
pub Steps-drained :
    (capacity : ℕ) {s t : Listener}
    → Steps (listen capacity) s
    → HasStopped s
    → Steps s t
    → Drains s t × (u : Listener) × Steps t u × (u.wg ≡ 0) × (u.sem ≡ 0) × (u.inflight ≡ 0)
unfolding Clears total
Steps-drained capacity {t = t} before h more =
    let drains = Steps-Drains more h in
    let v = (Steps-IsAdmitted capacity (Steps-append before more)).0 in
    let (u, later, empty) = clear_all t.tasks t refl in
    let w = (Steps-kept later v).0 in
    let over = (Steps-Drains later drains.over).over in
    (
      drains,
      u,
      later,
      w.waited ∙ ap length empty,
      w.held
          ∙ ap (λ ts. total holds ts + tokens u.udp + tokens u.tcp) empty
          ∙ ground (arith, over.no_udp, over.no_tcp),
      w.gauge ∙ ap (total is_busy) empty,
    )
