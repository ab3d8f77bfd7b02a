-- ===== src/Tests/Listening.antt =====
-- Runs of the listeners.
use chn_resolver_go.Prelude.{◌≡◌, ◌≤◌, refl, true, [], ◌∷◌, arith}
use chn_resolver_go.Server.Listener.{
  Listener, listen, udp_take, udp_start, begin, finish, Begins, Finishes, ending, here, Step, Steps,
  stay, move, datagram_busy, stopped, udp_drop,
}
use chn_resolver_go.Server.Admission.{IsAdmitted, Steps-IsAdmitted}
use chn_resolver_go.Server.Drain.{Drains, Steps-drained}

-- One datagram in work, with room for one; the second is dropped.
abbrev one_busy : Listener
one_busy = udp_drop (begin (datagram_busy ∷ []) (udp_start (udp_take (listen 1))))

one_busy_steps : Steps (listen 1) one_busy
unfolding listen udp_take udp_start begin udp_drop
one_busy_steps = move (Step.take_datagram refl (omega arith)) (
    move (Step.start_datagram refl)
      (move (Step.begins Begins.datagram here) (move (Step.full_datagram refl (omega arith)) stay)))

Steps-IsAdmitted_example : IsAdmitted one_busy × (one_busy.capacity ≡ 1) × (one_busy.inflight ≤ 1)
Steps-IsAdmitted_example = Steps-IsAdmitted 1 one_busy_steps

dropped_run : one_busy.dropped ≡ 1
unfolding listen udp_take udp_start begin udp_drop
dropped_run = refl

-- The context ends while a datagram is in `handleRequest`.
abbrev closing : Listener
closing = record (begin (datagram_busy ∷ []) (udp_start (udp_take (listen 1)))) {
  cancelled = true;
  udp = stopped;
  tcp = stopped;
}

closing_steps : Steps (listen 1) closing
unfolding listen udp_take udp_start begin
closing_steps = move (Step.take_datagram refl (omega arith)) (
    move (Step.start_datagram refl) (
      move (Step.begins Begins.datagram here)
        (move Step.cancel (move (Step.stop_udp refl refl) (move (Step.stop_tcp refl refl) stay)))))

-- The query is answered, and its goroutine is about to give its token back.
abbrev draining : Listener
draining = finish (ending ∷ []) closing

draining_steps : Steps closing draining
unfolding begin
draining_steps = move (Step.finishes Finishes.datagram here) stay

Steps-drained_example :
    Drains closing draining
    × (u : Listener) × Steps draining u
    × (u.wg ≡ 0)
    × (u.sem ≡ 0)
    × (u.inflight ≡ 0)
Steps-drained_example =
    Steps-drained 1 closing_steps (record { no_udp = refl; no_tcp = refl }) draining_steps
