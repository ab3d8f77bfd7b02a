-- ===== src/Server/Frames.antt =====
-- `handleDatagram` and `handleTCPConn` of internal/server/server.go over bytes. What arrives on a
-- connection until it ends, or is idle for too long, is a list; `Pack`, `Unpack` and `Truncate` of
-- miekg/dns are parameters.
use mathlib.Core.Option
use chn_resolver_go.Prelude.{
  ℕ, zero, suc, ◌+◌, ◌*◌, ◌/◌, ◌%◌, ◌^◌, Bool, not, List, [], ◌∷◌, ◌++◌, Option, none, some,
  if◌then◌else◌, length,
}
use chn_resolver_go.Prelude.Int.{ℤ}
use chn_resolver_go.Text.{Text}
use chn_resolver_go.Cache.{Value}
use chn_resolver_go.Server.{
  Request, Response, Counter, Attempt, handle_request, max_udp_payload, truncate_size,
}

-- The server and the parts of miekg/dns that it calls.
pub record Serving : Type 0 where
  pub unpack : List ℕ → Option Request
  pub pack : Response → Option (List ℕ)
  pub truncate : ℕ → Response → Response
  pub timeout : ℤ

-- What a round of `handleTCPConn` meets: whether its two deadlines and its write succeed, what `forward`
-- observes, and what `Lookup` returns by then. The cache is shared, so that it is not the same in each
-- round: earlier rounds and other clients change it.
pub record Round : Type 0 where
  pub read_deadline_set : Bool
  pub lookup : Text → ℕ → Option Value
  pub attempts : List Attempt
  pub write_deadline_set : Bool
  pub written : Bool

-- What was written to the connection, frame by frame, and counted.
pub record Exchanged : Type 0 where
  pub frames : List (List ℕ)
  pub counters : List Counter

abbrev pub closed : List Counter → Exchanged
closed counters = record { frames = []; counters = counters }

-- `io.ReadFull`, with the bytes behind
unfoldable pub read_full : ℕ → List ℕ → Option (List ℕ × List ℕ)
read_full zero bytes = some ([], bytes)
read_full (suc n) [] = none
read_full (suc n) (b ∷ bytes) = Option.map (λ (got, rest). (b ∷ got, rest)) (read_full n bytes)

-- `binary.BigEndian.Uint16`, `PutUint16`
unfoldable pub big_endian : List ℕ → ℕ
big_endian (hi ∷ lo ∷ _) = hi * 256 + lo
big_endian _ = 0

abbrev pub put_uint16 : ℕ → List ℕ
put_uint16 n = n / 256 ∷ n % 256 ∷ []

-- The two reads of a round.
unfoldable pub read_frame : List ℕ → Option (List ℕ × List ℕ)
read_frame bytes = Option.bind (read_full 2 bytes) (λ (lb, rest). read_full (big_endian lb) rest)

-- The frame of a reply.
unfoldable pub make_frame : List ℕ → List ℕ
make_frame wire = put_uint16 (length wire % 2 ^ 16) ++ wire

unfoldable pub prepend : List ℕ → List Counter → Exchanged → Exchanged
prepend frame counters e = record { frames = frame ∷ e.frames; counters = counters ++ e.counters }

-- The rounds of `handleTCPConn` from round `i` on; `none` is out of fuel.
unfoldable pub handle_tcp_conn : Serving → (ℕ → Round) → ℕ → ℕ → List ℕ → Option Exchanged
handle_tcp_conn s rounds zero i bytes = none
handle_tcp_conn s rounds (suc fuel) i bytes =
    let round = rounds i in
    elim (if round.read_deadline_set then read_frame bytes else none) [
      | none ↦ some (closed [])
      | some (query, bytes) ↦ elim (s.unpack query) [
        | none ↦ some (closed [])
        | some req ↦
            let (resp, counters) = handle_request round.lookup s.timeout round.attempts req in
            let rest = handle_tcp_conn s rounds fuel (suc i) bytes in
            elim (s.pack resp) [
              | none ↦ some (closed counters)
              | some wire ↦
                  if not round.write_deadline_set
                  then some (closed counters)
                  else if not round.written
                  then some (closed counters)
                  else Option.map (prepend (make_frame wire) counters) rest
            ]
      ]
    ]

-- `handleDatagram`: the datagram that it writes, and what it counts.
unfoldable pub handle_datagram :
    Serving → (Text → ℕ → Option Value) → List Attempt → Request → Option (List ℕ) × List Counter
handle_datagram s lookup attempts req =
    let (resp, counters) = handle_request lookup s.timeout attempts req in
    (s.pack (s.truncate (truncate_size req max_udp_payload) resp), counters)
