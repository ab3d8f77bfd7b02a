-- ===== src/Server/Framing.antt =====
-- A connection of internal/server/server.go from end to end: the frames of a client, and those it gets.
use mathlib.Core.Option
use chn_resolver_go.Prelude.{
  ℕ, zero, suc, ◌^◌, ◌<◌, ◌≡◌, refl, ap, ◌∙◌, true, List, [], ◌∷◌, ◌++◌, map, arith, none, some,
  length, append_assoc, Bool-cases, inl, inr,
}
use chn_resolver_go.Server.{Request, Counter, handle_request}
use chn_resolver_go.Server.Frames.{Serving, Round, closed, read_frame, prepend, handle_tcp_conn}
use chn_resolver_go.Server.Reads.{framed, make_frame-framed, read_frame-framed, length-framed}

-- A query, the request that it unpacks to, and the reply to it on the wire.
pub record Query : Type 0 where
  pub bytes : List ℕ
  pub request : Request
  pub reply : List ℕ

-- What a client sends and what it gets.
unfoldable pub stream : List Query → List ℕ
stream [] = []
stream (q ∷ qs) = framed q.bytes ++ stream qs

abbrev pub replies : List Query → List (List ℕ)
replies = map (λ q. framed q.reply)

module _ (s : Serving) (rounds : ℕ → Round) where
  -- The query is answered in round `i`.
  pub record IsServed (i : ℕ) (q : Query) : Type 0 where
    pub small : length q.bytes < 2 ^ 16
    pub reply_small : length q.reply < 2 ^ 16
    pub unpacked : s.unpack q.bytes ≡ some q.request
    pub packed :
        s.pack (handle_request (rounds i).lookup s.timeout (rounds i).attempts q.request).0
        ≡ some q.reply
    pub in_time : (rounds i).read_deadline_set ≡ true
    pub deadline_set : (rounds i).write_deadline_set ≡ true
    pub written : (rounds i).written ≡ true

  abbrev pub AllServed : ℕ → List Query → Type 0
  AllServed i [] = Unit
  AllServed i (q ∷ qs) = IsServed i q × AllServed (suc i) qs

  unfoldable pub counted : ℕ → List Query → List Counter
  counted i [] = []
  counted i (q ∷ qs) =
      (handle_request (rounds i).lookup s.timeout (rounds i).attempts q.request).1
      ++ counted (suc i) qs

  handle_tcp_conn-end :
      (fuel i : ℕ) (bytes : List ℕ)
      → read_frame bytes ≡ none
      → handle_tcp_conn s rounds (suc fuel) i bytes ≡ some (closed [])
  unfolding handle_tcp_conn
  handle_tcp_conn-end fuel i bytes e = elim (Bool-cases (rounds i).read_deadline_set) [
    | inl set ↦ ground (arith, set, e)
    | inr unset ↦ ground (arith, unset)
  ]

  handle_tcp_conn-next :
      (fuel i : ℕ) (q : Query) (bytes : List ℕ)
      → IsServed i q
      → handle_tcp_conn s rounds (suc fuel) i (framed q.bytes ++ bytes)
        ≡ Option.map
            (prepend
              (framed q.reply)
              (handle_request (rounds i).lookup s.timeout (rounds i).attempts q.request).1)
            (handle_tcp_conn s rounds fuel (suc i) bytes)
  unfolding handle_tcp_conn
  handle_tcp_conn-next fuel i q bytes h =
      ground (arith, h, read_frame-framed q.bytes bytes, make_frame-framed q.reply h.reply_small)

  -- A client that sends queries which unpack, each in its frame, and then bytes that make no whole frame,
  -- gets the replies of `handleRequest` in the order of its queries, each behind its length in two bytes;
  -- then the connection ends, and the counts are those of the queries. A round has its own answers of
  -- `Lookup`, so that a repeated query may get another reply. The replies pack into less than 2^16 bytes,
  -- the deadlines and writes succeed, and more rounds than bytes are enough.
  pub handle_tcp_conn-served :
      (fuel i : ℕ) (qs : List Query) (rest : List ℕ)
      → AllServed i qs
      → read_frame rest ≡ none
      → length (stream qs ++ rest) < fuel
      → handle_tcp_conn s rounds fuel i (stream qs ++ rest)
        ≡ some (record { frames = replies qs; counters = counted i qs })
  unfolding stream counted prepend
  handle_tcp_conn-served zero i qs rest h over enough = absurd (omega (arith, enough))
  handle_tcp_conn-served (suc fuel) i [] rest h over enough = handle_tcp_conn-end fuel i rest over
  handle_tcp_conn-served (suc fuel) i (q ∷ qs) rest h over enough =
      let split = append_assoc (framed q.bytes) (stream qs) rest in
      let fits : length (stream qs ++ rest) < fuel =
        omega (arith, enough, ap length split, length-framed q.bytes (stream qs ++ rest)) in
      ap (handle_tcp_conn s rounds (suc fuel) i) split
      ∙ handle_tcp_conn-next fuel i q (stream qs ++ rest) h.0
      ∙ rw (handle_tcp_conn-served fuel (suc i) qs rest h.1 over fits) refl
