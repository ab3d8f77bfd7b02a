-- ===== src/Server/Endings.antt =====
-- How a connection of internal/server/server.go ends, whatever arrives on it.
use chn_resolver_go.Prelude.{
  ℕ, suc, ◌^◌, ◌<◌, ◌≡◌, false, List, [], ◌∷◌, ◌++◌, none, some, length, ◌⊎◌,
}
use chn_resolver_go.Server.{Request, Response, Counter, handle_request}
use chn_resolver_go.Server.Frames.{Serving, Round, Exchanged, read_frame, handle_tcp_conn}
use chn_resolver_go.Server.Framing.{Query, stream, replies, AllServed, counted}

-- `Pack` yields messages whose length fits two bytes.
abbrev pub PacksShort : Serving → Type 0
PacksShort s = (r : Response) (wire : List ℕ) → s.pack r ≡ some wire → length wire < 2 ^ 16

module _ (s : Serving) (rounds : ℕ → Round) where
  -- Why a round ends the connection, and what it has counted.
  pub data Ends (i : ℕ) (bytes : List ℕ) : List Counter → Type 0 where
    no_deadline : (rounds i).read_deadline_set ≡ false → Ends i bytes []
    no_frame : read_frame bytes ≡ none → Ends i bytes []
    malformed :
        {query rest : List ℕ}
        → read_frame bytes ≡ some (query, rest)
        → s.unpack query ≡ none
        → Ends i bytes []
    unsent :
        {query rest : List ℕ} {req : Request}
        → read_frame bytes ≡ some (query, rest)
        → s.unpack query ≡ some req
        → (s.pack (handle_request (rounds i).lookup s.timeout (rounds i).attempts req).0 ≡ none)
          ⊎ ((rounds i).write_deadline_set ≡ false)
          ⊎ ((rounds i).written ≡ false)
        → Ends i bytes (handle_request (rounds i).lookup s.timeout (rounds i).attempts req).1

  -- The round behind these queries ends the connection.
  abbrev pub EndsAfter : ℕ → List Query → List ℕ → List Counter → Type 0
  EndsAfter i [] rest last = Ends i rest last
  EndsAfter i (q ∷ qs) rest last = EndsAfter (suc i) qs rest last

  -- The queries at the front of the bytes that were answered, and the end behind them.
  pub record Answered (i : ℕ) (bytes : List ℕ) (e : Exchanged) : Type 0 where
    pub queries : List Query
    pub rest : List ℕ
    pub last : List Counter
    pub parts : bytes ≡ stream queries ++ rest
    pub served : AllServed s rounds i queries
    pub ended : EndsAfter i queries rest last
    pub frames : e.frames ≡ replies queries
    pub counters : e.counters ≡ counted s rounds i queries ++ last

  -- A run of the connection from round `i` on.
  abbrev Run : ℕ → ℕ → List ℕ → Type 0
  Run fuel i bytes =
      (e : Exchanged) × (handle_tcp_conn s rounds fuel i bytes ≡ some e) × Answered i bytes e
