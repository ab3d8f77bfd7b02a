-- ===== src/Tests/Framing.antt =====
-- A connection with the same query twice, and a third that is cut off.
use mathlib.Core.Option
use chn_resolver_go.Prelude.{
  ℕ, zero, suc, ◌<◌, ◌≡◌, refl, true, List, [], ◌∷◌, ◌++◌, arith, Option, none, some, length,
}
use chn_resolver_go.Prelude.Int.{pos}
use chn_resolver_go.Text.{Text}
use chn_resolver_go.Cache.{Value}
use chn_resolver_go.Server.{
  Request, Response, built, relayed, handle_request, handle_questions, rcode_reply, has_bad_version,
  is_foreign, conclude, synthesize, build_positive, apply_edns,
}
use chn_resolver_go.Server.Frames.{
  Serving, Round, read_full, big_endian, read_frame, handle_tcp_conn,
}
use chn_resolver_go.Server.Framing.{
  Query, IsServed, stream, counted, replies, handle_tcp_conn-served,
}
use chn_resolver_go.Tests.Serving.{question, found}

-- A message of one byte, its ID; a reply is the ID and the code.
abbrev request : ℕ → Request
request n = record { id = n; opcode = 0; question = question ∷ []; opt = none }

abbrev unpack_id : List ℕ → Option Request
unpack_id [] = none
unpack_id (n ∷ _) = some (request n)

abbrev pack_code : Response → Option (List ℕ)
pack_code (built r) = some (r.request.id ∷ Option.get_or r.rcode 0 ∷ [])
pack_code (relayed n m) = some (n ∷ [])

abbrev serving : Serving
serving = record { unpack = unpack_id; pack = pack_code; truncate = λ size r. r; timeout = pos 5 }

-- `Lookup` fails in the first round and finds an address from then on.
abbrev lookups : ℕ → Text → ℕ → Option Value
lookups zero = λ name qtype. none
lookups (suc i) = found

abbrev round : ℕ → Round
round i = record {
  read_deadline_set = true;
  lookup = lookups i;
  attempts = [];
  write_deadline_set = true;
  written = true;
}

-- The same query, with the code of its reply.
abbrev query : ℕ → Query
query rcode = record { bytes = 7 ∷ []; request = request 7; reply = 7 ∷ rcode ∷ [] }

failed-IsServed : IsServed serving round 0 (query 2)
unfolding handle_request handle_questions rcode_reply has_bad_version is_foreign conclude
failed-IsServed = record {
  small = omega arith;
  reply_small = omega arith;
  unpacked = refl;
  packed = refl;
  in_time = refl;
  deadline_set = refl;
  written = refl;
}

found-IsServed : IsServed serving round 1 (query 0)
unfolding handle_request handle_questions rcode_reply has_bad_version is_foreign conclude synthesize
    build_positive apply_edns
found-IsServed = record {
  small = omega arith;
  reply_small = omega arith;
  unpacked = refl;
  packed = refl;
  in_time = refl;
  deadline_set = refl;
  written = refl;
}

cut_off : read_frame (0 ∷ 9 ∷ 1 ∷ []) ≡ none
unfolding read_frame read_full big_endian Option.bind
cut_off = refl

abbrev queries : List Query
queries = query 2 ∷ query 0 ∷ []

abbrev arriving : List ℕ
arriving = stream queries ++ (0 ∷ 9 ∷ 1 ∷ [])

few_bytes : length arriving < 10
unfolding stream
few_bytes = omega arith

handle_tcp_conn-served_example :
    handle_tcp_conn serving round 10 0 arriving
    ≡ some (record { frames = replies queries; counters = counted serving round 0 queries })
handle_tcp_conn-served_example =
    handle_tcp_conn-served serving round 10 0 queries (0 ∷ 9 ∷ 1 ∷ [])
      (failed-IsServed, (found-IsServed, tt)) cut_off few_bytes

frames_run : replies queries ≡ (0 ∷ 2 ∷ 7 ∷ 2 ∷ []) ∷ (0 ∷ 2 ∷ 7 ∷ 0 ∷ []) ∷ []
frames_run = refl
