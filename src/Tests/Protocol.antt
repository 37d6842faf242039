-- ===== src/Tests/Protocol.antt =====
-- Requests that come over a link in pieces, to a reader with small regions.
use quarkdb.Base.{
  ◌+◌, ◌≡◌, refl, false, List, [], ◌∷◌, ◌++◌, Bytes, codes, ℤ, pos, Result, ok, arith,
}
use quarkdb.Raft.Parsing.{parse_int64, decimal, to_int32}
use quarkdb.Protocol.Link.{Received, bytes, pieces}
use quarkdb.Protocol.BufferedReader.{
  BufferedReader, new_reader, consume, consume_buffer, consume_internal, consume_pinned,
  can_consume, read_from_link, read_loop,
}
use quarkdb.Protocol.BufferedReader.Pending.{IsReader, pending}
use quarkdb.Protocol.BufferedReader.Reading.{pinned_reads_agree}
use quarkdb.Protocol.BufferedReader.Filling.{read_loop_enough}
use quarkdb.Protocol.RedisParser.{
  RedisParser, new_parser, fetch, read_integer, check_integer, read_element, read_string,
}
use quarkdb.Protocol.RedisParser.Requests.{fetch_resumes}
use quarkdb.Protocol.RedisParser.Progress.{IsRequest, IsIdle, Fetches}
use quarkdb.Protocol.RedisParser.Pipelines.{
  IsBefore, IsIdle-IsBefore, encode_all, calls, calls_return_requests,
}

abbrev set_request : List Bytes
set_request = codes "SET" ∷ codes "k" ∷ codes "value" ∷ []

abbrev get_request : List Bytes
get_request = codes "GET" ∷ codes "k" ∷ []

abbrev sent : List (List Bytes)
sent = set_request ∷ get_request ∷ []

abbrev arrivals : List Received
arrivals =
    bytes (codes "*3\r\n$")
    ∷ bytes []
    ∷ bytes (codes "3\r\nSET\r\n$1\r\nk\r\n$5\r\nva")
    ∷ bytes (codes "lue\r")
    ∷ bytes []
    ∷ bytes (codes "\n*2\r\n$3\r\nGET\r\n$1\r\nk\r\n")
    ∷ []

abbrev parser : RedisParser
parser = record {
  reader = record {
    filled = [];
    back = [];
    position_read = 0;
    position_write = 0;
    buffer_size = 8;
  };
  request_size = pos 0;
  current_element = 0;
  element_size = pos 0;
  encountered_zero_size = false;
  current_integer = [];
}

new_parser-test : new_parser 8 ≡ parser
unfolding new_parser new_reader
new_parser-test = refl

parser-IsIdle : IsIdle parser
parser-IsIdle = record {
  valid = record {
    valid = record {
      some_size = omega arith;
      whole = tt;
      written = refl;
      room = omega arith;
      within = omega arith;
    };
    small = omega arith;
    few = omega arith;
  };
  no_size = refl;
  no_zero = refl;
  no_line = refl;
}

set-IsRequest : IsRequest 12 false set_request
unfolding decimal
set-IsRequest = record {
  elements = omega arith;
  some_element = omega arith;
  small = omega arith;
  allowed = omega arith;
  enough = omega arith;
}

get-IsRequest : IsRequest 12 false get_request
unfolding decimal
get-IsRequest = record {
  elements = omega arith;
  some_element = omega arith;
  small = omega arith;
  allowed = omega arith;
  enough = omega arith;
}

arrivals_hold : pieces.unread arrivals ≡ encode_all sent
unfolding decimal
arrivals_hold = refl

calls_return_requests_example :
    (got left : List (List Bytes)) × (q : RedisParser) × (req : List Bytes) × (l : List Received)
    × (calls 6 12 false parser [] arrivals ≡ ok (got, q, req, l))
    × (got ++ left ≡ sent)
    × IsBefore q req l left
calls_return_requests_example =
    calls_return_requests 6 11 false parser [] arrivals sent (set-IsRequest, (get-IsRequest, tt))
      parser-IsIdle arrivals_hold

abbrev returned :
    Result (List (List Bytes) × RedisParser × List Bytes × List Received) → List (List Bytes)
returned (Result.thrown fault) = []
returned (ok r) = r.0

calls_return_both : returned (calls 6 12 false parser [] arrivals) ≡ sent
unfolding fetch read_integer check_integer read_element read_string parse_int64 to_int32 consume
    consume_buffer consume_internal consume_pinned can_consume read_from_link
calls_return_both = refl

fetch_resumes_example :
    Fetches set_request (encode_all (get_request ∷ [])) (fetch 12 false parser [] arrivals)
fetch_resumes_example =
    fetch_resumes 12 false parser [] arrivals set_request (encode_all (get_request ∷ []))
      set-IsRequest (IsIdle-IsBefore parser [] arrivals sent parser-IsIdle arrivals_hold)

pinned_reads_agree_example :
    (status : ℤ) × (str : Bytes) × (copied referred : BufferedReader) × (l : List Received)
    × (consume parser.reader arrivals 20 ≡ ok (status, str, copied, l))
    × (consume_buffer parser.reader arrivals 20 ≡ ok (status, str, referred, l))
    × (pending copied ≡ pending referred)
    × IsReader copied
    × IsReader referred
pinned_reads_agree_example =
    pinned_reads_agree parser.reader arrivals 20 parser-IsIdle.valid.valid (omega arith)

read_loop_enough_example :
    read_loop (80 + 5) 2147483647 0 parser.reader arrivals
    ≡ read_loop 80 2147483647 0 parser.reader arrivals
read_loop_enough_example =
    read_loop_enough 80 5 2147483647 0 parser.reader arrivals parser-IsIdle.valid.valid
      (omega arith)
