-- ===== src/Protocol/RedisParser.antt =====
-- src/RedisParser.cc: requests of the redis protocol, read off a link that may stop anywhere. A call takes
-- up where the last one stopped. The elements of the request that the caller holds are passed along.
pub mod Lines
pub mod Encoding
pub mod Integers
pub mod Elements
pub mod Progress
pub mod Requests
pub mod Pipelines
use quarkdb.Base.{
  ℕ, zero, suc, ◌+◌, ◌-◌, ◌^◌, ◌&&◌, ◌||◌, not, Bool, true, false, ltb, leb, ◌==◌, if◌then◌else◌,
  Option, none, some, List, [], ◌∷◌, ◌++◌, Bytes, length, take, drop, set, replicate, get_elem?, ℤ,
  pos, negsuc, ◌+ℤ◌, int_eq, Result, ok, thrown, ◌>>=◌, out_of_range, length_error,
  rounds_exhausted,
}
use quarkdb.Raft.Parsing.{parse_int64, to_int32}
use quarkdb.Protocol.Link.{Link}
use quarkdb.Protocol.BufferedReader.{BufferedReader, new_reader, consume, consume_buffer}

pub record RedisParser : Type 0 where
  pub reader : BufferedReader
  pub request_size : ℤ
  pub current_element : ℕ
  pub element_size : ℤ
  pub encountered_zero_size : Bool
  pub current_integer : Bytes

unfoldable pub new_parser : ℕ → RedisParser
new_parser bsize = record {
  reader = new_reader bsize;
  request_size = pos 0;
  current_element = 0;
  element_size = pos 0;
  encountered_zero_size = false;
  current_integer = [];
}

-- `retcode <= 0`
abbrev pub is_stopped : ℤ → Bool
is_stopped (pos zero) = true
is_stopped (pos (suc n)) = false
is_stopped (negsuc n) = true

-- The text of a C string, which ends at the first zero.
abbrev pub until_nul : Bytes → Bytes
until_nul [] = []
until_nul (c ∷ cs) = let rest = until_nul cs in if c == 0 then [] else c ∷ rest

-- The integer after the prefix. The status is -1 if there is none.
abbrev pub parsed_integer : RedisParser → Option ℤ → ℤ × ℤ × RedisParser
parsed_integer p none = (negsuc 0, pos 0, p)
parsed_integer p (some num) = (pos 1, to_int32 num, record p { current_integer = [] })

abbrev pub byte_is : Option ℕ → ℕ → Bool
byte_is none c = false
byte_is (some b) c = b == c

-- What readInteger does with a whole line. A line of one byte is not the prefix.
unfoldable pub check_integer : ℕ → RedisParser → ℤ × ℤ × RedisParser
check_integer prefix p =
    let line = p.current_integer in
    let digits = take (length line - 2) line in
    if not (byte_is (get_elem? line 0) prefix)
    then (negsuc 0, pos 0, p)
    else if not (byte_is (get_elem? line (length line - 2)) b'\r')
    then (negsuc 0, pos 0, p)
    else parsed_integer (record p { current_integer = digits })
        (parse_int64 (until_nul (drop 1 digits)))

-- The int `nbytes + 2`, as a size_t.
abbrev pub size_of : ℤ → ℕ
size_of (pos n) = n
size_of (negsuc n) = 2 ^ 64 - 1 - n

-- The checks of readString: the status, and what the element holds.
abbrev pub check_string : ℕ → Bytes → Result (ℤ × Bytes)
check_string rlen str =
    if ltb (length str) 2
    then thrown out_of_range
    else if not (byte_is (get_elem? str (length str - 2)) b'\r')
    then ok (negsuc 0, str)
    else if not (byte_is (get_elem? str (length str - 1)) b'\n')
    then ok (negsuc 0, str)
    else ok (pos rlen, take (length str - 2) str)

-- `element_size >= 1048576`
abbrev pub is_huge : ℤ → Bool
is_huge (pos n) = leb 1048576 n
is_huge (negsuc n) = false

abbrev pub store : List Bytes → ℕ → Option Bytes → List Bytes
store req i none = req
store req i (some element) = set req i element

-- `current_element < request_size`. No element is left of a negative size.
abbrev pub left_of : ℤ → ℕ → ℕ
left_of (pos n) current = n - current
left_of (negsuc n) current = 0

module _ {L : Type 0} ⦃link : Link L⦄ where
  -- After one byte has been asked for.
  abbrev pub add_byte :
      (RedisParser → L → Result (ℤ × RedisParser × L))
      → RedisParser
      → ℤ × Bytes × BufferedReader × L
      → Result (ℤ × RedisParser × L)
  add_byte again p (negsuc n, prev, reader, l) = ok (negsuc n, record p { reader = reader }, l)
  add_byte again p (pos zero, prev, reader, l) = ok (pos 0, record p { reader = reader }, l)
  add_byte again p (pos (suc n), prev, reader, l) =
      let more = record p { reader = reader; current_integer = p.current_integer ++ prev } in
      let rest = again more l in
      if byte_is (get_elem? prev 0) b'\n' then ok (pos 1, more, l) else rest

  -- The loop of readInteger, up to the end of the line.
  abbrev pub read_line : ℕ → RedisParser → L → Result (ℤ × RedisParser × L)
  read_line zero p l = thrown rounds_exhausted
  read_line (suc rounds) p l = do read ← consume p.reader l 1; add_byte (read_line rounds) p read

  abbrev pub line_read : ℕ → ℤ × RedisParser × L → ℤ × ℤ × RedisParser × L
  line_read prefix (status, p, l) =
      let (checked, value, q) = check_integer prefix p in
      if is_stopped status then (status, pos 0, p, l) else (checked, value, q, l)

  unfoldable pub read_integer : ℕ → ℕ → RedisParser → L → Result (ℤ × ℤ × RedisParser × L)
  unfolding check_integer
  read_integer rounds prefix p l = do read ← read_line rounds p l; ok (line_read prefix read)

  -- The status, and what the element holds if it is written.
  abbrev pub check_read :
      RedisParser → ℤ × Bytes × BufferedReader × L → Result (ℤ × Option Bytes × RedisParser × L)
  check_read p (negsuc n, str, reader, l) = ok (negsuc n, none, record p { reader = reader }, l)
  check_read p (pos zero, str, reader, l) = ok (pos 0, none, record p { reader = reader }, l)
  check_read p (pos (suc n), str, reader, l) = do
    (status, element) ← check_string (suc n) str
    ok (status, some element, record p { reader = reader }, l)

  unfoldable pub read_string : ℤ → RedisParser → L → Result (ℤ × Option Bytes × RedisParser × L)
  unfolding to_int32
  read_string nbytes p l = do
    read ← consume_buffer p.reader l (size_of (to_int32 (nbytes +ℤ pos 2)))
    check_read p read

  -- readElement, once the size is known.
  abbrev pub read_with : Bool → ℤ → RedisParser → L → Result (ℤ × Option Bytes × RedisParser × L)
  read_with authenticated size p l =
      if not authenticated && is_huge size then ok (negsuc 1, none, p, l) else read_string size p l

  abbrev pub size_read :
      Bool → ℤ × ℤ × RedisParser × L → Result (ℤ × Option Bytes × RedisParser × L)
  size_read authenticated (status, size, p, l) =
      let sized = record p {
        element_size = size;
        encountered_zero_size = p.encountered_zero_size || int_eq size (pos 0);
      } in
      if is_stopped status then ok (status, none, p, l) else read_with authenticated size sized l

  abbrev pub element_from :
      ℕ → Bool → ℤ → RedisParser → L → Result (ℤ × Option Bytes × RedisParser × L)
  element_from rounds authenticated size p l =
      if int_eq size (negsuc 0)
      then read_integer rounds b'$' p l >>= size_read authenticated
      else read_with authenticated size p l

  unfoldable pub read_element :
      ℕ → Bool → RedisParser → L → Result (ℤ × Option Bytes × RedisParser × L)
  unfolding read_integer read_string
  read_element rounds authenticated p l = element_from rounds authenticated p.element_size p l

  -- The end of fetch, when all the elements have been read.
  abbrev pub finish : RedisParser → List Bytes → L → ℤ × RedisParser × List Bytes × L
  finish p req l = (
    if p.encountered_zero_size then negsuc 1 else pos 1,
    record p { request_size = pos 0 },
    req,
    l,
  )

  abbrev pub element_read :
      (RedisParser → List Bytes → L → Result (ℤ × RedisParser × List Bytes × L))
      → ℕ
      → List Bytes
      → ℤ × Option Bytes × RedisParser × L
      → Result (ℤ × RedisParser × List Bytes × L)
  element_read again i req (status, str, p, l) =
      let next = record p { element_size = negsuc 0; current_element = i + 1 } in
      let rest = again next (store req i str) l in
      if is_stopped status then ok (status, p, store req i str, l) else rest

  -- The loop of fetch over the elements that are left.
  abbrev pub read_elements :
      ℕ → ℕ → Bool → RedisParser → List Bytes → L → Result (ℤ × RedisParser × List Bytes × L)
  read_elements rounds zero authenticated p req l = ok (finish p req l)
  read_elements rounds (suc left) authenticated p req l = do
    read ← read_element rounds authenticated p l
    element_read (read_elements rounds left authenticated) p.current_element req read

  -- A request from scratch, whose size has been read.
  abbrev pub begin_request :
      ℕ → Bool → ℤ × ℤ × RedisParser × L → Result (ℤ × RedisParser × List Bytes × L)
  begin_request rounds authenticated (pos (suc status), pos n, p, l) =
      let begun = record p { request_size = pos n; element_size = negsuc 0; current_element = 0 } in
      let rest = read_elements rounds n authenticated begun (replicate n []) l in
      if not authenticated && leb 5 n then ok (negsuc 1, begun, [], l) else rest
  begin_request rounds authenticated (pos (suc status), negsuc n, p, l) = thrown length_error
  begin_request rounds authenticated (pos zero, size, p, l) = ok (pos 0, p, [], l)
  begin_request rounds authenticated (negsuc n, size, p, l) = ok (negsuc n, p, [], l)

  abbrev pub fetch_from :
      ℕ → Bool → ℤ → RedisParser → List Bytes → L → Result (ℤ × RedisParser × List Bytes × L)
  fetch_from rounds authenticated size p req l =
      if int_eq size (pos 0)
      then read_integer rounds b'*' p l >>= begin_request rounds authenticated
      else read_elements rounds (left_of size p.current_element) authenticated p req l

  -- `rounds` bounds the bytes of a line.
  unfoldable pub fetch :
      ℕ → Bool → RedisParser → List Bytes → L → Result (ℤ × RedisParser × List Bytes × L)
  unfolding read_integer read_element
  fetch rounds authenticated p req l = fetch_from rounds authenticated p.request_size p req l

  abbrev pub purge_more :
      (RedisParser → L → Result (ℤ × RedisParser × L))
      → RedisParser
      → ℤ × Bytes × BufferedReader × L
      → Result (ℤ × RedisParser × L)
  purge_more again p (status, buff, reader, l) =
      let drained = record p { reader = reader } in
      let rest = again drained l in if is_stopped status then ok (status, drained, l) else rest

  abbrev pub purge_loop : ℕ → RedisParser → L → Result (ℤ × RedisParser × L)
  purge_loop zero p l = thrown rounds_exhausted
  purge_loop (suc rounds) p l = do
    read ← consume p.reader l 1023
    purge_more (purge_loop rounds) p read

  unfoldable pub purge : ℕ → RedisParser → L → Result (ℤ × RedisParser × L)
  purge rounds p l =
      purge_loop rounds
        (record p {
          request_size = pos 0;
          current_element = 0;
          element_size = negsuc 0;
          current_integer = [];
        })
        l
