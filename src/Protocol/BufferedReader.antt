-- ===== src/Protocol/BufferedReader.antt =====
-- src/BufferedReader.cc: a link is read into a deque of regions of the same size. A region is the list of
-- the bytes that have been written to it. The last region stands apart from those in front of it, so
-- that the deque is not empty. Sizes do not reach 2^64, and the size of a region fits in an int.
pub mod Pending
pub mod Consume
pub mod Filling
pub mod Readiness
pub mod Reading
use quarkdb.Base.{
  ℕ, zero, suc, ◌+◌, ◌-◌, ◌*◌, ◌%◌, ◌^◌, ◌&&◌, Bool, true, false, ltb, leb, if◌then◌else◌, List, [],
  ◌∷◌, ◌++◌, Bytes, length, take, drop, min, ℤ, pos, negsuc, Result, ok, thrown, ◌>>=◌,
  out_of_range,
}
use quarkdb.Protocol.Link.{Link, Received, failed, bytes}

pub record BufferedReader : Type 0 where
  pub filled : List Bytes
  pub back : Bytes
  pub position_read : ℕ
  pub position_write : ℕ
  pub buffer_size : ℕ

unfoldable pub new_reader : ℕ → BufferedReader
new_reader bsize = record {
  filled = [];
  back = [];
  position_read = 0;
  position_write = 0;
  buffer_size = bsize;
}

abbrev pub front : List Bytes → Bytes → Bytes
front [] back = back
front (b ∷ bs) back = b

-- A size in an `int`, which has 32 bits.
unfoldable pub as_int : ℕ → ℤ
as_int n = let r = n % 2 ^ 32 in if ltb r (2 ^ 31) then pos r else negsuc (2 ^ 32 - 1 - r)

abbrev pub int_lt : ℤ → ℤ → Bool
int_lt (pos a) (pos b) = ltb a b
int_lt (pos a) (negsuc b) = false
int_lt (negsuc a) (pos b) = true
int_lt (negsuc a) (negsuc b) = ltb b a

-- `total_bytes > (int) limit`
unfoldable pub exceeds : ℕ → ℕ → Bool
unfolding as_int
exceeds received limit = int_lt (as_int limit) (as_int received)

abbrev pub available : BufferedReader → ℕ
available r =
    (length r.filled + 1) * r.buffer_size - r.position_read - (r.buffer_size - r.position_write)

module _ {L : Type 0} ⦃link : Link L⦄ where
  -- What happens to the bytes of one receive: they end the loop, or fill the last region. The int
  -- `total_bytes`, which may wrap, is `as_int` of the number of bytes received.
  abbrev pub take_in :
      (ℕ → BufferedReader → L → ℤ × BufferedReader × L)
      → BufferedReader
      → ℕ
      → ℕ
      → ℕ
      → Received × L
      → ℤ × BufferedReader × L
  take_in again r limit received available_space (failed n, l) = (negsuc n, r, l)
  take_in again r limit received available_space (bytes xs, l) =
      let total = received + length xs in
      let partial = record r {
        back = r.back ++ xs;
        position_write = r.position_write + length xs;
      } in
      let full = record r {
        filled = r.filled ++ (r.back ++ xs) ∷ [];
        back = [];
        position_write = 0;
      } in
      let further = again total full l in
      if ltb (length xs) available_space
      then (as_int total, partial, l)
      else if exceeds total limit
      then (as_int total, full, l)
      else further

  -- The loop of readFromLink, with a bound on its rounds.
  abbrev pub read_loop : ℕ → ℕ → ℕ → BufferedReader → L → ℤ × BufferedReader × L
  read_loop zero limit received r l = (as_int received, r, l)
  read_loop (suc rounds) limit received r l =
      let available_space = r.buffer_size - r.position_write in
      take_in (read_loop rounds limit) r limit received available_space
        (link.recv l available_space)

  -- A round that is not the last one receives a byte, so that what the other end sends bounds the rounds.
  unfoldable pub read_from_link : BufferedReader → L → ℕ → ℤ × BufferedReader × L
  unfolding exceeds as_int
  read_from_link r l limit = read_loop (suc (length (link.unread l))) limit 0 r l

  abbrev pub enough : ℕ → ℕ → ℤ × BufferedReader × L → ℤ × BufferedReader × L
  enough len available_bytes (negsuc n, r, l) = (negsuc n, r, l)
  enough len available_bytes (pos rlink, r, l) =
      (if leb len (available_bytes + rlink) then as_int (available_bytes + rlink) else pos 0, r, l)

  unfoldable pub can_consume : BufferedReader → L → ℕ → ℤ × BufferedReader × L
  unfolding read_from_link
  can_consume r l len =
      if leb len (available r)
      then (as_int (available r), r, l)
      else enough len (available r) (read_from_link r l (len - available r))

-- One turn of the loop of consumeInternal for each region: the bytes, the regions that are left and how
-- far the first of them has been read. To pop the last region would leave the deque empty.
abbrev pub consume_loop : ℕ → List Bytes → Bytes → ℕ → ℕ → Result (Bytes × List Bytes × ℕ)
consume_loop size [] back position_read remaining =
    let n = min (size - position_read) remaining in
    if leb size (position_read + n) && ltb 0 remaining
    then thrown out_of_range
    else ok (take n (drop position_read back), [], position_read + n)
consume_loop size (b ∷ bs) back position_read zero = ok ([], b ∷ bs, position_read)
consume_loop size (b ∷ bs) back position_read (suc more) =
    let n = min (size - position_read) (suc more) in
    let str = take n (drop position_read b) in
    let rest = consume_loop size bs back 0 (suc more - n) >>= (λ r. ok (str ++ r.0, r.1, r.2)) in
    if leb size (position_read + n) then rest else ok (str, b ∷ bs, position_read + n)

unfoldable pub consume_internal : BufferedReader → ℕ → Result (Bytes × BufferedReader)
consume_internal r len = do
  (str, filled, position_read) ← consume_loop r.buffer_size r.filled r.back r.position_read len
  ok (str, record r { filled = filled; position_read = position_read })

abbrev pub pinned : BufferedReader → ℕ → Bytes × BufferedReader
pinned r len = (
  take len (drop r.position_read (front r.filled r.back)),
  record r { position_read = r.position_read + len },
)

-- The fast path refers to the region, and leaves it in the deque if it is used up.
unfoldable pub consume_pinned : BufferedReader → ℕ → Result (Bytes × BufferedReader)
unfolding consume_internal
consume_pinned r len =
    if leb len (r.buffer_size - r.position_read) then ok (pinned r len) else consume_internal r len

module _ {L : Type 0} ⦃link : Link L⦄ where
  -- `if(status <= 0) return status;`, and then the bytes. A status above 0 comes with them.
  abbrev pub consume_if :
      (BufferedReader → ℕ → Result (Bytes × BufferedReader))
      → ℕ
      → ℤ × BufferedReader × L
      → Result (ℤ × Bytes × BufferedReader × L)
  consume_if internal len (negsuc n, r, l) = ok (negsuc n, [], r, l)
  consume_if internal len (pos zero, r, l) = ok (pos 0, [], r, l)
  consume_if internal len (pos (suc n), r, l) = do
    (str, after) ← internal r len
    ok (as_int len, str, after, l)

  -- `consume` into a string.
  unfoldable pub consume : BufferedReader → L → ℕ → Result (ℤ × Bytes × BufferedReader × L)
  unfolding can_consume consume_internal
  consume r l len = consume_if consume_internal len (can_consume r l len)

  -- `consume` into a pinned buffer.
  unfoldable pub consume_buffer : BufferedReader → L → ℕ → Result (ℤ × Bytes × BufferedReader × L)
  unfolding can_consume consume_pinned
  consume_buffer r l len = consume_if consume_pinned len (can_consume r l len)
