-- ===== src/Raft/Entries.antt =====
-- src/raft/RaftCommon.hh: a log entry as the bytes that the journal stores. An integer is copied as the
-- machine keeps it, the least significant byte first. A read past the end, which the source does not
-- check, is thrown.
use quarkdb.Base.{
  ℕ, zero, suc, ◌+◌, ◌*◌, ◌/◌, ◌%◌, ◌^◌, ◌≤◌, ◌<◌, ◌≡◌, refl, ap, [], ◌∷◌, ◌++◌, Bytes, arith, ltb,
  length, length-append, take, drop, Result, ok, thrown, ◌>>=◌, ◌>>◌, throw_if, out_of_range,
}
use quarkdb.Raft.Types.{RaftEntry, RedisRequest}

abbrev low_bytes : ℕ → ℕ → Bytes
low_bytes zero num = []
low_bytes (suc n) num = num % 256 ∷ low_bytes n (num / 256)

-- append_int_to_string and fetch_int_from_string
unfoldable pub int_to_string : ℕ → Bytes
int_to_string num = low_bytes 8 num

abbrev number_of : Bytes → ℕ
number_of [] = 0
number_of (b ∷ bs) = b + 256 * number_of bs

unfoldable pub fetch_int_from_string : Bytes → ℕ
fetch_int_from_string data_bytes = number_of (take 8 data_bytes)

-- The loop of serialize.
abbrev serialize_request : RedisRequest → Bytes
serialize_request [] = []
serialize_request (chunk ∷ chunks) =
    int_to_string (length chunk) ++ (chunk ++ serialize_request chunks)

unfoldable pub serialize_entry : RaftEntry → Bytes
serialize_entry e = int_to_string e.term ++ serialize_request e.request

-- The loop of deserialize. Each turn takes eight bytes at least, so that as many turns as there are
-- bytes are enough.
unfoldable pub read_request : ℕ → Bytes → Result RedisRequest
read_request turns [] = ok []
read_request zero (b ∷ bs) = thrown out_of_range
read_request (suc turns) (b ∷ bs) =
    let len = fetch_int_from_string (b ∷ bs) in
    let rest = drop 8 (b ∷ bs) in
    let later = read_request turns (drop len rest) in
    throw_if (ltb (length (b ∷ bs)) 8) out_of_range
    >> (throw_if (ltb (length rest) len) out_of_range
        >> (later >>= λ chunks. ok (take len rest ∷ chunks)))

unfoldable pub deserialize_entry : Bytes → Result RaftEntry
deserialize_entry str =
    let rest = drop 8 str in
    throw_if (ltb (length str) 8) out_of_range
    >> (read_request (length rest) rest >>= λ request.
        ok (record { term = fetch_int_from_string str; request = request }))

abbrev bound : ℕ → ℕ
bound zero = 1
bound (suc n) = bound n * 256

number_of-low_bytes : (n num : ℕ) → num < bound n → number_of (low_bytes n num) ≡ num
number_of-low_bytes zero num h = omega arith
number_of-low_bytes (suc n) num h = omega (arith, number_of-low_bytes n (num / 256) (omega arith))

fetch_int :
    (num : ℕ) (rest : Bytes)
    → num < 2 ^ 63
    → fetch_int_from_string (int_to_string num ++ rest) ≡ num
unfolding fetch_int_from_string int_to_string
fetch_int num rest h = number_of-low_bytes 8 num (omega arith)

take-chunk : (xs ys : Bytes) → take (length xs) (xs ++ ys) ≡ xs
take-chunk [] ys = refl
take-chunk (x ∷ xs) ys = ap (λ t. x ∷ t) (take-chunk xs ys)

drop-chunk : (xs ys : Bytes) → drop (length xs) (xs ++ ys) ≡ ys
drop-chunk [] ys = refl
drop-chunk (x ∷ xs) ys = drop-chunk xs ys

abbrev pub Fits : RedisRequest → Type 0
Fits [] = Unit {0}
Fits (chunk ∷ chunks) = (length chunk < 2 ^ 63) × Fits chunks

read-serialize :
    (turns : ℕ) (request : RedisRequest)
    → Fits request
    → length (serialize_request request) ≤ turns
    → read_request turns (serialize_request request) ≡ ok request
unfolding read_request int_to_string
read-serialize turns [] f l = refl
read-serialize zero (chunk ∷ chunks) f l = ground (arith, l)
read-serialize (suc turns) (chunk ∷ chunks) f l =
    let len = fetch_int (length chunk) (chunk ++ serialize_request chunks) f.0 in
    let more = serialize_request chunks in
    let sizes = length-append chunk more in
    let later = read-serialize turns chunks f.1 (omega arith) in
    rw len (rw (take-chunk chunk more) (rw (drop-chunk chunk more) (ground (arith, sizes, later))))

-- An entry whose term and whose chunks' lengths fit is read back from the bytes that it is stored as.
pub deserialize_entry-serialize_entry :
    (e : RaftEntry)
    → e.term < 2 ^ 63
    → Fits e.request
    → deserialize_entry (serialize_entry e) ≡ ok e
unfolding deserialize_entry serialize_entry int_to_string
deserialize_entry-serialize_entry e t f =
    let more = serialize_request e.request in
    let term = fetch_int e.term more t in
    let request = read-serialize (length more) e.request f (omega arith) in
    rw term (ground (arith, request))
