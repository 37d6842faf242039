-- ===== src/Raft/Parsing.antt =====
-- Utils.cc, utils/ParseUtils.hh and Common.hh: servers as text. `strtoll` and `std::to_string` are
-- written out as the C++ standard gives them, over decimal digits.
pub mod Decimal
use quarkdb.Base.{
  ℕ, zero, suc, ◌+◌, ◌-◌, ◌*◌, ◌/◌, ◌%◌, Bool, true, false, ◌&&◌, ◌||◌, Option, none, some, List,
  [], ◌∷◌, ◌++◌, ltb, leb, ◌==◌, if◌then◌else◌, Bytes, ℤ, pos, negsuc, FitsInt64, ◌≡◌, arith,
}
use quarkdb.Raft.Types.{RaftServer, empty, server_eq}

-- `split(data, token)` for a token of one byte.
unfoldable pub split : ℕ → Bytes → List Bytes
split c [] = [] ∷ []
split c (x ∷ xs) = elim (split c xs) [
  | [] ↦ (x ∷ []) ∷ []
  | w ∷ ws ↦ if x == c then [] ∷ w ∷ ws else (x ∷ w) ∷ ws
]

is_space : ℕ → Bool
is_space c = c == 32 || leb 9 c && leb c 13

is_digit : ℕ → Bool
is_digit c = leb 48 c && leb c 57

skip_spaces : Bytes → Bytes
unfolding is_space
skip_spaces [] = []
skip_spaces (x ∷ xs) = if is_space x then skip_spaces xs else x ∷ xs

-- The value of the leading digits, and what follows them.
read_digits : ℕ → Bytes → ℕ × Bytes
unfolding is_digit
read_digits acc [] = (acc, [])
read_digits acc (x ∷ xs) =
    let rest = read_digits (acc * 10 + (x - 48)) xs in if is_digit x then rest else (acc, x ∷ xs)

starts_with_digit : Bytes → Bool
unfolding is_digit
starts_with_digit [] = false
starts_with_digit (x ∷ xs) = is_digit x

negate : ℕ → ℤ
negate zero = pos zero
negate (suc n) = negsuc n

-- The whole text must be a number, strictly between LLONG_MIN and LLONG_MAX.
whole : Bool → ℕ × Bytes → Option ℤ
unfolding negate
whole minus (n, []) =
    if leb (if minus then 9223372036854775808 else 9223372036854775807) n
    then none
    else some (if minus then negate n else pos n)
whole minus (n, x ∷ xs) = none

signed : Bool → Bytes → Option ℤ
unfolding whole read_digits starts_with_digit
signed minus s = if starts_with_digit s then whole minus (read_digits 0 s) else none

after_spaces : Bytes → Option ℤ
unfolding signed
after_spaces [] = none
after_spaces (x ∷ xs) =
    if x == b'-'
    then signed true xs
    else if x == b'+'
    then signed false xs
    else signed false (x ∷ xs)

-- ParseUtils::parseInt64. On the empty text `strtoll` stops where it began, which is the end.
unfoldable pub parse_int64 : Bytes → Option ℤ
unfolding skip_spaces after_spaces
parse_int64 [] = some (pos 0)
parse_int64 (x ∷ xs) = after_spaces (skip_spaces (x ∷ xs))

whole-FitsInt64 : (minus : Bool) (r : ℕ × Bytes) (i : ℤ) → whole minus r ≡ some i → FitsInt64 i
unfolding whole negate
whole-FitsInt64 minus (n, []) i e = ground arith
whole-FitsInt64 minus (n, x ∷ xs) i e = ground arith

signed-FitsInt64 : (minus : Bool) (s : Bytes) (i : ℤ) → signed minus s ≡ some i → FitsInt64 i
unfolding signed
signed-FitsInt64 minus s i e = ground (arith, whole-FitsInt64 minus (read_digits 0 s) i)

after_spaces-FitsInt64 : (s : Bytes) (i : ℤ) → after_spaces s ≡ some i → FitsInt64 i
unfolding after_spaces
after_spaces-FitsInt64 [] i e = ground arith
after_spaces-FitsInt64 (x ∷ xs) i e = ground (
  arith,
  signed-FitsInt64 true xs i,
  signed-FitsInt64 false xs i,
  signed-FitsInt64 false (x ∷ xs) i,
)

-- What is parsed fits in 64 bits.
pub parse_int64-FitsInt64 : (s : Bytes) (i : ℤ) → parse_int64 s ≡ some i → FitsInt64 i
unfolding parse_int64
parse_int64-FitsInt64 [] i e = ground arith
parse_int64-FitsInt64 (x ∷ xs) i e = after_spaces-FitsInt64 (skip_spaces (x ∷ xs)) i e

-- `(int) port`
unfoldable pub to_int32 : ℤ → ℤ
to_int32 (pos n) =
    let r = n % 4294967296 in if ltb r 2147483648 then pos r else negsuc (4294967295 - r)
to_int32 (negsuc n) =
    let r = n % 4294967296 in if ltb r 2147483648 then negsuc r else pos (4294967295 - r)

server_of_parts : List Bytes → Option RaftServer
unfolding to_int32
server_of_parts (host ∷ port ∷ []) = elim (parse_int64 port) [
  | none ↦ none
  | some p ↦ some (record { hostname = host; port = to_int32 p })
]
server_of_parts _ = none

unfoldable pub parse_server : Bytes → Option RaftServer
unfolding server_of_parts
parse_server s = server_of_parts (split b':' s)

-- contains
unfoldable pub contains : List RaftServer → RaftServer → Bool
contains [] s = false
contains (x ∷ xs) s = server_eq x s || contains xs s

unfoldable pub check_unique : List RaftServer → Bool
check_unique [] = true
check_unique (x ∷ xs) = (if contains xs x then false else true) && check_unique xs

parse_each : List Bytes → Option (List RaftServer)
parse_each [] = some []
parse_each (p ∷ ps) = elim (parse_server p) [
  | none ↦ none
  | some s ↦ elim (parse_each ps) [ none ↦ none | some ss ↦ some (s ∷ ss) ]
]

unfoldable pub parse_servers : Bytes → Option (List RaftServer)
unfolding parse_each
parse_servers s = elim (parse_each (split b',' s)) [
  | none ↦ none
  | some servers ↦ if check_unique servers then some servers else none
]

decimal_digits : ℕ → ℕ → Bytes → Bytes
decimal_digits zero n acc = acc
decimal_digits (suc fuel) n acc =
    let rest = decimal_digits fuel (n / 10) ((48 + n % 10) ∷ acc) in
    if ltb n 10 then (48 + n) ∷ acc else rest

-- std::to_string
unfoldable pub decimal : ℤ → Bytes
unfolding decimal_digits
decimal (pos n) = decimal_digits (suc n) n []
decimal (negsuc n) = b'-' ∷ decimal_digits (suc (suc n)) (suc n) []

-- RaftServer::toString
unfoldable pub to_string : RaftServer → Bytes
to_string s = if empty s then [] else s.hostname ++ (b':' ∷ decimal s.port)

unfoldable pub serialize_nodes : List RaftServer → Bytes
serialize_nodes [] = []
serialize_nodes (s ∷ []) = to_string s
serialize_nodes (s ∷ t ∷ rest) = to_string s ++ (b',' ∷ serialize_nodes (t ∷ rest))
