-- ===== src/Protocol/RedisParser/Encoding.antt =====
-- How a client writes a request: an array of strings, each behind its length. This is the protocol, which
-- the parser reads.
use mathlib.Core.List.{append_assoc}
use quarkdb.Base.{
  ℕ, ◌+◌, ◌-◌, ◌^◌, ◌<◌, ◌≡◌, ◌≢◌, refl, ◌∙◌, sym, ap, true, false, ==_refl, ltb, ◌%◌, ok, All,
  List, [], ◌∷◌, ◌++◌, Bytes, length, length-append, take, get_elem?, pos, some, arith,
}
use quarkdb.Raft.Parsing.{decimal, to_int32}
use quarkdb.Raft.Parsing.Decimal.{IsDigit, decimal-IsDigit, parse_int64-decimal}
use quarkdb.Protocol.RedisParser.{RedisParser, check_integer, until_nul, byte_is, check_string}

-- A line, up to the newline: a number behind a prefix.
abbrev pub line : ℕ → ℕ → Bytes
line prefix n = prefix ∷ decimal (pos n) ++ b'\r' ∷ []

abbrev pub crlf : Bytes → Bytes
crlf rest = b'\r' ∷ b'\n' ∷ rest

abbrev pub encode_elements : List Bytes → Bytes → Bytes
encode_elements [] rest = rest
encode_elements (x ∷ xs) rest =
    line b'$' (length x) ++ b'\n' ∷ (x ++ crlf (encode_elements xs rest))

-- A request, and what follows it.
abbrev pub encode : List Bytes → Bytes → Bytes
encode xs rest = line b'*' (length xs) ++ b'\n' ∷ encode_elements xs rest

pub take-length {ℓ} : {A : Type ℓ} (xs ys : List A) → take (length xs) (xs ++ ys) ≡ xs
take-length [] ys = refl
take-length (x ∷ xs) ys = ap (λ zs. x ∷ zs) (take-length xs ys)

pub get_elem?-length {ℓ} :
    {A : Type ℓ} (xs ys : List A) (y : A) → get_elem? (xs ++ y ∷ ys) (length xs) ≡ some y
get_elem?-length [] ys y = refl
get_elem?-length (x ∷ xs) ys y = get_elem?-length xs ys y

until_nul-IsDigit : (xs : Bytes) → All IsDigit xs → until_nul xs ≡ xs
until_nul-IsDigit [] d = refl
until_nul-IsDigit (x ∷ xs) (d, ds) = ground (arith, until_nul-IsDigit xs ds)

pub line-IsOneLine : (prefix n : ℕ) → prefix ≢ 10 → All (λ c. c ≢ 10) (line prefix n)
line-IsOneLine prefix n h = (h, digits (decimal (pos n)) (decimal-IsDigit n))
  where
    digits : (xs : Bytes) → All IsDigit xs → All (λ c. c ≢ 10) (xs ++ b'\r' ∷ [])
    digits [] d = ((λ e. absurd (omega arith)), tt)
    digits (x ∷ xs) (d, ds) = ((λ e. absurd (omega arith)), digits xs ds)

-- The parts of a whole line.
line-parts :
    (prefix n : ℕ) (s : Bytes)
    → s ≡ line prefix n ++ b'\n' ∷ []
    → (get_elem? s 0 ≡ some prefix)
      × (get_elem? s (length s - 2) ≡ some b'\r')
      × (take (length s - 2) s ≡ prefix ∷ decimal (pos n))
line-parts prefix n s e =
    let body : Bytes = prefix ∷ decimal (pos n) in
    let split : s ≡ body ++ crlf [] = e ∙ append_assoc body (b'\r' ∷ []) (b'\n' ∷ []) in
    let size : length s - 2 ≡ length body =
      omega (arith, ap length split, length-append body (crlf [])) in
    (
      ap (λ t. get_elem? t 0) split,
      ap (get_elem? s) size
          ∙ ap (λ t. get_elem? t (length body)) split
          ∙ get_elem?-length body (b'\n' ∷ []) b'\r',
      ap (λ k. take k s) size ∙ ap (take (length body)) split ∙ take-length body (crlf []),
    )

-- A whole line is read as its number.
pub check_integer-line :
    (prefix n : ℕ) (p : RedisParser)
    → n < 2 ^ 31
    → p.current_integer ≡ line prefix n ++ b'\n' ∷ []
    → check_integer prefix p ≡ (pos 1, pos n, record p { current_integer = [] })
unfolding check_integer to_int32
check_integer-line prefix n p small e =
    let (first, return_there, digits) = line-parts prefix n p.current_integer e in
    let same : byte_is (some prefix) prefix ≡ true = ==_refl prefix in
    let text = until_nul-IsDigit (decimal (pos n)) (decimal-IsDigit n) in
    let number = parse_int64-decimal n (omega arith) in
    let low : n % 4294967296 ≡ n = omega arith in
    let positive : ltb n 2147483648 ≡ true = ground arith in
    rw (first, same, return_there, digits, text, number, low, positive) refl

-- A string and its end are read as the string.
pub check_string-crlf : (x s : Bytes) (n : ℕ) → s ≡ x ++ crlf [] → check_string n s ≡ ok (pos n, x)
check_string-crlf x s n e =
    let size : length s ≡ length x + 2 = ap length e ∙ length-append x (crlf []) in
    let long : ltb (length s) 2 ≡ false = ground arith in
    let before : length s - 2 ≡ length x = omega arith in
    let last : length s - 1 ≡ length (x ++ b'\r' ∷ []) =
      omega (arith, length-append x (b'\r' ∷ [])) in
    let split : s ≡ (x ++ b'\r' ∷ []) ++ b'\n' ∷ [] =
      e ∙ sym (append_assoc x (b'\r' ∷ []) (b'\n' ∷ [])) in
    let return_there : get_elem? s (length s - 2) ≡ some b'\r' =
      ap (get_elem? s) before
      ∙ ap (λ t. get_elem? t (length x)) e
      ∙ get_elem?-length x (b'\n' ∷ []) b'\r' in
    let newline_there : get_elem? s (length s - 1) ≡ some b'\n' =
      ap (get_elem? s) last
      ∙ ap (λ t. get_elem? t (length (x ++ b'\r' ∷ []))) split
      ∙ get_elem?-length (x ++ b'\r' ∷ []) [] b'\n' in
    let string : take (length s - 2) s ≡ x =
      ap (λ k. take k s) before ∙ ap (take (length x)) e ∙ take-length x (crlf []) in
    rw (long, return_there, newline_there, string) refl
