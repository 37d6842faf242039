-- ===== src/Storage/ReverseLocator.antt =====
-- src/storage/ReverseLocator.hh: the redis key and the field of a database key. A scan of a view may read
-- the byte before the view and the byte past its end: these bytes are arguments.
use quarkdb.Base.{
  ℕ, ◌+◌, ◌-◌, Bool, true, false, ◌&&◌, not, [], ◌∷◌, ◌++◌, Bytes, ◌==◌, take, drop, if◌then◌else◌,
  Result, ok, thrown, ◌>>=◌, ◌>>◌, throw_if, assertion_violation, out_of_range,
}
use quarkdb.Storage.KeyType.{KeyType, parse_key_type, string, parse_error, locality_hash}
use quarkdb.Storage.Locators.{hash_mark, bar}

-- `key[key.size() - 1] = '#'`
unfoldable pub set_last : Bytes → Result Bytes
set_last [] = thrown out_of_range
set_last (c ∷ []) = ok (hash_mark ∷ [])
set_last (c ∷ d ∷ cs) = do rest ← set_last (d ∷ cs); ok (c ∷ rest)

abbrev first_byte : ℕ → Bytes → ℕ
first_byte beyond [] = beyond
first_byte beyond (c ∷ cs) = c

abbrev tail : Bytes → Bytes
tail [] = []
tail (c ∷ cs) = cs

abbrev pub nonempty : Bytes → Bool
nonempty [] = false
nonempty (c ∷ cs) = true

-- The loop of extractPrefix from the place `i` on, where `prev` is the byte before it: the place past
-- the boundary, zero for a parse error, and the key.
unfoldable pub extract_from : ℕ → ℕ → ℕ → Bytes → Bytes → Result (ℕ × Bytes)
extract_from beyond prev i [] key = ok (0, key)
extract_from beyond prev i (c ∷ rest) key =
    let next_is_hash = first_byte beyond rest == hash_mark in
    let after_bar = prev == bar in
    let third = tail rest in
    let third_is_hash = first_byte 0 third == hash_mark in
    let plain = extract_from beyond c (i + 1) rest (key ++ c ∷ []) in
    let unescape =
      throw_if (not after_bar) assertion_violation
      >> (set_last key >>= λ key1. extract_from beyond c (i + 1) rest key1) in
    let escaped_boundary = set_last key >>= λ key1. ok (i + 3, key1) in
    if c == hash_mark
    then if next_is_hash && not after_bar
      then ok (i + 2, key)
      else if next_is_hash && after_bar && nonempty third && not third_is_hash
      then ok (i + 2, key)
      else if next_is_hash && after_bar && nonempty third && third_is_hash
      then escaped_boundary
      else unescape
    else plain

unfoldable pub extract_prefix : ℕ → ℕ → Bytes → Result (ℕ × Bytes)
extract_prefix before beyond dkey = extract_from beyond before 0 dkey []

-- EscapedPrefixExtractor after a successful parse.
pub record EscapedPrefix : Type 0 where
  pub slice : Bytes
  pub unescaped : Bytes
  pub boundary : ℕ

pub data Scan : Type 0 where
  heavyweight failed : Scan
  zero_copy : ℕ → Scan

-- The loop of EscapedPrefixExtractor::parse from the place `i` on.
unfoldable pub scan : ℕ → ℕ → Bytes → Scan
scan prev i [] = failed
scan prev i (c ∷ rest) =
    let later = scan c (i + 1) rest in
    if c == hash_mark && prev == bar
    then heavyweight
    else if c == hash_mark && prev == hash_mark
    then zero_copy (i + 1)
    else later

abbrev pub scan_slice : Bytes → Scan
scan_slice [] = failed
scan_slice (c ∷ rest) = scan c 1 rest

-- Nothing for a parse error.
pub data Parse : Type 0 where
  parsed : EscapedPrefix → Parse
  not_parsed : Parse

abbrev pub bounded : Bytes → ℕ × Bytes → Parse
bounded slice (b, key) =
    if b == 0 then not_parsed else parsed (record { slice = slice; unescaped = key; boundary = b })

unfoldable pub parse_scanned : ℕ → ℕ → Bytes → Scan → Result Parse
parse_scanned before beyond slice heavyweight =
    extract_prefix before beyond slice >>= λ e. ok (bounded slice e)
parse_scanned before beyond slice (zero_copy b) =
    ok (parsed (record { slice = slice; unescaped = []; boundary = b }))
parse_scanned before beyond slice failed = ok not_parsed

unfoldable pub parse : ℕ → ℕ → Bytes → Result Parse
parse before beyond slice = parse_scanned before beyond slice (scan_slice slice)

unfoldable pub original_prefix : EscapedPrefix → Bytes
original_prefix e = if nonempty e.unescaped then e.unescaped else take (e.boundary - 2) e.slice

unfoldable pub raw_suffix : EscapedPrefix → Bytes
raw_suffix e = drop e.boundary e.slice

-- A ReverseLocator. Its first chunk is parsed for the types other than strings.
pub record ReverseLocator : Type 0 where
  pub slice : Bytes
  pub key_type : KeyType
  pub first_chunk : Parse

abbrev pub with_chunk : Bytes → KeyType → Parse → ReverseLocator
with_chunk sl t (parsed e) =
    if e.boundary == 0
    then record { slice = sl; key_type = parse_error; first_chunk = parsed e }
    else record { slice = sl; key_type = t; first_chunk = parsed e }
with_chunk sl t not_parsed = record { slice = sl; key_type = parse_error; first_chunk = not_parsed }

abbrev pub has_chunk : KeyType → Bool
has_chunk t = elim t [ parse_error ↦ false | string ↦ false | _ ↦ true ]

-- `before` of the first chunk is the byte of the key type.
unfoldable pub locate : ℕ → ℕ → Bytes → KeyType → Result ReverseLocator
locate beyond c sl t =
    let chunked = parse c beyond (tail sl) >>= λ p. ok (with_chunk sl t p) in
    if has_chunk t
    then chunked
    else ok (record { slice = sl; key_type = t; first_chunk = not_parsed })

unfoldable pub reverse_locator : ℕ → Bytes → Result ReverseLocator
reverse_locator beyond sl = let c = first_byte beyond sl in locate beyond c sl (parse_key_type c)

abbrev pub is_parse_error : KeyType → Bool
is_parse_error t = elim t [ parse_error ↦ true | _ ↦ false ]

abbrev pub is_string : KeyType → Bool
is_string t = elim t [ string ↦ true | _ ↦ false ]

unfoldable pub original_key : ReverseLocator → Result Bytes
original_key r = do
  throw_if (is_parse_error r.key_type) assertion_violation
  if is_string r.key_type then ok (tail r.slice) else elim r.first_chunk [
    | parsed e ↦ ok (original_prefix e)
    | not_parsed ↦ thrown assertion_violation
  ]

unfoldable pub field : ReverseLocator → Result Bytes
field r = do
  throw_if (is_parse_error r.key_type) assertion_violation
  throw_if (is_string r.key_type) assertion_violation
  elim r.first_chunk [ parsed e ↦ ok (raw_suffix e) | not_parsed ↦ thrown assertion_violation ]

unfoldable pub is_locality_index : ReverseLocator → Result Bool
is_locality_index r = elim r.key_type [
  | locality_hash ↦ do
    f ← field r
    throw_if (not (nonempty f)) assertion_violation
    ok (first_byte 0 f == 105)
  | _ ↦ ok false
]
