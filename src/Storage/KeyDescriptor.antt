-- ===== src/Storage/KeyDescriptor.antt =====
-- src/storage/KeyDescriptor.hh: the type, size and indices of a key, and their bytes. The integers are
-- their 64-bit patterns; start and end index are unsigned, and are compared as such.
use quarkdb.Base.{
  ℕ, ◌^◌, ◌<◌, ◌≡◌, refl, [], ◌∷◌, ◌++◌, Bytes, arith, leb, ◌==◌, not, length, take, drop, Result,
  ok, thrown, ◌>>◌, throw_if, assertion_violation, unknown_key_type,
}
use quarkdb.Storage.BinaryInt.{
  int_to_binary_string, binary_string_to_int, binary_string_to_int-int_to_binary_string,
}
use quarkdb.Storage.KeyType.{
  KeyType, key_type_char, parse_key_type, null, parse_error, string, hash, set, deque,
  locality_hash, lease, versioned_hash,
}

pub record KeyDescriptor : Type 0 where
  pub key_type : KeyType
  pub size : ℕ
  pub start_index : ℕ
  pub end_index : ℕ

abbrev pub index_initial_value : ℕ
index_initial_value = 9223372036854775807

-- What the types store: the size, and the two indices, or one.
pub data Shape : Type 0 where
  only_size size_and_indices size_and_version no_shape : Shape

abbrev pub shape_of : KeyType → Shape
shape_of t = elim t [
  | string ↦ only_size
  | set ↦ only_size
  | hash ↦ only_size
  | locality_hash ↦ only_size
  | deque ↦ size_and_indices
  | lease ↦ size_and_indices
  | versioned_hash ↦ size_and_version
  | null ↦ no_shape
  | parse_error ↦ no_shape
]

abbrev serialize_shape : Shape → KeyDescriptor → Result Bytes
serialize_shape only_size d = ok (key_type_char d.key_type ∷ int_to_binary_string d.size)
serialize_shape size_and_indices d = do
  throw_if (not (leb d.start_index d.end_index)) assertion_violation
  ok (
      key_type_char d.key_type ∷ int_to_binary_string d.size
      ++ (int_to_binary_string d.start_index ++ int_to_binary_string d.end_index))
serialize_shape size_and_version d =
    ok
      (key_type_char d.key_type ∷ int_to_binary_string d.size ++ int_to_binary_string d.start_index)
serialize_shape no_shape d = thrown unknown_key_type

unfoldable pub serialize : KeyDescriptor → Result Bytes
serialize d = serialize_shape (shape_of d.key_type) d

-- The integer at an offset.
abbrev int_at : ℕ → Bytes → ℕ
int_at offset str = binary_string_to_int (take 8 (drop offset str))

abbrev parse_shape : Shape → KeyType → Bytes → Result KeyDescriptor
parse_shape only_size t str = do
  throw_if (not (length str == 9)) assertion_violation
  ok (record {
    key_type = t;
    size = int_at 1 str;
    start_index = index_initial_value;
    end_index = index_initial_value;
  })
parse_shape size_and_indices t str = do
  throw_if (not (length str == 25)) assertion_violation
  throw_if (not (leb (int_at 9 str) (int_at 17 str))) assertion_violation
  ok (record {
    key_type = t;
    size = int_at 1 str;
    start_index = int_at 9 str;
    end_index = int_at 17 str;
  })
parse_shape size_and_version t str = do
  throw_if (not (length str == 17)) assertion_violation
  ok (record {
    key_type = t;
    size = int_at 1 str;
    start_index = int_at 9 str;
    end_index = index_initial_value;
  })
parse_shape no_shape t str = thrown unknown_key_type

unfoldable pub parse_descriptor : Bytes → Result KeyDescriptor
parse_descriptor [] = thrown assertion_violation
parse_descriptor (c ∷ str) = let t = parse_key_type c in parse_shape (shape_of t) t (c ∷ str)

-- The fields that the type does not store have their initial value, and the numbers fit.
abbrev pub HasDefaults : Shape → KeyDescriptor → Type 0
HasDefaults only_size d =
    (d.start_index ≡ index_initial_value) × (d.end_index ≡ index_initial_value)
HasDefaults size_and_indices d = Unit {0}
HasDefaults size_and_version d = d.end_index ≡ index_initial_value
HasDefaults no_shape d = Unit {0}

pub record IsStorable (d : KeyDescriptor) : Type 0 where
  pub size_fits : d.size < 2 ^ 64
  pub start_fits : d.start_index < 2 ^ 64
  pub end_fits : d.end_index < 2 ^ 64
  pub defaults : HasDefaults (shape_of d.key_type) d

module _ (t : KeyType) (size start end : ℕ) where
  abbrev descriptor : KeyDescriptor
  descriptor = record { key_type = t; size = size; start_index = start; end_index = end }

  sized-back :
      {str : Bytes}
      → size < 2 ^ 64
      → HasDefaults only_size descriptor
      → serialize_shape only_size descriptor ≡ ok str
      → parse_shape only_size t str ≡ ok descriptor
  unfolding int_to_binary_string
  sized-back s d h = ground (arith, binary_string_to_int-int_to_binary_string size s)

  indexed-back :
      {str : Bytes}
      → size < 2 ^ 64
      → start < 2 ^ 64
      → end < 2 ^ 64
      → serialize_shape size_and_indices descriptor ≡ ok str
      → parse_shape size_and_indices t str ≡ ok descriptor
  unfolding int_to_binary_string
  indexed-back s u v h = ground (
    arith,
    binary_string_to_int-int_to_binary_string size s,
    binary_string_to_int-int_to_binary_string start u,
    binary_string_to_int-int_to_binary_string end v,
  )

  versioned-back :
      {str : Bytes}
      → size < 2 ^ 64
      → start < 2 ^ 64
      → HasDefaults size_and_version descriptor
      → serialize_shape size_and_version descriptor ≡ ok str
      → parse_shape size_and_version t str ≡ ok descriptor
  unfolding int_to_binary_string
  versioned-back s u d h = ground (
    arith,
    binary_string_to_int-int_to_binary_string size s,
    binary_string_to_int-int_to_binary_string start u,
  )

  shape-back :
      {str : Bytes} (k : Shape)
      → size < 2 ^ 64
      → start < 2 ^ 64
      → end < 2 ^ 64
      → HasDefaults k descriptor
      → serialize_shape k descriptor ≡ ok str
      → parse_shape k t str ≡ ok descriptor
  shape-back only_size s u v d h = sized-back s d h
  shape-back size_and_indices s u v d h = indexed-back s u v h
  shape-back size_and_version s u v d h = versioned-back s u d h
  shape-back no_shape s u v d h = cc

  shape-head :
      (str : Bytes) (k : Shape)
      → serialize_shape k descriptor ≡ ok str
      → (rest : Bytes) × (str ≡ key_type_char t ∷ rest)
  shape-head str only_size h = (int_to_binary_string size, ground (arith, h))
  shape-head [] size_and_indices h = ground (arith, h)
  shape-head (c ∷ rest) size_and_indices h = (rest, ground (arith, h))
  shape-head str size_and_version h =
      (int_to_binary_string size ++ int_to_binary_string start, ground (arith, h))
  shape-head str no_shape h = cc

shaped-type :
    (t : KeyType) (d : KeyDescriptor) {str : Bytes}
    → serialize_shape (shape_of t) d ≡ ok str
    → parse_key_type (key_type_char t) ≡ t
unfolding parse_key_type
shaped-type null d h = cc
shaped-type parse_error d h = cc
shaped-type string d h = refl
shaped-type hash d h = refl
shaped-type set d h = refl
shaped-type deque d h = refl
shaped-type locality_hash d h = refl
shaped-type lease d h = refl
shaped-type versioned_hash d h = refl

-- A descriptor whose numbers are below 2^64, and whose fields that its type does not store have their
-- initial value, is read back from the bytes that it is written as.
pub parse_descriptor-serialize :
    (d : KeyDescriptor) (str : Bytes)
    → IsStorable d
    → serialize d ≡ ok str
    → parse_descriptor str ≡ ok d
unfolding serialize parse_descriptor
parse_descriptor-serialize d str s h =
    let (rest, shape) =
      shape-head d.key_type d.size d.start_index d.end_index str (shape_of d.key_type) h in
    let same = shaped-type d.key_type d h in
    rw shape (
      rw same (
        shape-back d.key_type d.size d.start_index d.end_index (shape_of d.key_type) s.size_fits
          s.start_fits s.end_fits s.defaults (rw shape at h)))
