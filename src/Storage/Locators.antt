-- ===== src/Storage/Locators.antt =====
-- src/storage/KeyLocators.hh: the database key of a redis key, of a field, of an expiration event. A
-- locator is the contents of its KeyBuffer; the sizes it reserves are those it fills.
use quarkdb.Base.{
  ℕ, Bool, true, false, not, [], ◌∷◌, ◌++◌, Bytes, ◌==◌, if◌then◌else◌, Result, ok, ◌>>=◌, ◌>>◌,
  throw_if, assertion_violation,
}
use quarkdb.Storage.KeyType.{
  KeyType, key_type_char, string, hash, set, deque, locality_hash, lease, versioned_hash,
}

-- '#' and '|'
abbrev pub hash_mark : ℕ
hash_mark = 35

abbrev pub bar : ℕ
bar = 124

-- The loop of appendEscapedString: what it writes for the string, before the closing "##".
abbrev pub escaped : Bytes → Bytes
escaped [] = []
escaped (c ∷ cs) =
    let rest = escaped cs in if c == hash_mark then bar ∷ hash_mark ∷ rest else c ∷ rest

abbrev pub append_escaped_string : Bytes → Bytes → Bytes
append_escaped_string buffer str = buffer ++ (escaped str ++ hash_mark ∷ hash_mark ∷ [])

unfoldable pub descriptor_locator : Bytes → Bytes
descriptor_locator key = 33 ∷ key

unfoldable pub string_locator : Bytes → Bytes
string_locator key = key_type_char string ∷ key

unfoldable pub lease_locator : Bytes → Bytes
lease_locator key = key_type_char lease ∷ key

unfoldable pub configuration_locator : Bytes → Bytes
configuration_locator key = 126 ∷ key

-- FieldLocator: resetKey, then resetField.
abbrev pub has_fields : KeyType → Bool
has_fields t = elim t [
  | hash ↦ true
  | set ↦ true
  | deque ↦ true
  | versioned_hash ↦ true
  | _ ↦ false
]

unfoldable pub field_prefix : KeyType → Bytes → Result Bytes
field_prefix t key = do
  throw_if (not (has_fields t)) assertion_violation
  ok (append_escaped_string (key_type_char t ∷ []) key)

unfoldable pub field_locator : KeyType → Bytes → Bytes → Result Bytes
field_locator t key field = do prefix ← field_prefix t key; ok (prefix ++ field)

abbrev is_empty : Bytes → Bool
is_empty [] = true
is_empty (c ∷ cs) = false

-- LocalityFieldLocator: resetKey, resetHint and resetField; 'd' is InternalLocalityFieldType::kData.
unfoldable pub locality_key : Bytes → Result Bytes
locality_key key = do
  throw_if (is_empty key) assertion_violation
  ok (append_escaped_string (key_type_char locality_hash ∷ []) key ++ 100 ∷ [])

unfoldable pub locality_hint : Bytes → Bytes → Result Bytes
locality_hint key hint = do
  prefix ← locality_key key
  throw_if (is_empty hint) assertion_violation
  ok (append_escaped_string prefix hint)

unfoldable pub locality_field_locator : Bytes → Bytes → Bytes → Result Bytes
locality_field_locator key hint field = do prefix ← locality_hint key hint; ok (prefix ++ field)

-- LocalityIndexLocator; 'i' is InternalLocalityFieldType::kIndex.
unfoldable pub locality_index_key : Bytes → Result Bytes
locality_index_key key = do
  throw_if (is_empty key) assertion_violation
  ok (append_escaped_string (key_type_char locality_hash ∷ []) key ++ 105 ∷ [])

unfoldable pub locality_index_locator : Bytes → Bytes → Result Bytes
locality_index_locator key field = do
  prefix ← locality_index_key key
  throw_if (is_empty field) assertion_violation
  ok (prefix ++ field)
