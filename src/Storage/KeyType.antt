-- ===== src/Storage/KeyType.antt =====
-- src/storage/KeyDescriptor.hh and storage/KeyLocators.hh: the bytes that tell the kinds of keys apart.
use quarkdb.Base.{ℕ, ◌==◌, if◌then◌else◌}

pub data KeyType : Type 0 where
  null parse_error string hash set deque locality_hash lease versioned_hash : KeyType

abbrev pub key_type_char : KeyType → ℕ
key_type_char null = 0
key_type_char parse_error = 61
key_type_char string = 97
key_type_char hash = 98
key_type_char set = 99
key_type_char deque = 100
key_type_char locality_hash = 101
key_type_char lease = 102
key_type_char versioned_hash = 103

unfoldable pub parse_key_type : ℕ → KeyType
parse_key_type c =
    if c == key_type_char string
    then string
    else if c == key_type_char hash
    then hash
    else if c == key_type_char set
    then set
    else if c == key_type_char deque
    then deque
    else if c == key_type_char locality_hash
    then locality_hash
    else if c == key_type_char lease
    then lease
    else if c == key_type_char versioned_hash
    then versioned_hash
    else parse_error
