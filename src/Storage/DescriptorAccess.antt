-- ===== src/Storage/DescriptorAccess.antt =====
-- src/storage/KeyDescriptor.hh: reading and setting the parts of a descriptor.
use quarkdb.Base.{
  ℕ, ◌-◌, ◌^◌, Bool, ◌||◌, not, Bytes, ◌==◌, codes, Result, ok, thrown, ◌>>◌, throw_if,
  assertion_violation,
}
use quarkdb.Storage.KeyType.{
  KeyType, key_type_char, null, parse_error, string, hash, set, deque, locality_hash, lease,
  versioned_hash,
}
use quarkdb.Storage.KeyDescriptor.{KeyDescriptor}

abbrev pub same_type : KeyType → KeyType → Bool
same_type a b = key_type_char a == key_type_char b

-- kIndexInitialValue
abbrev pub index_start : ℕ
index_start = 2 ^ 63 - 1

unfoldable pub new_descriptor : KeyDescriptor
new_descriptor = record {
  key_type = null;
  size = 0;
  start_index = index_start;
  end_index = index_start;
}

unfoldable pub is_empty : KeyDescriptor → Bool
is_empty d = same_type d.key_type null

unfoldable pub key_type_as_string : KeyType → Result Bytes
key_type_as_string t = elim t [
  | null ↦ ok (codes "none")
  | parse_error ↦ thrown assertion_violation
  | string ↦ ok (codes "string")
  | set ↦ ok (codes "set")
  | hash ↦ ok (codes "hash")
  | deque ↦ ok (codes "deque")
  | locality_hash ↦ ok (codes "locality hash")
  | lease ↦ ok (codes "lease")
  | versioned_hash ↦ ok (codes "versioned hash")
]

unfoldable pub get_size : KeyDescriptor → Result ℕ
get_size d = do throw_if (same_type d.key_type parse_error) assertion_violation; ok d.size

unfoldable pub set_size : KeyDescriptor → ℕ → Result KeyDescriptor
set_size d newval = do
  throw_if (same_type d.key_type parse_error || same_type d.key_type null) assertion_violation
  ok (record d { size = newval })

-- The types that have both indices, and those that have the first one.
abbrev has_indices : KeyType → Bool
has_indices t = same_type t deque || same_type t lease

abbrev has_start : KeyType → Bool
has_start t = has_indices t || same_type t versioned_hash

unfoldable pub get_start_index : KeyDescriptor → Result ℕ
get_start_index d = do throw_if (not (has_start d.key_type)) assertion_violation; ok d.start_index

unfoldable pub get_end_index : KeyDescriptor → Result ℕ
get_end_index d = do throw_if (not (has_indices d.key_type)) assertion_violation; ok d.end_index

unfoldable pub set_start_index : KeyDescriptor → ℕ → Result KeyDescriptor
set_start_index d newval = do
  throw_if (not (has_start d.key_type)) assertion_violation
  ok (record d { start_index = newval })

unfoldable pub set_end_index : KeyDescriptor → ℕ → Result KeyDescriptor
set_end_index d newval = do
  throw_if (not (has_indices d.key_type)) assertion_violation
  ok (record d { end_index = newval })

pub data Direction : Type 0 where
  left right : Direction

abbrev pub flip_direction : Direction → Direction
flip_direction left = right
flip_direction right = left

abbrev index_at : Direction → KeyDescriptor → ℕ
index_at left d = d.start_index
index_at right d = d.end_index

abbrev with_index_at : Direction → ℕ → KeyDescriptor → KeyDescriptor
with_index_at left newindex d = record d { start_index = newindex }
with_index_at right newindex d = record d { end_index = newindex }

unfoldable pub get_list_index : KeyDescriptor → Direction → Result ℕ
get_list_index d direction = do
  throw_if (not (same_type d.key_type deque)) assertion_violation
  ok (index_at direction d)

unfoldable pub set_list_index : KeyDescriptor → Direction → ℕ → Result KeyDescriptor
set_list_index d direction newindex = do
  throw_if (not (same_type d.key_type deque)) assertion_violation
  ok (with_index_at direction newindex d)
