-- ===== src/StateMachine/Fields.antt =====
-- src/StateMachine.cc and storage/StagingArea.hh: a staging area that takes writes holds the fields of a
-- key, and what the calls of WriteOperation do to them.
pub mod Calls
pub mod Descriptors
use quarkdb.Base.{
  ℕ, ◌≡◌, refl, ◌∙◌, ap, Bool, true, false, Option, none, some, [], ◌∷◌, ◌++◌, Bytes, bytes_eq,
  ◌==◌, bytes_eq_iff, if◌then◌else◌, arith, Result, ok, Bool-cases, inl, inr,
}
use quarkdb.Storage.KeyType.{
  KeyType, key_type_char, null, parse_error, string, hash, set, deque, locality_hash, lease,
  versioned_hash,
}
use quarkdb.Storage.Locators.{
  has_fields, field_locator, field_prefix, descriptor_locator, append_escaped_string,
}
use quarkdb.StateMachine.Database.{Rocks}
use quarkdb.StateMachine.StagingArea.{StagingArea, get, exists, get_for_update, put, del}
use quarkdb.StateMachine.WriteOperation.{
  WriteOperation, assert_writable, field_exists, get_field, write_field, delete_field,
}
use quarkdb.StateMachine.FieldMap.{
  FieldMap, find, has, insert, erase, IsDistinct, bytes_eq_refl, find-insert, find-erase,
  insert-IsDistinct, erase-IsDistinct, erase_absent,
}

-- The database key of a field, and what the fields of a key begin with.
abbrev pub field_start : KeyType → Bytes → Bytes
field_start t key = append_escaped_string (key_type_char t ∷ []) key

abbrev pub field_key : KeyType → Bytes → Bytes → Bytes
field_key t key field = field_start t key ++ field

pub field_locator-ok :
    (t : KeyType) (key field : Bytes)
    → has_fields t ≡ true
    → field_locator t key field ≡ ok (field_key t key field)
unfolding field_locator field_prefix
field_locator-ok t key field h = rw h refl

pub bytes_eq-append : (p f g : Bytes) → bytes_eq (p ++ f) (p ++ g) ≡ bytes_eq f g
unfolding bytes_eq
bytes_eq-append [] f g = refl
bytes_eq-append (x ∷ p) f g = ground (arith, bytes_eq-append p f g)

-- Descriptors and fields are told apart by their first byte.
pub descriptor-field :
    (t : KeyType) (k key field : Bytes)
    → has_fields t ≡ true
    → bytes_eq (descriptor_locator k) (field_key t key field) ≡ false
unfolding descriptor_locator bytes_eq
descriptor-field hash k key field h = refl
descriptor-field set k key field h = refl
descriptor-field deque k key field h = refl
descriptor-field versioned_hash k key field h = refl
descriptor-field null k key field h = cc
descriptor-field parse_error k key field h = cc
descriptor-field string k key field h = cc
descriptor-field locality_hash k key field h = cc
descriptor-field lease k key field h = cc

pub field-descriptor :
    (t : KeyType) (k key field : Bytes)
    → has_fields t ≡ true
    → bytes_eq (field_key t key field) (descriptor_locator k) ≡ false
field-descriptor t k key field h = ground (
  arith,
  descriptor-field t k key field h,
  bytes_eq_iff (descriptor_locator k) (field_key t key field),
  bytes_eq_iff (field_key t key field) (descriptor_locator k),
)

module _ {Db Batch : Type 0} ⦃rocks : Rocks Db Batch⦄ where
  -- An area of a transaction: neither readonly nor of a bulk load.
  pub record IsTransaction (s : StagingArea Db Batch) : Type 0 where
    pub no_bulk_load : s.bulk_load ≡ false
    pub writable : s.read_only ≡ false

  -- What a write of a key leaves.
  pub record Changes (s : StagingArea Db Batch) (j : Bytes) (x : Option Bytes)
      (t : StagingArea Db Batch) : Type 0 where
    pub transaction : IsTransaction t
    pub reads : (k : Bytes) → get t k ≡ (if bytes_eq j k then x else get s k)

  pub put-Changes :
      (s : StagingArea Db Batch) (j x : Bytes)
      → IsTransaction s
      → (t : StagingArea Db Batch) × (put s j x ≡ ok t) × Changes s j (some x) t
  unfolding put get
  put-Changes s j x h =
      let changed = record s {
        write_batch_with_index = rocks.batch_put s.write_batch_with_index j x;
      } in
      (
        changed,
        rw (h.writable, h.no_bulk_load) refl,
        record {
          transaction = record { no_bulk_load = h.no_bulk_load; writable = h.writable };
          reads = λ k.
              rw (h.writable, h.no_bulk_load)
                (rocks.through-put s.write_batch_with_index s.db j x k);
        },
      )

  pub del-Changes :
      (s : StagingArea Db Batch) (j : Bytes)
      → IsTransaction s
      → (t : StagingArea Db Batch) × (del s j ≡ ok t) × Changes s j none t
  unfolding del get
  del-Changes s j h =
      let changed = record s {
        write_batch_with_index = rocks.batch_delete s.write_batch_with_index j;
      } in
      (
        changed,
        rw (h.writable, h.no_bulk_load) refl,
        record {
          transaction = record { no_bulk_load = h.no_bulk_load; writable = h.writable };
          reads = λ k.
              rw (h.writable, h.no_bulk_load)
                (rocks.through-delete s.write_batch_with_index s.db j k);
        },
      )

  pub get_for_update-get :
      (s : StagingArea Db Batch) (k : Bytes) → IsTransaction s → get_for_update s k ≡ ok (get s k)
  unfolding get_for_update get
  get_for_update-get s k h = rw (h.writable, h.no_bulk_load) refl
