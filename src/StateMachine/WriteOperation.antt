-- ===== src/StateMachine/WriteOperation.antt =====
-- src/StateMachine.cc, class WriteOperation: how a command reads and writes the fields of one key. The
-- staging area, to which an operation holds a reference, is passed from call to call.
use quarkdb.Base.{
  ℕ, ◌^◌, Bool, true, false, ◌&&◌, ◌||◌, not, Option, none, some, is_some, Bytes, ◌==◌, leb,
  if◌then◌else◌, Result, ok, thrown, ◌>>=◌, ◌>>◌, throw_if, operation_not_valid,
  operation_finalized, invalid_newsize, write_needs_field, write_takes_no_field, terminated,
}
use quarkdb.Storage.KeyType.{KeyType, string, hash, set, deque, lease, versioned_hash}
use quarkdb.Storage.KeyDescriptor.{KeyDescriptor, serialize, parse_descriptor}
use quarkdb.Storage.DescriptorAccess.{
  new_descriptor, is_empty, same_type, get_size, set_size, set_start_index,
}
use quarkdb.Storage.Locators.{descriptor_locator, string_locator, lease_locator, field_locator}
use quarkdb.StateMachine.Database.{Rocks}
use quarkdb.StateMachine.StagingArea.{
  StagingArea, get, exists, get_for_update, read_from_write_batch, put, del,
}

unfoldable pub construct_descriptor : Option Bytes → Result KeyDescriptor
construct_descriptor none = ok new_descriptor
construct_descriptor (some serialization) = parse_descriptor serialization

pub record WriteOperation : Type 0 where
  pub redis_key : Bytes
  pub key_info : KeyDescriptor
  pub redis_key_exists : Bool
  pub is_valid : Bool
  pub finalized : Bool

-- The descriptor of a key that does not exist gets the expected type.
unfoldable pub initial_key_info : KeyType → Result KeyDescriptor
initial_key_info expected_type =
    let typed = record new_descriptor { key_type = expected_type } in
    if same_type expected_type versioned_hash then set_start_index typed 0 else ok typed

unfoldable pub operation_on : Bytes → KeyType → KeyDescriptor → Result WriteOperation
operation_on key expected_type found =
    let valid = is_empty found || same_type found.key_type expected_type in
    do
      key_info ← if is_empty found && valid then initial_key_info expected_type else ok found
      ok (record {
        redis_key = key;
        key_info = key_info;
        redis_key_exists = not (is_empty found);
        is_valid = valid;
        finalized = not valid;
      })

unfoldable pub assert_writable : WriteOperation → Result (Unit {0})
assert_writable op = do
  throw_if (not op.is_valid) operation_not_valid
  throw_if op.finalized operation_finalized

unfoldable pub key_size : WriteOperation → Result ℕ
key_size op = get_size op.key_info

unfoldable pub cancel : WriteOperation → WriteOperation
cancel op = record op { finalized = true }

-- The destructor.
unfoldable pub destroy : WriteOperation → Result (Unit {0})
destroy op = throw_if (not op.finalized) terminated

abbrev pub takes_field : KeyType → Bool
takes_field t =
    same_type t hash || same_type t set || same_type t deque || same_type t versioned_hash

module _ {Db Batch : Type 0} ⦃rocks : Rocks Db Batch⦄ where
  unfoldable pub write_operation : StagingArea Db Batch → Bytes → KeyType → Result WriteOperation
  write_operation s key expected_type = do
    tmp ← get_for_update s (descriptor_locator key)
    found ← construct_descriptor tmp
    operation_on key expected_type found

  unfoldable pub descriptor_modified_already : StagingArea Db Batch → WriteOperation → Result Bool
  descriptor_modified_already s op = do
    tmp ← read_from_write_batch s (descriptor_locator op.redis_key)
    ok (is_some tmp)

  unfoldable pub get_field : StagingArea Db Batch → WriteOperation → Bytes → Result (Option Bytes)
  get_field s op field = do
    assert_writable op
    locator ← field_locator op.key_info.key_type op.redis_key field
    ok (get s locator)

  unfoldable pub field_exists : StagingArea Db Batch → WriteOperation → Bytes → Result Bool
  field_exists s op field = do
    assert_writable op
    locator ← field_locator op.key_info.key_type op.redis_key field
    ok (exists s locator)

  unfoldable pub write :
      StagingArea Db Batch → WriteOperation → Bytes → Result (StagingArea Db Batch)
  write s op value = do
    assert_writable op
    if same_type op.key_info.key_type string
        then put s (string_locator op.redis_key) value
        else if same_type op.key_info.key_type lease
        then put s (lease_locator op.redis_key) value
        else thrown write_needs_field

  unfoldable pub write_field :
      StagingArea Db Batch → WriteOperation → Bytes → Bytes → Result (StagingArea Db Batch)
  write_field s op field value = do
    assert_writable op
    throw_if (not (takes_field op.key_info.key_type)) write_takes_no_field
    locator ← field_locator op.key_info.key_type op.redis_key field
    put s locator value

  abbrev pub delete_found :
      StagingArea Db Batch → Option Bytes → Bytes → Result (Bool × StagingArea Db Batch)
  delete_found s none locator = ok (false, s)
  delete_found s (some tmp) locator = do t ← del s locator; ok (true, t)

  -- Whether the field was there, and the area without it.
  unfoldable pub delete_field :
      StagingArea Db Batch → WriteOperation → Bytes → Result (Bool × StagingArea Db Batch)
  delete_field s op field = do
    assert_writable op
    locator ← field_locator op.key_info.key_type op.redis_key field
    delete_found s (get s locator) locator

  -- The new size is written if it differs, or if the caller wants it.
  abbrev pub update_size :
      StagingArea Db Batch
      → WriteOperation
      → ℕ
      → Bool
      → Result (WriteOperation × StagingArea Db Batch)
  update_size s op newsize true = do
    key_info ← set_size op.key_info newsize
    serialized ← serialize key_info
    t ← put s (descriptor_locator op.redis_key) serialized
    ok (cancel (record op { key_info = key_info }), t)
  update_size s op newsize false = ok (cancel op, s)

  abbrev pub keep_descriptor :
      StagingArea Db Batch
      → WriteOperation
      → ℕ
      → Bool
      → Result (WriteOperation × StagingArea Db Batch)
  keep_descriptor s op newsize force_update = do
    size ← get_size op.key_info
    update_size s op newsize (not (size == newsize) || force_update)

  abbrev pub drop_descriptor :
      StagingArea Db Batch → WriteOperation → Result (WriteOperation × StagingArea Db Batch)
  drop_descriptor s op = do t ← del s (descriptor_locator op.redis_key); ok (cancel op, t)

  -- `newsize` is a signed integer, by its bits.
  unfoldable pub finalize :
      StagingArea Db Batch
      → WriteOperation
      → ℕ
      → Bool
      → Result (WriteOperation × StagingArea Db Batch)
  finalize s op newsize force_update = do
    assert_writable op
    throw_if (leb (2 ^ 63) newsize) invalid_newsize
    if newsize == 0 && not (same_type op.key_info.key_type versioned_hash)
        then drop_descriptor s op
        else keep_descriptor s op newsize force_update
