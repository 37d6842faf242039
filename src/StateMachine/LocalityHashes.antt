-- ===== src/StateMachine/LocalityHashes.antt =====
-- src/StateMachine.cc: the commands on locality hashes. A field is stored under its hint, and an index
-- has the hint of each field.
use quarkdb.Base.{
  ℕ, ◌%◌, ◌==◌, not, ◌&&◌, Bool, true, false, Option, none, some, Bytes, bytes_eq, List, [], ◌∷◌,
  length, if◌then◌else◌, Result, ok, thrown, ◌>>=◌, ◌>>◌, throw_if, assertion_violation,
  out_of_range, bad_request_size, unexpected_status,
}
use quarkdb.Storage.KeyType.{locality_hash}
use quarkdb.Storage.Locators.{locality_field_locator, locality_index_locator}
use quarkdb.Storage.DescriptorAccess.{same_type}
use quarkdb.StateMachine.Database.{Rocks}
use quarkdb.StateMachine.StagingArea.{StagingArea, get, exists, put}
use quarkdb.StateMachine.WriteOperation.{WriteOperation, assert_writable, key_size, delete_found}
use quarkdb.StateMachine.Status.{
  Status, success, not_found, wrong_type, plus64, minus64, count_of, assert_key_type, length_of,
  return_finalize, with_operation,
}

-- `assertWritable(); qdb_assert(keyinfo.getKeyType() == KeyType::kLocalityHash);`
abbrev pub assert_locality : WriteOperation → Result (Unit {0})
assert_locality op = do
  assert_writable op
  throw_if (not (same_type op.key_info.key_type locality_hash)) assertion_violation

abbrev pub stored_value : Option Bytes → Result (Status × Option Bytes)
stored_value none = thrown unexpected_status
stored_value (some value) = ok (success, some value)

abbrev pub has_hint : Bytes → Bool
has_hint [] = false
has_hint (c ∷ cs) = true

module _ {Db Batch : Type 0} ⦃rocks : Rocks Db Batch⦄ where
  unfoldable pub get_locality_index :
      StagingArea Db Batch → WriteOperation → Bytes → Result (Option Bytes)
  get_locality_index s op field = do
    assert_locality op
    locator ← locality_index_locator op.redis_key field
    ok (get s locator)

  unfoldable pub get_and_delete_locality_index :
      StagingArea Db Batch → WriteOperation → Bytes → Result (Option Bytes × StagingArea Db Batch)
  get_and_delete_locality_index s op field = do
    assert_locality op
    locator ← locality_index_locator op.redis_key field
    (found, t) ← delete_found s (get s locator) locator
    ok (get s locator, t)

  unfoldable pub write_locality_field :
      StagingArea Db Batch → WriteOperation → Bytes → Bytes → Bytes → Result (StagingArea Db Batch)
  write_locality_field s op hint field value = do
    assert_locality op
    locator ← locality_field_locator op.redis_key hint field
    put s locator value

  unfoldable pub write_locality_index :
      StagingArea Db Batch → WriteOperation → Bytes → Bytes → Result (StagingArea Db Batch)
  write_locality_index s op field hint = do
    assert_locality op
    locator ← locality_index_locator op.redis_key field
    put s locator hint

  unfoldable pub locality_field_exists :
      StagingArea Db Batch → WriteOperation → Bytes → Bytes → Result Bool
  locality_field_exists s op hint field = do
    assert_locality op
    locator ← locality_field_locator op.redis_key hint field
    ok (exists s locator)

  unfoldable pub delete_locality_field :
      StagingArea Db Batch → WriteOperation → Bytes → Bytes → Result (Bool × StagingArea Db Batch)
  delete_locality_field s op hint field = do
    assert_locality op
    locator ← locality_field_locator op.redis_key hint field
    delete_found s (get s locator) locator

  abbrev pub write_both :
      StagingArea Db Batch → WriteOperation → Bytes → Bytes → Bytes → Result (StagingArea Db Batch)
  write_both s op field hint value = do
    t ← write_locality_field s op hint field value
    write_locality_index t op field hint

  -- The field has no data under the hint: its old data goes, if it has another hint.
  abbrev pub lhset_moved :
      StagingArea Db Batch
      → WriteOperation
      → Bytes
      → Bytes
      → Bytes
      → Option Bytes
      → Result (StagingArea Db Batch × Bool)
  lhset_moved s op field hint value (some previous_hint) = do
    (deleted, t) ← delete_locality_field s op previous_hint field
    throw_if (not deleted) assertion_violation
    u ← write_both t op field hint value
    ok (u, false)
  lhset_moved s op field hint value none = do t ← write_both s op field hint value; ok (t, true)

  abbrev pub lhset_known :
      StagingArea Db Batch
      → WriteOperation
      → Bytes
      → Bytes
      → Bytes
      → Bool
      → Result (StagingArea Db Batch × Bool)
  lhset_known s op field hint value true = do
    t ← write_locality_field s op hint field value
    ok (t, false)
  lhset_known s op field hint value false = do
    previous ← get_locality_index s op field
    lhset_moved s op field hint value previous

  -- The area, and whether the field is new.
  unfoldable pub lhset_internal :
      StagingArea Db Batch
      → WriteOperation
      → Bytes
      → Bytes
      → Bytes
      → Result (StagingArea Db Batch × Bool)
  lhset_internal s op field hint value = do
    present ← locality_field_exists s op hint field
    lhset_known s op field hint value present

  abbrev pub lhset_with :
      StagingArea Db Batch
      → Bytes
      → Bytes
      → Bytes
      → WriteOperation
      → Result (StagingArea Db Batch × Status × Bool)
  lhset_with s field hint value op = do
    (t, created) ← lhset_internal s op field hint value
    size ← key_size op
    u ← return_finalize t op (plus64 size (count_of created)) false
    ok (u, success, created)

  unfoldable pub lhset :
      StagingArea Db Batch
      → Bytes
      → Bytes
      → Bytes
      → Bytes
      → Result (StagingArea Db Batch × Status × Bool)
  lhset s key field hint value =
      with_operation s key locality_hash false (lhset_with s field hint value)

  abbrev pub lhmset_loop :
      StagingArea Db Batch → WriteOperation → ℕ → List Bytes → Result (StagingArea Db Batch × ℕ)
  lhmset_loop s op created [] = ok (s, created)
  lhmset_loop s op created (field ∷ []) = thrown out_of_range
  lhmset_loop s op created (field ∷ hint ∷ []) = thrown out_of_range
  lhmset_loop s op created (field ∷ hint ∷ value ∷ rest) = do
    (t, new) ← lhset_internal s op field hint value
    lhmset_loop t op (plus64 created (count_of new)) rest

  abbrev pub lhmset_with :
      StagingArea Db Batch
      → List Bytes
      → WriteOperation
      → Result (StagingArea Db Batch × Status × Unit {0})
  lhmset_with s request op = do
    (t, created) ← lhmset_loop s op 0 request
    size ← key_size op
    u ← return_finalize t op (plus64 size created) false
    ok (u, success, tt)

  unfoldable pub lhmset :
      StagingArea Db Batch → Bytes → List Bytes → Result (StagingArea Db Batch × Status × Unit {0})
  lhmset s key request = do
    throw_if (not (length request % 3 == 0)) bad_request_size
    with_operation s key locality_hash tt (lhmset_with s request)

  abbrev pub lhdel_data :
      StagingArea Db Batch
      → WriteOperation
      → Bytes
      → Option Bytes
      → Result (StagingArea Db Batch × ℕ)
  lhdel_data s op field none = ok (s, 0)
  lhdel_data s op field (some hint) = do
    (deleted, t) ← delete_locality_field s op hint field
    throw_if (not deleted) assertion_violation
    ok (t, 1)

  abbrev pub lhdel_loop :
      StagingArea Db Batch → WriteOperation → ℕ → List Bytes → Result (StagingArea Db Batch × ℕ)
  lhdel_loop s op removed [] = ok (s, removed)
  lhdel_loop s op removed (field ∷ rest) = do
    (hint, t) ← get_and_delete_locality_index s op field
    (u, one) ← lhdel_data t op field hint
    lhdel_loop u op (plus64 removed one) rest

  abbrev pub lhdel_with :
      StagingArea Db Batch
      → List Bytes
      → WriteOperation
      → Result (StagingArea Db Batch × Status × ℕ)
  lhdel_with s request op = do
    (t, removed) ← lhdel_loop s op 0 request
    size ← key_size op
    u ← return_finalize t op (minus64 size removed) false
    ok (u, success, removed)

  unfoldable pub lhdel :
      StagingArea Db Batch → Bytes → List Bytes → Result (StagingArea Db Batch × Status × ℕ)
  lhdel s key request = with_operation s key locality_hash 0 (lhdel_with s request)

  abbrev pub lhlocdel_matched :
      StagingArea Db Batch → Bytes → Bytes → Bool → Result (StagingArea Db Batch × Status × ℕ)
  lhlocdel_matched s key field false = ok (s, success, 0)
  lhlocdel_matched s key field true = do
    (t, status, removed) ← lhdel s key (field ∷ [])
    throw_if (not (removed == 1)) assertion_violation
    ok (t, status, removed)

  abbrev pub lhlocdel_typed :
      StagingArea Db Batch
      → Bytes
      → Bytes
      → Bytes
      → Bool
      → Result (StagingArea Db Batch × Status × ℕ)
  lhlocdel_typed s key field hint false = ok (s, wrong_type, 0)
  lhlocdel_typed s key field hint true = do
    locator ← locality_field_locator key hint field
    lhlocdel_matched s key field (exists s locator)

  unfoldable pub lhlocdel :
      StagingArea Db Batch → Bytes → Bytes → Bytes → Result (StagingArea Db Batch × Status × ℕ)
  lhlocdel s key field hint = do
    typed ← assert_key_type s key locality_hash
    lhlocdel_typed s key field hint typed

  unfoldable pub lhlen : StagingArea Db Batch → Bytes → Result (Status × ℕ)
  lhlen s key = length_of s key locality_hash

  -- The index decides, and a hint that led nowhere is not the one that the index has.
  abbrev pub lhget_indexed :
      StagingArea Db Batch → Bytes → Bytes → Bytes → Option Bytes → Result (Status × Option Bytes)
  lhget_indexed s key field hint none = ok (not_found, none)
  lhget_indexed s key field hint (some correct_hint) = do
    throw_if (has_hint hint && bytes_eq hint correct_hint) assertion_violation
    locator ← locality_field_locator key correct_hint field
    stored_value (get s locator)

  abbrev pub lhget_slowly :
      StagingArea Db Batch → Bytes → Bytes → Bytes → Result (Status × Option Bytes)
  lhget_slowly s key field hint = do
    locator ← locality_index_locator key field
    lhget_indexed s key field hint (get s locator)

  abbrev pub lhget_found :
      StagingArea Db Batch → Bytes → Bytes → Bytes → Option Bytes → Result (Status × Option Bytes)
  lhget_found s key field hint (some value) = ok (success, some value)
  lhget_found s key field hint none = lhget_slowly s key field hint

  abbrev pub lhget_hinted :
      StagingArea Db Batch → Bytes → Bytes → Bytes → Bool → Result (Status × Option Bytes)
  lhget_hinted s key field hint false = lhget_slowly s key field hint
  lhget_hinted s key field hint true = do
    locator ← locality_field_locator key hint field
    lhget_found s key field hint (get s locator)

  unfoldable pub lhget :
      StagingArea Db Batch → Bytes → Bytes → Bytes → Result (Status × Option Bytes)
  lhget s key field hint = do
    typed ← assert_key_type s key locality_hash
    if typed then lhget_hinted s key field hint (has_hint hint) else ok (wrong_type, none)
