-- ===== src/StateMachine/Sets.antt =====
-- src/StateMachine.cc: the commands on sets.
use quarkdb.Base.{
  ℕ, not, Bool, true, false, Bytes, codes, List, [], ◌∷◌, if◌then◌else◌, Result, ok, ◌>>=◌, ◌>>◌,
}
use quarkdb.Storage.KeyType.{set}
use quarkdb.Storage.Locators.{field_locator}
use quarkdb.StateMachine.Database.{Rocks}
use quarkdb.StateMachine.StagingArea.{StagingArea}
use quarkdb.StateMachine.WriteOperation.{
  WriteOperation, write_operation, key_size, field_exists, write_field, delete_field, destroy,
}
use quarkdb.StateMachine.Status.{
  Status, success, wrong_type, plus64, minus64, count_of, lookup_status, assert_key_type, length_of,
  return_finalize, with_operation,
}

-- The value of every element.
abbrev pub mark : Bytes
mark = codes "1"

module _ {Db Batch : Type 0} ⦃rocks : Rocks Db Batch⦄ where
  -- A write of the element, if it is not there.
  abbrev pub add_element :
      StagingArea Db Batch → WriteOperation → Bool → Bytes → Result (StagingArea Db Batch)
  add_element s op true element = ok s
  add_element s op false element = write_field s op element mark

  abbrev pub sadd_loop :
      StagingArea Db Batch → WriteOperation → ℕ → List Bytes → Result (StagingArea Db Batch × ℕ)
  sadd_loop s op added [] = ok (s, added)
  sadd_loop s op added (element ∷ rest) = do
    present ← field_exists s op element
    t ← add_element s op present element
    sadd_loop t op (plus64 added (count_of (not present))) rest

  abbrev pub sadd_with :
      StagingArea Db Batch
      → List Bytes
      → WriteOperation
      → Result (StagingArea Db Batch × Status × ℕ)
  sadd_with s request op = do
    (t, added) ← sadd_loop s op 0 request
    size ← key_size op
    u ← return_finalize t op (plus64 size added) false
    ok (u, success, added)

  unfoldable pub sadd :
      StagingArea Db Batch → Bytes → List Bytes → Result (StagingArea Db Batch × Status × ℕ)
  sadd s key request = with_operation s key set 0 (sadd_with s request)

  -- It reads the snapshot of a readonly area, and not the area.
  unfoldable pub sismember : StagingArea Db Batch → Bytes → Bytes → Result Status
  sismember s key element = do
    typed ← assert_key_type s key set
    if typed
        then field_locator set key element
          >>= (λ locator. ok (lookup_status (rocks.db_get s.db locator)))
        else ok wrong_type

  unfoldable pub scard : StagingArea Db Batch → Bytes → Result (Status × ℕ)
  scard s key = length_of s key set

  -- What happens to the destination.
  abbrev pub move_into :
      StagingArea Db Batch → WriteOperation → Bytes → Bool → Result (StagingArea Db Batch)
  move_into s op element true = key_size op >>= (λ size. return_finalize s op size false)
  move_into s op element false = do
    t ← write_field s op element mark
    size ← key_size op
    return_finalize t op (plus64 size 1) false

  abbrev pub smove_found :
      StagingArea Db Batch
      → WriteOperation
      → WriteOperation
      → Bytes
      → Bool
      → Result (StagingArea Db Batch × Status × ℕ)
  smove_found s source destination element true = do
    size ← key_size source
    t ← return_finalize s source (minus64 size 1) false
    present ← field_exists t destination element
    u ← move_into t destination element present
    ok (u, success, 1)
  smove_found s source destination element false = do
    size ← key_size source
    t ← return_finalize s source size false
    other ← key_size destination
    u ← return_finalize t destination other false
    ok (u, success, 0)

  abbrev pub smove_with :
      StagingArea Db Batch
      → Bytes
      → Bytes
      → WriteOperation
      → WriteOperation
      → Bool
      → Result (StagingArea Db Batch × Status × ℕ)
  smove_with s target element source destination false = do
    size ← key_size source
    t ← return_finalize s source size false
    destroy destination
    ok (t, wrong_type, 0)
  smove_with s target element source destination true = do
    (found, t) ← delete_field s source element
    smove_found t source destination element found

  -- Both operations read their descriptors before either of them writes.
  unfoldable pub smove :
      StagingArea Db Batch → Bytes → Bytes → Bytes → Result (StagingArea Db Batch × Status × ℕ)
  smove s key target element = with_operation s key set 0 (λ source. do
    destination ← write_operation s target set
    smove_with s target element source destination destination.is_valid)
