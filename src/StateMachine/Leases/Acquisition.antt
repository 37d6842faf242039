-- ===== src/StateMachine/Leases/Acquisition.antt =====
-- src/StateMachine.cc, lease_acquire: a new lease, an extension, or a refusal.
use quarkdb.Base.{
  ℕ, ◌==◌, not, Bool, true, false, Option, none, some, Bytes, bytes_eq, codes, length,
  if◌then◌else◌, Result, ok, ◌>>=◌, ◌>>◌, throw_if, assertion_violation, unexpected_status,
}
use quarkdb.Storage.KeyType.{lease}
use quarkdb.Storage.Locators.{lease_locator}
use quarkdb.Storage.Expiration.{expiration_event_locator}
use quarkdb.Storage.DescriptorAccess.{
  get_start_index, get_end_index, set_start_index, set_end_index,
}
use quarkdb.StateMachine.Database.{Rocks}
use quarkdb.StateMachine.StagingArea.{StagingArea, get, exists, put, single_delete}
use quarkdb.StateMachine.ExpirationEventCache.{ExpirationEventCache, insert, remove}
use quarkdb.StateMachine.WriteOperation.{WriteOperation, write_operation, write, cancel, destroy}
use quarkdb.StateMachine.Status.{plus64, return_finalize}
use quarkdb.StateMachine.Leases.{LeaseInfo, maybe_advance_clock}

pub data LeaseAcquisitionStatus : Type 0 where
  key_type_mismatch acquired renewed failed_due_to_other_owner : LeaseAcquisitionStatus

module _ {Db Batch : Type 0} ⦃rocks : Rocks Db Batch⦄ where
  -- An extension wipes out the event of the old deadline.
  abbrev pub wipe_event :
      StagingArea Db Batch
      → ExpirationEventCache
      → Bytes
      → WriteOperation
      → Bool
      → Result (StagingArea Db Batch × ExpirationEventCache)
  wipe_event s cache key op false = ok (s, cache)
  wipe_event s cache key op true = do
    end ← get_end_index op.key_info
    left ← remove cache end key
    throw_if (not (exists s (expiration_event_locator end key))) unexpected_status
    t ← single_delete s (expiration_event_locator end key)
    ok (t, left)

  abbrev pub acquire_granted :
      StagingArea Db Batch
      → ExpirationEventCache
      → Bytes
      → Bytes
      → ℕ
      → ℕ
      → WriteOperation
      → Result
          (StagingArea Db Batch × ExpirationEventCache × LeaseAcquisitionStatus × Option LeaseInfo)
  acquire_granted s cache key value now duration op =
      let deadline = plus64 now duration in
      do
        (t, left) ← wipe_event s cache key op op.redis_key_exists
        started ← set_start_index op.key_info now
        key_info ← set_end_index started deadline
        more ← insert left deadline key
        u ← put t (expiration_event_locator deadline key) (codes "1")
        v ← write u (record op { key_info = key_info }) value
        w ← return_finalize v (record op { key_info = key_info }) (length value) true
        ok (
          w,
          more,
          if op.redis_key_exists then renewed else acquired,
          some (record { value = value; last_renewal = now; deadline = deadline }),
        )

  abbrev pub refuse :
      StagingArea Db Batch
      → ExpirationEventCache
      → Bytes
      → WriteOperation
      → Result
          (StagingArea Db Batch × ExpirationEventCache × LeaseAcquisitionStatus × Option LeaseInfo)
  refuse s cache holder op = do
    start ← get_start_index op.key_info
    end ← get_end_index op.key_info
    destroy (cancel op)
    ok (
      s,
      cache,
      failed_due_to_other_owner,
      some (record { value = holder; last_renewal = start; deadline = end }),
    )

  abbrev pub acquire_from :
      StagingArea Db Batch
      → ExpirationEventCache
      → Bytes
      → Bytes
      → ℕ
      → ℕ
      → WriteOperation
      → Bytes
      → Bool
      → Result
          (StagingArea Db Batch × ExpirationEventCache × LeaseAcquisitionStatus × Option LeaseInfo)
  acquire_from s cache key value now duration op holder false = refuse s cache holder op
  acquire_from s cache key value now duration op holder true =
      acquire_granted s cache key value now duration op

  abbrev pub acquire_held :
      StagingArea Db Batch
      → ExpirationEventCache
      → Bytes
      → Bytes
      → ℕ
      → ℕ
      → WriteOperation
      → Option Bytes
      → Result
          (StagingArea Db Batch × ExpirationEventCache × LeaseAcquisitionStatus × Option LeaseInfo)
  acquire_held s cache key value now duration op none =
      acquire_granted s cache key value now duration op
  acquire_held s cache key value now duration op (some holder) =
      acquire_from s cache key value now duration op holder (bytes_eq holder value)

  abbrev pub acquire_valid :
      StagingArea Db Batch
      → ExpirationEventCache
      → Bytes
      → Bytes
      → ℕ
      → ℕ
      → WriteOperation
      → Bool
      → Result
          (StagingArea Db Batch × ExpirationEventCache × LeaseAcquisitionStatus × Option LeaseInfo)
  acquire_valid s cache key value now duration op false = do
    destroy op
    ok (s, cache, key_type_mismatch, none)
  acquire_valid s cache key value now duration op true =
      acquire_held s cache key value now duration op (get s (lease_locator key))

  unfoldable pub lease_acquire :
      StagingArea Db Batch
      → ExpirationEventCache
      → Bytes
      → Bytes
      → ℕ
      → ℕ
      → Result
          (StagingArea Db Batch × ExpirationEventCache × LeaseAcquisitionStatus × Option LeaseInfo)
  lease_acquire s cache key value clock_update duration = do
    throw_if (length value == 0) assertion_violation
    (t, left, now) ← maybe_advance_clock s cache clock_update
    op ← write_operation t key lease
    acquire_valid t left key value now duration op op.is_valid
