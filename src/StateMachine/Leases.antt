-- ===== src/StateMachine/Leases.antt =====
-- src/StateMachine.cc: the clock and the commands on leases, over the staging area and the cache of
-- deadlines. A command gives the area and the cache that it leaves. advanceClock releases a lease with a
-- clock update of 0, for which lease_release does not come back to the clock.
pub mod Acquisition
pub mod Deadlines
pub mod Holding
pub mod Expiry
pub mod Ownership
use quarkdb.Base.{
  ℕ, zero, suc, ◌+◌, ◌==◌, leb, ltb, not, Bool, true, false, Option, none, some, is_some, Bytes,
  bytes_eq, codes, List, [], ◌∷◌, length, if◌then◌else◌, Result, ok, thrown, ◌>>=◌, ◌>>◌, throw_if,
  assertion_violation, unexpected_status, clock_in_past,
}
use quarkdb.Storage.KeyType.{lease}
use quarkdb.Storage.Locators.{lease_locator}
use quarkdb.Storage.Expiration.{expiration_event_locator}
use quarkdb.Storage.BinaryInt.{int_to_binary_string, binary_string_to_int}
use quarkdb.Storage.KeyDescriptor.{KeyDescriptor}
use quarkdb.Storage.DescriptorAccess.{
  is_empty, same_type, get_start_index, get_end_index, set_start_index, set_end_index,
}
use quarkdb.StateMachine.Database.{Rocks}
use quarkdb.StateMachine.StagingArea.{StagingArea, get, exists, put, del, single_delete}
use quarkdb.StateMachine.ExpirationEventCache.{ExpirationEventCache, insert, remove}
use quarkdb.StateMachine.WriteOperation.{WriteOperation, write_operation, write, cancel, destroy}
use quarkdb.StateMachine.Status.{
  Status, success, not_found, wrong_type, plus64, get_key_descriptor, return_finalize,
}

-- KeyConstants::kStateMachine_Clock
abbrev pub clock_key : Bytes
clock_key = codes "__clock"

pub record LeaseInfo : Type 0 where
  pub value : Bytes
  pub last_renewal : ℕ
  pub deadline : ℕ

abbrev pub is_success : Status → Bool
is_success success = true
is_success _ = false

-- THROW_ON_ERROR(stagingArea.get(...))
abbrev pub found_or_throw : Option Bytes → Result Bytes
found_or_throw none = thrown unexpected_status
found_or_throw (some v) = ok v

abbrev pub front_lease : ℕ → List (ℕ × Bytes) → Option Bytes
front_lease new_value [] = none
front_lease new_value ((deadline, name) ∷ rest) = if leb deadline new_value then some name else none

module _ {Db Batch : Type 0} ⦃rocks : Rocks Db Batch⦄ where
  unfoldable pub get_clock : StagingArea Db Batch → Result ℕ
  get_clock s = do
    prev_value ← found_or_throw (get s clock_key)
    throw_if (not (length prev_value == 8)) assertion_violation
    ok (binary_string_to_int prev_value)

  abbrev pub drop_lease :
      StagingArea Db Batch
      → ExpirationEventCache
      → Bytes
      → WriteOperation
      → Result (StagingArea Db Batch × ExpirationEventCache × Status)
  drop_lease s cache key op = do
    end ← get_end_index op.key_info
    throw_if (not (exists s (expiration_event_locator end key))) unexpected_status
    forgotten ← remove cache end key
    t ← single_delete s (expiration_event_locator end key)
    throw_if (not (exists t (lease_locator key))) unexpected_status
    u ← del t (lease_locator key)
    w ← return_finalize u op 0 false
    ok (w, forgotten, success)

  abbrev pub release_existing :
      StagingArea Db Batch
      → ExpirationEventCache
      → Bytes
      → WriteOperation
      → Bool
      → Result (StagingArea Db Batch × ExpirationEventCache × Status)
  release_existing s cache key op true = drop_lease s cache key op
  release_existing s cache key op false = do
    t ← return_finalize s op 0 false
    ok (t, cache, not_found)

  abbrev pub release_valid :
      StagingArea Db Batch
      → ExpirationEventCache
      → Bytes
      → WriteOperation
      → Bool
      → Result (StagingArea Db Batch × ExpirationEventCache × Status)
  release_valid s cache key op false = do destroy op; ok (s, cache, wrong_type)
  release_valid s cache key op true = release_existing s cache key op op.redis_key_exists

  -- lease_release, with a clock update of 0.
  unfoldable pub release_now :
      StagingArea Db Batch
      → ExpirationEventCache
      → Bytes
      → Result (StagingArea Db Batch × ExpirationEventCache × Status)
  release_now s cache key = do
    op ← write_operation s key lease
    release_valid s cache key op op.is_valid

  -- A turn of the loop of advanceClock: the front of the cache is released, if it has expired.
  abbrev pub release_front :
      StagingArea Db Batch
      → ExpirationEventCache
      → Bytes
      → Result (StagingArea Db Batch × ExpirationEventCache)
  release_front s cache name = do
    (t, forgotten, status) ← release_now s cache name
    throw_if (not (is_success status)) assertion_violation
    ok (t, forgotten)

  -- The front has expired, or the loop ends.
  abbrev pub expire_turn :
      (StagingArea Db Batch
        → ExpirationEventCache
        → Result (StagingArea Db Batch × ExpirationEventCache))
      → StagingArea Db Batch
      → ExpirationEventCache
      → Option Bytes
      → Result (StagingArea Db Batch × ExpirationEventCache)
  expire_turn again s cache none = ok (s, cache)
  expire_turn again s cache (some name) = do
    (t, forgotten) ← release_front s cache name
    again t forgotten

  -- The loop, whose turns are bounded.
  abbrev pub expire_loop :
      ℕ
      → ℕ
      → StagingArea Db Batch
      → ExpirationEventCache
      → Result (StagingArea Db Batch × ExpirationEventCache)
  expire_loop zero new_value s cache = ok (s, cache)
  expire_loop (suc turns) new_value s cache =
      expire_turn (expire_loop turns new_value) s cache (front_lease new_value cache.contents)

  -- Each turn forgets a deadline, so that there are as many turns as deadlines at most.
  unfoldable pub advance_clock :
      StagingArea Db Batch
      → ExpirationEventCache
      → ℕ
      → Result (StagingArea Db Batch × ExpirationEventCache)
  advance_clock s cache new_value = do
    prev_value ← get_clock s
    throw_if (ltb new_value prev_value) clock_in_past
    (t, left) ← expire_loop (length cache.contents) new_value s cache
    u ← put t clock_key (int_to_binary_string new_value)
    ok (u, left)

  abbrev pub advance_if :
      StagingArea Db Batch
      → ExpirationEventCache
      → ℕ
      → ℕ
      → Bool
      → Result (StagingArea Db Batch × ExpirationEventCache × ℕ)
  advance_if s cache current_clock clock_update true = do
    (t, left) ← advance_clock s cache clock_update
    ok (t, left, clock_update)
  advance_if s cache current_clock clock_update false = ok (s, cache, current_clock)

  unfoldable pub maybe_advance_clock :
      StagingArea Db Batch
      → ExpirationEventCache
      → ℕ
      → Result (StagingArea Db Batch × ExpirationEventCache × ℕ)
  maybe_advance_clock s cache clock_update = do
    current_clock ← get_clock s
    advance_if s cache current_clock clock_update (ltb current_clock clock_update)

  unfoldable pub lease_release :
      StagingArea Db Batch
      → ExpirationEventCache
      → Bytes
      → ℕ
      → Result (StagingArea Db Batch × ExpirationEventCache × Status)
  lease_release s cache key zero = release_now s cache key
  lease_release s cache key (suc clock_update) = do
    (t, left, now) ← maybe_advance_clock s cache (suc clock_update)
    release_now t left key

  abbrev pub read_lease :
      StagingArea Db Batch → Bytes → KeyDescriptor → Result (Status × Option LeaseInfo)
  read_lease s key key_info = do
    value ← found_or_throw (get s (lease_locator key))
    start ← get_start_index key_info
    end ← get_end_index key_info
    ok (success, some (record { value = value; last_renewal = start; deadline = end }))

  abbrev pub lease_found :
      StagingArea Db Batch → Bytes → KeyDescriptor → Result (Status × Option LeaseInfo)
  lease_found s key key_info =
      if is_empty key_info
      then ok (not_found, none)
      else if not (same_type key_info.key_type lease)
      then ok (wrong_type, none)
      else read_lease s key key_info

  unfoldable pub lease_get :
      StagingArea Db Batch
      → ExpirationEventCache
      → Bytes
      → ℕ
      → Result (StagingArea Db Batch × ExpirationEventCache × Status × Option LeaseInfo)
  lease_get s cache key clock_update = do
    (t, left, now) ← maybe_advance_clock s cache clock_update
    key_info ← get_key_descriptor t key
    (status, info) ← lease_found t key key_info
    ok (t, left, status, info)
