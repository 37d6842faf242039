-- ===== src/Tests/Leases.antt =====
-- A lease that is acquired, refused to another client, and released when the clock passes its deadline.
use quarkdb.Base.{
  ℕ, ◌∷◌, ◌+◌, ◌≡◌, refl, false, Option, none, some, List, [], Bytes, codes, bytes_eq, ok,
  if◌then◌else◌,
}
use quarkdb.Storage.BinaryInt.{int_to_binary_string, binary_string_to_int}
use quarkdb.Storage.KeyType.{parse_key_type}
use quarkdb.Storage.KeyDescriptor.{serialize, parse_descriptor}
use quarkdb.Storage.DescriptorAccess.{
  new_descriptor, is_empty, get_size, set_size, get_start_index, get_end_index, set_start_index,
  set_end_index,
}
use quarkdb.Storage.Locators.{lease_locator, descriptor_locator}
use quarkdb.Storage.Expiration.{expiration_event_locator}
use quarkdb.StateMachine.Database.{Table, Write, table_rocks}
use quarkdb.StateMachine.StagingArea.{
  StagingArea, put, del, get, exists, get_for_update, single_delete, new_area,
}
use quarkdb.StateMachine.WriteOperation.{
  write_operation, construct_descriptor, operation_on, initial_key_info, write, finalize,
  assert_writable, cancel, destroy,
}
use quarkdb.StateMachine.ExpirationEventCache.{ExpirationEventCache, insert, remove, is_stored}
use quarkdb.StateMachine.Leases.{
  LeaseInfo, clock_key, get_clock, release_now, expire_loop, advance_clock, maybe_advance_clock,
}
use quarkdb.StateMachine.Leases.Acquisition.{
  LeaseAcquisitionStatus, acquired, failed_due_to_other_owner, lease_acquire,
}
use quarkdb.StateMachine.Leases.Deadlines.{IsBuilt, fresh, inserted}
use quarkdb.StateMachine.Leases.Expiry.{advance_clock_ends, LeavesAhead}
use quarkdb.StateMachine.Leases.Ownership.{Outcome, lease_is_exclusive}
use quarkdb.StateMachine.Fields.{IsTransaction}
use quarkdb.Tests.Cluster.{value_of}

abbrev Area : Type 0
Area = StagingArea Table (List Write)

abbrev Reply : Type 0
Reply = Area × ExpirationEventCache × LeaseAcquisitionStatus × Option LeaseInfo

abbrev no_deadlines : ExpirationEventCache
no_deadlines = record { contents = []; stored_leases = [] }

-- The clock is at 100.
abbrev at_hundred : Area
unfolding new_area
at_hundred =
    new_area (λ k. if bytes_eq k clock_key then some (int_to_binary_string 100) else none) false
      false

abbrev name : Bytes
name = codes "l"

abbrev holder : Bytes
holder = codes "me"

abbrev leased : Reply
leased =
    value_of (lease_acquire at_hundred no_deadlines name holder 100 50)
      (at_hundred, no_deadlines, acquired, none)

-- Another client asks for the lease, at a time when it has not run out.
abbrev asked : Reply
asked =
    value_of (lease_acquire leased.0 leased.1 name (codes "you") 120 50)
      (at_hundred, no_deadlines, acquired, none)

asked_returned : lease_acquire leased.0 leased.1 name (codes "you") 120 50 ≡ ok asked
unfolding lease_acquire maybe_advance_clock get_clock new_area put del get exists get_for_update
    single_delete write_operation construct_descriptor operation_on initial_key_info write finalize
    assert_writable cancel destroy insert is_stored remove advance_clock release_now new_descriptor
    is_empty get_size set_size get_start_index get_end_index set_start_index set_end_index serialize
    parse_descriptor parse_key_type bytes_eq int_to_binary_string binary_string_to_int lease_locator
    descriptor_locator expiration_event_locator at_hundred
asked_returned = refl

asked_refused :
    (asked.1.contents ≡ (150, name) ∷ [])
    × (asked.2 ≡ failed_due_to_other_owner)
    × (asked.3 ≡ some (record { value = holder; last_renewal = 100; deadline = 150 }))
unfolding lease_acquire maybe_advance_clock get_clock new_area put del get exists get_for_update
    single_delete write_operation construct_descriptor operation_on initial_key_info write finalize
    assert_writable cancel destroy insert is_stored remove advance_clock release_now new_descriptor
    is_empty get_size set_size get_start_index get_end_index set_start_index set_end_index serialize
    parse_descriptor parse_key_type bytes_eq int_to_binary_string binary_string_to_int lease_locator
    descriptor_locator expiration_event_locator at_hundred
asked_refused = (refl, refl, refl)

abbrev advanced : Area × ExpirationEventCache × ℕ
advanced = value_of (maybe_advance_clock leased.0 leased.1 120) (at_hundred, no_deadlines, 0)

advanced_there : maybe_advance_clock leased.0 leased.1 120 ≡ ok (advanced.0, advanced.1, 120)
unfolding lease_acquire maybe_advance_clock get_clock new_area put del get exists get_for_update
    single_delete write_operation construct_descriptor operation_on initial_key_info write finalize
    assert_writable cancel destroy insert is_stored remove advance_clock release_now new_descriptor
    is_empty get_size set_size get_start_index get_end_index set_start_index set_end_index serialize
    parse_descriptor parse_key_type bytes_eq int_to_binary_string binary_string_to_int lease_locator
    descriptor_locator expiration_event_locator at_hundred
advanced_there = refl

advanced-IsTransaction : IsTransaction advanced.0
unfolding lease_acquire maybe_advance_clock get_clock new_area put del get exists get_for_update
    single_delete write_operation construct_descriptor operation_on initial_key_info write finalize
    assert_writable cancel destroy insert is_stored remove advance_clock release_now new_descriptor
    is_empty get_size set_size get_start_index get_end_index set_start_index set_end_index serialize
    parse_descriptor parse_key_type bytes_eq int_to_binary_string binary_string_to_int lease_locator
    descriptor_locator expiration_event_locator at_hundred
advanced-IsTransaction = record { no_bulk_load = refl; writable = refl }

lease_is_exclusive_example : Outcome advanced.0 advanced.1 name (codes "you") 120 50 asked
lease_is_exclusive_example =
    lease_is_exclusive leased.0 advanced.0 leased.1 advanced.1 name (codes "you") 120 50 120 asked
      advanced-IsTransaction advanced_there asked_returned

leased-IsBuilt : IsBuilt leased.1
unfolding lease_acquire maybe_advance_clock get_clock new_area put del get exists get_for_update
    single_delete write_operation construct_descriptor operation_on initial_key_info write finalize
    assert_writable cancel destroy insert is_stored remove advance_clock release_now new_descriptor
    is_empty get_size set_size get_start_index get_end_index set_start_index set_end_index serialize
    parse_descriptor parse_key_type bytes_eq int_to_binary_string binary_string_to_int lease_locator
    descriptor_locator expiration_event_locator at_hundred
leased-IsBuilt = inserted 150 name fresh refl

advance_clock_ends_example :
    (expire_loop (1 + 5) 200 leased.0 leased.1 ≡ expire_loop 1 200 leased.0 leased.1)
    × LeavesAhead 200 (advance_clock leased.0 leased.1 200)
unfolding lease_acquire maybe_advance_clock get_clock new_area put del get exists get_for_update
    single_delete write_operation construct_descriptor operation_on initial_key_info write finalize
    assert_writable cancel destroy insert is_stored remove advance_clock release_now new_descriptor
    is_empty get_size set_size get_start_index get_end_index set_start_index set_end_index serialize
    parse_descriptor parse_key_type bytes_eq int_to_binary_string binary_string_to_int lease_locator
    descriptor_locator expiration_event_locator at_hundred
advance_clock_ends_example = advance_clock_ends 5 200 leased.0 leased.1 leased-IsBuilt

advance_clock_returns :
    (r : Area × ExpirationEventCache) × (advance_clock leased.0 leased.1 200 ≡ ok r)
unfolding lease_acquire maybe_advance_clock get_clock new_area put del get exists get_for_update
    single_delete write_operation construct_descriptor operation_on initial_key_info write finalize
    assert_writable cancel destroy insert is_stored remove advance_clock release_now new_descriptor
    is_empty get_size set_size get_start_index get_end_index set_start_index set_end_index serialize
    parse_descriptor parse_key_type bytes_eq int_to_binary_string binary_string_to_int lease_locator
    descriptor_locator expiration_event_locator at_hundred
advance_clock_returns =
    (value_of (advance_clock leased.0 leased.1 200) (at_hundred, no_deadlines), refl)
