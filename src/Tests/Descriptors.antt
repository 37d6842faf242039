-- ===== src/Tests/Descriptors.antt =====
-- A descriptor of a deque, and three expiration events.
use quarkdb.Base.{ℕ, ◌≤◌, ◌≡◌, refl, [], ◌∷◌, List, Bytes, codes, arith, ok}
use quarkdb.Storage.KeyType.{deque}
use quarkdb.Storage.BinaryInt.{int_to_binary_string}
use quarkdb.Storage.KeyDescriptor.{
  KeyDescriptor, IsStorable, serialize, parse_descriptor, parse_descriptor-serialize,
}
use quarkdb.Storage.Expiration.{
  expiration_event_locator, event_deadline, event_redis_key, event_deadline-locator, event_keys,
  assert_deadline_sanity, InOrder, deadlines_do_not_fall,
}
use quarkdb.Tests.Cluster.{value_of}

abbrev descriptor : KeyDescriptor
descriptor = record { key_type = deque; size = 3; start_index = 500; end_index = 503 }

descriptor-IsStorable : IsStorable descriptor
descriptor-IsStorable = record {
  size_fits = omega arith;
  start_fits = omega arith;
  end_fits = omega arith;
  defaults = tt;
}

abbrev written : Bytes
written = value_of (serialize descriptor) []

parse_descriptor-serialize_example : parse_descriptor written ≡ ok descriptor
unfolding serialize
parse_descriptor-serialize_example =
    parse_descriptor-serialize descriptor written descriptor-IsStorable refl

event_deadline-locator_example :
    (event_deadline (expiration_event_locator 300 (codes "k")) ≡ 300)
    × (event_redis_key (expiration_event_locator 300 (codes "k")) ≡ codes "k")
event_deadline-locator_example = event_deadline-locator 300 (codes "k") (omega arith)

abbrev later_events : List (ℕ × Bytes)
later_events = (300, codes "z") ∷ (300, codes "zz") ∷ (70000, codes "a") ∷ []

later_events-InOrder : InOrder (expiration_event_locator 200 (codes "y")) (event_keys later_events)
unfolding expiration_event_locator int_to_binary_string
later_events-InOrder = (refl, (refl, (refl, tt)))

deadlines_do_not_fall_example :
    (last : ℕ) × (assert_deadline_sanity 200 (event_keys later_events) ≡ ok last) × (200 ≤ last)
deadlines_do_not_fall_example =
    deadlines_do_not_fall 200 (codes "y") later_events (omega arith)
      (omega arith, (omega arith, (omega arith, tt))) later_events-InOrder
