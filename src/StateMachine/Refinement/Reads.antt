-- ===== src/StateMachine/Refinement/Reads.antt =====
-- src/StateMachine.cc: what the commands that read hashes and sets return.
use quarkdb.Base.{ℕ, zero, suc, ◌≡◌, refl, true, false, Option, none, some, Bytes, length, ok}
use quarkdb.Storage.KeyType.{KeyType, null, hash}
use quarkdb.Storage.KeyDescriptor.{KeyDescriptor}
use quarkdb.Storage.DescriptorAccess.{new_descriptor, is_empty, get_size}
use quarkdb.StateMachine.Database.{Rocks}
use quarkdb.StateMachine.StagingArea.{StagingArea}
use quarkdb.StateMachine.WriteOperation.{construct_descriptor}
use quarkdb.StateMachine.Status.{
  success, lookup_status, get_key_descriptor, is_wrong_type, assert_key_type, length_of,
}
use quarkdb.StateMachine.Hashes.{hget, hlen}
use quarkdb.StateMachine.FieldMap.{FieldMap, find}
use quarkdb.StateMachine.Fields.{field_locator-ok}
use quarkdb.StateMachine.Fields.Descriptors.{
  sized, counted, IsSized, IsSized-facts, Describes, same_type_refl,
}
use quarkdb.StateMachine.Refinement.{Represents}

-- What a missing descriptor reads as.
abbrev pub info_of : Option KeyDescriptor → KeyDescriptor
info_of none = sized null 0
info_of (some d) = d

module _ (t : KeyType) (is_sized : IsSized t) where
  typed-counted : (n : ℕ) → is_wrong_type (info_of (counted t n)) t ≡ false
  unfolding is_wrong_type is_empty
  typed-counted zero = refl
  typed-counted (suc n) = rw ((IsSized-facts t is_sized).0.1, same_type_refl t) refl

  length-counted : (n : ℕ) → get_size (info_of (counted t n)) ≡ ok n
  unfolding get_size
  length-counted zero = refl
  length-counted (suc n) = rw (IsSized-facts t is_sized).0.0 refl

module _ {Db Batch : Type 0} ⦃rocks : Rocks Db Batch⦄ where
  pub get_key_descriptor-Describes :
      (s : StagingArea Db Batch) (key : Bytes) (o : Option KeyDescriptor)
      → Describes s key o
      → get_key_descriptor s key ≡ ok (info_of o)
  unfolding get_key_descriptor construct_descriptor new_descriptor
  get_key_descriptor-Describes s key none d = rw d refl
  get_key_descriptor-Describes s key (some info) (str, e, p) = rw (e, p) refl

  module _ (t : KeyType) (is_sized : IsSized t) where
    pub assert_key_type-counted :
        (s : StagingArea Db Batch) (key : Bytes) (n : ℕ)
        → Describes s key (counted t n)
        → assert_key_type s key t ≡ ok true
    unfolding assert_key_type is_wrong_type
    assert_key_type-counted s key n d =
        rw (get_key_descriptor-Describes s key (counted t n) d, typed-counted t is_sized n) refl

    length_of-counted :
        (s : StagingArea Db Batch) (key : Bytes) (n : ℕ)
        → Describes s key (counted t n)
        → length_of s key t ≡ ok (success, n)
    length_of-counted s key n d =
        rw
          (
            get_key_descriptor-Describes s key (counted t n) d,
            typed-counted t is_sized n,
            length-counted t is_sized n,
          )
          refl

  -- On an area that represents a map, hget returns the value that the map has for the field, and hlen the
  -- number of fields.
  pub hash_reads_refine :
      (s : StagingArea Db Batch) (key f : Bytes) (m : FieldMap)
      → Represents hash s key m
      → (hget s key f ≡ ok (lookup_status (find m f), find m f))
        × (hlen s key ≡ ok (success, length m))
  unfolding hget hlen
  hash_reads_refine s key f m r = (
    rw
        (
          assert_key_type-counted hash refl s key (length m) r.described,
          field_locator-ok hash key f refl,
          r.holds.reads f,
        )
        refl,
    length_of-counted hash refl s key (length m) r.described,
  )
