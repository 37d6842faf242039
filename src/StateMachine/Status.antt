-- ===== src/StateMachine/Status.antt =====
-- The rocksdb::Status values that src/StateMachine.cc returns, and how a command ends.
use quarkdb.Base.{
  ℕ, ◌+◌, ◌-◌, ◌%◌, ◌^◌, Bool, true, false, not, ◌&&◌, Option, none, some, Bytes, codes, Result, ok,
  ◌>>=◌, ◌>>◌,
}
use quarkdb.Storage.KeyType.{KeyType}
use quarkdb.Storage.KeyDescriptor.{KeyDescriptor}
use quarkdb.Storage.DescriptorAccess.{is_empty, same_type, get_size}
use quarkdb.Storage.Locators.{descriptor_locator}
use quarkdb.StateMachine.Database.{Rocks}
use quarkdb.StateMachine.StagingArea.{StagingArea, get}
use quarkdb.StateMachine.WriteOperation.{
  WriteOperation, construct_descriptor, write_operation, destroy, finalize,
}

pub data Status : Type 0 where
  success : Status
  not_found : Status
  invalid_argument : Bytes → Status

abbrev pub wrong_type : Status
wrong_type =
    invalid_argument (codes "WRONGTYPE Operation against a key holding the wrong kind of value")

abbrev pub malformed : Bytes → Status
malformed message = invalid_argument message

-- int64_t arithmetic, by bits.
abbrev pub plus64 : ℕ → ℕ → ℕ
plus64 a b = (a + b) % 2 ^ 64

abbrev pub minus64 : ℕ → ℕ → ℕ
minus64 a b = (a + (2 ^ 64 - b % 2 ^ 64)) % 2 ^ 64

abbrev pub count_of : Bool → ℕ
count_of true = 1
count_of false = 0

-- What DB::Get says of a key, and the value.
abbrev pub lookup_status {ℓ} : {A : Type ℓ} → Option A → Status
lookup_status none = not_found
lookup_status (some v) = success

unfoldable pub is_wrong_type : KeyDescriptor → KeyType → Bool
is_wrong_type d t = not (is_empty d) && not (same_type d.key_type t)

abbrev pub length_unless : Bool → KeyDescriptor → Result (Status × ℕ)
length_unless true key_info = ok (wrong_type, 0)
length_unless false key_info = do len ← get_size key_info; ok (success, len)

module _ {Db Batch : Type 0} ⦃rocks : Rocks Db Batch⦄ where
  unfoldable pub get_key_descriptor : StagingArea Db Batch → Bytes → Result KeyDescriptor
  get_key_descriptor s redis_key = construct_descriptor (get s (descriptor_locator redis_key))

  unfoldable pub assert_key_type : StagingArea Db Batch → Bytes → KeyType → Result Bool
  unfolding get_key_descriptor
  assert_key_type s key t = do
    key_info ← get_key_descriptor s key
    ok (not (not (is_empty key_info) && not (same_type key_info.key_type t)))

  -- The body of hlen, scard, dequeLen, lhlen and vhlen.
  abbrev pub length_of : StagingArea Db Batch → Bytes → KeyType → Result (Status × ℕ)
  length_of s key t = do
    key_info ← get_key_descriptor s key
    length_unless (is_wrong_type key_info t) key_info

  -- `return operation.finalize(...)`, and the destructor of the operation.
  abbrev pub return_finalize :
      StagingArea Db Batch → WriteOperation → ℕ → Bool → Result (StagingArea Db Batch)
  return_finalize s op newsize force_update = do
    (closed, t) ← finalize s op newsize force_update
    destroy closed
    ok t

  -- `WriteOperation operation(...); if(!operation.valid()) return wrong_type();` before the body of a
  -- command, whose results are left as they are when the type is wrong.
  abbrev pub with_operation {ℓ} :
      {Reply : Type ℓ}
      → StagingArea Db Batch
      → Bytes
      → KeyType
      → Reply
      → (WriteOperation → Result (StagingArea Db Batch × Status × Reply))
      → Result (StagingArea Db Batch × Status × Reply)
  with_operation s key t unset body = do
    op ← write_operation s key t
    elim op.is_valid [ false ↦ destroy op >> ok (s, wrong_type, unset) | true ↦ body op ]
