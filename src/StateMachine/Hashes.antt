-- ===== src/StateMachine/Hashes.antt =====
-- src/StateMachine.cc: the commands on hashes. A command gives the staging area, the status, and what it
-- leaves in its output parameters: false, 0 or nothing, where it does not set them.
use quarkdb.Base.{
  ℕ, ◌-◌, ◌%◌, ◌^◌, ◌==◌, ltb, ℤ, pos, negsuc, thrown, out_of_range, not, Bool, true, false, Option,
  none, some, is_some, Bytes, codes, List, [], ◌∷◌, length, if◌then◌else◌, Result, ok, ◌>>=◌, ◌>>◌,
  throw_if, bad_request_size,
}
use quarkdb.Storage.KeyType.{hash}
use quarkdb.Raft.Parsing.{parse_int64, decimal}
use quarkdb.Storage.Locators.{field_locator}
use quarkdb.StateMachine.Database.{Rocks}
use quarkdb.StateMachine.StagingArea.{StagingArea, get}
use quarkdb.StateMachine.WriteOperation.{
  WriteOperation, key_size, get_field, field_exists, write_field,
}
use quarkdb.StateMachine.Status.{
  Status, success, wrong_type, malformed, plus64, minus64, count_of, lookup_status, assert_key_type,
  length_of, return_finalize, with_operation,
}

-- A signed integer and its bits.
abbrev pub to_bits : ℤ → ℕ
to_bits (pos n) = n % 2 ^ 64
to_bits (negsuc n) = minus64 (2 ^ 64 - 1) n

abbrev pub of_bits : ℕ → ℤ
of_bits n = if ltb n (2 ^ 63) then pos n else negsuc (2 ^ 64 - 1 - n)

-- `none` is a value that cannot be parsed, and a field that is not there counts as 0.
abbrev pub value_of_field : Option Bytes → Option ℤ
value_of_field none = some (pos 0)
value_of_field (some value) = parse_int64 value

module _ {Db Batch : Type 0} ⦃rocks : Rocks Db Batch⦄ where
  abbrev look : StagingArea Db Batch → Bytes → Status × Option Bytes
  look s locator = (lookup_status (get s locator), get s locator)

  unfoldable pub hget : StagingArea Db Batch → Bytes → Bytes → Result (Status × Option Bytes)
  hget s key field = do
    typed ← assert_key_type s key hash
    if typed
        then field_locator hash key field >>= (λ locator. ok (look s locator))
        else ok (wrong_type, none)

  unfoldable pub hexists : StagingArea Db Batch → Bytes → Bytes → Result Status
  unfolding hget
  hexists s key field = do (status, tmp) ← hget s key field; ok status

  unfoldable pub hlen : StagingArea Db Batch → Bytes → Result (Status × ℕ)
  hlen s key = length_of s key hash

  abbrev pub hset_with :
      StagingArea Db Batch
      → Bytes
      → Bytes
      → WriteOperation
      → Result (StagingArea Db Batch × Status × Bool)
  hset_with s field value op = do
    present ← field_exists s op field
    size ← key_size op
    t ← write_field s op field value
    u ← return_finalize t op (plus64 size (count_of (not present))) false
    ok (u, success, not present)

  unfoldable pub hset :
      StagingArea Db Batch → Bytes → Bytes → Bytes → Result (StagingArea Db Batch × Status × Bool)
  hset s key field value = with_operation s key hash false (hset_with s field value)

  -- The loop over pairs of a field and a value: the area, and the new size.
  abbrev pub hmset_loop :
      StagingArea Db Batch → WriteOperation → ℕ → List Bytes → Result (StagingArea Db Batch × ℕ)
  hmset_loop s op newsize [] = ok (s, newsize)
  hmset_loop s op newsize (field ∷ []) = thrown out_of_range
  hmset_loop s op newsize (field ∷ value ∷ rest) = do
    present ← field_exists s op field
    t ← write_field s op field value
    hmset_loop t op (plus64 newsize (count_of (not present))) rest

  abbrev pub hmset_with :
      StagingArea Db Batch
      → List Bytes
      → WriteOperation
      → Result (StagingArea Db Batch × Status × Unit {0})
  hmset_with s request op = do
    size ← key_size op
    (t, newsize) ← hmset_loop s op size request
    u ← return_finalize t op newsize false
    ok (u, success, tt)

  unfoldable pub hmset :
      StagingArea Db Batch → Bytes → List Bytes → Result (StagingArea Db Batch × Status × Unit {0})
  hmset s key request = do
    throw_if (not (length request % 2 == 0)) bad_request_size
    with_operation s key hash tt (hmset_with s request)

  abbrev pub write_new :
      StagingArea Db Batch → WriteOperation → Bool → Bytes → Bytes → Result (StagingArea Db Batch)
  write_new s op true field value = ok s
  write_new s op false field value = write_field s op field value

  abbrev pub hsetnx_with :
      StagingArea Db Batch
      → Bytes
      → Bytes
      → WriteOperation
      → Result (StagingArea Db Batch × Status × Bool)
  hsetnx_with s field value op = do
    present ← field_exists s op field
    size ← key_size op
    t ← write_new s op present field value
    u ← return_finalize t op (plus64 size (count_of (not present))) false
    ok (u, success, not present)

  unfoldable pub hsetnx :
      StagingArea Db Batch → Bytes → Bytes → Bytes → Result (StagingArea Db Batch × Status × Bool)
  hsetnx s key field value = with_operation s key hash false (hsetnx_with s field value)

  abbrev pub hincrby_value :
      StagingArea Db Batch
      → WriteOperation
      → Bytes
      → ℤ
      → Bool
      → Option ℤ
      → Result (StagingArea Db Batch × Status × ℤ)
  hincrby_value s op field incr present none = do
    size ← key_size op
    t ← return_finalize s op size false
    ok (t, malformed (codes "hash value is not an integer"), pos 0)
  hincrby_value s op field incr present (some old) =
      let result = of_bits (plus64 (to_bits old) (to_bits incr)) in
      do
        size ← key_size op
        t ← write_field s op field (decimal result)
        u ← return_finalize t op (plus64 size (count_of (not present))) false
        ok (u, success, result)

  abbrev pub hincrby_with :
      StagingArea Db Batch → Bytes → ℤ → WriteOperation → Result (StagingArea Db Batch × Status × ℤ)
  hincrby_with s field incr op = do
    value ← get_field s op field
    hincrby_value s op field incr (is_some value) (value_of_field value)

  abbrev pub hincrby_parsed :
      StagingArea Db Batch → Bytes → Bytes → Option ℤ → Result (StagingArea Db Batch × Status × ℤ)
  hincrby_parsed s key field none =
      ok (s, malformed (codes "value is not an integer or out of range"), pos 0)
  hincrby_parsed s key field (some incr) =
      with_operation s key hash (pos 0) (hincrby_with s field incr)

  unfoldable pub hincrby :
      StagingArea Db Batch → Bytes → Bytes → Bytes → Result (StagingArea Db Batch × Status × ℤ)
  hincrby s key field incrby = hincrby_parsed s key field (parse_int64 incrby)
