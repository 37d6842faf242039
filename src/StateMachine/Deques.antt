-- ===== src/StateMachine/Deques.antt =====
-- src/StateMachine.cc: the commands on deques, whose fields are the numbers between the two indices.
-- Indices are unsigned integers of 64 bits.
use quarkdb.Base.{
  ℕ, zero, suc, ◌+◌, ◌-◌, ◌==◌, leb, ltb, not, Bool, true, false, Option, none, some, Bytes, codes,
  List, [], ◌∷◌, length, ℤ, pos, negsuc, Result, ok, thrown, ◌>>=◌, ◌>>◌, throw_if,
  assertion_violation,
}
use quarkdb.Storage.KeyType.{deque}
use quarkdb.Storage.BinaryInt.{int_to_binary_string}
use quarkdb.Storage.KeyDescriptor.{KeyDescriptor}
use quarkdb.Storage.DescriptorAccess.{
  Direction, left, right, flip_direction, get_list_index, set_list_index, get_size, get_start_index,
  get_end_index, set_start_index,
}
use quarkdb.Raft.Parsing.{parse_int64}
use quarkdb.StateMachine.Database.{Rocks}
use quarkdb.StateMachine.StagingArea.{StagingArea}
use quarkdb.StateMachine.WriteOperation.{
  WriteOperation, key_size, get_field, write_field, delete_field, cancel, destroy,
}
use quarkdb.StateMachine.Status.{
  Status, success, not_found, malformed, plus64, minus64, length_of, return_finalize,
  with_operation,
}

-- `index + count * (int) direction`
abbrev pub step : Direction → ℕ → ℕ → ℕ
step right index count = plus64 index count
step left index count = minus64 index count

-- When the key was empty, the other index is set too.
abbrev pub set_other_index : Bool → KeyDescriptor → Direction → ℕ → Result KeyDescriptor
set_other_index true info direction list_index =
    set_list_index info (flip_direction direction) (step (flip_direction direction) list_index 1)
set_other_index false info direction list_index = ok info

abbrev pub item_of : Option Bytes → Result Bytes
item_of none = thrown assertion_violation
item_of (some item) = ok item

module _ {Db Batch : Type 0} ⦃rocks : Rocks Db Batch⦄ where
  abbrev pub push_loop :
      StagingArea Db Batch
      → WriteOperation
      → Direction
      → ℕ
      → ℕ
      → List Bytes
      → Result (StagingArea Db Batch)
  push_loop s op direction list_index items_added [] = ok s
  push_loop s op direction list_index items_added (item ∷ rest) = do
    t ← write_field s op (int_to_binary_string (step direction list_index items_added)) item
    push_loop t op direction list_index (plus64 items_added 1) rest

  abbrev pub push_with :
      StagingArea Db Batch
      → Direction
      → List Bytes
      → WriteOperation
      → Result (StagingArea Db Batch × Status × ℕ)
  push_with s direction items op = do
    list_index ← get_list_index op.key_info direction
    t ← push_loop s op direction list_index 0 items
    pushed ← set_list_index op.key_info direction (step direction list_index (length items))
    size ← key_size op
    key_info ← set_other_index (size == 0) pushed direction list_index
    u ← return_finalize t (record op { key_info = key_info }) (plus64 size (length items)) false
    ok (u, success, plus64 size (length items))

  unfoldable pub deque_push :
      StagingArea Db Batch
      → Direction
      → Bytes
      → List Bytes
      → Result (StagingArea Db Batch × Status × ℕ)
  deque_push s direction key items = with_operation s key deque 0 (push_with s direction items)

  unfoldable pub deque_push_front :
      StagingArea Db Batch → Bytes → List Bytes → Result (StagingArea Db Batch × Status × ℕ)
  unfolding deque_push
  deque_push_front s key items = deque_push s left key items

  unfoldable pub deque_push_back :
      StagingArea Db Batch → Bytes → List Bytes → Result (StagingArea Db Batch × Status × ℕ)
  unfolding deque_push
  deque_push_back s key items = deque_push s right key items

  abbrev pub pop_item :
      StagingArea Db Batch
      → Direction
      → WriteOperation
      → ℕ
      → ℕ
      → Result (StagingArea Db Batch × Status × Bytes)
  pop_item s direction op size list_index =
      let victim = step (flip_direction direction) list_index 1 in
      do
        stored ← get_field s op (int_to_binary_string victim)
        item ← item_of stored
        (found, t) ← delete_field s op (int_to_binary_string victim)
        throw_if (not found) assertion_violation
        key_info ← set_list_index op.key_info direction victim
        u ← return_finalize t (record op { key_info = key_info }) (minus64 size 1) false
        ok (u, success, item)

  abbrev pub pop_sized :
      StagingArea Db Batch
      → Direction
      → WriteOperation
      → ℕ
      → Result (StagingArea Db Batch × Status × Bytes)
  pop_sized s direction op zero = do t ← return_finalize s op 0 false; ok (t, not_found, [])
  pop_sized s direction op (suc n) = do
    list_index ← get_list_index op.key_info direction
    pop_item s direction op (suc n) list_index

  abbrev pub pop_with :
      StagingArea Db Batch
      → Direction
      → WriteOperation
      → Result (StagingArea Db Batch × Status × Bytes)
  pop_with s direction op = do size ← key_size op; pop_sized s direction op size

  unfoldable pub deque_pop :
      StagingArea Db Batch → Direction → Bytes → Result (StagingArea Db Batch × Status × Bytes)
  deque_pop s direction key = with_operation s key deque [] (pop_with s direction)

  unfoldable pub deque_pop_front :
      StagingArea Db Batch → Bytes → Result (StagingArea Db Batch × Status × Bytes)
  unfolding deque_pop
  deque_pop_front s key = deque_pop s left key

  unfoldable pub deque_pop_back :
      StagingArea Db Batch → Bytes → Result (StagingArea Db Batch × Status × Bytes)
  unfolding deque_pop
  deque_pop_back s key = deque_pop s right key

  unfoldable pub deque_len : StagingArea Db Batch → Bytes → Result (Status × ℕ)
  deque_len s key = length_of s key deque

  -- The loop over the items to remove, of which there are `left_to_do` at most.
  abbrev pub trim_loop :
      StagingArea Db Batch → WriteOperation → ℕ → ℕ → ℕ → ℕ → Result (StagingArea Db Batch × ℕ)
  trim_loop s op next last eliminated zero = ok (s, eliminated)
  trim_loop s op next last eliminated (suc left_to_do) = elim (leb next last) [
    | false ↦ ok (s, eliminated)
    | true ↦ do
      (found, t) ← delete_field s op (int_to_binary_string next)
      throw_if (not found) assertion_violation
      trim_loop t op (plus64 next 1) last (eliminated + 1) left_to_do
  ]

  abbrev pub trim_excess :
      StagingArea Db Batch
      → WriteOperation
      → ℕ
      → ℕ
      → Bool
      → Result (StagingArea Db Batch × Status × ℕ)
  trim_excess s op max_to_keep to_remove false = do destroy (cancel op); ok (s, success, 0)
  trim_excess s op max_to_keep to_remove true = do
    start ← get_start_index op.key_info
    (t, eliminated) ← trim_loop s op (plus64 start 1) (plus64 start to_remove) 0 to_remove
    throw_if (not (eliminated == to_remove)) assertion_violation
    key_info ← set_start_index op.key_info (plus64 start to_remove)
    end ← get_end_index key_info
    let kept = minus64 (minus64 end (plus64 start to_remove)) 1
    throw_if (not (kept == max_to_keep)) assertion_violation
    u ← return_finalize t (record op { key_info = key_info }) kept false
    ok (u, success, to_remove)

  abbrev pub trim_with :
      StagingArea Db Batch → ℕ → WriteOperation → Result (StagingArea Db Batch × Status × ℕ)
  trim_with s max_to_keep op = do
    size ← get_size op.key_info
    trim_excess s op max_to_keep (size - max_to_keep) (ltb max_to_keep size)

  abbrev pub trim_parsed :
      StagingArea Db Batch → Bytes → Option ℤ → Result (StagingArea Db Batch × Status × ℕ)
  trim_parsed s key (some (pos max_to_keep)) =
      with_operation s key deque 0 (trim_with s max_to_keep)
  trim_parsed s key (some (negsuc n)) =
      ok (s, malformed (codes "value is not an integer or out of range"), 0)
  trim_parsed s key none = ok (s, malformed (codes "value is not an integer or out of range"), 0)

  unfoldable pub deque_trim_front :
      StagingArea Db Batch → Bytes → Bytes → Result (StagingArea Db Batch × Status × ℕ)
  deque_trim_front s key max_to_keep = trim_parsed s key (parse_int64 max_to_keep)
