-- ===== src/StateMachine/Removal.antt =====
-- src/StateMachine.cc: hdel and srem, whose bodies are one loop.
use quarkdb.Base.{ℕ, false, Bytes, List, [], ◌∷◌, Result, ok, ◌>>=◌}
use quarkdb.Storage.KeyType.{hash, set}
use quarkdb.StateMachine.Database.{Rocks}
use quarkdb.StateMachine.StagingArea.{StagingArea}
use quarkdb.StateMachine.WriteOperation.{WriteOperation, key_size, delete_field}
use quarkdb.StateMachine.Status.{
  Status, success, plus64, minus64, count_of, return_finalize, with_operation,
}

module _ {Db Batch : Type 0} ⦃rocks : Rocks Db Batch⦄ where
  abbrev pub delete_loop :
      StagingArea Db Batch → WriteOperation → ℕ → List Bytes → Result (StagingArea Db Batch × ℕ)
  delete_loop s op removed [] = ok (s, removed)
  delete_loop s op removed (field ∷ rest) = do
    (found, t) ← delete_field s op field
    delete_loop t op (plus64 removed (count_of found)) rest

  abbrev pub remove_with :
      StagingArea Db Batch
      → List Bytes
      → WriteOperation
      → Result (StagingArea Db Batch × Status × ℕ)
  remove_with s request op = do
    (t, removed) ← delete_loop s op 0 request
    size ← key_size op
    u ← return_finalize t op (minus64 size removed) false
    ok (u, success, removed)

  unfoldable pub hdel :
      StagingArea Db Batch → Bytes → List Bytes → Result (StagingArea Db Batch × Status × ℕ)
  hdel s key request = with_operation s key hash 0 (remove_with s request)

  unfoldable pub srem :
      StagingArea Db Batch → Bytes → List Bytes → Result (StagingArea Db Batch × Status × ℕ)
  srem s key request = with_operation s key set 0 (remove_with s request)
