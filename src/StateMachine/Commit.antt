-- ===== src/StateMachine/Commit.antt =====
-- src/StateMachine.cc (commitTransaction, commitBatch, retrieveLastApplied, and the macro CHAIN) and
-- storage/StagingArea.hh (commit). A log index is a natural number: 0 stands for all that are not above 0.
pub mod Restart
use quarkdb.Base.{
  ℕ, zero, suc, ◌+◌, ◌==◌, ltb, not, ◌&&◌, Bool, true, false, Option, none, some, List, [], ◌∷◌,
  Bytes, codes, Result, ok, ◌>>=◌, ◌>>◌, throw_if, assertion_violation, readonly_staging_area,
  illegal_last_applied,
}
use quarkdb.Storage.BinaryInt.{int_to_binary_string, binary_string_to_int}
use quarkdb.StateMachine.Database.{Rocks}
use quarkdb.StateMachine.StagingArea.{StagingArea, new_area}

-- KeyConstants::kStateMachine_LastApplied
abbrev pub last_applied_key : Bytes
last_applied_key = codes "__last-applied"

pub record StateMachine (Db : Type 0) : Type 0 where
  pub db : Db
  pub last_applied : ℕ
  pub in_bulk_load : Bool

abbrev pub next_applied : ℕ → ℕ → ℕ
next_applied last zero = last
next_applied last (suc index) = suc index

module _ {Db Batch : Type 0} ⦃rocks : Rocks Db Batch⦄ where
  -- The batch of a transaction with an index has the index too.
  abbrev pub index_batch : StateMachine Db → Batch → ℕ → Result Batch
  index_batch sm wb zero = ok wb
  index_batch sm wb (suc index) = do
    throw_if (not (suc index == sm.last_applied + 1)) illegal_last_applied
    ok (rocks.batch_put wb last_applied_key (int_to_binary_string (suc index)))

  unfoldable pub commit_transaction : StateMachine Db → Batch → ℕ → Result (StateMachine Db)
  commit_transaction sm wb index = do
    throw_if (index == 0 && ltb 0 sm.last_applied) illegal_last_applied
    batch ← index_batch sm wb index
    ok (record sm {
      db = rocks.db_write sm.db batch;
      last_applied = next_applied sm.last_applied index;
    })

  abbrev pub commit_batch : StateMachine Db → Batch → StateMachine Db
  commit_batch sm batch = record sm { db = rocks.db_write sm.db batch }

  abbrev pub commit_area :
      StateMachine Db → StagingArea Db Batch → ℕ → Bool → Result (StateMachine Db)
  commit_area sm s index true = do
    throw_if (not (index == 0)) assertion_violation
    ok (commit_batch sm s.write_batch)
  commit_area sm s index false = commit_transaction sm s.write_batch_with_index index

  unfoldable pub commit : StateMachine Db → StagingArea Db Batch → ℕ → Result (StateMachine Db)
  commit sm s index = do
    throw_if s.read_only readonly_staging_area
    commit_area sm s index s.bulk_load

  -- The macro CHAIN: a command over an area of its own, and the commit.
  unfoldable pub chain {ℓ} :
      {Reply : Type ℓ}
      → StateMachine Db
      → ℕ
      → (StagingArea Db Batch → Result (StagingArea Db Batch × Reply))
      → Result (StateMachine Db × Reply)
  chain sm index command = do
    (s, reply) ← command (new_area sm.db sm.in_bulk_load false)
    committed ← commit sm s index
    ok (committed, reply)

module _ {Db : Type 0} (Batch : Type 0) ⦃rocks : Rocks Db Batch⦄ where
  -- The database, and what the state machine has applied, when it is opened.
  abbrev pub read_last_applied : Db → Option Bytes → Db × ℕ
  read_last_applied d (some tmp) = (d, binary_string_to_int tmp)
  read_last_applied d none = (
    rocks.db_write d (rocks.batch_put rocks.new_batch last_applied_key (int_to_binary_string 0)),
    0,
  )

  unfoldable pub retrieve_last_applied : Db → Db × ℕ
  retrieve_last_applied d = read_last_applied d (rocks.db_get d last_applied_key)
