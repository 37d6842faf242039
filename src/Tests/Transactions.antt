-- ===== src/Tests/Transactions.antt =====
-- A state machine that applies two commands, and a clock that passes a deadline.
use quarkdb.Base.{
  ℕ, ◌+◌, ◌≡◌, refl, false, none, some, List, [], ◌∷◌, codes, bytes_eq, if◌then◌else◌, arith,
  Result, ok, ◌>>=◌,
}
use quarkdb.Storage.BinaryInt.{int_to_binary_string}
use quarkdb.StateMachine.Database.{Table, Write, table_rocks}
use quarkdb.StateMachine.StagingArea.{StagingArea, put, new_area}
use quarkdb.StateMachine.Commit.{
  StateMachine, last_applied_key, chain, commit, commit_transaction, retrieve_last_applied,
}
use quarkdb.StateMachine.Commit.Restart.{chains, Consecutive, IsPersisted, applied_in_order}
use quarkdb.Tests.Cluster.{value_of}

abbrev Area : Type 0
Area = StagingArea Table (List Write)

abbrev at_seven : StateMachine Table
at_seven = record {
  db = λ k. if bytes_eq k last_applied_key then some (int_to_binary_string 7) else none;
  last_applied = 7;
  in_bulk_load = false;
}

at_seven-IsPersisted : IsPersisted (List Write) at_seven
unfolding bytes_eq
at_seven-IsPersisted = record { stored = refl; transactions = refl }

abbrev write_something : Area → Result (Area × Unit {0})
write_something s = do t ← put s (codes "a") (codes "b"); ok (t, tt)

abbrev two_commands : List (ℕ × (Area → Result (Area × Unit {0})))
two_commands = (8, write_something) ∷ (9, write_something) ∷ []

abbrev at_nine : StateMachine Table
unfolding chains
at_nine = value_of (chains at_seven two_commands) at_seven

ran : chains at_seven two_commands ≡ ok at_nine
unfolding chains chain commit commit_transaction new_area put at_nine
ran = refl

applied_in_order_example :
    Consecutive 7 two_commands
    × (at_nine.last_applied ≡ 7 + 2)
    × (retrieve_last_applied (List Write) at_nine.db ≡ (at_nine.db, at_nine.last_applied))
applied_in_order_example =
    applied_in_order two_commands at_seven at_nine at_seven-IsPersisted
      (omega arith, (omega arith, tt)) (omega arith) ran
