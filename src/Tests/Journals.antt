-- ===== src/Tests/Journals.antt =====
-- The journal of two entries, committed and grown; and the comparison of entries with it.
use quarkdb.Base.{ℕ, ◌+◌, ◌≤◌, ◌≡◌, refl, true, [], ◌∷◌, arith, min, length, ok, bytes_eq}
use quarkdb.Raft.Store.{Table, table_rocks}
use quarkdb.Raft.Journal.{Journal, fetch, set_commit_index, raw_set_commit_index, commit_batch}
use quarkdb.Raft.Entries.{serialize_entry, deserialize_entry, deserialize_entry-serialize_entry}
use quarkdb.Raft.Journal.Log.{append_no_lock, take_membership, compare_entries}
use quarkdb.Raft.Journal.Valid.{IsValid}
use quarkdb.Raft.Journal.History.{
  Step, Steps, here, next, commits, appends, committed_entries_stay, journal_stays-IsValid,
}
use quarkdb.Raft.Journal.Compare.{FirstDifference, compare_entries-FirstDifference}
use quarkdb.Tests.Cluster.{value_of, journal, journal-IsValid, entry_of_term}

abbrev committed : Journal Table
unfolding set_commit_index raw_set_commit_index
committed = (value_of (set_commit_index journal 1) (journal, true)).0

commits_one : Step journal committed
unfolding set_commit_index raw_set_commit_index
commits_one = commits 1 refl

abbrev grown : Journal Table
grown = (value_of (append_no_lock committed 2 (entry_of_term 1) true) (committed, true)).0

appends_one : Step committed grown
unfolding committed set_commit_index raw_set_commit_index append_no_lock take_membership
    commit_batch bytes_eq
appends_one = appends 2 (entry_of_term 1) true refl

history : Steps journal grown
history = next (next here commits_one) appends_one

journal_stays-IsValid_example : IsValid grown
journal_stays-IsValid_example = journal_stays-IsValid history journal-IsValid

committed_entries_stay_example :
    (fetch grown 0 ≡ fetch journal 0)
    × (journal.commit_index ≤ grown.commit_index)
    × (journal.current_term ≤ grown.current_term)
unfolding set_commit_index raw_set_commit_index append_no_lock take_membership commit_batch bytes_eq
committed_entries_stay_example =
    committed_entries_stay 0 history journal-IsValid (omega arith) (omega arith)

compare_entries-FirstDifference_example :
    (r : ℕ) × (compare_entries journal 1 (entry_of_term 1 ∷ entry_of_term 1 ∷ []) ≡ ok r)
    × FirstDifference journal 1
        (entry_of_term 1 ∷ entry_of_term 1 ∷ [])
        1
        (min journal.log_size (1 + length (entry_of_term 1 ∷ entry_of_term 1 ∷ [])))
        r
compare_entries-FirstDifference_example =
    compare_entries-FirstDifference journal 1 (entry_of_term 1 ∷ entry_of_term 1 ∷ [])
      journal-IsValid (omega arith) (omega arith)

deserialize_entry-serialize_entry_example :
    deserialize_entry (serialize_entry (entry_of_term 1)) ≡ ok (entry_of_term 1)
deserialize_entry-serialize_entry_example =
    deserialize_entry-serialize_entry (entry_of_term 1) (omega arith)
      (omega arith, (omega arith, (omega arith, tt)))
