-- ===== src/Raft/CommitTracker.antt =====
-- src/raft/RaftCommitTracker.cc: the match index of every replica, and the commit index a leader derives
-- from those of the targets. The autocommitter thread is its one turn; locks and logs are left out.
pub mod Commits
use quarkdb.Base.{
  ℕ, ◌+◌, ◌-◌, ◌≤◌, ◌<◌, ◌≡◌, ◌⊎◌, inl, inr, ◌∙◌, Bool, true, false, not, ◌&&◌, List, [], none,
  some, arith, Bool-cases, length, get_elem?, get_elem?-lt, leb, ltb, ◌==◌, if◌then◌else◌, Result,
  ok, thrown, ◌>>=◌, ◌>>◌, throw_if, >>=-eq-ok, assertion_violation, out_of_range,
}
use quarkdb.Raft.Types.{RaftServer, calculate_quorum_size}
use quarkdb.Raft.Registrations.{
  get_handler, assign, values, length-values, set_targets, length-set_targets, Fresh,
}
use quarkdb.Raft.Quorum.{
  sort, count_from, sort-IsSorted, count-sort, length-sort, count-nth, count-above,
}
use quarkdb.Raft.Store.{Rocks}
use quarkdb.Raft.Journal.{Journal, set_commit_index, raw_set_commit_index}

pub record RaftCommitTracker : Type 0 where
  pub registrations : List (RaftServer × ℕ)
  pub targets : List RaftServer
  pub quorum_size : ℕ
  pub commit_index : ℕ
  pub commit_index_lagging : Bool
  pub auto_committer : Bool

-- The autocommitter is joined first; with no targets it runs again.
unfoldable pub update_targets : RaftCommitTracker → List RaftServer → Result RaftCommitTracker
update_targets t ss = do
  let quorum = calculate_quorum_size (length ss + 1)
  throw_if (not (ltb 0 quorum)) assertion_violation
  throw_if (quorum == 1 && not (length ss == 0)) assertion_violation
  let r = set_targets t.registrations [] ss
  ok (record t {
    registrations = r.0;
    targets = r.1;
    quorum_size = quorum;
    auto_committer = quorum == 1;
  })

abbrev no_targets : RaftCommitTracker
no_targets = record {
  registrations = [];
  targets = [];
  quorum_size = 0;
  commit_index = 0;
  commit_index_lagging = false;
  auto_committer = false;
}

-- The constructor, with the nodes of the journal's membership.
unfoldable pub make_tracker : List RaftServer → Result RaftCommitTracker
unfolding update_targets
make_tracker nodes = update_targets no_targets nodes

unfoldable pub reset : RaftCommitTracker → RaftCommitTracker
reset t = record t { registrations = []; commit_index = 0 }

-- The element at the quorum's place of the sorted match indexes.
unfoldable pub quorum_index : RaftCommitTracker → Result ℕ
quorum_index t =
    let match_indexes = sort (values t.registrations t.targets) in
    elim (get_elem? match_indexes ((length match_indexes + 1) - t.quorum_size)) [
      | some n ↦ ok n
      | none ↦ thrown out_of_range
    ]

module _ {Db : Type 0} ⦃R : Rocks Db⦄ where
  -- What setCommitIndex answers is not looked at.
  unfoldable pub update_commit_index :
      RaftCommitTracker → Journal Db → ℕ → Result (RaftCommitTracker × Journal Db)
  update_commit_index t j n =
      if ltb n j.commit_index then ok (record t { commit_index_lagging = true }, j) else do
        p ← set_commit_index j n
        ok (record t { commit_index = n; commit_index_lagging = false }, p.0)

  unfoldable pub recalculate_commit_index :
      RaftCommitTracker → Journal Db → Result (RaftCommitTracker × Journal Db)
  recalculate_commit_index t j =
      if length t.targets == 0 then ok (t, j) else do n ← quorum_index t; update_commit_index t j n

  unfoldable pub updated :
      RaftCommitTracker → Journal Db → ℕ → Result (RaftCommitTracker × Journal Db)
  updated t j n = if leb n t.commit_index then ok (t, j) else recalculate_commit_index t j

  -- RaftMatchIndexTracker::update, through the handler of a server. A smaller index is only logged.
  unfoldable pub update :
      RaftCommitTracker → Journal Db → RaftServer → ℕ → Result (RaftCommitTracker × Journal Db)
  update t j s n =
      updated (record t { registrations = assign (get_handler t.registrations s) s n }) j n

  -- One turn of the loop of runAutoCommit, after the wait.
  unfoldable pub auto_commit : RaftCommitTracker → Journal Db → Result (Journal Db)
  auto_commit t j = do
    throw_if (not (t.quorum_size == 1)) assertion_violation
    if j.log_size - 1 == j.commit_index then ok j else do
      p ← set_commit_index j (j.log_size - 1)
      throw_if (not p.1) assertion_violation
      ok p.0
