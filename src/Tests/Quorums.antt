-- ===== src/Tests/Quorums.antt =====
-- Three nodes with their votes, match indexes, contacts and memberships.
use quarkdb.Base.{ℕ, ◌+◌, ◌≡◌, refl, true, false, some, [], ◌∷◌, ◌==◌, not, arith, get_elem?, ok}
use quarkdb.Raft.Types.{calculate_quorum_size, granted, RaftVoteResponse, server_eq, server_eq_iff}
use quarkdb.Raft.Store.{Table, table_rocks}
use quarkdb.Raft.Parsing.{contains}
use quarkdb.Raft.Members.{RaftMembers, add_observer}
use quarkdb.Raft.Members.Counts.{
  IsDistinct, Change, adds, unchanged, changed, members_stay-IsDistinct,
}
use quarkdb.Raft.Quorum.{quorums_intersect, sort}
use quarkdb.Raft.VoteRegistry.{
  RaftVoteRegistry, Round, opened, voted, unreached, determine_outcome, outcome_of_counts,
  outcome_follows_counts, register_vote, register_network_error,
}
use quarkdb.Raft.Registrations.{get_handler}
use quarkdb.Raft.CommitTracker.{
  RaftCommitTracker, update, updated as heard_of, recalculate_commit_index, update_commit_index,
  quorum_index, auto_commit,
}
use quarkdb.Raft.CommitTracker.Commits.{
  Moved, IsConfigured, commit_index_needs_quorum, auto_commit_commits_all,
}
use quarkdb.Raft.Journal.{Journal, set_commit_index, raw_set_commit_index}
use quarkdb.Raft.Lease
use quarkdb.Raft.Lease.{RaftLease, deadline, IsLatest, deadline_needs_quorum}
use quarkdb.Tests.Cluster.{value_of, journal, journal-IsValid, node_a, node_b, node_c}

quorums_intersect_example :
    (i : ℕ) × (x : ℕ) × (get_elem? (1 ∷ 2 ∷ 3 ∷ []) i ≡ some x)
    × (not (x == 1) ≡ true)
    × (not (x == 3) ≡ true)
unfolding calculate_quorum_size
quorums_intersect_example =
    quorums_intersect (1 ∷ 2 ∷ 3 ∷ []) (λ x. not (x == 1)) (λ x. not (x == 3)) (omega arith)
      (omega arith)

abbrev no_votes : RaftVoteRegistry
no_votes = record { term = 4; pre_vote = false; contents = [] }

abbrev grants : RaftVoteResponse
grants = record { term = 4; vote = granted }

abbrev one_vote : RaftVoteRegistry
one_vote = value_of (register_vote no_votes node_b grants) no_votes

abbrev two_votes : RaftVoteRegistry
two_votes = value_of (register_network_error one_vote node_c) no_votes

round : Round false two_votes
unfolding register_vote register_network_error server_eq
round = unreached node_c (voted node_b grants (opened 4) refl) refl

outcome_follows_counts_example :
    (determine_outcome two_votes ≡ outcome_of_counts two_votes) × (two_votes.pre_vote ≡ false)
outcome_follows_counts_example = outcome_follows_counts round

abbrev tracker : RaftCommitTracker
tracker = record {
  registrations = (node_b, 0) ∷ (node_c, 0) ∷ [];
  targets = node_b ∷ node_c ∷ [];
  quorum_size = 2;
  commit_index = 0;
  commit_index_lagging = false;
  auto_committer = false;
}

abbrev after_update : RaftCommitTracker × Journal Table
after_update = value_of (update tracker journal node_b 1) (tracker, journal)

tracker-IsConfigured : IsConfigured tracker
unfolding calculate_quorum_size
tracker-IsConfigured = refl

commit_index_needs_quorum_example :
    Moved after_update.0 journal after_update.1 × IsConfigured after_update.0
unfolding update heard_of recalculate_commit_index update_commit_index quorum_index get_handler sort
    server_eq set_commit_index raw_set_commit_index
commit_index_needs_quorum_example =
    commit_index_needs_quorum tracker after_update.0 journal after_update.1 node_b 1
      tracker-IsConfigured refl

abbrev lease : RaftLease
lease = record {
  registrations = (node_b, 30) ∷ (node_c, 20) ∷ [];
  targets = node_b ∷ node_c ∷ [];
  lease_duration = 10;
  quorum_size = 2;
}

lease-IsConfigured : Lease.IsConfigured lease
unfolding calculate_quorum_size
lease-IsConfigured = refl

deadline_needs_quorum_example : (t : ℕ) × (deadline lease 50 ≡ ok (t + 10)) × IsLatest lease 2 t
deadline_needs_quorum_example = deadline_needs_quorum lease 50 lease-IsConfigured (omega arith)

abbrev members : RaftMembers
members = record { nodes = node_a ∷ node_b ∷ []; observers = [] }

abbrev more_members : RaftMembers
more_members = record { nodes = node_a ∷ node_b ∷ []; observers = node_c ∷ [] }

members-IsDistinct : IsDistinct members
unfolding server_eq
members-IsDistinct s = ground (arith, server_eq_iff node_a s, server_eq_iff node_b s)

adds_one : Change members node_c more_members
unfolding add_observer server_eq contains
adds_one = adds refl

members_stay-IsDistinct_example : IsDistinct more_members
members_stay-IsDistinct_example =
    members_stay-IsDistinct (changed node_c unchanged adds_one) members-IsDistinct

abbrev alone : RaftCommitTracker
alone = record tracker { targets = []; quorum_size = 1; auto_committer = true }

auto_commit_commits_all_example :
    (j' : Journal Table) × (auto_commit alone journal ≡ ok j')
    × (j'.commit_index + 1 ≡ journal.log_size)
    × (j'.log_size ≡ journal.log_size)
auto_commit_commits_all_example = auto_commit_commits_all alone journal journal-IsValid refl
