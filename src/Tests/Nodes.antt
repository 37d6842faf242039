-- ===== src/Tests/Nodes.antt =====
-- A node that runs for an election, one that votes, and one that takes in entries of a leader.
use quarkdb.Base.{◌≡◌, refl, true, false, [], ◌∷◌, bytes_eq}
use quarkdb.Raft.Types.{
  RaftVoteRequest, RaftVoteResponse, RaftAppendEntriesRequest, RaftAppendEntriesResponse, refused,
  follower, no_server, server_eq, empty, entry_eq,
}
use quarkdb.Raft.Parsing.{contains}
use quarkdb.Raft.Store.{Table, table_rocks}
use quarkdb.Raft.Journal.{
  fetch, fetch_or_die, set_current_term, set_commit_index, raw_set_commit_index, commit_batch,
}
use quarkdb.Raft.Journal.Log.{
  append, append_no_lock, append_leadership_marker, take_membership, match_entries, compare_entries,
  compare_loop, remove_entries,
}
use quarkdb.Raft.State.{
  RaftState, snapshot_of, observed, become_candidate, ascend, grant_vote, shutdown, update_snapshot,
  update_status,
}
use quarkdb.Raft.State.Agreement.{Agrees}
use quarkdb.Raft.State.Steps.{Steps, here, next, observes, runs, ascends}
use quarkdb.Raft.State.Safety.{state_stays_in_agreement, one_vote_per_term, one_leader_per_term}
use quarkdb.Raft.State.Roles.{IsRoleSound, leader_has_own_vote}
use quarkdb.Raft.Dispatcher.{
  Node, heartbeat, take_heartbeat, flush_queues, append_entries, append_each, install, install_from,
  take_entries, finish_append,
}
use quarkdb.Raft.Dispatcher.Voting.{request_vote, consider, cast_vote, endangers, is_recent}
use quarkdb.Raft.Dispatcher.Votes.{Granted, granted_vote_is_safe}
use quarkdb.Raft.Dispatcher.Success.{Replicated, success_replicates}
use quarkdb.Tests.Cluster.{value_of, journal-IsValid, entry_of_term, node_b, state_of, node}

abbrev waiting : RaftState Table
waiting = state_of follower no_server

waiting-Agrees : Agrees waiting
unfolding snapshot_of
waiting-Agrees = record { same_term = refl; same_vote = refl; fresh = refl }

waiting-IsRoleSound : IsRoleSound waiting
unfolding empty
waiting-IsRoleSound = record { named = refl; as_candidate = λ e. cc; as_leader = λ e. cc }

-- Node a sees term 2, runs in it, and wins.
abbrev in_term_two : RaftState Table
in_term_two = (observed waiting 2 no_server).0

abbrev running : RaftState Table
running = (become_candidate in_term_two 2).0

abbrev leading : RaftState Table
leading = (value_of (ascend running 2) (running, true)).0

election : Steps waiting leading
unfolding observed become_candidate ascend append_leadership_marker append append_no_lock
    take_membership commit_batch set_current_term update_snapshot update_status contains server_eq
    bytes_eq empty
election = next (next (next here (observes 2 no_server)) (runs 2)) (ascends 2 refl)

state_stays_in_agreement_example : Agrees leading
state_stays_in_agreement_example = state_stays_in_agreement election waiting-Agrees

leader_has_own_vote_example :
    (leading.leader ≡ leading.myself)
    × (leading.voted_for ≡ leading.myself)
    × (leading.journal.voted_for ≡ leading.myself)
unfolding observed become_candidate ascend append_leadership_marker append append_no_lock
    take_membership commit_batch set_current_term update_snapshot update_status contains server_eq
    bytes_eq empty
leader_has_own_vote_example = leader_has_own_vote election waiting-Agrees waiting-IsRoleSound refl

candidacy : Steps waiting running
candidacy = next (next here (observes 2 no_server)) (runs 2)

victory : Steps running leading
unfolding observed become_candidate ascend append_leadership_marker append append_no_lock
    take_membership commit_batch set_current_term update_snapshot update_status contains server_eq
    bytes_eq empty
victory = next here (ascends 2 refl)

one_vote_per_term_example :
    (leading.voted_for ≡ running.voted_for) × (leading.journal.voted_for ≡ running.voted_for)
unfolding observed become_candidate ascend append_leadership_marker append append_no_lock
    take_membership commit_batch set_current_term update_snapshot update_status contains server_eq
    bytes_eq empty
one_vote_per_term_example =
    one_vote_per_term victory (state_stays_in_agreement candidacy waiting-Agrees) refl refl

-- Another node claims to lead the same term.
abbrev challenged : RaftState Table
challenged = (observed leading 2 node_b).0

one_leader_per_term_example : challenged.leader ≡ leading.leader
unfolding observed become_candidate ascend append_leadership_marker append append_no_lock
    take_membership commit_batch set_current_term update_snapshot update_status contains server_eq
    bytes_eq empty
one_leader_per_term_example =
    one_leader_per_term {s = leading} {u = challenged} (next here (observes 2 node_b)) refl refl

abbrev stopped : RaftState Table
stopped = shutdown waiting

abbrev stopped_later : RaftState Table
stopped_later = (observed stopped 5 node_b).0

abbrev vote_request : RaftVoteRequest
vote_request = record { term = 2; candidate = node_b; last_index = 1; last_term = 1 }

abbrev no_vote : Node Table × RaftVoteResponse
no_vote = (node, record { term = 0; vote = refused })

abbrev after_vote : Node Table × RaftVoteResponse
after_vote = value_of (request_vote node vote_request false 1 2) no_vote

granted_vote_is_safe_example : Granted node after_vote.0 vote_request
unfolding request_vote consider cast_vote endangers is_recent observed grant_vote set_current_term
    update_snapshot update_status contains server_eq bytes_eq empty fetch
granted_vote_is_safe_example =
    granted_vote_is_safe node after_vote.0 vote_request 1 2 after_vote.1 waiting-Agrees refl refl

abbrev after_pre_vote : Node Table × RaftVoteResponse
after_pre_vote = value_of (request_vote node vote_request true 1 2) no_vote

-- Node b leads term 1, and sends the entry it has after the two.
abbrev append_request : RaftAppendEntriesRequest
append_request = record {
  term = 1;
  leader = node_b;
  prev_index = 1;
  prev_term = 1;
  commit_index = 1;
  entries = entry_of_term 1 ∷ [];
}

abbrev after_append : Node Table × RaftAppendEntriesResponse
after_append =
    value_of (append_entries node append_request 3)
      (node, record { term = 0; log_size = 0; outcome = false; err = [] })

success_replicates_example : Replicated node after_append.0 append_request
unfolding append_entries heartbeat take_heartbeat flush_queues take_entries install install_from
    finish_append append_each observed set_current_term update_snapshot update_status match_entries
    compare_entries compare_loop remove_entries append append_no_lock take_membership commit_batch
    set_commit_index raw_set_commit_index fetch fetch_or_die contains server_eq bytes_eq empty
    entry_eq
success_replicates_example =
    success_replicates node after_append.0 append_request 3 after_append.1 journal-IsValid refl refl
