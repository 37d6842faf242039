-- ===== src/Raft/Dispatcher/Voting.antt =====
-- src/raft/RaftDispatcher.cc: requestVote, also for the round of pre-votes. The two times are those at
-- which the heartbeat is registered, before and after the vote.
use quarkdb.Base.{
  ℕ, ◌+◌, ◌-◌, Bool, true, false, Option, none, some, ltb, leb, ◌==◌, not, ◌&&◌, if◌then◌else◌,
  Result, ok, thrown, vote_request_from_myself, assertion_violation,
}
use quarkdb.Raft.Types.{
  RaftVoteRequest, RaftVoteResponse, RaftVote, veto, refused, granted, empty, server_eq, no_server,
}
use quarkdb.Raft.Parsing.{contains}
use quarkdb.Raft.Store.{Rocks}
use quarkdb.Raft.Journal.{Journal, fetch}
use quarkdb.Raft.State.{Snapshot, observed, grant_vote}
use quarkdb.Raft.Dispatcher.{Node, track}

module _ {Db : Type 0} ⦃R : Rocks Db⦄ where
  -- Would the candidate overwrite an entry that is committed here? If so, or if that cannot be told,
  -- the answer.
  unfoldable pub endangers : Journal Db → RaftVoteRequest → Option RaftVote
  endangers j req =
      if not (leb req.last_index j.commit_index)
      then none
      else if ltb req.last_index j.log_start
      then some veto
      else elim (fetch j req.last_index) [
        | none ↦ some refused
        | some e ↦
            if not (req.last_term == e.term)
            then some veto
            else if leb (req.last_index + 1) j.commit_index
            then some veto
            else none
      ]

  -- Is the log of the candidate at least as recent as this one?
  unfoldable pub is_recent : Journal Db → RaftVoteRequest → Bool
  is_recent j req = elim (fetch j (j.log_size - 1)) [
    | none ↦ false
    | some e ↦
        if ltb req.last_term e.term
        then false
        else if req.last_term == e.term && ltb req.last_index (j.log_size - 1)
        then false
        else true
  ]

  abbrev pub vote_answer : Node Db → Snapshot → RaftVote → Result (Node Db × RaftVoteResponse)
  vote_answer n snapshot vote = ok (n, record { term = snapshot.term; vote = vote })

  -- The vote, with the heartbeat before and after it.
  unfoldable pub cast_vote :
      Node Db → Snapshot → RaftVoteRequest → ℕ → ℕ → Result (Node Db × RaftVoteResponse)
  cast_vote n snapshot req now later =
      let p = grant_vote n.state req.term req.candidate in
      if not p.1
      then vote_answer (record n { state = p.0; tracker = track n.tracker now }) snapshot refused
      else vote_answer (record n { state = p.0; tracker = track (track n.tracker now) later })
          snapshot granted

  -- requestVote, once the term of the request has been observed.
  unfoldable pub consider :
      Node Db → Snapshot → RaftVoteRequest → Bool → ℕ → ℕ → Result (Node Db × RaftVoteResponse)
  consider n snapshot req pre_vote now later = elim (endangers n.state.journal req) [
    | some vote ↦ vote_answer n snapshot vote
    | none ↦
        if ltb req.term snapshot.term
        then vote_answer n snapshot refused
        else if not pre_vote && not (snapshot.term == req.term)
        then thrown assertion_violation
        else if snapshot.term == req.term
            && not (empty snapshot.voted_for)
            && not (server_eq snapshot.voted_for req.candidate)
        then vote_answer n snapshot refused
        else if not (is_recent n.state.journal req)
        then vote_answer n snapshot refused
        else if pre_vote
        then vote_answer n snapshot granted
        else cast_vote n snapshot req now later
  ]

  unfoldable pub request_vote :
      Node Db → RaftVoteRequest → Bool → ℕ → ℕ → Result (Node Db × RaftVoteResponse)
  request_vote n req pre_vote now later =
      if server_eq req.candidate n.state.myself
      then thrown vote_request_from_myself
      else if not (contains n.state.journal.members.nodes req.candidate)
          && not (empty n.state.current_snapshot.leader)
      then vote_answer n n.state.current_snapshot veto
      else let s = if pre_vote then n.state else (observed n.state req.term no_server).0 in
        consider (record n { state = s }) s.current_snapshot req pre_vote now later
