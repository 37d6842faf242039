-- ===== src/Raft/Dispatcher/Votes.antt =====
-- What a vote, and its absence, says of the candidate and of this node.
use quarkdb.Base.{ℕ, ◌-◌, ◌≤◌, ◌≡◌, ◌≢◌, inl, inr, true, false, none, some, arith, ok, Option-cases}
use quarkdb.Raft.Types.{
  RaftServer, RaftEntry, RaftVoteRequest, RaftVoteResponse, granted, empty, no_server, follower,
}
use quarkdb.Raft.Store.{Rocks}
use quarkdb.Raft.Journal.{Journal, fetch, set_current_term}
use quarkdb.Raft.State.{RaftState, Snapshot, observed, grant_vote}
use quarkdb.Raft.State.Agreement.{Agrees, observed-Agrees}
use quarkdb.Raft.Dispatcher.{Node}
use quarkdb.Raft.Dispatcher.Voting.{endangers, is_recent, request_vote, consider, cast_vote}

module _ {Db : Type 0} ⦃R : Rocks Db⦄ where
  -- The candidate's log is at least as recent as the journal, which holds `e` at its end: by the
  -- term of the last entry, and by the index where the terms are equal.
  pub record IsRecent (j : Journal Db) (req : RaftVoteRequest) : Type 0 where
    pub mine : RaftEntry
    pub at_end : fetch j (j.log_size - 1) ≡ some mine
    pub by_term : mine.term ≤ req.last_term
    pub by_index : req.last_term ≡ mine.term → j.log_size - 1 ≤ req.last_index

  is_recent-IsRecent :
      (j : Journal Db) (req : RaftVoteRequest) → is_recent j req ≡ true → IsRecent j req
  unfolding is_recent
  is_recent-IsRecent j req h = elim (Option-cases (fetch j (j.log_size - 1))) [
    | inl n ↦ ground (arith, n)
    | inr (e, q) ↦ record {
      mine = e;
      at_end = q;
      by_term = ground (arith, q);
      by_index = λ t. ground (arith, q);
    }
  ]

  -- A candidate that endangers nothing has all that is committed here.
  endangers-none :
      (j : Journal Db) (req : RaftVoteRequest)
      → endangers j req ≡ none
      → j.commit_index ≤ req.last_index
  unfolding endangers
  endangers-none j req h = ground arith

  -- A node that answers a pre-vote is unchanged by it.
  pre_vote_changes_nothing :
      (n m : Node Db) (req : RaftVoteRequest) (now later : ℕ) (r : RaftVoteResponse)
      → request_vote n req true now later ≡ ok (m, r)
      → m ≡ n
  unfolding request_vote consider
  pre_vote_changes_nothing n m req now later r h = ground arith

  not_granted : (j : Journal Db) (req : RaftVoteRequest) → endangers j req ≢ some granted
  unfolding endangers
  not_granted j req h = ground arith

  -- What grantVote does when it votes.
  record Cast (s u : RaftState Db) (t : ℕ) (v : RaftServer) : Type 0 where
    voted : u.voted_for ≡ v
    in_term : u.term ≡ t
    stored : u.journal.voted_for ≡ v
    stored_term : u.journal.current_term ≡ t
    as_follower : u.status ≡ follower
    no_leader : empty u.leader ≡ true

  grant_vote-Cast :
      (s : RaftState Db) (t : ℕ) (v : RaftServer)
      → Agrees s
      → (grant_vote s t v).1 ≡ true
      → Cast s (grant_vote s t v).0 t v
  unfolding grant_vote set_current_term
  grant_vote-Cast s t v a h = ground arith

  consider_granted :
      (n m : Node Db) (snapshot : Snapshot) (req : RaftVoteRequest) (now later : ℕ)
      (r : RaftVoteResponse)
      → consider n snapshot req false now later ≡ ok (m, r)
      → r.vote ≡ granted
      → (endangers n.state.journal req ≡ none)
        × (is_recent n.state.journal req ≡ true)
        × ((grant_vote n.state req.term req.candidate).1 ≡ true)
        × (m.state ≡ (grant_vote n.state req.term req.candidate).0)
  unfolding consider cast_vote
  consider_granted n m snapshot req now later r h g =
      ground (arith, not_granted n.state.journal req)

  -- Observing a term touches no entry.
  record SameEntries (j k : Journal Db) : Type 0 where
    log_size : k.log_size ≡ j.log_size
    log_start : k.log_start ≡ j.log_start
    commit_index : k.commit_index ≡ j.commit_index
    entries : (i : ℕ) → fetch k i ≡ fetch j i

  observed-SameEntries :
      (s : RaftState Db) (t : ℕ) (l : RaftServer) → SameEntries s.journal (observed s t l).0.journal
  unfolding observed set_current_term fetch
  observed-SameEntries s t l = record {
    log_size = ground arith;
    log_start = ground arith;
    commit_index = ground arith;
    entries = λ i. grind (arith, R.get-write);
  }

  -- What a granted vote means.
  pub record Granted (n m : Node Db) (req : RaftVoteRequest) : Type 0 where
    pub voted : m.state.voted_for ≡ req.candidate
    pub in_term : m.state.term ≡ req.term
    pub stored : m.state.journal.voted_for ≡ req.candidate
    pub stored_term : m.state.journal.current_term ≡ req.term
    pub as_follower : m.state.status ≡ follower
    pub no_leader : empty m.state.leader ≡ true
    pub has_committed : n.state.journal.commit_index ≤ req.last_index
    pub recent : IsRecent n.state.journal req

  IsRecent-same :
      (j k : Journal Db) (req : RaftVoteRequest) → SameEntries j k → IsRecent k req → IsRecent j req
  IsRecent-same j k req e v = record {
    mine = v.mine;
    at_end = ground (arith, v.at_end, e.entries (j.log_size - 1), e.log_size);
    by_term = v.by_term;
    by_index = λ t. ground (arith, v.by_index t, e.log_size);
  }

  considered :
      (n m : Node Db) (req : RaftVoteRequest) (now later : ℕ) (r : RaftVoteResponse)
      → request_vote n req false now later ≡ ok (m, r)
      → r.vote ≡ granted
      → let s = (observed n.state req.term no_server).0 in
        consider (record n { state = s }) s.current_snapshot req false now later ≡ ok (m, r)
  unfolding request_vote
  considered n m req now later r h g = ground arith

  -- If a node that agrees with its journal grants its vote, not a pre-vote, then it is a follower without a leader, the vote is the candidate's
  -- in the term of the request, in memory and in the journal, and the candidate's log is at least as
  -- recent as its own and reaches all that is committed here.
  pub granted_vote_is_safe :
      (n m : Node Db) (req : RaftVoteRequest) (now later : ℕ) (r : RaftVoteResponse)
      → Agrees n.state
      → request_vote n req false now later ≡ ok (m, r)
      → r.vote ≡ granted
      → Granted n m req
  granted_vote_is_safe n m req now later r a h g =
      let s = (observed n.state req.term no_server).0 in
      let same = observed-SameEntries n.state req.term no_server in
      let (safe, recent, cast, end) =
        consider_granted (record n { state = s }) m s.current_snapshot req now later r
          (considered n m req now later r h g) g in
      let c =
        grant_vote-Cast s req.term req.candidate (observed-Agrees n.state req.term no_server a)
          cast in
      record {
        voted = ground (arith, c.voted, end);
        in_term = ground (arith, c.in_term, end);
        stored = ground (arith, c.stored, end);
        stored_term = ground (arith, c.stored_term, end);
        as_follower = ground (arith, c.as_follower, end);
        no_leader = ground (arith, c.no_leader, end);
        has_committed = ground (arith, same.commit_index, endangers-none s.journal req safe);
        recent =
            IsRecent-same n.state.journal s.journal req same
              (is_recent-IsRecent s.journal req recent);
      }
