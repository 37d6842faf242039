-- ===== src/Raft/Dispatcher.antt =====
-- src/raft/RaftDispatcher.cc: how a node answers heartbeats, appended entries and vote requests. The
-- mutex `raftCommand` is held during appendEntries and requestVote. Left out are the log messages,
-- warnIfLagging, which only logs, and the replies that flushing the blocked writes and purging the
-- subscribers send to clients.
pub mod Voting
pub mod Votes
pub mod Appends
pub mod Replication
pub mod Success
use quarkdb.Base.{
  ℕ, zero, suc, ◌+◌, ◌-◌, Bool, true, false, Option, none, some, List, [], ◌∷◌, ltb, leb, ◌==◌, not,
  ◌&&◌, if◌then◌else◌, codes, min, drop, length, Bytes, Result, ok, thrown, ◌>>=◌, ◌>>◌, throw_if,
  heartbeat_from_myself, vote_request_from_myself, conflicting_leader, overwrite_committed,
  remove_applied, assertion_violation, term_mismatch,
}
use quarkdb.Raft.Types.{
  RaftServer, RaftEntry, RaftHeartbeatRequest, RaftHeartbeatResponse, RaftAppendEntriesRequest,
  RaftAppendEntriesResponse, RaftVoteRequest, RaftVoteResponse, RaftVote, veto, refused, granted,
  shut_down, empty, server_eq, no_server,
}
use quarkdb.Raft.Parsing.{contains}
use quarkdb.Raft.Store.{Rocks}
use quarkdb.Raft.Journal.{Journal, fetch, set_commit_index}
use quarkdb.Raft.Journal.Log.{append, remove_entries, compare_entries, match_entries}
use quarkdb.Raft.State.{RaftState, Snapshot, status_eq, observed, grant_vote}

pub data TimeoutStatus : Type 0 where
  timeout_no timeout_yes timeout_artificial : TimeoutStatus

-- RaftHeartbeatTracker, of raft/RaftTimeouts.cc; times are clock ticks.
pub record HeartbeatTracker : Type 0 where
  pub last_heartbeat : ℕ
  pub artificial_timeout : Bool
  pub random_timeout : ℕ

unfoldable pub track : HeartbeatTracker → ℕ → HeartbeatTracker
track t now = if leb t.last_heartbeat now then record t { last_heartbeat = now } else t

unfoldable pub trigger_timeout : HeartbeatTracker → HeartbeatTracker
trigger_timeout t = record t { artificial_timeout = true }

unfoldable pub timeout : HeartbeatTracker → ℕ → HeartbeatTracker × TimeoutStatus
timeout t now =
    if t.artificial_timeout
    then (record t { artificial_timeout = false }, timeout_artificial)
    else if ltb (t.last_heartbeat + t.random_timeout) now
    then (t, timeout_yes)
    else (t, timeout_no)

-- A node: the state with its journal, the index that the state machine has applied, the tracker, and
-- the indices at which client queues are blocked (RaftBlockedWrites).
pub record Node (Db : Type 0) : Type 0 where
  pub state : RaftState Db
  pub last_applied : ℕ
  pub tracker : HeartbeatTracker
  pub blocked_writes : List ℕ

-- The node, the snapshot that was taken, and the reply.
pub record Heard (Db : Type 0) : Type 0 where
  pub node : Node Db
  pub snapshot : Snapshot
  pub response : RaftHeartbeatResponse

module _ {Db : Type 0} where
  abbrev pub with_journal : Node Db → Journal Db → Node Db
  with_journal n j = record n { state = record n.state { journal = j } }

  -- RaftWriteTracker::flushQueues
  unfoldable pub flush_queues : Node Db → Node Db
  flush_queues n = record n { blocked_writes = [] }

  abbrev pub heard : Node Db → Snapshot → Bool → Bytes → Heard Db
  heard n snapshot recognized err = record {
    node = n;
    snapshot = snapshot;
    response = record { term = snapshot.term; node_recognized_as_leader = recognized; err = err };
  }

  -- heartbeat, after the term and the leader of the request have been observed.
  unfoldable pub take_heartbeat : Node Db → Snapshot → RaftHeartbeatRequest → ℕ → Result (Heard Db)
  take_heartbeat n snapshot req now =
      if status_eq snapshot.status shut_down
      then ok (heard n snapshot false (codes "in shutdown"))
      else if ltb req.term snapshot.term
      then ok (heard n snapshot false (codes "My raft term is newer"))
      else if not (req.term == snapshot.term)
      then thrown assertion_violation
      else if not (server_eq req.leader snapshot.leader)
      then thrown conflicting_leader
      else ok (heard (record n { tracker = track n.tracker now }) snapshot true [])

  module _ ⦃R : Rocks Db⦄ where
    unfoldable pub heartbeat : Node Db → RaftHeartbeatRequest → ℕ → Result (Heard Db)
    heartbeat n req now =
        if server_eq req.leader n.state.myself
        then thrown heartbeat_from_myself
        else let s = (observed n.state req.term req.leader).0 in
          take_heartbeat (record n { state = s }) s.current_snapshot req now

    abbrev pub answer : Node Db → ℕ → Bool → Bytes → Node Db × RaftAppendEntriesResponse
    answer n term outcome err = (
      n,
      record { term = term; log_size = n.state.journal.log_size; outcome = outcome; err = err },
    )

    -- The loop over the entries, of which the first goes to `index`; it stops at the first refusal.
    unfoldable pub append_each : Journal Db → ℕ → List RaftEntry → Result (Journal Db × Bool)
    append_each j index [] = ok (j, true)
    append_each j index (e ∷ es) = do
      p ← append j index e false
      elim p.1 [ true ↦ append_each p.0 (index + 1) es | false ↦ ok (p.0, false) ]

    -- The journal after the inconsistent entries, from `first` on, are gone and the new ones are in,
    -- and whether they all went in.
    unfoldable pub install_from :
        Journal Db → ℕ → RaftAppendEntriesRequest → ℕ → Result (Journal Db × Bool)
    install_from j last_applied req first =
        let append_from = first - (req.prev_index + 1) in
        if not (ltb append_from (length req.entries)) then ok (j, true) else do
          throw_if (leb first j.commit_index) overwrite_committed
          throw_if (not (first == j.log_size) && leb first last_applied) remove_applied
          p ← remove_entries j first
          append_each p.0 (req.prev_index + 1 + append_from) (drop append_from req.entries)

    unfoldable pub install : Node Db → RaftAppendEntriesRequest → Result (Journal Db × Bool)
    install n req = do
      first ← compare_entries n.state.journal (req.prev_index + 1) req.entries
      install_from n.state.journal n.last_applied req first

    -- The rest of appendEntries once the entries are in, or one of them was refused.
    unfoldable pub finish_append :
        Node Db
        → ℕ
        → RaftAppendEntriesRequest
        → Journal Db × Bool
        → Result (Node Db × RaftAppendEntriesResponse)
    finish_append n term req p =
        if not p.1 then ok (answer (with_journal n p.0) term false (codes "Unknown error")) else do
          q ← set_commit_index p.0 (min (p.0.log_size - 1) req.commit_index)
          ok (answer (with_journal n q.0) term true [])

    -- The rest of appendEntries once the sender is recognized as the leader.
    unfoldable pub take_entries :
        Node Db → ℕ → RaftAppendEntriesRequest → Result (Node Db × RaftAppendEntriesResponse)
    take_entries n term req =
        if not (match_entries n.state.journal req.prev_index req.prev_term)
        then ok (answer n term false (codes "Log entry mismatch"))
        else do p ← install n req; finish_append n term req p

    unfoldable pub append_entries :
        Node Db → RaftAppendEntriesRequest → ℕ → Result (Node Db × RaftAppendEntriesResponse)
    append_entries n req now = do
      h ← heartbeat n (record { term = req.term; leader = req.leader }) now
      if h.response.node_recognized_as_leader
          then take_entries (flush_queues h.node) h.snapshot.term req
          else ok (answer h.node h.response.term false h.response.err)
