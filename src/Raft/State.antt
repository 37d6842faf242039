-- ===== src/Raft/State.antt =====
-- src/raft/RaftState.cc: the term, the vote, the recognised leader and the role of this node. Each
-- function is the body that runs under the mutex `update`; it reads and writes the journal too.
pub mod Agreement
pub mod Steps
pub mod Safety
pub mod Roles
use quarkdb.Base.{
  ℕ, ◌+◌, ◌-◌, Bool, true, false, Option, none, some, List, [], ltb, ◌==◌, not, ◌&&◌, ◌||◌,
  if◌then◌else◌, codes, ℤ, pos, negsuc, Result, ok, thrown, ◌>>=◌, ◌>>◌,
}
use quarkdb.Raft.Types.{
  RaftServer, RaftStatus, leader, follower, candidate, shut_down, empty, server_eq, no_server,
}
use quarkdb.Raft.Parsing.{contains}
use quarkdb.Raft.Store.{Rocks}
use quarkdb.Raft.Journal.{Journal, set_current_term}
use quarkdb.Raft.Journal.Log.{append_leadership_marker}

-- RaftStateSnapshot, without the time of its creation.
pub record Snapshot : Type 0 where
  pub term : ℕ
  pub status : RaftStatus
  pub leader : RaftServer
  pub voted_for : RaftServer
  pub leadership_marker : ℤ

pub record RaftState (Db : Type 0) : Type 0 where
  pub term : ℕ
  pub status : RaftStatus
  pub leader : RaftServer
  pub voted_for : RaftServer
  pub leadership_marker : ℤ
  pub myself : RaftServer
  pub current_snapshot : Snapshot
  pub journal : Journal Db

abbrev pub blocked_vote : RaftServer
blocked_vote = record { hostname = codes "VOTING_BLOCKED_FOR_THIS_TERM"; port = negsuc 0 }

abbrev pub status_eq : RaftStatus → RaftStatus → Bool
status_eq leader leader = true
status_eq follower follower = true
status_eq candidate candidate = true
status_eq shut_down shut_down = true
status_eq _ _ = false

module _ {Db : Type 0} where
  unfoldable pub snapshot_of : RaftState Db → Snapshot
  snapshot_of s = record {
    term = s.term;
    status = s.status;
    leader = s.leader;
    voted_for = s.voted_for;
    leadership_marker = s.leadership_marker;
  }

  unfoldable pub update_snapshot : RaftState Db → RaftState Db
  unfolding snapshot_of
  update_snapshot s = record s { current_snapshot = snapshot_of s }

  -- The marker is forgotten on the way to any role but the leader's.
  unfoldable pub update_status : RaftState Db → RaftStatus → RaftState Db
  update_status s new_status = if status_eq s.status new_status then s else record s {
    status = new_status;
    leadership_marker = if status_eq new_status leader then s.leadership_marker else negsuc 0;
  }

  -- The constructor
  unfoldable pub make_state : Journal Db → RaftServer → RaftState Db
  make_state j me = record {
    term = j.current_term;
    status = follower;
    leader = no_server;
    voted_for = j.voted_for;
    leadership_marker = negsuc 0;
    myself = me;
    current_snapshot = record {
      term = j.current_term;
      status = follower;
      leader = no_server;
      voted_for = j.voted_for;
      leadership_marker = negsuc 0;
    };
    journal = j;
  }

  unfoldable pub drop_out : RaftState Db → ℕ → RaftState Db × Bool
  unfolding update_status update_snapshot
  drop_out s for_term =
      if not (status_eq s.status candidate)
      then (s, false)
      else if not (for_term == s.term)
      then (s, false)
      else (update_snapshot (update_status s follower), true)

  unfoldable pub shutdown : RaftState Db → RaftState Db
  unfolding update_status update_snapshot
  shutdown s = update_snapshot (update_status s shut_down)

  module _ ⦃R : Rocks Db⦄ where
    unfoldable pub update_journal : RaftState Db → RaftState Db
    update_journal s = record s { journal = (set_current_term s.journal s.term s.voted_for).0 }

    unfoldable pub become_candidate : RaftState Db → ℕ → RaftState Db × Bool
    unfolding update_status update_snapshot update_journal
    become_candidate s for_term =
        if not (for_term == s.term)
        then (s, false)
        else if not (status_eq s.status follower)
        then (s, false)
        else if not (empty s.leader)
        then (s, false)
        else if not (empty s.voted_for)
        then (s, false)
        else if not (contains s.journal.members.nodes s.myself)
        then (s, false)
        else (
          update_snapshot
              (update_status (update_journal (record s { voted_for = s.myself })) candidate),
          true,
        )

    unfoldable pub ascend : RaftState Db → ℕ → Result (RaftState Db × Bool)
    unfolding update_status update_snapshot
    ascend s for_term =
        if not (for_term == s.term)
        then ok (s, false)
        else if not (status_eq s.status candidate)
        then ok (s, false)
        else if not (empty s.leader)
        then ok (s, false)
        else if not (server_eq s.voted_for s.myself)
        then ok (s, false)
        else if not (contains s.journal.members.nodes s.myself)
        then ok (s, false)
        else do
          let local_index = s.journal.log_size
          p ← append_leadership_marker s.journal local_index for_term s.myself
          ok (
              if not p.1 then (record s { journal = p.0 }, false) else (
                update_snapshot (
                    update_status
                      (record s {
                        journal = p.0;
                        leader = s.myself;
                        leadership_marker = pos local_index;
                      })
                      leader),
                true,
              ))

    unfoldable pub grant_vote : RaftState Db → ℕ → RaftServer → RaftState Db × Bool
    unfolding update_snapshot update_journal
    grant_vote s for_term vote =
        if not (status_eq s.status follower)
        then (s, false)
        else if not (for_term == s.term)
        then (s, false)
        else if not (empty s.leader)
        then (s, false)
        else if not (empty s.voted_for)
        then (s, false)
        else (update_snapshot (update_journal (record s { voted_for = vote })), true)

    -- What observed does with a newer term, and with the leader of the current one.
    unfoldable pub enter_term : RaftState Db → ℕ → RaftServer → RaftState Db
    unfolding update_status update_snapshot update_journal
    enter_term s observed_term observed_leader = update_snapshot (
        update_journal (record (update_status s follower) {
          term = observed_term;
          leader = observed_leader;
          voted_for = if empty observed_leader then no_server else blocked_vote;
        }))

    unfoldable pub recognise : RaftState Db → RaftServer → RaftState Db
    unfolding update_snapshot update_journal
    recognise s observed_leader =
        let led = record s { leader = observed_leader } in
        update_snapshot (
          if not (empty observed_leader) && empty s.voted_for
          then update_journal (record led { voted_for = blocked_vote })
          else led)

    unfoldable pub observed : RaftState Db → ℕ → RaftServer → RaftState Db × Bool
    unfolding enter_term recognise
    observed s observed_term observed_leader =
        if status_eq s.status shut_down
        then (s, false)
        else if ltb s.term observed_term
        then (enter_term s observed_term observed_leader, true)
        else if observed_term == s.term && empty s.leader
        then (recognise s observed_leader, true)
        else (s, false)
