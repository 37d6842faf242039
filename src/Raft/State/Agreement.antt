-- ===== src/Raft/State/Agreement.antt =====
-- src/raft/RaftState.cc: the state beside its journal and its published snapshot, operation by operation.
use quarkdb.Base.{ℕ, ◌≡◌, arith}
use quarkdb.Raft.Types.{RaftServer}
use quarkdb.Raft.Store.{Rocks}
use quarkdb.Raft.Journal.{set_current_term}
use quarkdb.Raft.State.{
  RaftState, snapshot_of, drop_out, shutdown, become_candidate, grant_vote, observed,
}

module _ {Db : Type 0} where
  pub record Agrees (s : RaftState Db) : Type 0 where
    -- What a restart would read back.
    pub same_term : s.journal.current_term ≡ s.term
    pub same_vote : s.journal.voted_for ≡ s.voted_for
    pub fresh : s.current_snapshot ≡ snapshot_of s

  pub drop_out-Agrees : (s : RaftState Db) (t : ℕ) → Agrees s → Agrees (drop_out s t).0
  unfolding drop_out snapshot_of
  drop_out-Agrees s t a = ground arith

  pub shutdown-Agrees : (s : RaftState Db) → Agrees s → Agrees (shutdown s)
  unfolding shutdown snapshot_of
  shutdown-Agrees s a = ground arith

  module _ ⦃R : Rocks Db⦄ where
    pub become_candidate-Agrees :
        (s : RaftState Db) (t : ℕ) → Agrees s → Agrees (become_candidate s t).0
    unfolding become_candidate set_current_term snapshot_of
    become_candidate-Agrees s t a = ground arith

    pub grant_vote-Agrees :
        (s : RaftState Db) (t : ℕ) (v : RaftServer) → Agrees s → Agrees (grant_vote s t v).0
    unfolding grant_vote set_current_term snapshot_of
    grant_vote-Agrees s t v a = ground arith

    pub observed-Agrees :
        (s : RaftState Db) (t : ℕ) (l : RaftServer) → Agrees s → Agrees (observed s t l).0
    unfolding observed set_current_term snapshot_of
    observed-Agrees s t l a = ground arith
