-- ===== src/Raft/State/Roles.antt =====
-- src/raft/RaftState.cc: leaders, and nodes that are shut down, over sequences of operations.
use quarkdb.Base.{◌≡◌, refl, inl, inr, false, arith, ◌∙◌}
use quarkdb.Raft.Types.{leader, candidate, shut_down, empty}
use quarkdb.Raft.Store.{Rocks}
use quarkdb.Raft.State.{RaftState, drop_out, shutdown, become_candidate, grant_vote, observed}
use quarkdb.Raft.State.Agreement.{Agrees}
use quarkdb.Raft.State.Steps.{
  Step, observes, runs, grants, ascends, drops_out, shuts_down, writes, Steps, here, next,
  ascend-cases,
}
use quarkdb.Raft.State.Safety.{state_stays_in_agreement}

module _ {Db : Type 0} ⦃R : Rocks Db⦄ where
  -- A candidate has voted for itself, and a leader recognises itself as well.
  pub record IsRoleSound (s : RaftState Db) : Type 0 where
    pub named : empty s.myself ≡ false
    pub as_candidate : s.status ≡ candidate → s.voted_for ≡ s.myself
    pub as_leader : s.status ≡ leader → (s.voted_for ≡ s.myself) × (s.leader ≡ s.myself)

  Step-IsRoleSound : {s u : RaftState Db} → Step s u → IsRoleSound s → IsRoleSound u
  unfolding observed become_candidate grant_vote drop_out shutdown
  Step-IsRoleSound {s} (observes t l) a = record {
    named = ground arith;
    as_candidate = λ e. ground (arith, a.as_candidate, a.as_leader);
    as_leader = λ e. ground (arith, a.as_leader);
  }
  Step-IsRoleSound {s} (runs t) a = record {
    named = ground arith;
    as_candidate = λ e. ground (arith, a.as_candidate);
    as_leader = λ e. ground (arith, a.as_leader);
  }
  Step-IsRoleSound {s} (grants t v) a = record {
    named = ground arith;
    as_candidate = λ e. ground (arith, a.as_candidate);
    as_leader = λ e. ground (arith, a.as_leader);
  }
  Step-IsRoleSound {s} {u} (ascends t h) a = elim (ascend-cases s t h) [
    | inl (_, same) ↦ rw same a
    | inr (_, may, _, term, lead, led, me, vote, _, _) ↦ record {
      named = ground (arith, a.named);
      as_candidate = λ e. ground arith;
      as_leader = λ e. (ground (arith, may.own_vote), ground arith);
    }
  ]
  Step-IsRoleSound {s} (drops_out t) a = record {
    named = ground arith;
    as_candidate = λ e. ground (arith, a.as_candidate);
    as_leader = λ e. ground (arith, a.as_leader);
  }
  Step-IsRoleSound {s} shuts_down a = record {
    named = ground arith;
    as_candidate = λ e. ground (arith, a.as_candidate);
    as_leader = λ e. ground (arith, a.as_leader);
  }
  Step-IsRoleSound {s} (writes j t v) a = record {
    named = a.named;
    as_candidate = a.as_candidate;
    as_leader = a.as_leader;
  }

  Steps-IsRoleSound : {s u : RaftState Db} → Steps s u → IsRoleSound s → IsRoleSound u
  Steps-IsRoleSound here a = a
  Steps-IsRoleSound (next r st) a = Step-IsRoleSound st (Steps-IsRoleSound r a)

  -- After any sequence of operations, from a state that agrees with its journal and is sound in its
  -- role, a leader recognises itself and has voted for itself, in the journal too.
  pub leader_has_own_vote :
      {s u : RaftState Db}
      → Steps s u
      → Agrees s
      → IsRoleSound s
      → u.status ≡ leader
      → (u.leader ≡ u.myself) × (u.voted_for ≡ u.myself) × (u.journal.voted_for ≡ u.myself)
  leader_has_own_vote r a w e =
      let (vote, led) = (Steps-IsRoleSound r w).as_leader e in
      (led, vote, (state_stays_in_agreement r a).same_vote ∙ vote)

  -- Shutdown is final: no operation leaves it, or changes the term, the vote or the leader.
  record IsFrozen (s u : RaftState Db) : Type 0 where
    down : u.status ≡ shut_down
    same_term : u.term ≡ s.term
    same_vote : u.voted_for ≡ s.voted_for
    same_leader : u.leader ≡ s.leader

  Step-IsFrozen : {s u : RaftState Db} → Step s u → s.status ≡ shut_down → IsFrozen s u
  unfolding observed become_candidate grant_vote drop_out shutdown
  Step-IsFrozen (observes t l) d = ground arith
  Step-IsFrozen (runs t) d = ground arith
  Step-IsFrozen (grants t v) d = ground arith
  Step-IsFrozen {s} (ascends t h) d = elim (ascend-cases s t h) [
    | inl (_, same) ↦ ground arith
    | inr (_, may, _, term, lead, led, me, vote, _, _) ↦ ground (arith, may.was_candidate)
  ]
  Step-IsFrozen (drops_out t) d = ground arith
  Step-IsFrozen shuts_down d = ground arith
  Step-IsFrozen (writes j t v) d = ground arith

  -- Once shut down, a node stays down, and its term, vote and leader stay as they are.
  shutdown_is_final :
      {s u : RaftState Db}
      → Steps s u
      → s.status ≡ shut_down
      → (u.status ≡ shut_down)
        × (u.term ≡ s.term)
        × (u.voted_for ≡ s.voted_for)
        × (u.leader ≡ s.leader)
  shutdown_is_final here d = (d, refl, refl, refl)
  shutdown_is_final (next r st) d =
      let (down, term, vote, led) = shutdown_is_final r d in
      let f = Step-IsFrozen st down in
      (f.down, f.same_term ∙ term, f.same_vote ∙ vote, f.same_leader ∙ led)
