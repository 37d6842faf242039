-- ===== src/Raft/State/Safety.antt =====
-- src/raft/RaftState.cc: terms, votes, leaders and roles over sequences of operations.
use quarkdb.Base.{◌≤◌, ◌≡◌, refl, inl, inr, false, arith, ◌∙◌}
use quarkdb.Raft.Types.{empty}
use quarkdb.Raft.Store.{Rocks}
use quarkdb.Raft.State.{
  RaftState, snapshot_of, drop_out, shutdown, become_candidate, grant_vote, observed,
}
use quarkdb.Raft.State.Agreement.{
  Agrees, drop_out-Agrees, shutdown-Agrees, become_candidate-Agrees, grant_vote-Agrees,
  observed-Agrees,
}
use quarkdb.Raft.State.Steps.{
  Step, observes, runs, grants, ascends, drops_out, shuts_down, writes, Steps, here, next,
  ascend-cases,
}

module _ {Db : Type 0} ⦃R : Rocks Db⦄ where
  Step-Agrees : {s u : RaftState Db} → Step s u → Agrees s → Agrees u
  unfolding snapshot_of
  Step-Agrees {s} (observes t l) a = observed-Agrees s t l a
  Step-Agrees {s} (runs t) a = become_candidate-Agrees s t a
  Step-Agrees {s} (grants t v) a = grant_vote-Agrees s t v a
  Step-Agrees {s} {u} (ascends t h) a = elim (ascend-cases s t h) [
    | inl (_, same) ↦ ground arith
    | inr (_, _, app, term, _, _, _, vote, _, snap) ↦ record {
      same_term = ground (arith, app.current_term);
      same_vote = ground (arith, app.voted_for);
      fresh = snap;
    }
  ]
  Step-Agrees {s} (drops_out t) a = drop_out-Agrees s t a
  Step-Agrees {s} shuts_down a = shutdown-Agrees s a
  Step-Agrees {s} (writes j t v) a = ground arith

  -- A node votes at most once in a term, and recognises at most one leader.
  pub record Keeps (s u : RaftState Db) : Type 0 where
    pub term_le : s.term ≤ u.term
    pub same_self : u.myself ≡ s.myself
    pub vote : u.term ≡ s.term → empty s.voted_for ≡ false → u.voted_for ≡ s.voted_for
    pub led : u.term ≡ s.term → empty s.leader ≡ false → u.leader ≡ s.leader

  Step-Keeps : {s u : RaftState Db} → Step s u → Keeps s u
  unfolding observed become_candidate grant_vote drop_out shutdown
  Step-Keeps {s} (observes t l) = record {
    term_le = ground arith;
    same_self = ground arith;
    vote = λ e n. ground arith;
    led = λ e n. ground arith;
  }
  Step-Keeps {s} (runs t) = record {
    term_le = ground arith;
    same_self = ground arith;
    vote = λ e n. ground arith;
    led = λ e n. ground arith;
  }
  Step-Keeps {s} (grants t v) = record {
    term_le = ground arith;
    same_self = ground arith;
    vote = λ e n. ground arith;
    led = λ e n. ground arith;
  }
  Step-Keeps {s} {u} (ascends t h) = elim (ascend-cases s t h) [
    | inl (_, same) ↦ record {
      term_le = ground arith;
      same_self = ground arith;
      vote = λ e n. ground arith;
      led = λ e n. ground arith;
    }
    | inr (_, may, _, term, _, led, me, vote, _, _) ↦ record {
      term_le = ground arith;
      same_self = me;
      vote = λ e n. vote;
      led = λ e n. ground (arith, may.no_leader);
    }
  ]
  Step-Keeps {s} (drops_out t) = record {
    term_le = ground arith;
    same_self = ground arith;
    vote = λ e n. ground arith;
    led = λ e n. ground arith;
  }
  Step-Keeps {s} shuts_down = record {
    term_le = ground arith;
    same_self = ground arith;
    vote = λ e n. ground arith;
    led = λ e n. ground arith;
  }
  Step-Keeps {s} (writes j t v) = record {
    term_le = omega arith;
    same_self = refl;
    vote = λ e n. refl;
    led = λ e n. refl;
  }

  Keeps-trans : {s t u : RaftState Db} → Keeps s t → Keeps t u → Keeps s u
  Keeps-trans {s} {t} {u} a b = record {
    term_le = omega (arith, a.term_le, b.term_le);
    same_self = b.same_self ∙ a.same_self;
    vote = λ e n.
        let mid : t.term ≡ s.term = omega (arith, a.term_le, b.term_le) in
        b.vote (omega arith) (rw (a.vote mid n) n) ∙ a.vote mid n;
    led = λ e n.
        let mid : t.term ≡ s.term = omega (arith, a.term_le, b.term_le) in
        b.led (omega arith) (rw (a.led mid n) n) ∙ a.led mid n;
  }

  Steps-Keeps : {s u : RaftState Db} → Steps s u → Keeps s u
  Steps-Keeps here = record {
    term_le = omega arith;
    same_self = refl;
    vote = λ e n. refl;
    led = λ e n. refl;
  }
  Steps-Keeps (next r st) = Keeps-trans (Steps-Keeps r) (Step-Keeps st)

  -- If the term and the vote in the journal are those of the state, and the published snapshot is that
  -- of the state, then so it is after any sequence of operations.
  pub state_stays_in_agreement : {s u : RaftState Db} → Steps s u → Agrees s → Agrees u
  state_stays_in_agreement here a = a
  state_stays_in_agreement (next r st) a = Step-Agrees st (state_stays_in_agreement r a)

  -- From a state that agrees with its journal, a vote that has been cast is the vote for as long as the term lasts, in the
  -- state and in the journal, whatever is observed or requested in between.
  pub one_vote_per_term :
      {s u : RaftState Db}
      → Steps s u
      → Agrees s
      → u.term ≡ s.term
      → empty s.voted_for ≡ false
      → (u.voted_for ≡ s.voted_for) × (u.journal.voted_for ≡ s.voted_for)
  one_vote_per_term r a e n =
      let kept = (Steps-Keeps r).vote e n in (kept, (state_stays_in_agreement r a).same_vote ∙ kept)

  -- A leader that is recognised in a term is recognised for as long as the term lasts.
  pub one_leader_per_term :
      {s u : RaftState Db}
      → Steps s u
      → u.term ≡ s.term
      → empty s.leader ≡ false
      → u.leader ≡ s.leader
  one_leader_per_term r e n = (Steps-Keeps r).led e n
