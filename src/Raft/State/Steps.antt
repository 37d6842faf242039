-- ===== src/Raft/State/Steps.antt =====
-- The operations of the state as steps, with the other operations of the journal between them, and
-- what every step keeps.
use quarkdb.Base.{
  ℕ, ◌≡◌, ◌⊎◌, inl, inr, Bool, true, false, arith, ok, pos, >>=-eq-ok, [], ◌∷◌, not, ◌>>=◌,
  if◌then◌else◌,
}
use mathlib.Core.Path.{subst}
use quarkdb.Raft.Types.{RaftServer, RaftEntry, leader, candidate, empty, server_eq_iff}
use quarkdb.Raft.Parsing.{decimal, contains}
use quarkdb.Raft.Parsing
use quarkdb.Raft.Store.{Rocks}
use quarkdb.Raft.Journal.{Journal, leadership_marker}
use quarkdb.Raft.Journal.Log.{append, append_leadership_marker}
use quarkdb.Raft.Journal.Frame.{Appended, append-cases}
use quarkdb.Raft.State.{
  RaftState, snapshot_of, drop_out, shutdown, become_candidate, ascend, grant_vote, observed,
  update_snapshot, update_status,
}

-- The marker that ascend puts into the journal.
abbrev pub marker_entry : ℕ → RaftServer → RaftEntry
marker_entry term me = record {
  term = term;
  request = leadership_marker ∷ decimal (pos term) ∷ Parsing.to_string me ∷ [];
}

module _ {Db : Type 0} ⦃R : Rocks Db⦄ where
  pub data Step (s : RaftState Db) : RaftState Db → Type 0 where
    observes : (t : ℕ) (l : RaftServer) → Step s (observed s t l).0
    runs : (t : ℕ) → Step s (become_candidate s t).0
    grants : (t : ℕ) (v : RaftServer) → Step s (grant_vote s t v).0
    ascends : (t : ℕ) {u : RaftState Db} {b : Bool} → ascend s t ≡ ok (u, b) → Step s u
    drops_out : (t : ℕ) → Step s (drop_out s t).0
    shuts_down : Step s (shutdown s)
    -- The journal moves on by itself: only this class sets its term and its vote.
    writes :
        (j : Journal Db)
        → j.current_term ≡ s.journal.current_term
        → j.voted_for ≡ s.journal.voted_for
        → Step s (record s { journal = j })

  pub data Steps (s : RaftState Db) : RaftState Db → Type 0 where
    here : Steps s s
    next : {t u : RaftState Db} → Steps s t → Step t u → Steps s u

  -- The guards of ascend.
  pub record MayAscend (s : RaftState Db) (t : ℕ) : Type 0 where
    pub same_term : t ≡ s.term
    pub was_candidate : s.status ≡ candidate
    pub no_leader : empty s.leader ≡ true
    pub own_vote : s.voted_for ≡ s.myself
    pub full_node : contains s.journal.members.nodes s.myself ≡ true

  crown : RaftState Db → Journal Db × Bool → RaftState Db × Bool
  unfolding update_snapshot update_status
  crown s p = if not p.1 then (record s { journal = p.0 }, false) else (
    update_snapshot (
        update_status
          (record s {
            journal = p.0;
            leader = s.myself;
            leadership_marker = pos s.journal.log_size;
          })
          leader),
    true,
  )

  ascend_guards :
      (s : RaftState Db) (t : ℕ) {u : RaftState Db} {b : Bool}
      → ascend s t ≡ ok (u, b)
      → ((b ≡ false) × (u ≡ s))
        ⊎ (MayAscend s t
            × ((append_leadership_marker s.journal s.journal.log_size t s.myself >>= λ p.
                  ok (crown s p))
                ≡ ok (u, b)))
  unfolding ascend crown
  ascend_guards s t h = ground (arith, server_eq_iff s.voted_for s.myself)

  -- An ascent that does not throw fails and changes nothing, or makes this node the leader of a term
  -- in which it was a candidate, with the marker of the term at the end of the journal.
  pub ascend-cases :
      (s : RaftState Db) (t : ℕ) {u : RaftState Db} {b : Bool}
      → ascend s t ≡ ok (u, b)
      → ((b ≡ false) × (u ≡ s))
        ⊎ ((b ≡ true)
            × MayAscend s t
            × Appended s.journal u.journal (marker_entry t s.myself)
            × (u.term ≡ s.term)
            × (u.status ≡ leader)
            × (u.leader ≡ s.myself)
            × (u.myself ≡ s.myself)
            × (u.voted_for ≡ s.voted_for)
            × (u.leadership_marker ≡ pos s.journal.log_size)
            × (u.current_snapshot ≡ snapshot_of u))
  unfolding crown append_leadership_marker append snapshot_of
  ascend-cases s t {u} {b} h = elim (ascend_guards s t h) [
    | inl kept ↦ inl kept
    | inr (may, done) ↦
        let (p, hp, end) =
          >>=-eq-ok (append_leadership_marker s.journal s.journal.log_size t s.myself) _ done in
        elim (append-cases s.journal s.journal.log_size (marker_entry t s.myself) true hp) [
          | inl (f, same) ↦ inl (ground arith)
          | inr (added, _, a) ↦ inr (
            ground arith,
            may,
            subst (λ k. Appended s.journal k (marker_entry t s.myself)) (ground arith) a,
            ground arith,
            ground arith,
            ground arith,
            ground arith,
            ground arith,
            ground arith,
            ground arith,
          )
        ]
  ]
