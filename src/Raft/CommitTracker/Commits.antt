-- ===== src/Raft/CommitTracker/Commits.antt =====
-- src/raft/RaftCommitTracker.cc: the commit index against the match indexes of the nodes.
use quarkdb.Base.{
  refl, ℕ, ◌+◌, ◌-◌, ◌≤◌, ◌<◌, ◌≡◌, ◌⊎◌, inl, inr, ◌∙◌, Bool, List, [], arith, Bool-cases, length,
  get_elem?-lt, leb, ltb, ◌==◌, ok, >>=-eq-ok,
}
use quarkdb.Raft.Types.{RaftServer, calculate_quorum_size}
use quarkdb.Raft.Registrations.{
  get_handler, assign, values, length-values, set_targets, length-set_targets, Fresh,
}
use quarkdb.Raft.Quorum.{
  sort, count_from, sort-IsSorted, count-sort, length-sort, count-nth, count-above,
}
use quarkdb.Raft.Store.{Rocks}
use quarkdb.Raft.Journal.Valid.{IsValid}
use quarkdb.Raft.Journal.{Journal, set_commit_index, raw_set_commit_index}
use quarkdb.Raft.CommitTracker.{
  RaftCommitTracker, update_targets, quorum_index, update_commit_index, recalculate_commit_index,
  updated, update, auto_commit,
}

-- The quorum is that of the targets and the leader.
abbrev pub IsConfigured : RaftCommitTracker → Type 0
IsConfigured t = t.quorum_size ≡ calculate_quorum_size (length t.targets + 1)

pub update_targets-IsConfigured :
    (t : RaftCommitTracker) (ss : List RaftServer)
    → Fresh [] ss
    → (t' : RaftCommitTracker) × (update_targets t ss ≡ ok t')
      × IsConfigured t'
      × (length t'.targets ≡ length ss)
unfolding update_targets calculate_quorum_size
update_targets-IsConfigured t ss f = (
  record t {
    registrations = (set_targets t.registrations [] ss).0;
    targets = (set_targets t.registrations [] ss).1;
    quorum_size = calculate_quorum_size (length ss + 1);
    auto_committer = calculate_quorum_size (length ss + 1) == 1;
  },
  ground arith,
  ground (arith, length-set_targets t.registrations [] ss f),
  omega (arith, length-set_targets t.registrations [] ss f),
)

-- How many nodes of the cluster, the leader included, match up to index `n`.
abbrev pub holders : RaftCommitTracker → ℕ → ℕ
holders t n = count_from n (values t.registrations t.targets) + 1

quorum_index-is_greatest :
    (t : RaftCommitTracker)
    → IsConfigured t
    → 0 < length t.targets
    → (n : ℕ) × (quorum_index t ≡ ok n)
      × (t.quorum_size ≤ holders t n)
      × ((m : ℕ) → n < m → holders t m < t.quorum_size)
unfolding quorum_index calculate_quorum_size
quorum_index-is_greatest t conf some_target =
    let xs = values t.registrations t.targets in
    let place = (length (sort xs) + 1) - t.quorum_size in
    let sizes : length (sort xs) ≡ length t.targets =
      length-sort xs ∙ length-values t.registrations t.targets in
    let (n, at) = get_elem?-lt (sort xs) place (omega arith) in
    (
      n,
      ground (arith, at),
      omega (arith, count-nth (sort xs) place n (sort-IsSorted xs) at, count-sort n xs),
      λ m l.
          omega (arith, count-above (sort xs) place n m (sort-IsSorted xs) at l, count-sort m xs),
    )

module _ {Db : Type 0} ⦃R : Rocks Db⦄ where
  -- The commit index stayed, or rose to the greatest index that a quorum matches.
  pub data Moved (t : RaftCommitTracker) (j j' : Journal Db) : Type 0 where
    stayed : j'.commit_index ≡ j.commit_index → Moved t j j'
    rose :
        j.commit_index < j'.commit_index
        → t.quorum_size ≤ holders t j'.commit_index
        → ((m : ℕ) → j'.commit_index < m → holders t m < t.quorum_size)
        → Moved t j j'

  set_commit_index-moves :
      (j j' : Journal Db) (n : ℕ) (b : Bool)
      → set_commit_index j n ≡ ok (j', b)
      → (j'.commit_index ≡ j.commit_index) ⊎ ((j.commit_index < n) × (j'.commit_index ≡ n))
  unfolding set_commit_index raw_set_commit_index
  set_commit_index-moves j j' n b h = ground arith

  update_commit_index-moves :
      (t t' : RaftCommitTracker) (j j' : Journal Db) (n : ℕ)
      → update_commit_index t j n ≡ ok (t', j')
      → ((j'.commit_index ≡ j.commit_index) ⊎ ((j.commit_index < n) × (j'.commit_index ≡ n)))
        × (t'.registrations ≡ t.registrations)
        × (t'.targets ≡ t.targets)
        × (t'.quorum_size ≡ t.quorum_size)
  unfolding update_commit_index
  update_commit_index-moves t t' j j' n h = elim (Bool-cases (ltb n j.commit_index)) [
    | inl e ↦ ground (arith, e)
    | inr e ↦
        let (p, hp, rest) = >>=-eq-ok (set_commit_index j n) _ (rw e at h) in
        ground (arith, e, set_commit_index-moves j p.0 n p.1 hp)
  ]

  recalculate-moves :
      (t t' : RaftCommitTracker) (j j' : Journal Db)
      → IsConfigured t
      → recalculate_commit_index t j ≡ ok (t', j')
      → Moved t' j j' × IsConfigured t'
  unfolding recalculate_commit_index
  recalculate-moves t t' j j' conf h = elim (Bool-cases (length t.targets == 0)) [
    | inl e ↦ (Moved.stayed (ground (arith, e)), ground (arith, e))
    | inr e ↦
        let (n, hn, reached, best) = quorum_index-is_greatest t conf (ground (arith, e)) in
        let (how, regs, targets, quorum) =
          update_commit_index-moves t t' j j' n (rw hn at (rw e at h)) in
        let same_holders : (m : ℕ) → holders t' m ≡ holders t m = λ m. cc in
        (
          elim how [
            | inl same ↦ Moved.stayed same
            | inr (less, new) ↦
                let on_quorum : t.quorum_size ≤ holders t j'.commit_index = rw new reached in
                Moved.rose (omega arith) (omega (arith, same_holders j'.commit_index))
                  (λ m l. omega (arith, same_holders m, best m (omega arith)))
          ],
          cc,
        )
  ]

  -- When the match index of a server is updated, with the quorum that of the targets and the leader,
  -- then the journal's commit index stays, or it rises to the greatest index that a quorum of the
  -- nodes, the leader included, has reached.
  pub commit_index_needs_quorum :
      (t t' : RaftCommitTracker) (j j' : Journal Db) (s : RaftServer) (n : ℕ)
      → IsConfigured t
      → update t j s n ≡ ok (t', j')
      → Moved t' j j' × IsConfigured t'
  unfolding update updated
  commit_index_needs_quorum t t' j j' s n conf h = elim (Bool-cases (leb n t.commit_index)) [
    | inl e ↦ (Moved.stayed (ground (arith, e)), ground (arith, e))
    | inr e ↦ recalculate-moves heard t' j j' conf (rw e at h)
  ]
    where
      heard : RaftCommitTracker
      heard = record t { registrations = assign (get_handler t.registrations s) s n }

  -- With a quorum of one, a turn of the autocommitter on a valid journal does not throw, and after it
  -- the whole log is committed.
  pub auto_commit_commits_all :
      (t : RaftCommitTracker) (j : Journal Db)
      → IsValid j
      → t.quorum_size ≡ 1
      → (j' : Journal Db) × (auto_commit t j ≡ ok j')
        × (j'.commit_index + 1 ≡ j.log_size)
        × (j'.log_size ≡ j.log_size)
  unfolding auto_commit set_commit_index raw_set_commit_index
  auto_commit_commits_all t j v one = elim (Bool-cases (j.log_size - 1 == j.commit_index)) [
    | inl e ↦ (j, ground (arith, e, one), ground (arith, e, v.commit_lt), refl)
    | inr e ↦ (
      raw_set_commit_index j (j.log_size - 1),
      ground (arith, e, one, v.commit_lt),
      omega (arith, v.commit_lt),
      refl,
    )
  ]
