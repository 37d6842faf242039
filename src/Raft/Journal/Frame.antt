-- ===== src/Raft/Journal/Frame.antt =====
-- What an append leaves alone, and what it leaves behind.
use quarkdb.Base.{
  ℕ, ◌+◌, ◌≤◌, ◌<◌, if◌then◌else◌, ◌==◌, ◌⊎◌, ◌>>=◌, ◌≡◌, Bool, true, false, Option, some, List, [],
  ◌∷◌, ◌++◌, arith, ok, >>=-eq-ok, Result, Bytes, Bool-cases, inl, inr,
}
use quarkdb.Raft.Types.{RaftEntry}
use quarkdb.Raft.Store.{Rocks, Op, Key, Value, put, apply_ops, apply_ops-append}
use quarkdb.Raft.Journal.{Journal, commit_batch, fetch, entry_of, should_sync}
use quarkdb.Raft.Journal.Log.{take_membership, append_no_lock}

module _ {Db : Type 0} where
  -- The counters, the vote and the database are as they were: at most the membership differs.
  pub record SameLog (j k : Journal Db) : Type 0 where
    pub db : k.db ≡ j.db
    pub current_term : k.current_term ≡ j.current_term
    pub voted_for : k.voted_for ≡ j.voted_for
    pub log_size : k.log_size ≡ j.log_size
    pub log_start : k.log_start ≡ j.log_start
    pub commit_index : k.commit_index ≡ j.commit_index
    pub term_of_last_entry : k.term_of_last_entry ≡ j.term_of_last_entry
    pub cluster_id : k.cluster_id ≡ j.cluster_id
    pub fsync_policy : k.fsync_policy ≡ j.fsync_policy

  module _ ⦃R : Rocks Db⦄ where
    take_membership-SameLog :
        (j : Journal Db) (i : ℕ) (request : List Bytes) (important : Bool)
        {p : List Op × Journal Db × Bool}
        → take_membership j i request important ≡ ok p
        → SameLog j p.1
    unfolding take_membership
    take_membership-SameLog j i [] important h = cc
    take_membership-SameLog j i (c ∷ []) important h = ground arith
    take_membership-SameLog j i (c ∷ t ∷ []) important h = ground arith
    take_membership-SameLog j i (c ∷ t ∷ k ∷ []) important h = ground arith
    take_membership-SameLog j i (c ∷ t ∷ k ∷ x ∷ xs) important h = ground arith

    take_membership-entry :
        (j : Journal Db) (i : ℕ) (request : List Bytes) (important : Bool)
        {p : List Op × Journal Db × Bool} (k : ℕ) (v : Option Value)
        → take_membership j i request important ≡ ok p
        → apply_ops p.0 (Key.entry k) v ≡ v
    unfolding take_membership
    take_membership-entry j i [] important k v h = cc
    take_membership-entry j i (c ∷ []) important k v h = ground arith
    take_membership-entry j i (c ∷ t ∷ []) important k v h = ground arith
    take_membership-entry j i (c ∷ t ∷ u ∷ []) important k v h = ground arith
    take_membership-entry j i (c ∷ t ∷ u ∷ x ∷ xs) important k v h = ground arith

  -- `k` is `j` with the entry `e` added at its end.
  pub record Appended ⦃R : Rocks Db⦄ (j k : Journal Db) (e : RaftEntry) : Type 0 where
    pub not_ahead : e.term ≤ j.current_term
    pub not_behind : j.term_of_last_entry ≤ e.term
    pub uncommitted : j.commit_index < j.log_size + 1
    pub current_term : k.current_term ≡ j.current_term
    pub voted_for : k.voted_for ≡ j.voted_for
    pub log_size : k.log_size ≡ j.log_size + 1
    pub log_start : k.log_start ≡ j.log_start
    pub commit_index : k.commit_index ≡ j.commit_index
    pub last : k.term_of_last_entry ≡ e.term
    pub entries : (i : ℕ) → fetch k i ≡ (if i == j.log_size then some e else fetch j i)

  module _ ⦃R : Rocks Db⦄ where
    -- The test of append_no_lock, passed.
    accepted : Journal Db → ℕ → RaftEntry → Bool → Result (Journal Db × Bool)
    accepted j index entry important = do
      p ← take_membership j index entry.request important
      j' ←
          commit_batch p.1 (p.0 ++ put (Key.entry index) (Value.log_entry entry) ∷ [])
            (some (index + 1)) p.2
      ok (record j' { term_of_last_entry = entry.term }, true)

    append_guards :
        (j : Journal Db) (i : ℕ) (e : RaftEntry) (important : Bool) {j' : Journal Db} {b : Bool}
        → append_no_lock j i e important ≡ ok (j', b)
        → ((b ≡ false) × (j' ≡ j))
          ⊎ ((i ≡ j.log_size)
              × (e.term ≤ j.current_term)
              × (j.term_of_last_entry ≤ e.term)
              × (accepted j i e important ≡ ok (j', b)))
    unfolding append_no_lock accepted
    append_guards j i e important h = ground arith

    -- A committed batch shows in the entries as its operations do.
    pub record Committed (j k : Journal Db) (ops : List Op) : Type 0 where
      pub current_term : k.current_term ≡ j.current_term
      pub voted_for : k.voted_for ≡ j.voted_for
      pub log_start : k.log_start ≡ j.log_start
      pub commit_index : k.commit_index ≡ j.commit_index
      pub entries :
          (i : ℕ) → fetch k i ≡ entry_of (apply_ops ops (Key.entry i) (R.get j.db (Key.entry i)))

    pub commit_batch-Committed :
        (j : Journal Db) (ops : List Op) (index : ℕ) (important : Bool) {k : Journal Db}
        → commit_batch j ops (some index) important ≡ ok k
        → Committed j k ops × (j.commit_index < index) × (k.log_size ≡ index)
    unfolding commit_batch fetch
    commit_batch-Committed j ops index important {k} h = (
      record {
        current_term = ground arith;
        voted_for = ground arith;
        log_start = ground arith;
        commit_index = ground arith;
        entries = λ i. elim (Bool-cases (index == j.log_size)) [
          | inl same ↦ ground (
            arith,
            same,
            R.get-write j.db (should_sync j.fsync_policy important) ops (Key.entry i),
          )
          | inr new ↦ ground (
            arith,
            new,
            R.get-write j.db (should_sync j.fsync_policy important)
                (ops ++ put Key.log_size (Value.int index) ∷ []) (Key.entry i),
            apply_ops-append ops (put Key.log_size (Value.int index) ∷ []) (Key.entry i)
                (R.get j.db (Key.entry i)),
          )
        ];
      },
      ground arith,
      ground arith,
    )

    accepted-Appended :
        (j : Journal Db) (e : RaftEntry) (important : Bool) {j' : Journal Db} {b : Bool}
        → e.term ≤ j.current_term
        → j.term_of_last_entry ≤ e.term
        → accepted j j.log_size e important ≡ ok (j', b)
        → Appended j j' e × (b ≡ true)
    unfolding accepted fetch
    accepted-Appended j e important {j'} {b} ahead behind h =
        let (p, hp, rest) = >>=-eq-ok (take_membership j j.log_size e.request important) _ h in
        let same = take_membership-SameLog j j.log_size e.request important hp in
        let ops = p.0 ++ put (Key.entry j.log_size) (Value.log_entry e) ∷ [] in
        let (k, hk, last) = >>=-eq-ok (commit_batch p.1 ops (some (j.log_size + 1)) p.2) _ rest in
        let (c, u, z) = commit_batch-Committed p.1 ops (j.log_size + 1) p.2 hk in
        appended p.0 p.1 k (λ i v. take_membership-entry j j.log_size e.request important i v hp)
          same c u z last
      where
        appended :
            (ops : List Op) (p : Journal Db) (k : Journal Db)
            → ((i : ℕ) (v : Option Value) → apply_ops ops (Key.entry i) v ≡ v)
            → SameLog j p
            → Committed p k (ops ++ put (Key.entry j.log_size) (Value.log_entry e) ∷ [])
            → p.commit_index < j.log_size + 1
            → k.log_size ≡ j.log_size + 1
            → ◌≡◌ {A = Result (Journal Db × Bool)}
                (ok (record k { term_of_last_entry = e.term }, true))
                (ok (j', b))
            → Appended j j' e × (b ≡ true)
        appended ops p k keep same c u z last = (
          record {
            not_ahead = ahead;
            not_behind = behind;
            uncommitted = ground arith;
            current_term = ground arith;
            voted_for = ground arith;
            log_size = ground arith;
            log_start = ground arith;
            commit_index = ground arith;
            last = ground arith;
            entries = λ i. ground (
              arith,
              c.entries i,
              keep i (R.get p.db (Key.entry i)),
              apply_ops-append ops (put (Key.entry j.log_size) (Value.log_entry e) ∷ [])
                  (Key.entry i) (R.get p.db (Key.entry i)),
            );
          },
          ground arith,
        )

    -- An append that does not throw either refuses the entry and changes nothing, or adds it.
    pub append-cases :
        (j : Journal Db) (i : ℕ) (e : RaftEntry) (important : Bool) {j' : Journal Db} {b : Bool}
        → append_no_lock j i e important ≡ ok (j', b)
        → ((b ≡ false) × (j' ≡ j)) ⊎ ((b ≡ true) × (i ≡ j.log_size) × Appended j j' e)
    append-cases j i e important {j'} {b} h = elim (append_guards j i e important h) [
      | inl kept ↦ inl kept
      | inr (at_end, ahead, behind, done) ↦
          let r = accepted-Appended j e important ahead behind (rw at_end at done) in
          inr (r.1, at_end, r.0)
    ]
