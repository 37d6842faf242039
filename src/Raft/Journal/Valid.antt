-- ===== src/Raft/Journal/Valid.antt =====
-- The invariant of the journal, and the operations.
use quarkdb.Base.{ℕ, ◌-◌, ◌≤◌, ◌<◌, ◌≡◌, none, some, arith, inl, inr, Bool-cases, ◌==◌, leb}
use quarkdb.Raft.Types.{RaftEntry}
use quarkdb.Raft.Store.{Rocks}
use quarkdb.Raft.Journal.{Journal, fetch}
use quarkdb.Raft.Journal.Frame.{Appended}
use quarkdb.Raft.Journal.Removal.{Cut, Trimmed}

module _ {Db : Type 0} ⦃R : Rocks Db⦄ where
  pub record IsValid (j : Journal Db) : Type 0 where
    pub start_le : j.log_start ≤ j.commit_index
    pub commit_lt : j.commit_index < j.log_size
    -- The entries are those from `log_start` up to `log_size`.
    pub present :
        (i : ℕ) → j.log_start ≤ i → i < j.log_size → (e : RaftEntry) × (fetch j i ≡ some e)
    pub trimmed : (i : ℕ) → i < j.log_start → fetch j i ≡ none
    pub beyond : (i : ℕ) → j.log_size ≤ i → fetch j i ≡ none
    pub last : (e : RaftEntry) → fetch j (j.log_size - 1) ≡ some e → e.term ≡ j.term_of_last_entry
    pub last_le : j.term_of_last_entry ≤ j.current_term
    -- Terms do not fall along the log.
    pub sorted :
        (i k : ℕ) (e f : RaftEntry)
        → i ≤ k
        → fetch j i ≡ some e
        → fetch j k ≡ some f
        → e.term ≤ f.term

  pub last_bounds :
      (j : Journal Db) (i : ℕ) (e : RaftEntry)
      → IsValid j
      → fetch j i ≡ some e
      → e.term ≤ j.term_of_last_entry
  last_bounds j i e v h = elim (Bool-cases (leb j.log_size i)) [
    | inl out ↦ ground (arith, v.beyond i (ground arith))
    | inr in_range ↦
        let (f, hf) =
          v.present (j.log_size - 1) (omega (arith, v.start_le, v.commit_lt))
            (omega (arith, v.commit_lt)) in
        ground (arith, v.sorted i (j.log_size - 1) e f (ground arith) h hf, v.last f hf)
  ]

  pub Appended-IsValid :
      (j k : Journal Db) (new : RaftEntry) → Appended j k new → IsValid j → IsValid k
  Appended-IsValid j k new a v = record {
    start_le = omega arith;
    commit_lt = omega arith;
    present = λ i h l. elim (Bool-cases (i == j.log_size)) [
      | inl e ↦ (new, ground (arith, e, a.entries i))
      | inr e ↦
          let (f, hf) = v.present i (omega arith) (ground (arith, e)) in
          (f, ground (arith, e, a.entries i, hf))
    ];
    trimmed = λ i h. ground (arith, a.entries i, v.trimmed i, v.start_le, v.commit_lt);
    beyond = λ i h. ground (arith, a.entries i, v.beyond i);
    last = λ e h. ground (arith, a.entries (k.log_size - 1));
    last_le = omega arith;
    sorted = λ i m e f le he hf. elim (Bool-cases (m == j.log_size)) [
      | inl q ↦ elim (Bool-cases (i == j.log_size)) [
        | inl q' ↦ ground (arith, q, q', a.entries i, a.entries m)
        | inr q' ↦
            ground (arith, q, q', a.entries i, a.entries m, last_bounds j i e v, a.not_behind)
      ]
      | inr q ↦ elim (Bool-cases (i == j.log_size)) [
        | inl q' ↦ ground (arith, q, q', a.entries m, v.beyond m)
        | inr q' ↦ ground (arith, q, q', a.entries i, a.entries m, v.sorted i m e f)
      ]
    ];
  }

  pub Cut-IsValid : (j k : Journal Db) (from : ℕ) → Cut j k from → IsValid j → IsValid k
  Cut-IsValid j k from c v = record {
    start_le = omega arith;
    commit_lt = omega arith;
    present = λ i h l.
        let (f, hf) = v.present i (omega arith) (omega arith) in
        (f, ground (arith, c.entries i, hf));
    trimmed = λ i h. ground (arith, c.entries i, v.trimmed i);
    beyond = λ i h. ground (arith, c.entries i, v.beyond i);
    last = λ e h. ground (arith, c.last.1, c.last.2, c.log_size);
    last_le = ground (
      arith,
      c.last.1,
      c.last.2,
      c.entries (from - 1),
      last_bounds j (from - 1) (c.last.0) v,
      v.last_le,
    );
    sorted = λ i m e f le he hf. ground (arith, c.entries i, c.entries m, v.sorted i m e f);
  }

  pub Trimmed-IsValid : (j k : Journal Db) (start : ℕ) → Trimmed j k start → IsValid j → IsValid k
  Trimmed-IsValid j k start t v = record {
    start_le = omega arith;
    commit_lt = omega arith;
    present = λ i h l.
        let (f, hf) = v.present i (omega arith) (omega arith) in
        (f, ground (arith, t.entries i, hf));
    trimmed = λ i h. ground (arith, t.entries i, v.trimmed i);
    beyond = λ i h. ground (arith, t.entries i, v.beyond i);
    last = λ e h. ground (arith, t.entries (k.log_size - 1), v.last e);
    last_le = omega arith;
    sorted = λ i m e f le he hf. ground (arith, t.entries i, t.entries m, v.sorted i m e f);
  }
