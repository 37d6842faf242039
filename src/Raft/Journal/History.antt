-- ===== src/Raft/Journal/History.antt =====
-- Any sequence of operations on the journal.
use quarkdb.Base.{ℕ, ◌-◌, ◌≤◌, ◌<◌, ◌≡◌, refl, ◌∙◌, [], ◌∷◌, Bool, true, false, arith, ok, inl, inr}
use quarkdb.Raft.Types.{RaftServer, RaftEntry}
use quarkdb.Raft.Store.{Rocks, Key, Value, put}
use quarkdb.Raft.Journal.{
  Journal, fetch, set_current_term, set_commit_index, raw_set_commit_index, should_sync,
}
use quarkdb.Raft.Journal.Log.{append_no_lock, remove_entries, trim_until}
use quarkdb.Raft.Journal.Frame.{append-cases}
use quarkdb.Raft.Journal.Removal.{remove-cases, trim-cases}
use quarkdb.Raft.Journal.Valid.{IsValid, Appended-IsValid, Cut-IsValid, Trimmed-IsValid}

module _ {Db : Type 0} ⦃R : Rocks Db⦄ where
  -- One call of an operation, by whichever thread, that does not throw.
  pub data Step (j : Journal Db) : Journal Db → Type 0 where
    appends :
        (i : ℕ) (e : RaftEntry) (important : Bool) {k : Journal Db} {b : Bool}
        → append_no_lock j i e important ≡ ok (k, b)
        → Step j k
    removes : (from : ℕ) {k : Journal Db} {b : Bool} → remove_entries j from ≡ ok (k, b) → Step j k
    trims : (start : ℕ) {k : Journal Db} → trim_until j start ≡ ok k → Step j k
    commits : (n : ℕ) {k : Journal Db} {b : Bool} → set_commit_index j n ≡ ok (k, b) → Step j k
    votes : (term : ℕ) (vote : RaftServer) → Step j (set_current_term j term vote).0

  pub data Steps (j : Journal Db) : Journal Db → Type 0 where
    here : Steps j j
    next : {k l : Journal Db} → Steps j k → Step k l → Steps j l

  -- `k` is `j`, but for the counters, with the same entries.
  pub record Counted (j k : Journal Db) : Type 0 where
    pub log_size : k.log_size ≡ j.log_size
    pub log_start : k.log_start ≡ j.log_start
    pub last : k.term_of_last_entry ≡ j.term_of_last_entry
    pub commit_le : j.commit_index ≤ k.commit_index
    pub commit_lt : j.commit_index < j.log_size → k.commit_index < j.log_size
    pub term_le : j.current_term ≤ k.current_term
    pub entries : (i : ℕ) → fetch k i ≡ fetch j i

  pub set_commit-Counted :
      (j : Journal Db) (n : ℕ) {k : Journal Db} {b : Bool}
      → set_commit_index j n ≡ ok (k, b)
      → Counted j k
  unfolding set_commit_index raw_set_commit_index fetch
  set_commit-Counted j n h = record {
    log_size = ground arith;
    log_start = ground arith;
    last = ground arith;
    commit_le = ground arith;
    commit_lt = λ c. ground arith;
    term_le = ground arith;
    entries = λ i.
        ground
          (arith, R.get-write j.db false (put Key.commit_index (Value.int n) ∷ []) (Key.entry i));
  }

  set_current_term-Counted :
      (j : Journal Db) (t : ℕ) (v : RaftServer) → Counted j (set_current_term j t v).0
  unfolding set_current_term fetch
  set_current_term-Counted j t v = record {
    log_size = ground arith;
    log_start = ground arith;
    last = ground arith;
    commit_le = ground arith;
    commit_lt = λ c. ground arith;
    term_le = ground arith;
    entries = λ i. ground (
      arith,
      R.get-write j.db (should_sync j.fsync_policy true)
          (put Key.current_term (Value.int t) ∷ put Key.voted_for (Value.server v) ∷ [])
          (Key.entry i),
    );
  }

  pub Counted-IsValid : (j k : Journal Db) → Counted j k → IsValid j → IsValid k
  Counted-IsValid j k c v = record {
    start_le = ground (arith, c.commit_le, c.log_start, v.start_le);
    commit_lt = ground (arith, c.commit_lt v.commit_lt, c.log_size);
    present = λ i h l.
        let (f, hf) = v.present i (ground (arith, c.log_start)) (ground (arith, c.log_size)) in
        (f, ground (arith, c.entries i, hf));
    trimmed = λ i h. ground (arith, c.entries i, v.trimmed i, c.log_start);
    beyond = λ i h. ground (arith, c.entries i, v.beyond i, c.log_size);
    last = λ e h. ground (arith, c.entries (k.log_size - 1), v.last e, c.log_size, c.last);
    last_le = ground (arith, v.last_le, c.last, c.term_le);
    sorted = λ i m e f le he hf. ground (arith, c.entries i, c.entries m, v.sorted i m e f);
  }

  pub Steps-cons : {j k l : Journal Db} → Step j k → Steps k l → Steps j l
  Steps-cons s here = next here s
  Steps-cons s (next r t) = next (Steps-cons s r) t

  pub Steps-trans : {j k l : Journal Db} → Steps j k → Steps k l → Steps j l
  Steps-trans r here = r
  Steps-trans r (next s t) = next (Steps-trans r s) t

  -- What one operation does to what is committed.
  record Keeps (j k : Journal Db) : Type 0 where
    valid : IsValid k
    commit_le : j.commit_index ≤ k.commit_index
    term_le : j.current_term ≤ k.current_term
    start_le : j.log_start ≤ k.log_start
    committed : (i : ℕ) → i ≤ j.commit_index → k.log_start ≤ i → fetch k i ≡ fetch j i

  Keeps-refl : (j : Journal Db) → IsValid j → Keeps j j
  Keeps-refl j v = record {
    valid = v;
    commit_le = omega arith;
    term_le = omega arith;
    start_le = omega arith;
    committed = λ i h l. refl;
  }

  Counted-Keeps : (j k : Journal Db) → Counted j k → IsValid j → Keeps j k
  Counted-Keeps j k c v = record {
    valid = Counted-IsValid j k c v;
    commit_le = c.commit_le;
    term_le = c.term_le;
    start_le = omega (arith, c.log_start);
    committed = λ i h l. c.entries i;
  }

  Step-Keeps : {j k : Journal Db} → Step j k → IsValid j → Keeps j k
  Step-Keeps {j} {k} (appends i e important h) v = elim (append-cases j i e important h) [
    | inl (_, same) ↦ rw same (Keeps-refl j v)
    | inr (_, _, a) ↦ record {
      valid = Appended-IsValid j k e a v;
      commit_le = omega (arith, a.commit_index);
      term_le = omega (arith, a.current_term);
      start_le = omega (arith, a.log_start);
      committed = λ i h l. ground (arith, a.entries i, v.commit_lt);
    }
  ]
  Step-Keeps {j} {k} (removes from h) v = elim (remove-cases j from h) [
    | inl (_, _, same) ↦ rw same (Keeps-refl j v)
    | inr (_, c) ↦ record {
      valid = Cut-IsValid j k from c v;
      commit_le = omega (arith, c.commit_index);
      term_le = omega (arith, c.current_term);
      start_le = omega (arith, c.log_start);
      committed = λ i h l. ground (arith, c.entries i, c.uncommitted);
    }
  ]
  Step-Keeps {j} {k} (trims start h) v = elim (trim-cases j start h) [
    | inl (_, same) ↦ rw same (Keeps-refl j v)
    | inr t ↦ record {
      valid = Trimmed-IsValid j k start t v;
      commit_le = omega (arith, t.commit_index);
      term_le = omega (arith, t.current_term);
      start_le = omega (arith, t.log_start, t.later);
      committed = λ i h l. ground (arith, t.entries i, t.log_start);
    }
  ]
  Step-Keeps {j} {k} (commits n h) v = Counted-Keeps j k (set_commit-Counted j n h) v
  Step-Keeps {j} (votes t s) v = Counted-Keeps j _ (set_current_term-Counted j t s) v

  Keeps-trans : (j k l : Journal Db) → Keeps j k → Keeps k l → Keeps j l
  Keeps-trans j k l a b = record {
    valid = b.valid;
    commit_le = omega (arith, a.commit_le, b.commit_le);
    term_le = omega (arith, a.term_le, b.term_le);
    start_le = omega (arith, a.start_le, b.start_le);
    committed = λ i h m.
        b.committed i (omega (arith, a.commit_le)) m ∙ a.committed i h (omega (arith, b.start_le));
  }

  Steps-Keeps : {j k : Journal Db} → Steps j k → IsValid j → Keeps j k
  Steps-Keeps {j} here v = Keeps-refl j v
  Steps-Keeps {j} {k} (next {k = m} r s) v =
      let before = Steps-Keeps r v in Keeps-trans j m k before (Step-Keeps s before.valid)

  pub commit_index_mono :
      {j k : Journal Db} → Steps j k → IsValid j → j.commit_index ≤ k.commit_index
  commit_index_mono r v = (Steps-Keeps r v).commit_le

  -- After any sequence of operations that do not throw, a valid journal is valid: the entries are
  -- those from the start of the log to its end, the committed ones among them, in rising terms.
  pub journal_stays-IsValid : {j k : Journal Db} → Steps j k → IsValid j → IsValid k
  journal_stays-IsValid r v = (Steps-Keeps r v).valid

  -- After any sequence of operations on a valid journal, an entry that was committed is unchanged
  -- unless it has been trimmed, and neither the commit index nor the term has fallen.
  pub committed_entries_stay :
      {j k : Journal Db} (i : ℕ)
      → Steps j k
      → IsValid j
      → i ≤ j.commit_index
      → k.log_start ≤ i
      → (fetch k i ≡ fetch j i)
        × (j.commit_index ≤ k.commit_index)
        × (j.current_term ≤ k.current_term)
  committed_entries_stay i r v h l =
      let keeps = Steps-Keeps r v in (keeps.committed i h l, keeps.commit_le, keeps.term_le)
