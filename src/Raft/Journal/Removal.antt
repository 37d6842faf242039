-- ===== src/Raft/Journal/Removal.antt =====
-- What removeEntries and trimUntil leave behind.
use quarkdb.Base.{
  ℕ, zero, suc, ◌+◌, ◌-◌, ◌≤◌, ◌<◌, ◌≡◌, refl, Bool, true, false, Option, none, some, List, [], ◌∷◌,
  ◌++◌, arith, ok, ltb, leb, ◌&&◌, if◌then◌else◌, Result, >>=-eq-ok, ◌⊎◌, inl, inr, Bool-cases,
  ◌>>=◌, throw_if, Fault, ◌==◌,
}
use quarkdb.Raft.Types.{RaftEntry}
use quarkdb.Raft.Store.{Rocks, Op, Key, Value, put, apply_ops, apply_ops-append}
use quarkdb.Raft.Journal.{Journal, fetch, fetch_or_die, commit_batch, delete_range, should_sync}
use quarkdb.Raft.Journal.Frame.{SameLog, Committed, commit_batch-Committed}
use quarkdb.Raft.Journal.Log.{roll_back, remove_entries, trim_until}

delete_range-entry :
    (from n i : ℕ) (v : Option Value)
    → apply_ops (delete_range from n) (Key.entry i) v
      ≡ (if leb from i && ltb i (from + n) then none else v)
delete_range-entry from zero i v = ground arith
delete_range-entry from (suc n) i v =
    ground (arith, delete_range-entry (from + 1) n i (if from + 11 == i + 11 then none else v))

throw_if-eq-ok : (b : Bool) (f : Fault) → throw_if b f ≡ ok tt → b ≡ false
throw_if-eq-ok true f h = cc
throw_if-eq-ok false f h = refl

module _ {Db : Type 0} ⦃R : Rocks Db⦄ where
  -- `k` is `j` cut before the index `from`.
  pub record Cut (j k : Journal Db) (from : ℕ) : Type 0 where
    pub uncommitted : j.commit_index < from
    pub shorter : from < j.log_size
    pub current_term : k.current_term ≡ j.current_term
    pub voted_for : k.voted_for ≡ j.voted_for
    pub log_size : k.log_size ≡ from
    pub log_start : k.log_start ≡ j.log_start
    pub commit_index : k.commit_index ≡ j.commit_index
    pub last : (e : RaftEntry) × (fetch k (from - 1) ≡ some e) × (k.term_of_last_entry ≡ e.term)
    pub entries : (i : ℕ) → fetch k i ≡ (if leb from i && ltb i j.log_size then none else fetch j i)

  roll_back-SameLog :
      (j : Journal Db) (from : ℕ) {p : List Op × Journal Db}
      → roll_back j from ≡ ok p
      → SameLog j p.1
  unfolding roll_back
  roll_back-SameLog j from h = ground arith

  roll_back-entry :
      (j : Journal Db) (from : ℕ) {p : List Op × Journal Db} (i : ℕ) (v : Option Value)
      → roll_back j from ≡ ok p
      → apply_ops p.0 (Key.entry i) v ≡ v
  unfolding roll_back
  roll_back-entry j from i v h = ground arith

  fetch_or_die-eq-ok :
      (j : Journal Db) (i : ℕ) {e : RaftEntry} → fetch_or_die j i ≡ ok e → fetch j i ≡ some e
  unfolding fetch_or_die
  fetch_or_die-eq-ok j i h = ground arith

  cut : Journal Db → ℕ → Result (Journal Db × Bool)
  cut j from = do
    p ← roll_back j from
    j' ← commit_batch p.1 (delete_range from (j.log_size - from) ++ p.0) (some from) false
    e ← fetch_or_die j' (from - 1)
    ok (record j' { term_of_last_entry = e.term }, true)

  remove_guards :
      (j : Journal Db) (from : ℕ) {j' : Journal Db} {b : Bool}
      → remove_entries j from ≡ ok (j', b)
      → ((b ≡ false) × (j.log_size ≤ from) × (j' ≡ j))
        ⊎ ((from < j.log_size) × (cut j from ≡ ok (j', b)))
  unfolding remove_entries cut
  remove_guards j from h = ground arith

  cut-Cut :
      (j : Journal Db) (from : ℕ) {j' : Journal Db} {b : Bool}
      → from < j.log_size
      → cut j from ≡ ok (j', b)
      → (b ≡ true) × Cut j j' from
  unfolding cut fetch
  cut-Cut j from {j'} {b} shorter h =
      let (p, hp, rest) = >>=-eq-ok (roll_back j from) _ h in
      let ops = delete_range from (j.log_size - from) ++ p.0 in
      let (k, hk, last) = >>=-eq-ok (commit_batch p.1 ops (some from) false) _ rest in
      let (e, he, end) = >>=-eq-ok (fetch_or_die k (from - 1)) _ last in
      let (c, u, z) = commit_batch-Committed p.1 ops from false hk in
      finish p.0 p.1 k e (λ i v. roll_back-entry j from i v hp) (roll_back-SameLog j from hp) c u z
        (fetch_or_die-eq-ok k (from - 1) he) end
    where
      finish :
          (ops : List Op) (p k : Journal Db) (e : RaftEntry)
          → ((i : ℕ) (v : Option Value) → apply_ops ops (Key.entry i) v ≡ v)
          → SameLog j p
          → Committed p k (delete_range from (j.log_size - from) ++ ops)
          → p.commit_index < from
          → k.log_size ≡ from
          → fetch k (from - 1) ≡ some e
          → ◌≡◌ {A = Result (Journal Db × Bool)}
              (ok (record k { term_of_last_entry = e.term }, true))
              (ok (j', b))
          → (b ≡ true) × Cut j j' from
      finish ops p k e keep same c u z he end = (
        ground arith,
        record {
          uncommitted = ground arith;
          shorter = shorter;
          current_term = ground arith;
          voted_for = ground arith;
          log_size = ground arith;
          log_start = ground arith;
          commit_index = ground arith;
          last = (e, ground arith, ground arith);
          entries = λ i. ground (
            arith,
            c.entries i,
            keep i (
                apply_ops (delete_range from (j.log_size - from)) (Key.entry i)
                  (R.get p.db (Key.entry i))),
            delete_range-entry from (j.log_size - from) i (R.get p.db (Key.entry i)),
            apply_ops-append (delete_range from (j.log_size - from)) ops (Key.entry i)
                (R.get p.db (Key.entry i)),
          );
        },
      )

  -- A removal that does not throw finds nothing to remove, or cuts the log where it is told to.
  pub remove-cases :
      (j : Journal Db) (from : ℕ) {j' : Journal Db} {b : Bool}
      → remove_entries j from ≡ ok (j', b)
      → ((b ≡ false) × (j.log_size ≤ from) × (j' ≡ j)) ⊎ ((b ≡ true) × Cut j j' from)
  remove-cases j from h = elim (remove_guards j from h) [
    | inl kept ↦ inl kept
    | inr (shorter, done) ↦ inr (cut-Cut j from shorter done)
  ]

  -- `k` is `j` without the entries before `start`.
  pub record Trimmed (j k : Journal Db) (start : ℕ) : Type 0 where
    pub later : j.log_start < start
    pub committed : start ≤ j.commit_index
    pub current_term : k.current_term ≡ j.current_term
    pub voted_for : k.voted_for ≡ j.voted_for
    pub log_size : k.log_size ≡ j.log_size
    pub log_start : k.log_start ≡ start
    pub commit_index : k.commit_index ≡ j.commit_index
    pub last : k.term_of_last_entry ≡ j.term_of_last_entry
    pub entries :
        (i : ℕ) → fetch k i ≡ (if leb j.log_start i && ltb i start then none else fetch j i)

  pub trim-cases :
      (j : Journal Db) (start : ℕ) {j' : Journal Db}
      → trim_until j start ≡ ok j'
      → ((start ≤ j.log_start) × (j' ≡ j)) ⊎ Trimmed j j' start
  unfolding trim_until commit_batch fetch
  trim-cases j start {j'} h = elim (Bool-cases (leb start j.log_start)) [
    | inl e ↦ inl (ground arith)
    | inr e ↦ inr (record {
      later = ground arith;
      committed = ground arith;
      current_term = ground arith;
      voted_for = ground arith;
      log_size = ground arith;
      log_start = ground arith;
      commit_index = ground arith;
      last = ground arith;
      entries = λ i. ground (
        arith,
        R.get-write j.db (should_sync j.fsync_policy false)
            (delete_range j.log_start (start - j.log_start)
              ++ put Key.log_start (Value.int start) ∷ [])
            (Key.entry i),
        delete_range-entry j.log_start (start - j.log_start) i (R.get j.db (Key.entry i)),
        apply_ops-append (delete_range j.log_start (start - j.log_start))
            (put Key.log_start (Value.int start) ∷ []) (Key.entry i) (R.get j.db (Key.entry i)),
      );
    })
  ]
