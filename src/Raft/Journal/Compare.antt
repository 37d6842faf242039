-- ===== src/Raft/Journal/Compare.antt =====
-- src/raft/RaftJournal.cc: compareEntries, and the first entry that differs.
use quarkdb.Base.{
  ℕ, zero, suc, ◌+◌, ◌-◌, ◌≤◌, ◌<◌, ◌≡◌, refl, ◌≢◌, some, List, arith, ok, length, get_elem?,
  get_elem?-lt, min, max, Bool-cases, inl, inr,
}
use quarkdb.Raft.Types.{RaftEntry, entry_eq, entry_eq_iff}
use quarkdb.Raft.Store.{Rocks}
use quarkdb.Raft.Journal.{Journal, fetch, fetch_or_die}
use quarkdb.Raft.Journal.Log.{compare_loop, compare_entries}
use quarkdb.Raft.Journal.Valid.{IsValid}

module _ {Db : Type 0} ⦃R : Rocks Db⦄ where
  -- `r` is the first index from `i` on, and before `end`, at which the journal holds another entry
  -- than was sent, or else `end`.
  pub record FirstDifference (j : Journal Db) (start : ℕ) (entries : List RaftEntry) (i end r : ℕ)
      : Type 0 where
    pub from : i ≤ r
    pub to : r ≤ end
    pub same : (m : ℕ) → i ≤ m → m < r → fetch j m ≡ get_elem? entries (m - start)
    pub differs : r < end → fetch j r ≢ get_elem? entries (r - start)

  compare_loop-FirstDifference :
      (j : Journal Db) (start : ℕ) (entries : List RaftEntry) (end i rounds : ℕ)
      → i + rounds ≡ end
      → ((m : ℕ) → i ≤ m → m < end → (e : RaftEntry) × (fetch j m ≡ some e))
      → ((m : ℕ) → i ≤ m → m < end → (e : RaftEntry) × (get_elem? entries (m - start) ≡ some e))
      → (r : ℕ) × (compare_loop j start entries end i rounds ≡ ok r)
        × FirstDifference j start entries i end r
  unfolding compare_loop fetch_or_die
  compare_loop-FirstDifference j start entries end i zero e mine sent = (
    end,
    refl,
    record {
      from = omega arith;
      to = omega arith;
      same = λ m h l. absurd (omega arith);
      differs = λ h. absurd (omega arith);
    },
  )
  compare_loop-FirstDifference j start entries end i (suc rounds) e mine sent =
      let (x, hx) = mine i (omega arith) (omega arith) in
      let (y, hy) = sent i (omega arith) (omega arith) in
      let (r, hr, d) =
        compare_loop-FirstDifference j start entries end (i + 1) rounds (omega arith)
          (λ m h l. mine m (omega arith) l) (λ m h l. sent m (omega arith) l) in
      elim (Bool-cases (entry_eq y x)) [
        | inl q ↦ (
          r,
          ground (arith, hx, hy, q, hr),
          record {
            from = omega (arith, d.from);
            to = d.to;
            same = λ m h l. ground (arith, hx, hy, (entry_eq_iff y x).0 q, d.same m);
            differs = d.differs;
          },
        )
        | inr q ↦ (
          i,
          ground (arith, hx, hy, q),
          record {
            from = omega arith;
            to = omega arith;
            same = λ m h l. absurd (omega arith);
            differs = λ l p. ground (arith, hx, hy, entry_eq_iff y x, q);
          },
        )
      ]

  -- On a valid journal, and from a start within the log, compareEntries returns an index: the first one
  -- at which the journal holds another entry than was sent, or else the end of the log or of the
  -- entries, whichever comes first.
  pub compare_entries-FirstDifference :
      (j : Journal Db) (start : ℕ) (entries : List RaftEntry)
      → IsValid j
      → j.log_start ≤ start
      → start ≤ j.log_size
      → (r : ℕ) × (compare_entries j start entries ≡ ok r)
        × FirstDifference j start entries start (min j.log_size (start + length entries)) r
  unfolding compare_entries
  compare_entries-FirstDifference j start entries v h l =
      let end = min j.log_size (start + length entries) in
      let (r, hr, d) =
        compare_loop-FirstDifference j start entries end start (end - start) (omega arith)
          (λ m a b. v.present m (omega arith) (omega arith))
          (λ m a b. get_elem?-lt entries (m - start) (omega arith)) in
      let later : max start j.log_start ≡ start = omega arith in (r, ground (arith, later, hr), d)
