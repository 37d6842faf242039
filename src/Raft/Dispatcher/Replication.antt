-- ===== src/Raft/Dispatcher/Replication.antt =====
-- What the entries of an appendEntries do to the journal, once the request has been accepted.
use quarkdb.Base.{
  ℕ, ◌+◌, ◌-◌, ◌≤◌, ◌<◌, ◌≡◌, refl, inl, inr, true, arith, ok, Bool-cases, >>=-eq-ok, get_elem?,
  get_elem?-drop, length-drop, ltb→lt, ap, length, drop, ltb, min, ◌>>=◌, ◌∙◌,
}
use quarkdb.Raft.Types.{RaftAppendEntriesRequest}
use quarkdb.Raft.Store.{Rocks}
use quarkdb.Raft.Journal.{Journal, fetch}
use quarkdb.Raft.Journal.Log.{remove_entries}
use quarkdb.Raft.Journal.Removal.{remove-cases}
use quarkdb.Raft.Journal.Compare.{FirstDifference}
use quarkdb.Raft.Journal.History.{Steps, Steps-trans, here, next, removes}
use quarkdb.Raft.Dispatcher.{append_each, install_from}
use quarkdb.Raft.Dispatcher.Appends.{append_each-Extended, append_each-Steps}

module _ {Db : Type 0} ⦃R : Rocks Db⦄ (j : Journal Db) (req : RaftAppendEntriesRequest) where
  -- `k` holds what was sent, right after the entry at `prev_index`.
  pub record Installed (k : Journal Db) : Type 0 where
    pub steps : Steps j k
    pub before : (i : ℕ) → i ≤ req.prev_index → fetch k i ≡ fetch j i
    pub sent :
        (i : ℕ)
        → i < length req.entries
        → fetch k (req.prev_index + 1 + i) ≡ get_elem? req.entries i
    pub commit_index : k.commit_index ≡ j.commit_index
    pub covers : req.prev_index + 1 + length req.entries ≤ k.log_size

  -- The entries that are found to be the same.
  same_before :
      (r i : ℕ)
      → FirstDifference j
          (req.prev_index + 1)
          req.entries
          (req.prev_index + 1)
          (min j.log_size (req.prev_index + 1 + length req.entries))
          r
      → req.prev_index + 1 + i < r
      → fetch j (req.prev_index + 1 + i) ≡ get_elem? req.entries i
  same_before r i d l =
      let back : req.prev_index + 1 + i - (req.prev_index + 1) ≡ i = omega arith in
      d.same (req.prev_index + 1 + i) (omega arith) l ∙ (rw back)

  replace_from :
      (r : ℕ) (q k : Journal Db)
      → FirstDifference j
          (req.prev_index + 1)
          req.entries
          (req.prev_index + 1)
          (min j.log_size (req.prev_index + 1 + length req.entries))
          r
      → Steps j q
      → q.log_size ≡ r
      → q.commit_index ≡ j.commit_index
      → ((i : ℕ) → i < r → fetch q i ≡ fetch j i)
      → append_each q
          (req.prev_index + 1 + (r - (req.prev_index + 1)))
          (drop (r - (req.prev_index + 1)) req.entries)
        ≡ ok (k, true)
      → Installed k
  replace_from r q k d st size same_commit kept h =
      let from = r - (req.prev_index + 1) in
      let x =
        append_each-Extended q (req.prev_index + 1 + from) (drop from req.entries)
          (omega (arith, d.from)) h in
      record {
        steps =
            Steps-trans st
              (append_each-Steps q (req.prev_index + 1 + from) (drop from req.entries) h);
        before = λ i l. x.before i (omega (arith, d.from)) ∙ kept i (omega (arith, d.from));
        sent = λ i l. elim (Bool-cases (ltb (req.prev_index + 1 + i) r)) [
          | inl old ↦
              let lt = ltb→lt _ _ old in
              x.before (req.prev_index + 1 + i) (omega arith)
              ∙ kept (req.prev_index + 1 + i) lt
              ∙ same_before r i d lt
          | inr new ↦
              let ge : r ≤ req.prev_index + 1 + i = ground (arith, new) in
              let m = req.prev_index + 1 + i - r in
              let at : req.prev_index + 1 + i ≡ q.log_size + m = omega arith in
              let back : from + m ≡ i = omega (arith, d.from) in
              ap (fetch k) at
              ∙ x.added m (omega (arith, length-drop from req.entries, d.from))
              ∙ get_elem?-drop from m req.entries
              ∙ ap (get_elem? req.entries) back
        ];
        commit_index = x.commit_index ∙ same_commit;
        covers = omega (arith, x.log_size, length-drop from req.entries, d.from, d.to);
      }

  replaced :
      (last_applied r : ℕ) (k : Journal Db)
      → ltb (r - (req.prev_index + 1)) (length req.entries) ≡ true
      → install_from j last_applied req r ≡ ok (k, true)
      → (remove_entries j r >>= λ p.
          append_each p.0
            (req.prev_index + 1 + (r - (req.prev_index + 1)))
            (drop (r - (req.prev_index + 1)) req.entries))
        ≡ ok (k, true)
  unfolding install_from
  replaced last_applied r k some_new h = ground (arith, some_new)

  pub install_from-Installed :
      (last_applied r : ℕ) (k : Journal Db)
      → FirstDifference j
          (req.prev_index + 1)
          req.entries
          (req.prev_index + 1)
          (min j.log_size (req.prev_index + 1 + length req.entries))
          r
      → req.prev_index < j.log_size
      → install_from j last_applied req r ≡ ok (k, true)
      → Installed k
  unfolding install_from
  install_from-Installed last_applied r k d l h =
      elim (Bool-cases (ltb (r - (req.prev_index + 1)) (length req.entries))) [
        | inr all_here ↦
            let same : k ≡ j = ground (arith, all_here) in
            rw same (record {
              steps = here;
              before = λ i m. refl;
              sent = λ i m. same_before r i d (ground (arith, all_here, d.from, d.to));
              commit_index = refl;
              covers = ground (arith, all_here, d.from, d.to);
            })
        | inl some_new ↦
            let (p, hp, rest) =
              >>=-eq-ok (remove_entries j r) _ (replaced last_applied r k some_new h) in
            elim (remove-cases j r hp) [
              | inl (_, short, same) ↦
                  replace_from r p.0 k d (rw same here) (ground (arith, same, d.to)) (rw same refl)
                    (λ i m. rw same refl) rest
              | inr (_, c) ↦
                  replace_from r p.0 k d (next here (removes r hp)) c.log_size c.commit_index
                    (λ i m. ground (arith, c.entries i)) rest
            ]
      ]
