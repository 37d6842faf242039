-- ===== src/Raft/Dispatcher/Success.antt =====
-- What a follower's journal holds after an appendEntries that it reports as a success.
use quarkdb.Base.{
  ℕ, ◌+◌, ◌-◌, ◌≤◌, ◌<◌, ◌≡◌, refl, ◌⊎◌, inl, inr, Bool, true, false, some, arith, ok, Bool-cases,
  Option-cases, >>=-eq-ok, get_elem?, length, min, max, ◌∙◌, sym, ap,
}
use quarkdb.Raft.Types.{
  RaftServer, RaftEntry, RaftAppendEntriesRequest, RaftAppendEntriesResponse, RaftHeartbeatRequest,
}
use quarkdb.Raft.Store.{Rocks}
use quarkdb.Raft.Journal.{Journal, fetch, set_commit_index, raw_set_commit_index, set_current_term}
use quarkdb.Raft.Journal.Log.{match_entries}
use quarkdb.Raft.Journal.Valid.{IsValid}
use quarkdb.Raft.Journal.Compare.{compare_entries-FirstDifference}
use quarkdb.Raft.Journal.History.{
  Counted, Counted-IsValid, next, commits, journal_stays-IsValid, committed_entries_stay,
  set_commit-Counted,
}
use quarkdb.Raft.State.{RaftState, observed}
use quarkdb.Raft.Dispatcher.{
  Node, Heard, flush_queues, install, append_entries, take_entries, finish_append, heartbeat,
  take_heartbeat,
}
use quarkdb.Raft.Dispatcher.Replication.{Installed, install_from-Installed}

module _ {Db : Type 0} ⦃R : Rocks Db⦄ where
  observed-Counted :
      (s : RaftState Db) (t : ℕ) (l : RaftServer) → Counted s.journal (observed s t l).0.journal
  unfolding observed set_current_term fetch
  observed-Counted s t l = record {
    log_size = ground arith;
    log_start = ground arith;
    last = ground arith;
    commit_le = ground arith;
    commit_lt = λ c. ground arith;
    term_le = ground arith;
    entries = λ i. grind (arith, R.get-write);
  }

  observed-commit_index :
      (s : RaftState Db) (t : ℕ) (l : RaftServer)
      → (observed s t l).0.journal.commit_index ≡ s.journal.commit_index
  unfolding observed set_current_term
  observed-commit_index s t l = ground arith

  heartbeat-journal :
      (n : Node Db) (req : RaftHeartbeatRequest) (now : ℕ) {h : Heard Db}
      → heartbeat n req now ≡ ok h
      → h.node.state.journal ≡ (observed n.state req.term req.leader).0.journal
  unfolding heartbeat take_heartbeat
  heartbeat-journal n req now h = ground arith

  finish_append-success :
      (n m : Node Db) (term : ℕ) (req : RaftAppendEntriesRequest) (p : Journal Db × Bool)
      (r : RaftAppendEntriesResponse)
      → finish_append n term req p ≡ ok (m, r)
      → r.outcome ≡ true
      → (p.1 ≡ true)
        × (done : Bool) × (set_commit_index p.0 (min (p.0.log_size - 1) req.commit_index)
            ≡ ok (m.state.journal, done))
        × (r.log_size ≡ m.state.journal.log_size)
  unfolding finish_append
  finish_append-success n m term req (j, true) r e out =
      let (q, hq, rest) =
        >>=-eq-ok (set_commit_index j (min (j.log_size - 1) req.commit_index)) _ e in
      (refl, q.1, ground (arith, hq, rest), ground (arith, rest))
  finish_append-success n m term req (j, false) r e out = ground arith

  take_entries-success :
      (n m : Node Db) (term : ℕ) (req : RaftAppendEntriesRequest) (r : RaftAppendEntriesResponse)
      → take_entries n term req ≡ ok (m, r)
      → r.outcome ≡ true
      → (match_entries n.state.journal req.prev_index req.prev_term ≡ true)
        × (p : Journal Db × Bool) × (install n req ≡ ok p)
        × (finish_append n term req p ≡ ok (m, r))
  unfolding take_entries
  take_entries-success n m term req r e out =
      elim (Bool-cases (match_entries n.state.journal req.prev_index req.prev_term)) [
        | inr no_match ↦ ground (arith, no_match)
        | inl match ↦
            let (p, hp, rest) =
              >>=-eq-ok (install n req) (finish_append n term req) {last = (m, r)}
                (ground (arith, match)) in
            (match, p, hp, rest)
      ]

  append_entries-success :
      (n m : Node Db) (req : RaftAppendEntriesRequest) (now : ℕ) (r : RaftAppendEntriesResponse)
      → append_entries n req now ≡ ok (m, r)
      → r.outcome ≡ true
      → (h : Heard Db) × (heartbeat n (record { term = req.term; leader = req.leader }) now ≡ ok h)
        × (take_entries (flush_queues h.node) h.snapshot.term req ≡ ok (m, r))
  unfolding append_entries
  append_entries-success n m req now r e out =
      let (h, hh, rest) =
        >>=-eq-ok (heartbeat n (record { term = req.term; leader = req.leader }) now) _ e in
      elim (Bool-cases h.response.node_recognized_as_leader) [
        | inl leads ↦ (h, hh, ground (arith, leads, rest))
        | inr refuses ↦ ground (arith, refuses, rest)
      ]

  match_entries-true :
      (j : Journal Db) (i t : ℕ)
      → match_entries j i t ≡ true
      → (i < j.log_size) × (e : RaftEntry) × (fetch j i ≡ some e) × (e.term ≡ t)
  unfolding match_entries
  match_entries-true j i t h = elim (Option-cases (fetch j i)) [
    | inl n ↦ ground (arith, n)
    | inr (e, q) ↦ (ground (arith, q), e, q, ground (arith, q))
  ]

  set_commit-max :
      (j : Journal Db) (n : ℕ) {k : Journal Db} {b : Bool}
      → set_commit_index j n ≡ ok (k, b)
      → (k.commit_index ≡ max j.commit_index n) × (n < j.log_size ⊎ (n < j.commit_index))
  unfolding set_commit_index raw_set_commit_index
  set_commit-max j n h = ground arith

  -- What a success leaves in the journal of the follower.
  pub record Replicated (n m : Node Db) (req : RaftAppendEntriesRequest) : Type 0 where
    pub valid : IsValid m.state.journal
    -- The entry before the new ones is the one that the leader named.
    pub anchor :
        (e : RaftEntry) × (fetch m.state.journal req.prev_index ≡ some e) × (e.term ≡ req.prev_term)
    -- The entries that were sent are there.
    pub sent :
        (i : ℕ)
        → i < length req.entries
        → fetch m.state.journal (req.prev_index + 1 + i) ≡ get_elem? req.entries i
    -- Up to the anchor, and in all that was committed, nothing has changed.
    pub before : (i : ℕ) → i ≤ req.prev_index → fetch m.state.journal i ≡ fetch n.state.journal i
    pub committed :
        (i : ℕ)
        → i ≤ n.state.journal.commit_index
        → m.state.journal.log_start ≤ i
        → fetch m.state.journal i ≡ fetch n.state.journal i
    -- The commit index becomes the leader's as far as the log goes, unless it is higher already.
    pub commit_index :
        m.state.journal.commit_index
        ≡ max n.state.journal.commit_index (min (m.state.journal.log_size - 1) req.commit_index)

  install-Installed :
      (n : Node Db) (req : RaftAppendEntriesRequest) (k : Journal Db) (e : RaftEntry)
      → IsValid n.state.journal
      → req.prev_index < n.state.journal.log_size
      → fetch n.state.journal req.prev_index ≡ some e
      → install n req ≡ ok (k, true)
      → Installed n.state.journal req k
  unfolding install
  install-Installed n req k e v l q h =
      let start : n.state.journal.log_start ≤ req.prev_index + 1 =
        ground (arith, v.trimmed req.prev_index) in
      let (r, hr, d) =
        compare_entries-FirstDifference n.state.journal (req.prev_index + 1) req.entries v start
          (omega arith) in
      install_from-Installed n.state.journal req n.last_applied r k d l (ground (arith, hr))

  take_entries-Replicated :
      (n m : Node Db) (term : ℕ) (req : RaftAppendEntriesRequest) (r : RaftAppendEntriesResponse)
      → IsValid n.state.journal
      → take_entries n term req ≡ ok (m, r)
      → r.outcome ≡ true
      → Replicated n m req
  take_entries-Replicated n m term req r v h out =
      let (match, p, hp, rest) = take_entries-success n m term req r h out in
      let (l, e, q, t) = match_entries-true n.state.journal req.prev_index req.prev_term match in
      let (full, done, hc, _) = finish_append-success n m term req p r rest out in
      let i = install-Installed n req p.0 e v l q (ground (arith, hp, full)) in
      let c = set_commit-Counted p.0 (min (p.0.log_size - 1) req.commit_index) hc in
      let up = set_commit-max p.0 (min (p.0.log_size - 1) req.commit_index) hc in
      let all = next i.steps (commits (min (p.0.log_size - 1) req.commit_index) hc) in
      record {
        valid = journal_stays-IsValid all v;
        anchor = (e, c.entries req.prev_index ∙ i.before req.prev_index (omega arith) ∙ q, t);
        sent = λ x y. c.entries (req.prev_index + 1 + x) ∙ i.sent x y;
        before = λ x y. c.entries x ∙ i.before x y;
        committed = λ x y z. (committed_entries_stay x all v y z).0;
        commit_index =
            up.0
            ∙ ap (λ k. max k (min (p.0.log_size - 1) req.commit_index)) i.commit_index
            ∙ ap (λ k. max n.state.journal.commit_index (min (k - 1) req.commit_index))
                (sym c.log_size);
      }

  -- If appendEntries reports a success on a valid journal, then the journal is valid, holds the entry
  -- that the leader named and after it all the entries that were sent; what stood before them and what
  -- was committed is unchanged, and the commit index is the greater of what it was and the leader's commit
  -- index, where the leader's goes no further than the last entry of the log.
  pub success_replicates :
      (n m : Node Db) (req : RaftAppendEntriesRequest) (now : ℕ) (r : RaftAppendEntriesResponse)
      → IsValid n.state.journal
      → append_entries n req now ≡ ok (m, r)
      → r.outcome ≡ true
      → Replicated n m req
  unfolding flush_queues
  success_replicates n m req now r v e out =
      let (h, hh, rest) = append_entries-success n m req now r e out in
      let same = heartbeat-journal n (record { term = req.term; leader = req.leader }) now hh in
      let c = observed-Counted n.state req.term req.leader in
      let x =
        take_entries-Replicated (flush_queues h.node) m h.snapshot.term req r
          (rw same (Counted-IsValid n.state.journal _ c v)) rest out in
      record {
        valid = x.valid;
        anchor = x.anchor;
        sent = x.sent;
        before = λ i l. x.before i l ∙ (rw same (c.entries i));
        committed = λ i l s.
            x.committed i (rw same (rw (observed-commit_index n.state req.term req.leader) l)) s
            ∙ (rw same (c.entries i));
        commit_index =
            x.commit_index
            ∙ ap (λ k. max k (min (m.state.journal.log_size - 1) req.commit_index))
                (ap (λ (k : Journal Db). k.commit_index) same
                  ∙ observed-commit_index n.state req.term req.leader);
      }
