-- ===== src/Raft/Journal/Log.antt =====
-- src/raft/RaftJournal.cc: the operations on the entries of the log, and on the membership that they
-- carry. `contentMutex` is held during each.
use quarkdb.Base.{
  ℕ, zero, suc, ◌+◌, ◌-◌, Bool, true, false, none, some, List, [], ◌∷◌, ◌++◌, ltb, leb, ◌==◌, not,
  if◌then◌else◌, Bytes, bytes_eq, pos, get_elem?, length, min, max, Result, ok, thrown, ◌>>=◌, ◌>>◌,
  throw_if, remove_committed, trim_past_end, trim_uncommitted, bad_membership_entry, out_of_range,
}
use quarkdb.Raft.Types.{RaftServer, RaftEntry, entry_eq}
use quarkdb.Raft.Parsing.{decimal}
use quarkdb.Raft.Parsing
use quarkdb.Raft.Members
use quarkdb.Raft.Members.{
  RaftMembers, Update, updated, refused, epoch_not_committed, not_appended, add_observer,
  remove_member, promote_observer, demote_to_observer,
}
use quarkdb.Raft.Store.{Rocks, Key, Value, Op, put}
use quarkdb.Raft.Journal.{
  Journal, update_members, leadership_marker, delete_range, int_of, text_of, members_of, fetch,
  fetch_or_die, commit_batch, raw_set_commit_index,
}

module _ {Db : Type 0} ⦃R : Rocks Db⦄ where
  -- The membership update that an entry carries: what it adds to the batch, the journal with the new
  -- membership, and whether the write is important.
  membership_args : Journal Db → ℕ → List Bytes → Result (List Op × Journal Db × Bool)
  membership_args j index (text ∷ cluster ∷ []) =
      if bytes_eq cluster j.cluster_id
      then (do
        m ← members_of (Members.parse text)
        ok (
          put Key.members (Value.text text)
              ∷ put Key.membership_epoch (Value.int index)
              ∷ put Key.previous_members (Value.text (Members.to_string j.members))
              ∷ put Key.previous_membership_epoch (Value.int j.membership_epoch)
              ∷ [],
          record j { members = m; membership_epoch = index },
          true,
        ))
      else ok ([], j, true)
  membership_args j index _ = thrown bad_membership_entry

  unfoldable pub take_membership :
      Journal Db → ℕ → List Bytes → Bool → Result (List Op × Journal Db × Bool)
  unfolding membership_args
  take_membership j index [] important = thrown out_of_range
  take_membership j index (command ∷ args) important =
      if bytes_eq command update_members
      then membership_args j index args
      else ok ([], j, important)

  unfoldable pub append_no_lock : Journal Db → ℕ → RaftEntry → Bool → Result (Journal Db × Bool)
  append_no_lock j index entry important =
      if not (index == j.log_size)
      then ok (j, false)
      else if ltb j.current_term entry.term
      then ok (j, false)
      else if ltb entry.term j.term_of_last_entry
      then ok (j, false)
      else do
        p ← take_membership j index entry.request important
        j' ←
            commit_batch p.1 (p.0 ++ put (Key.entry index) (Value.log_entry entry) ∷ [])
              (some (index + 1)) p.2
        ok (record j' { term_of_last_entry = entry.term }, true)

  unfoldable pub append : Journal Db → ℕ → RaftEntry → Bool → Result (Journal Db × Bool)
  append = append_no_lock

  unfoldable pub append_leadership_marker :
      Journal Db → ℕ → ℕ → RaftServer → Result (Journal Db × Bool)
  append_leadership_marker j index term leader =
      append j index
        (record {
          term = term;
          request = leadership_marker ∷ decimal (pos term) ∷ Parsing.to_string leader ∷ [];
        })
        true

  -- The membership before the last update comes back if that update is among the removed entries.
  unfoldable pub roll_back : Journal Db → ℕ → Result (List Op × Journal Db)
  roll_back j from =
      if leb from j.membership_epoch
      then (do
        epoch ← int_of (R.get j.db Key.previous_membership_epoch)
        text ← text_of (R.get j.db Key.previous_members)
        m ← members_of (Members.parse text)
        ok (
          put Key.membership_epoch (Value.int epoch) ∷ put Key.members (Value.text text) ∷ [],
          record j { members = m; membership_epoch = epoch },
        ))
      else ok ([], j)

  unfoldable pub remove_entries : Journal Db → ℕ → Result (Journal Db × Bool)
  remove_entries j from = if leb j.log_size from then ok (j, false) else do
    throw_if (leb from j.commit_index) remove_committed
    p ← roll_back j from
    j' ← commit_batch p.1 (delete_range from (j.log_size - from) ++ p.0) (some from) false
    e ← fetch_or_die j' (from - 1)
    ok (record j' { term_of_last_entry = e.term }, true)

  unfoldable pub trim_until : Journal Db → ℕ → Result (Journal Db)
  trim_until j start = if leb start j.log_start then ok j else do
    throw_if (ltb j.log_size start) trim_past_end
    throw_if (ltb j.commit_index start) trim_uncommitted
    j' ←
        commit_batch j
          (delete_range j.log_start (start - j.log_start)
            ++ put Key.log_start (Value.int start) ∷ [])
          none false
    ok (record j' { log_start = start })

  -- The loop of compareEntries, from `i` for the given number of rounds up to `end_index`.
  unfoldable pub compare_loop : Journal Db → ℕ → List RaftEntry → ℕ → ℕ → ℕ → Result ℕ
  compare_loop j start entries end_index i zero = ok end_index
  compare_loop j start entries end_index i (suc rounds) = do
    e ← fetch_or_die j i
    elim (get_elem? entries (i - start)) [
      | none ↦ thrown out_of_range
      | some sent ↦
          if entry_eq sent e then compare_loop j start entries end_index (i + 1) rounds else ok i
    ]

  unfoldable pub compare_entries : Journal Db → ℕ → List RaftEntry → Result ℕ
  compare_entries j start entries =
      let end_index = min j.log_size (start + length entries) in
      let start_index = max start j.log_start in
      compare_loop j start entries end_index start_index (end_index - start_index)

  unfoldable pub match_entries : Journal Db → ℕ → ℕ → Bool
  match_entries j index term =
      if leb j.log_size index
      then false
      else elim (fetch j index) [ none ↦ false | some e ↦ e.term == term ]

  -- simulateDataLoss, which the tests use, of fewer entries than the log holds
  unfoldable pub simulate_data_loss : Journal Db → ℕ → Result (Journal Db × Bool)
  simulate_data_loss j count =
      let size = j.log_size - count in
      remove_entries (if leb size j.commit_index then raw_set_commit_index j (size - 1) else j) size

  -- membershipUpdate; a refusal of the append leaves the reason empty.
  unfoldable pub membership_update :
      Journal Db → ℕ → RaftMembers → Result (Journal Db × Update (Unit {0}))
  membership_update j term new_members =
      if ltb j.commit_index j.membership_epoch then ok (j, refused epoch_not_committed) else do
        p ←
            append_no_lock j j.log_size
              (record {
                term = term;
                request = update_members ∷ Members.to_string new_members ∷ j.cluster_id ∷ [];
              })
              true
        ok (p.0, if p.1 then updated tt else refused not_appended)

  -- addObserver, removeMember, promoteObserver and demoteToObserver: the change to the members, then
  -- the entry that announces it.
  change_members : Journal Db → ℕ → Update RaftMembers → Result (Journal Db × Update (Unit {0}))
  change_members j term (updated m) = membership_update j term m
  change_members j term (refused e) = ok (j, refused e)

  unfoldable pub journal_add_observer :
      Journal Db → ℕ → RaftServer → Result (Journal Db × Update (Unit {0}))
  unfolding change_members
  journal_add_observer j term s = change_members j term (add_observer j.members s)

  unfoldable pub journal_remove_member :
      Journal Db → ℕ → RaftServer → Result (Journal Db × Update (Unit {0}))
  unfolding change_members
  journal_remove_member j term s = change_members j term (remove_member j.members s)

  unfoldable pub journal_promote_observer :
      Journal Db → ℕ → RaftServer → Result (Journal Db × Update (Unit {0}))
  unfolding change_members
  journal_promote_observer j term s = change_members j term (promote_observer j.members s)

  unfoldable pub journal_demote_to_observer :
      Journal Db → ℕ → RaftServer → Result (Journal Db × Update (Unit {0}))
  unfolding change_members
  journal_demote_to_observer j term s = change_members j term (demote_to_observer j.members s)
