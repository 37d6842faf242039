-- ===== src/Raft/Journal.antt =====
-- src/raft/RaftJournal.cc: the log of raft entries with its counters, in memory and in the database.
-- Locks, condition variables, log messages and the sync thread are left out; each function is the
-- body that runs under its lock. Terms and indices are not negative, and do not reach 2^63.
pub mod Log
pub mod Frame
pub mod Removal
pub mod Valid
pub mod History
pub mod Compare
use quarkdb.Base.{
  ℕ, zero, suc, ◌+◌, ◌-◌, Bool, true, false, Option, none, some, List, [], ◌∷◌, ◌++◌, ltb, leb,
  ◌==◌, not, ◌&&◌, if◌then◌else◌, Bytes, codes, bytes_eq, pos, get_elem?, length, min, max, Result,
  ok, thrown, ◌>>=◌, ◌>>◌, throw_if, remove_committed, commit_missing_entry, trim_past_end,
  trim_uncommitted, missing_entry, missing_key, bad_membership_entry, cannot_parse_members,
  out_of_range,
}
use quarkdb.Raft.Types.{
  RaftServer, RaftEntry, FsyncPolicy, always, sync_important_updates, async, empty, entry_eq,
  no_server,
}
use quarkdb.Raft.Parsing.{decimal}
use quarkdb.Raft.Parsing
use quarkdb.Raft.Members
use quarkdb.Raft.Members.{
  RaftMembers, Update, updated, refused, epoch_not_committed, not_appended, add_observer,
  remove_member, promote_observer, demote_to_observer,
}
use quarkdb.Raft.Store
use quarkdb.Raft.Store.{Rocks, Key, Value, Op, put, delete}

pub record Journal (Db : Type 0) : Type 0 where
  pub db : Db
  pub current_term : ℕ
  pub voted_for : RaftServer
  pub log_size : ℕ
  pub log_start : ℕ
  pub commit_index : ℕ
  pub term_of_last_entry : ℕ
  pub members : RaftMembers
  pub membership_epoch : ℕ
  pub cluster_id : Bytes
  pub fsync_policy : FsyncPolicy

abbrev pub update_members : Bytes
update_members = codes "JOURNAL_UPDATE_MEMBERS"

abbrev pub leadership_marker : Bytes
leadership_marker = codes "JOURNAL_LEADERSHIP_MARKER"

-- shouldSync
abbrev pub should_sync : FsyncPolicy → Bool → Bool
should_sync always important = true
should_sync async important = false
should_sync sync_important_updates important = important

-- The deletions of `for(LogIndex i = from; i < from + count; i++)`.
abbrev pub delete_range : ℕ → ℕ → List Op
delete_range from zero = []
delete_range from (suc n) = delete (Key.entry from) ∷ delete_range (from + 1) n

abbrev pub entry_of : Option Value → Option RaftEntry
entry_of none = none
entry_of (some (Value.log_entry e)) = some e
entry_of (some (Value.int n)) = none
entry_of (some (Value.text t)) = none
entry_of (some (Value.server s)) = none
entry_of (some (Value.policy p)) = none

abbrev pub int_of : Option Value → Result ℕ
int_of none = thrown missing_key
int_of (some (Value.int n)) = ok n
int_of (some (Value.log_entry e)) = thrown missing_key
int_of (some (Value.text t)) = thrown missing_key
int_of (some (Value.server s)) = thrown missing_key
int_of (some (Value.policy p)) = thrown missing_key

abbrev pub text_of : Option Value → Result Bytes
text_of none = thrown missing_key
text_of (some (Value.text t)) = ok t
text_of (some (Value.int n)) = thrown missing_key
text_of (some (Value.log_entry e)) = thrown missing_key
text_of (some (Value.server s)) = thrown missing_key
text_of (some (Value.policy p)) = thrown missing_key

abbrev pub server_of : Option Value → Result RaftServer
server_of none = thrown missing_key
server_of (some (Value.server s)) = ok s
server_of (some (Value.text t)) = thrown missing_key
server_of (some (Value.int n)) = thrown missing_key
server_of (some (Value.log_entry e)) = thrown missing_key
server_of (some (Value.policy p)) = thrown missing_key

abbrev pub policy_of : Option Value → Result FsyncPolicy
policy_of none = thrown missing_key
policy_of (some (Value.policy p)) = ok p
policy_of (some (Value.text t)) = thrown missing_key
policy_of (some (Value.int n)) = thrown missing_key
policy_of (some (Value.log_entry e)) = thrown missing_key
policy_of (some (Value.server s)) = thrown missing_key

-- `RaftMembers(text)`
abbrev pub members_of : Option RaftMembers → Result RaftMembers
members_of none = thrown cannot_parse_members
members_of (some m) = ok m

-- The value, or the end of the process if there is none.
abbrev pub or_die : Option RaftEntry → Result RaftEntry
or_die none = thrown missing_entry
or_die (some e) = ok e

module _ {Db : Type 0} ⦃R : Rocks Db⦄ where
  unfoldable pub fetch : Journal Db → ℕ → Option RaftEntry
  fetch j i = entry_of (R.get j.db (Key.entry i))

  unfoldable pub fetch_or_die : Journal Db → ℕ → Result RaftEntry
  fetch_or_die j i = or_die (fetch j i)

  -- set_or_die, set_int_or_die
  abbrev pub set_or_die : Journal Db → Key → Value → Journal Db
  set_or_die j k v = record j { db = R.write j.db false (put k v ∷ []) }

  -- initialize, from the database and the vote that the object holds: an empty vote in the database leaves
  -- that one as it is.
  unfoldable pub initialize : RaftServer → Db → Result (Journal Db)
  initialize held d = do
    current_term ← int_of (R.get d Key.current_term)
    log_size ← int_of (R.get d Key.log_size)
    log_start ← int_of (R.get d Key.log_start)
    cluster_id ← text_of (R.get d Key.cluster_id)
    commit_index ← int_of (R.get d Key.commit_index)
    vote ← server_of (R.get d Key.voted_for)
    last ← or_die (entry_of (R.get d (Key.entry (log_size - 1))))
    membership_epoch ← int_of (R.get d Key.membership_epoch)
    text ← text_of (R.get d Key.members)
    members ← members_of (Members.parse text)
    policy ← policy_of (R.get d Key.fsync_policy)
    ok (record {
      db = d;
      current_term = current_term;
      voted_for = if empty vote then held else vote;
      log_size = log_size;
      log_start = log_start;
      commit_index = commit_index;
      term_of_last_entry = last.term;
      members = members;
      membership_epoch = membership_epoch;
      cluster_id = cluster_id;
      fsync_policy = policy;
    })

  -- obliterate
  unfoldable pub obliterate :
      RaftServer → Db → Bytes → List RaftServer → ℕ → FsyncPolicy → Result (Journal Db)
  obliterate held d cluster_id nodes start policy =
      let text = Members.to_string (record { nodes = nodes; observers = [] }) in
      let first : RaftEntry = record {
        term = 0;
        request = update_members ∷ text ∷ cluster_id ∷ [];
      } in
      let set = λ (d : Db) (k : Key) (v : Value). R.write d false (put k v ∷ []) in
      let d1 = set (R.delete_all d) Key.current_term (Value.int 0) in
      let d2 = set d1 Key.log_size (Value.int (start + 1)) in
      let d3 = set d2 Key.log_start (Value.int start) in
      let d4 = set d3 Key.cluster_id (Value.text cluster_id) in
      let d5 = set d4 Key.voted_for (Value.server no_server) in
      let d6 = set d5 Key.commit_index (Value.int start) in
      let d7 = set d6 Key.members (Value.text text) in
      let d8 = set d7 Key.membership_epoch (Value.int start) in
      let d9 = set d8 Key.fsync_policy (Value.policy policy) in
      initialize held (set d9 (Key.entry start) (Value.log_entry first))

  -- commitBatch; `none` is the index -1, which leaves the size of the log alone.
  unfoldable pub commit_batch : Journal Db → List Op → Option ℕ → Bool → Result (Journal Db)
  commit_batch j ops none important =
      ok (record j { db = R.write j.db (should_sync j.fsync_policy important) ops })
  commit_batch j ops (some index) important = do
    throw_if (leb index j.commit_index) remove_committed
    let batch = if index == j.log_size then ops else ops ++ put Key.log_size (Value.int index) ∷ []
    ok (record j {
      db = R.write j.db (should_sync j.fsync_policy important) batch;
      log_size = index;
    })

  unfoldable pub set_current_term : Journal Db → ℕ → RaftServer → Journal Db × Bool
  set_current_term j term vote =
      if ltb term j.current_term
      then (j, false)
      else if term == j.current_term && not (empty j.voted_for)
      then (j, false)
      else (
        record j {
          db =
              R.write j.db (should_sync j.fsync_policy true) (
                put Key.current_term (Value.int term) ∷ put Key.voted_for (Value.server vote) ∷ []);
          current_term = term;
          voted_for = vote;
        },
        true,
      )

  unfoldable pub raw_set_commit_index : Journal Db → ℕ → Journal Db
  raw_set_commit_index j n = record j {
    db = R.write j.db false (put Key.commit_index (Value.int n) ∷ []);
    commit_index = n;
  }

  unfoldable pub set_commit_index : Journal Db → ℕ → Result (Journal Db × Bool)
  set_commit_index j n =
      if ltb n j.commit_index
      then ok (j, false)
      else if leb j.log_size n
      then thrown commit_missing_entry
      else if ltb j.commit_index n
      then ok (raw_set_commit_index j n, true)
      else ok (j, true)
