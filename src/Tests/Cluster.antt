-- ===== src/Tests/Cluster.antt =====
-- A cluster of three nodes, and a journal of two entries in a table.
use quarkdb.Base.{
  ℕ, false, Option, none, some, [], ◌∷◌, ◌==◌, if◌then◌else◌, codes, pos, arith, Bool-cases, inl,
  inr, Result, ok, thrown,
}
use quarkdb.Raft.Types.{RaftServer, RaftEntry, RaftStatus, follower, always, no_server}
use quarkdb.Raft.Store.{Table, table_rocks, Key, Value}
use quarkdb.Raft.Journal.{Journal, fetch}
use quarkdb.Raft.Journal.Valid.{IsValid}
use quarkdb.Raft.State.{RaftState}
use quarkdb.Raft.Dispatcher.{Node}

-- The value of a result that is known to be one.
abbrev pub value_of {ℓ} : {A : Type ℓ} → Result A → A → A
value_of (ok a) d = a
value_of (thrown e) d = d

abbrev pub node_a : RaftServer
node_a = record { hostname = codes "a"; port = pos 1 }

abbrev pub node_b : RaftServer
node_b = record { hostname = codes "b"; port = pos 2 }

abbrev pub node_c : RaftServer
node_c = record { hostname = codes "c"; port = pos 3 }

abbrev pub entry_of_term : ℕ → RaftEntry
entry_of_term t = record { term = t; request = codes "SET" ∷ codes "k" ∷ codes "v" ∷ [] }

abbrev two_entries : ℕ → Option Value
two_entries i =
    if i == 0
    then some (Value.log_entry (entry_of_term 0))
    else if i == 1
    then some (Value.log_entry (entry_of_term 1))
    else none

abbrev two_entries_table : Table
two_entries_table k = elim k [ Key.entry i ↦ two_entries i | _ ↦ none ]

abbrev pub journal : Journal Table
journal = record {
  db = two_entries_table;
  current_term = 1;
  voted_for = no_server;
  log_size = 2;
  log_start = 0;
  commit_index = 0;
  term_of_last_entry = 1;
  members = record { nodes = node_a ∷ node_b ∷ node_c ∷ []; observers = [] };
  membership_epoch = 0;
  cluster_id = codes "cluster";
  fsync_policy = always;
}

pub journal-IsValid : IsValid journal
unfolding fetch
journal-IsValid = record {
  start_le = omega arith;
  commit_lt = omega arith;
  present = λ i h l. elim (Bool-cases (i == 0)) [
    | inl e ↦ (entry_of_term 0, ground (arith, e))
    | inr e ↦ (entry_of_term 1, ground (arith, e))
  ];
  trimmed = λ i h. ground arith;
  beyond = λ i h. ground arith;
  last = λ e h. ground arith;
  last_le = omega arith;
  sorted = λ i k e f l he hf. ground arith;
}

-- Node a as a follower without a leader, in term 1.
abbrev pub state_of : RaftStatus → RaftServer → RaftState Table
state_of status vote = record {
  term = 1;
  status = status;
  leader = no_server;
  voted_for = vote;
  leadership_marker = pos 0;
  myself = node_a;
  current_snapshot = record {
    term = 1;
    status = status;
    leader = no_server;
    voted_for = vote;
    leadership_marker = pos 0;
  };
  journal = record journal { voted_for = vote };
}

abbrev pub node : Node Table
node = record {
  state = state_of follower no_server;
  last_applied = 0;
  tracker = record { last_heartbeat = 0; artificial_timeout = false; random_timeout = 100 };
  blocked_writes = [];
}
