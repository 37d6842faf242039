-- ===== src/Raft/Store.antt =====
-- RocksDB as the journal uses it. The database is not part of this repository: it is an argument,
-- with two documented laws: a batch of writes takes effect in order and as a whole, and an iterator
-- meets every key. Keys and
-- values are kept decoded. An I/O error of the database is not modelled.
use quarkdb.Base.{
  ℕ, ◌+◌, ◌≡◌, refl, Bool, Option, none, some, List, [], ◌∷◌, ◌++◌, ◌==◌, Bytes, if◌then◌else◌,
}
use quarkdb.Raft.Types.{RaftServer, RaftEntry, FsyncPolicy}

-- src/storage/KeyConstants.hh, and `encodeEntryKey`.
pub data Key : Type 0 where
  current_term log_size log_start cluster_id voted_for commit_index members membership_epoch
        previous_members previous_membership_epoch fsync_policy :
      Key
  entry : ℕ → Key

abbrev pub key_code : Key → ℕ
key_code current_term = 0
key_code log_size = 1
key_code log_start = 2
key_code cluster_id = 3
key_code voted_for = 4
key_code commit_index = 5
key_code members = 6
key_code membership_epoch = 7
key_code previous_members = 8
key_code previous_membership_epoch = 9
key_code fsync_policy = 10
key_code (entry i) = i + 11

abbrev pub key_eq : Key → Key → Bool
key_eq a b = key_code a == key_code b

pub data Value : Type 0 where
  int : ℕ → Value
  text : Bytes → Value
  server : RaftServer → Value
  policy : FsyncPolicy → Value
  log_entry : RaftEntry → Value

-- An operation of a rocksdb::WriteBatch.
pub data Op : Type 0 where
  put : Key → Value → Op
  delete : Key → Op

-- What a key holds after the operations, if it held `v` before.
abbrev pub apply_op : Op → Key → Option Value → Option Value
apply_op (put j x) k v = if key_eq j k then some x else v
apply_op (delete j) k v = if key_eq j k then none else v

abbrev pub apply_ops : List Op → Key → Option Value → Option Value
apply_ops [] k v = v
apply_ops (o ∷ os) k v = apply_ops os k (apply_op o k v)

pub apply_ops-append :
    (xs ys : List Op) (k : Key) (v : Option Value)
    → apply_ops (xs ++ ys) k v ≡ apply_ops ys k (apply_ops xs k v)
apply_ops-append [] ys k v = refl
apply_ops-append (x ∷ xs) ys k v = apply_ops-append xs ys k (apply_op x k v)

pub record Rocks (Db : Type 0) : Type 0 where
  pub get : Db → Key → Option Value
  -- The flag is WriteOptions::sync.
  pub write : Db → Bool → List Op → Db
  -- An iterator's pass over the whole database that deletes each key it meets.
  pub delete_all : Db → Db
  pub get-write :
      (d : Db) (sync : Bool) (ops : List Op) (k : Key)
      → get (write d sync ops) k ≡ apply_ops ops k (get d k)
  pub get-delete_all : (d : Db) (k : Key) → get (delete_all d) k ≡ none

-- A database that meets the law: a function from keys.
abbrev pub Table : Type 0
Table = Key → Option Value

instance abbrev pub table_rocks : Rocks Table
table_rocks = record {
  get = λ d k. d k;
  write = λ d sync ops k. apply_ops ops k (d k);
  delete_all = λ d k. none;
  get-write = λ d sync ops k. refl;
  get-delete_all = λ d k. refl;
}
