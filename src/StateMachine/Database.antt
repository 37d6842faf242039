-- ===== src/StateMachine/Database.antt =====
-- RocksDB as the state machine uses it. The database is not part of this repository: it is an argument,
-- with documented laws. A lookup that goes through a batch meets the newest write of the key in the
-- batch, and otherwise the database; a batch takes effect as a whole. An I/O error is not modelled.
use quarkdb.Base.{◌≡◌, refl, Option, none, some, Bytes, bytes_eq, if◌then◌else◌, List, [], ◌∷◌}

pub record Rocks (Db Batch : Type 0) : Type 0 where
  -- DB::Get and DB::Write
  pub db_get : Db → Bytes → Option Bytes
  pub db_write : Db → Batch → Db
  -- WriteBatch and WriteBatchWithIndex
  pub new_batch : Batch
  pub batch_put : Batch → Bytes → Bytes → Batch
  pub batch_delete : Batch → Bytes → Batch
  -- SingleDelete, of a key that was put once.
  pub batch_single_delete : Batch → Bytes → Batch
  pub get_from_batch_and_db : Batch → Db → Bytes → Option Bytes
  pub get_from_batch : Batch → Bytes → Option Bytes
  pub through-new : (d : Db) (k : Bytes) → get_from_batch_and_db new_batch d k ≡ db_get d k
  pub through-put :
      (b : Batch) (d : Db) (j x k : Bytes)
      → get_from_batch_and_db (batch_put b j x) d k
        ≡ (if bytes_eq j k then some x else get_from_batch_and_db b d k)
  pub through-delete :
      (b : Batch) (d : Db) (j k : Bytes)
      → get_from_batch_and_db (batch_delete b j) d k
        ≡ (if bytes_eq j k then none else get_from_batch_and_db b d k)
  pub through-single_delete :
      (b : Batch) (d : Db) (j k : Bytes)
      → get_from_batch_and_db (batch_single_delete b j) d k
        ≡ (if bytes_eq j k then none else get_from_batch_and_db b d k)
  pub get-write :
      (d : Db) (b : Batch) (k : Bytes) → db_get (db_write d b) k ≡ get_from_batch_and_db b d k
  pub batch-new : (k : Bytes) → get_from_batch new_batch k ≡ none
  pub batch-put :
      (b : Batch) (j x k : Bytes)
      → get_from_batch (batch_put b j x) k ≡ (if bytes_eq j k then some x else get_from_batch b k)
  pub batch-delete :
      (b : Batch) (j k : Bytes)
      → get_from_batch (batch_delete b j) k ≡ (if bytes_eq j k then none else get_from_batch b k)

-- A database that meets the laws: a function from keys, and a batch of the writes, newest first.
pub data Write : Type 0 where
  put_key : Bytes → Bytes → Write
  delete_key : Bytes → Write

abbrev pub Table : Type 0
Table = Bytes → Option Bytes

abbrev pub through : List Write → Table → Bytes → Option Bytes
through [] d k = d k
through (put_key j x ∷ ws) d k = let rest = through ws d k in if bytes_eq j k then some x else rest
through (delete_key j ∷ ws) d k = let rest = through ws d k in if bytes_eq j k then none else rest

instance abbrev pub table_rocks : Rocks Table (List Write)
table_rocks = record {
  db_get = λ d k. d k;
  db_write = λ d ws k. through ws d k;
  new_batch = [];
  batch_put = λ ws k x. put_key k x ∷ ws;
  batch_delete = λ ws k. delete_key k ∷ ws;
  batch_single_delete = λ ws k. delete_key k ∷ ws;
  get_from_batch_and_db = through;
  get_from_batch = λ ws k. through ws (λ j. none) k;
  through-new = λ d k. refl;
  through-put = λ ws d j x k. refl;
  through-delete = λ ws d j k. refl;
  through-single_delete = λ ws d j k. refl;
  get-write = λ d ws k. refl;
  batch-new = λ k. refl;
  batch-put = λ ws j x k. refl;
  batch-delete = λ ws j k. refl;
}
