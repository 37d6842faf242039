-- ===== src/StateMachine/StagingArea.antt =====
-- src/storage/StagingArea.hh: the writes of a transaction over the database. The snapshot of a readonly
-- area is the database that the area holds.
use quarkdb.Base.{
  Bool, false, Option, none, is_some, [], ◌∷◌, Bytes, ◌==◌, if◌then◌else◌, Result, ok, ◌>>◌,
  throw_if, readonly_staging_area, deletion_in_bulk_load,
}
use quarkdb.StateMachine.Database.{Rocks}

pub record StagingArea (Db Batch : Type 0) : Type 0 where
  pub db : Db
  pub bulk_load : Bool
  pub read_only : Bool
  pub write_batch : Batch
  pub write_batch_with_index : Batch

-- `slice[0] == char(InternalKeyType::kDescriptor)`
abbrev pub is_descriptor_key : Bytes → Bool
is_descriptor_key [] = false
is_descriptor_key (c ∷ cs) = c == 33

module _ {Db Batch : Type 0} ⦃rocks : Rocks Db Batch⦄ where
  unfoldable pub new_area : Db → Bool → Bool → StagingArea Db Batch
  new_area d in_bulk_load only_reads = record {
    db = d;
    bulk_load = in_bulk_load;
    read_only = only_reads;
    write_batch = rocks.new_batch;
    write_batch_with_index = rocks.new_batch;
  }

  unfoldable pub get : StagingArea Db Batch → Bytes → Option Bytes
  get s slice =
      if s.bulk_load
      then none
      else if s.read_only
      then rocks.db_get s.db slice
      else rocks.get_from_batch_and_db s.write_batch_with_index s.db slice

  unfoldable pub exists : StagingArea Db Batch → Bytes → Bool
  unfolding get
  exists s slice = is_some (get s slice)

  unfoldable pub get_for_update : StagingArea Db Batch → Bytes → Result (Option Bytes)
  get_for_update s slice = do
    throw_if s.read_only readonly_staging_area
    ok (
        if s.bulk_load
        then none
        else rocks.get_from_batch_and_db s.write_batch_with_index s.db slice)

  unfoldable pub read_from_write_batch : StagingArea Db Batch → Bytes → Result (Option Bytes)
  read_from_write_batch s slice = do
    throw_if s.read_only readonly_staging_area
    ok (if s.bulk_load then none else rocks.get_from_batch s.write_batch_with_index slice)

  unfoldable pub put : StagingArea Db Batch → Bytes → Bytes → Result (StagingArea Db Batch)
  put s slice value = do
    throw_if s.read_only readonly_staging_area
    ok (
        if s.bulk_load
        then if is_descriptor_key slice
          then s
          else record s { write_batch = rocks.batch_put s.write_batch slice value }
        else record s {
          write_batch_with_index = rocks.batch_put s.write_batch_with_index slice value;
        })

  unfoldable pub del : StagingArea Db Batch → Bytes → Result (StagingArea Db Batch)
  del s slice = do
    throw_if s.read_only readonly_staging_area
    throw_if s.bulk_load deletion_in_bulk_load
    ok (record s { write_batch_with_index = rocks.batch_delete s.write_batch_with_index slice })

  unfoldable pub single_delete : StagingArea Db Batch → Bytes → Result (StagingArea Db Batch)
  single_delete s slice = do
    throw_if s.read_only readonly_staging_area
    throw_if s.bulk_load deletion_in_bulk_load
    ok (record s {
      write_batch_with_index = rocks.batch_single_delete s.write_batch_with_index slice;
    })
