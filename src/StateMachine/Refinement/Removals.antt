-- ===== src/StateMachine/Refinement/Removals.antt =====
-- src/StateMachine.cc: hdel and srem, against the map of the hash or set.
use quarkdb.Base.{
  ℕ, ◌+◌, ◌^◌, ◌<◌, ◌≡◌, refl, ◌∙◌, Bool, true, Bytes, List, [], ◌∷◌, length, arith, ok,
}
use quarkdb.Storage.KeyType.{KeyType, hash, set}
use quarkdb.Storage.KeyDescriptor.{KeyDescriptor}
use quarkdb.Storage.DescriptorAccess.{get_size}
use quarkdb.StateMachine.Database.{Rocks}
use quarkdb.StateMachine.StagingArea.{StagingArea}
use quarkdb.StateMachine.WriteOperation.{key_size, takes_field}
use quarkdb.StateMachine.Status.{success, with_operation, plus64, minus64, count_of}
use quarkdb.StateMachine.Removal.{delete_loop, remove_with, hdel, srem}
use quarkdb.StateMachine.FieldMap.{FieldMap, has, erase, erase_all, length-erase}
use quarkdb.StateMachine.Fields.Calls.{
  open_operation, Holds, Leaves, Keeps-refl, Keeps-trans, delete_field-erase,
}
use quarkdb.StateMachine.Fields.Descriptors.{
  sized, positive, IsSized, IsSized-facts, write_operation-sized,
}
use quarkdb.StateMachine.Refinement.{Represents, Becomes, finish}

module _ {Db Batch : Type 0} ⦃rocks : Rocks Db Batch⦄ where
  module _ (t : KeyType) (takes : takes_field t ≡ true) where
    -- The loop erases the fields, and counts how many there were.
    delete_loop-erase_all :
        (key : Bytes) (info : KeyDescriptor) (before : Bool) (fs : List Bytes)
        (s : StagingArea Db Batch) (m : FieldMap) (removed : ℕ)
        → info.key_type ≡ t
        → Holds t s key m
        → removed + length m < 2 ^ 63
        → (u : StagingArea Db Batch) × (total : ℕ) × (delete_loop s
              (open_operation key info before)
              removed
              fs
            ≡ ok (u, total))
          × (total + length (erase_all m fs) ≡ removed + length m)
          × Leaves t key s (erase_all m fs) u
    delete_loop-erase_all key info before [] s m removed typed h small =
        (s, removed, refl, refl, record { holds = h; keeps = Keeps-refl t key s })
    delete_loop-erase_all key info before (f ∷ fs) s m removed typed h small =
        let (u, run, l) = delete_field-erase t key takes h info typed before f in
        let next = plus64 removed (count_of (has m f)) in
        let shorter = length-erase m f h.distinct in
        let counts : next + length (erase m f) ≡ removed + length m = ground (arith, shorter) in
        let (w, total, rest, size, k) =
          delete_loop-erase_all key info before fs u (erase m f) next typed l.holds
            (omega (arith, counts)) in
        (
          w,
          total,
          rw run rest,
          size ∙ counts,
          record { holds = k.holds; keeps = Keeps-trans l.keeps k.keeps },
        )

    removal-refines :
        IsSized t
        → (s : StagingArea Db Batch) (key : Bytes) (fs : List Bytes) (m : FieldMap)
        → Represents t s key m
        → length m < 2 ^ 63
        → (w : StagingArea Db Batch) × (removed : ℕ) × (with_operation s key t 0 (remove_with s fs)
            ≡ ok (w, success, removed))
          × (removed + length (erase_all m fs) ≡ length m)
          × Becomes t key s (erase_all m fs) w
    unfolding key_size get_size
    removal-refines is_sized s key fs m r small =
        let n = length m in
        let start = write_operation-sized s key r.holds.transaction t is_sized n r.described in
        let (u, removed, ran, size, l) =
          delete_loop-erase_all key (sized t n) (positive n) fs s m 0 refl r.holds (omega arith) in
        let count : removed + length (erase_all m fs) ≡ n = omega (arith, size) in
        let left : minus64 n removed ≡ length (erase_all m fs) = ground (arith, count, small) in
        let (w, ended, b) =
          finish t takes is_sized (minus64 n removed) r l small (omega (arith, count)) left in
        let real = (IsSized-facts t is_sized).0.0 in
        (w, removed, rw (start, ran, real, ended) refl, count, b)

  -- On an area that represents the fields of a hash, hdel returns success and the number of fields that it
  -- found, and leaves the hash without the fields of the request; nothing else changes.
  pub hdel_refines :
      (s : StagingArea Db Batch) (key : Bytes) (fs : List Bytes) (m : FieldMap)
      → Represents hash s key m
      → length m < 2 ^ 63
      → (w : StagingArea Db Batch) × (removed : ℕ) × (hdel s key fs ≡ ok (w, success, removed))
        × (removed + length (erase_all m fs) ≡ length m)
        × Becomes hash key s (erase_all m fs) w
  unfolding hdel
  hdel_refines = removal-refines hash refl refl

  -- On an area that represents a set, srem returns success and the number of elements that it found, and
  -- leaves the set without the elements of the request; nothing else changes.
  pub srem_refines :
      (s : StagingArea Db Batch) (key : Bytes) (fs : List Bytes) (m : FieldMap)
      → Represents set s key m
      → length m < 2 ^ 63
      → (w : StagingArea Db Batch) × (removed : ℕ) × (srem s key fs ≡ ok (w, success, removed))
        × (removed + length (erase_all m fs) ≡ length m)
        × Becomes set key s (erase_all m fs) w
  unfolding srem
  srem_refines = removal-refines set refl refl
