-- ===== src/StateMachine/Refinement/Sets.antt =====
-- src/StateMachine.cc: sadd and smove, against the map of the set. The value of each element is "1".
use quarkdb.Base.{
  ℕ, ◌+◌, ◌^◌, ◌<◌, ◌≡◌, refl, Bool, true, false, not, Bytes, List, [], ◌∷◌, length, arith, ok,
}
use quarkdb.Storage.KeyType.{set}
use quarkdb.Storage.DescriptorAccess.{get_size}
use quarkdb.StateMachine.Database.{Rocks}
use quarkdb.StateMachine.StagingArea.{StagingArea}
use quarkdb.StateMachine.WriteOperation.{key_size}
use quarkdb.StateMachine.Status.{success, plus64, count_of}
use quarkdb.StateMachine.Sets.{mark, add_element, sadd_loop, sadd}
use quarkdb.StateMachine.FieldMap.{FieldMap, has, add, add_if, add_all, length-add, length-add_all}
use quarkdb.StateMachine.Fields.Calls.{
  open_operation, Holds, Leaves, Keeps-refl, Keeps-trans, field_exists-find, write_field-insert,
}
use quarkdb.StateMachine.Fields.Descriptors.{sized, positive, write_operation-sized}
use quarkdb.StateMachine.Refinement.{Represents, Becomes, finish}

module _ {Db Batch : Type 0} ⦃rocks : Rocks Db Batch⦄ where
  module _ {key : Bytes} {s : StagingArea Db Batch} {m : FieldMap} (h : Holds set s key m) (n : ℕ)
      (before : Bool) (e : Bytes) where
    added :
        (b : Bool)
        → (u : StagingArea Db Batch) × (add_element s (open_operation key (sized set n) before) b e
            ≡ ok u)
          × Leaves set key s (add_if b m e mark) u
    added true = (s, refl, record { holds = h; keeps = Keeps-refl set key s })
    added false = write_field-insert set key refl h (sized set n) refl before e mark

  sadd_loop-add_all :
      (key : Bytes) (before : Bool) (n : ℕ) (request : List Bytes) (s : StagingArea Db Batch)
      (m : FieldMap) (count : ℕ)
      → Holds set s key m
      → count + length request < 2 ^ 63
      → (u : StagingArea Db Batch) × (total : ℕ) × (sadd_loop s
            (open_operation key (sized set n) before)
            count
            request
          ≡ ok (u, total))
        × (total + length m ≡ count + length (add_all mark m request))
        × Leaves set key s (add_all mark m request) u
  sadd_loop-add_all key before n [] s m count h small =
      (s, count, refl, refl, record { holds = h; keeps = Keeps-refl set key s })
  sadd_loop-add_all key before n (e ∷ rest) s m count h small =
      let present = field_exists-find set key refl h (sized set n) refl before e in
      let (u, wrote, l) = added h n before e (has m e) in
      let next = plus64 count (count_of (not (has m e))) in
      let grows = length-add m e mark in
      let counts : next + length m ≡ count + length (add m e mark) = ground (arith, grows) in
      let bounded : next + length rest < 2 ^ 63 = ground (arith, small) in
      let (w, total, ran, size, k) =
        sadd_loop-add_all key before n rest u (add m e mark) next l.holds bounded in
      (
        w,
        total,
        rw (present, wrote) ran,
        omega (arith, size, counts),
        record { holds = k.holds; keeps = Keeps-trans l.keeps k.keeps },
      )

  -- On an area that represents a set, sadd returns success and the number of elements that are new, and
  -- leaves the set with the elements of the request; nothing else changes.
  pub sadd_refines :
      (s : StagingArea Db Batch) (key : Bytes) (request : List Bytes) (m : FieldMap)
      → Represents set s key m
      → length m + length request < 2 ^ 63
      → (w : StagingArea Db Batch) × (total : ℕ) × (sadd s key request ≡ ok (w, success, total))
        × (total + length m ≡ length (add_all mark m request))
        × Becomes set key s (add_all mark m request) w
  unfolding sadd key_size get_size
  sadd_refines s key request m r small =
      let n = length m in
      let start = write_operation-sized s key r.holds.transaction set refl n r.described in
      let (u, total, ran, size, l) =
        sadd_loop-add_all key (positive n) n request s m 0 r.holds (omega arith) in
      let (low, high) = length-add_all mark m request in
      let size_right : plus64 n total ≡ length (add_all mark m request) =
        ground (arith, size, low, high, small) in
      let (w, ended, b) =
        finish set refl refl (plus64 n total) r l (omega arith) (omega (arith, high)) size_right in
      (w, total, rw (start, ran, ended) refl, omega (arith, size), b)
