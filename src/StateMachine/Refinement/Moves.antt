-- ===== src/StateMachine/Refinement/Moves.antt =====
-- src/StateMachine.cc: smove, between two sets and on one.
use quarkdb.Base.{
  ok, suc, ◌+◌, ◌^◌, ◌<◌, ◌≡◌, ◌≢◌, refl, ◌∙◌, sym, ap, Bool, true, false, is_some, none, some,
  Bytes, length, arith,
}
use mathlib.Core.Path.{subst}
use quarkdb.Storage.KeyType.{set}
use quarkdb.Storage.DescriptorAccess.{get_size}
use quarkdb.StateMachine.Database.{Rocks}
use quarkdb.StateMachine.StagingArea.{StagingArea}
use quarkdb.StateMachine.WriteOperation.{key_size}
use quarkdb.StateMachine.Status.{success, return_finalize, plus64, minus64, count_of}
use quarkdb.StateMachine.Sets.{mark, smove, move_into}
use quarkdb.StateMachine.FieldMap.{
  FieldMap, find, has, insert, erase, add, add_if, length-erase, length-insert, find-erase,
  bytes_eq_refl,
}
use quarkdb.StateMachine.Fields.Calls.{
  open_operation, Holds, field_exists-find, write_field-insert, delete_field-erase, Keeps-refl,
}
use quarkdb.StateMachine.Fields.Descriptors.{
  sized, positive, write_operation-sized, finalize-resize, Describes,
}
use quarkdb.StateMachine.Refinement.{Represents, Becomes, finish, Ends-Holds}
use quarkdb.StateMachine.Refinement.OtherKeys.{IsClosed, Becomes-other_key}

module _ {Db Batch : Type 0} ⦃rocks : Rocks Db Batch⦄ where
  module _ {s : StagingArea Db Batch} {key : Bytes} {m : FieldMap} (e : Bytes)
      (r : Represents set s key m) (small : length m + 1 < 2 ^ 63) where
    moved_into :
        (b : Bool)
        → has m e ≡ b
        → (w : StagingArea Db Batch) × (move_into s
              (open_operation key (sized set (length m)) (positive (length m)))
              e
              b
            ≡ ok w)
          × Becomes set key s (add_if b m e mark) w
    unfolding key_size get_size
    moved_into true present =
        finish set refl refl (length m) r (record { holds = r.holds; keeps = Keeps-refl set key s })
          (omega arith) (omega arith) refl
    moved_into false absent =
        let n = length m in
        let (u, wrote, l) =
          write_field-insert set key refl r.holds (sized set n) refl (positive n) e mark in
        let size = length-insert m e mark in
        let (w, ended, b) =
          finish set refl refl (plus64 n 1) r l (omega arith) (omega (arith, size))
            (ground (arith, size, absent, small)) in
        (w, rw (wrote, ended) refl, b)

  -- If the source and the destination are two sets, whose keys do not end with a bar, and the element is
  -- in the source, smove returns success and 1, takes the element out of the source, and leaves the
  -- destination with it.
  pub smove_refines :
      (s : StagingArea Db Batch) (source target e : Bytes) (m d : FieldMap)
      → Represents set s source m
      → Represents set s target d
      → IsClosed set source
      → IsClosed set target
      → source ≢ target
      → has m e ≡ true
      → length m < 2 ^ 63
      → length d + 1 < 2 ^ 63
      → (w : StagingArea Db Batch) × (smove s source target e ≡ ok (w, success, 1))
        × Represents set w source (erase m e)
        × Represents set w target (add d e mark)
  unfolding smove key_size get_size
  smove_refines s source target e m d r q closed closed' other present small room =
      let n = length m in
      let start = write_operation-sized s source r.holds.transaction set refl n r.described in
      let start' =
        write_operation-sized s target q.holds.transaction set refl (length d) q.described in
      let (u, deleted, l) =
        delete_field-erase set source refl r.holds (sized set n) refl (positive n) e in
      let there = deleted ∙ ap (λ b. ok (b, u)) present in
      let one = length-erase m e r.holds.distinct in
      let found : count_of (has m e) ≡ 1 = ap count_of present in
      let (v, ended, b) =
        finish set refl refl (minus64 n 1) r l small (omega (arith, one))
          (ground (arith, one, found, small)) in
      let q' =
        Becomes-other_key set set refl refl source target closed closed' other s v m (erase m e) d b
          q in
      let check =
        field_exists-find set target refl q'.holds (sized set (length d)) refl (positive (length d))
          e in
      let (w, moved, c) = moved_into e q' room (has d e) refl in
      (
        w,
        rw (start, start', there, ended, check, moved) refl,
        Becomes-other_key set set refl refl target source closed' closed (λ same. other (sym same))
            v w d (add d e mark) (erase m e) c b.represents,
        c.represents,
      )

  -- If the source is the destination, and the element is in the set, then smove returns success and 1, and
  -- leaves the set as large as it was, with a descriptor that counts one element more.
  pub smove_same_key :
      (s : StagingArea Db Batch) (key e : Bytes) (m : FieldMap)
      → Represents set s key m
      → has m e ≡ true
      → length m + 1 < 2 ^ 63
      → let after = insert (erase m e) e mark in
        (w : StagingArea Db Batch) × (smove s key key e ≡ ok (w, success, 1))
        × Holds set w key after
        × (length after ≡ length m)
        × Describes w key (some (sized set (length after + 1)))
  unfolding smove key_size get_size
  smove_same_key s key e m r present small =
      let n = length m in
      let start = write_operation-sized s key r.holds.transaction set refl n r.described in
      let (u, deleted, l) =
        delete_field-erase set key refl r.holds (sized set n) refl (positive n) e in
      let there = deleted ∙ ap (λ b. ok (b, u)) present in
      let one = length-erase m e r.holds.distinct in
      let found : count_of (has m e) ≡ 1 = ap count_of present in
      let (v, ended, b) =
        finish set refl refl (minus64 n 1) r l (omega (arith, small)) (omega (arith, one))
          (ground (arith, one, found, small)) in
      let check =
        field_exists-find set key refl b.represents.holds (sized set n) refl (positive n) e in
      let gone : find (erase m e) e ≡ none = find-erase m e e ∙ rw (bytes_eq_refl e) refl in
      let absent = check ∙ ap (λ o. ok (is_some o)) gone in
      let (x, wrote, k) =
        write_field-insert set key refl b.represents.holds (sized set n) refl (positive n) e mark in
      let (y, closed, f) =
        finalize-resize x key k.holds.transaction set refl n n (omega arith) (ground arith) in
      let size : length (insert (erase m e) e mark) ≡ n = omega (
        arith,
        length-insert (erase m e) e mark,
        ap (λ o. count_of (is_some o)) gone,
        one,
        found,
      ) in
      let one_more : plus64 n 1 ≡ suc n = ground (arith, small) in
      let last =
        ap (λ k. return_finalize x (open_operation key (sized set n) (positive n)) k false) one_more
        ∙ closed in
      (
        y,
        rw (start, start, there, ended, absent, wrote, last) refl,
        Ends-Holds set refl refl k.holds f,
        size,
        subst (λ k. Describes y key (some (sized set k))) (omega (arith, size)) f.described,
      )
