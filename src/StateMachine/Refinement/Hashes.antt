-- ===== src/StateMachine/Refinement/Hashes.antt =====
-- src/StateMachine.cc: the commands on hashes, against the map of the hash.
use quarkdb.Base.{
  ℕ, ◌+◌, ◌^◌, ◌<◌, ◌≡◌, refl, ◌∙◌, ap, Bool, true, false, not, Bytes, length, List, [], ◌∷◌, ◌%◌,
  ◌==◌, ==_iff, ◌≤◌, arith, ok,
}
use quarkdb.Storage.KeyType.{hash}
use quarkdb.Storage.DescriptorAccess.{get_size}
use quarkdb.StateMachine.Database.{Rocks}
use quarkdb.StateMachine.StagingArea.{StagingArea}
use quarkdb.StateMachine.WriteOperation.{key_size}
use quarkdb.StateMachine.Status.{success, plus64, count_of}
use quarkdb.StateMachine.Hashes.{hset, hsetnx, write_new, hmset, hmset_loop}
use quarkdb.StateMachine.FieldMap.{
  FieldMap, has, insert, insert_all, add, add_if, length-insert, length-add,
}
use quarkdb.StateMachine.Fields.Calls.{
  open_operation, Holds, Leaves, Keeps-refl, Keeps-trans, field_exists-find, write_field-insert,
}
use quarkdb.StateMachine.Fields.Descriptors.{sized, positive, write_operation-sized}
use quarkdb.StateMachine.Refinement.{Represents, Becomes, finish}

pub insert-size :
    (m : FieldMap) (f v : Bytes)
    → length m + 1 < 2 ^ 63
    → plus64 (length m) (count_of (not (has m f))) ≡ length (insert m f v)
insert-size m f v h = ground (arith, length-insert m f v)

insert_pairs-size : (m : FieldMap) (request : List Bytes) → length m ≤ length (insert_all m request)
insert_pairs-size m [] = omega arith
insert_pairs-size m (f ∷ []) = omega arith
insert_pairs-size m (f ∷ v ∷ rest) =
    ground (arith, insert_pairs-size (insert m f v) rest, length-insert m f v)

pub insert_pairs-bound :
    (m : FieldMap) (request : List Bytes)
    → length (insert_all m request) ≤ length m + length request
insert_pairs-bound m [] = omega arith
insert_pairs-bound m (f ∷ []) = omega arith
insert_pairs-bound m (f ∷ v ∷ rest) =
    ground (arith, insert_pairs-bound (insert m f v) rest, length-insert m f v)

-- The request is pairs of a field and a value.
abbrev pub IsPaired : List Bytes → Type 0
IsPaired [] = Unit {0}
IsPaired (f ∷ []) = ⊥
IsPaired (f ∷ v ∷ rest) = IsPaired rest

IsPaired-mod : (request : List Bytes) → IsPaired request → length request % 2 ≡ 0
IsPaired-mod [] p = refl
IsPaired-mod (f ∷ []) p = absurd p
IsPaired-mod (f ∷ v ∷ rest) p = omega (arith, IsPaired-mod rest p)

pub IsPaired-even : (request : List Bytes) → IsPaired request → (length request % 2 == 0) ≡ true
IsPaired-even request p = (==_iff (length request % 2) 0).1 (IsPaired-mod request p)

module _ {Db Batch : Type 0} ⦃rocks : Rocks Db Batch⦄ where
  -- On an area that represents a map, hset returns success and whether the field is new, and leaves the
  -- map with the field set; nothing else changes.
  pub hset_refines :
      (s : StagingArea Db Batch) (key f v : Bytes) (m : FieldMap)
      → Represents hash s key m
      → length m + 1 < 2 ^ 63
      → (w : StagingArea Db Batch) × (hset s key f v ≡ ok (w, success, not (has m f)))
        × Becomes hash key s (insert m f v) w
  unfolding hset key_size get_size
  hset_refines s key f v m r small =
      let n = length m in
      let start = write_operation-sized s key r.holds.transaction hash refl n r.described in
      let present = field_exists-find hash key refl r.holds (sized hash n) refl (positive n) f in
      let (u, wrote, l) =
        write_field-insert hash key refl r.holds (sized hash n) refl (positive n) f v in
      let (w, ended, b) =
        finish hash refl refl (plus64 n (count_of (not (has m f)))) r l (omega arith)
          (omega (arith, length-insert m f v)) (insert-size m f v small) in
      (w, rw (start, present, wrote, ended) refl, b)

  -- On an area that represents a map, hsetnx returns success and whether the field is new, and leaves the
  -- map with the field set if it was not there; nothing else changes.
  pub hsetnx_refines :
      (s : StagingArea Db Batch) (key f v : Bytes) (m : FieldMap)
      → Represents hash s key m
      → length m + 1 < 2 ^ 63
      → (w : StagingArea Db Batch) × (hsetnx s key f v ≡ ok (w, success, not (has m f)))
        × Becomes hash key s (add m f v) w
  unfolding hsetnx key_size get_size
  hsetnx_refines s key f v m r small =
      let n = length m in
      let start = write_operation-sized s key r.holds.transaction hash refl n r.described in
      let present = field_exists-find hash key refl r.holds (sized hash n) refl (positive n) f in
      let (u, wrote, l) = written (has m f) refl in
      let (w, ended, b) =
        finish hash refl refl (plus64 n (count_of (not (has m f)))) r l (omega arith)
          (ground (arith, length-add m f v)) (ground (arith, length-add m f v)) in
      (w, rw (start, present, wrote, ended) refl, b)
    where
      written :
          (b : Bool)
          → has m f ≡ b
          → (u : StagingArea Db Batch) × (write_new s
                (open_operation key (sized hash (length m)) (positive (length m)))
                b
                f
                v
              ≡ ok u)
            × Leaves hash key s (add_if b m f v) u
      written true e = (s, refl, record { holds = r.holds; keeps = Keeps-refl hash key s })
      written false e =
          write_field-insert hash key refl r.holds (sized hash (length m)) refl
            (positive (length m)) f v

  hmset_loop-insert_all :
      (key : Bytes) (before : Bool) (start : ℕ) (request : List Bytes) (s : StagingArea Db Batch)
      (m : FieldMap)
      → IsPaired request
      → Holds hash s key m
      → length m + length request < 2 ^ 63
      → (u : StagingArea Db Batch) × (hmset_loop s
            (open_operation key (sized hash start) before)
            (length m)
            request
          ≡ ok (u, length (insert_all m request)))
        × Leaves hash key s (insert_all m request) u
  hmset_loop-insert_all key before start [] s m p h small =
      (s, refl, record { holds = h; keeps = Keeps-refl hash key s })
  hmset_loop-insert_all key before start (f ∷ []) s m p h small = absurd p
  hmset_loop-insert_all key before start (f ∷ v ∷ rest) s m p h small =
      let present = field_exists-find hash key refl h (sized hash start) refl before f in
      let (u, wrote, l) = write_field-insert hash key refl h (sized hash start) refl before f v in
      let next = insert-size m f v (omega arith) in
      let (w, ran, k) =
        hmset_loop-insert_all key before start rest u (insert m f v) p l.holds
          (omega (arith, length-insert m f v)) in
      (
        w,
        rw (present, wrote)
            (ap (λ k. hmset_loop u (open_operation key (sized hash start) before) k rest) next
              ∙ ran),
        record { holds = k.holds; keeps = Keeps-trans l.keeps k.keeps },
      )

  -- On an area that represents a map, hmset of pairs of a field and a value returns success and leaves the
  -- map with the fields set in order; nothing else changes.
  pub hmset_refines :
      (s : StagingArea Db Batch) (key : Bytes) (request : List Bytes) (m : FieldMap)
      → Represents hash s key m
      → IsPaired request
      → length m + length request < 2 ^ 63
      → (w : StagingArea Db Batch) × (hmset s key request ≡ ok (w, success, tt))
        × Becomes hash key s (insert_all m request) w
  unfolding hmset key_size get_size
  hmset_refines s key request m r p small =
      let n = length m in
      let start = write_operation-sized s key r.holds.transaction hash refl n r.described in
      let (u, ran, l) = hmset_loop-insert_all key (positive n) n request s m p r.holds small in
      let (w, ended, b) =
        finish hash refl refl (length (insert_all m request)) r l (omega arith)
          (omega (arith, insert_pairs-bound m request)) refl in
      (w, rw (IsPaired-even request p, start, ran, ended) refl, b)
