-- ===== src/StateMachine/Refinement/Increments.antt =====
-- src/StateMachine.cc, hincrby: the sum of two signed 64-bit integers, through their bits.
use quarkdb.Base.{
  ◌+◌, ◌^◌, ◌<◌, ◌≡◌, refl, not, Option, none, some, ℤ, pos, negsuc, ◌+ℤ◌, FitsInt64, Bytes, length,
  arith, ok,
}
use mathlib.Core.Path.{subst}
use quarkdb.Raft.Parsing.{parse_int64, parse_int64-FitsInt64, decimal}
use quarkdb.Storage.KeyType.{hash}
use quarkdb.Storage.DescriptorAccess.{get_size}
use quarkdb.StateMachine.Database.{Rocks}
use quarkdb.StateMachine.StagingArea.{StagingArea}
use quarkdb.StateMachine.WriteOperation.{key_size}
use quarkdb.StateMachine.Status.{success, plus64, count_of}
use quarkdb.StateMachine.Hashes.{hincrby, value_of_field, to_bits, of_bits}
use quarkdb.StateMachine.FieldMap.{FieldMap, find, has, insert, length-insert}
use quarkdb.StateMachine.Fields.Calls.{get_field-find, write_field-insert}
use quarkdb.StateMachine.Fields.Descriptors.{sized, positive, write_operation-sized}
use quarkdb.StateMachine.Refinement.{Represents, Becomes, finish}
use quarkdb.StateMachine.Refinement.Hashes.{insert-size}

-- The sum of the bits, read as a signed integer, is the sum, if it fits.
of_bits-plus64 :
    (a b : ℤ)
    → FitsInt64 a
    → FitsInt64 b
    → FitsInt64 (a +ℤ b)
    → of_bits (plus64 (to_bits a) (to_bits b)) ≡ a +ℤ b
of_bits-plus64 (pos a) (pos b) f g h = ground arith
of_bits-plus64 (pos a) (negsuc b) f g h = ground arith
of_bits-plus64 (negsuc a) (pos b) f g h = ground arith
of_bits-plus64 (negsuc a) (negsuc b) f g h = ground arith

value_of_field-FitsInt64 : (v : Option Bytes) (i : ℤ) → value_of_field v ≡ some i → FitsInt64 i
value_of_field-FitsInt64 none i e = subst FitsInt64 (some-inj e) (omega arith)
  where
    some-inj : {a b : ℤ} → ◌≡◌ {A = Option ℤ} (some a) (some b) → a ≡ b
    some-inj p = cc
value_of_field-FitsInt64 (some v) i e = parse_int64-FitsInt64 v i e

module _ {Db Batch : Type 0} ⦃rocks : Rocks Db Batch⦄ where
  -- If the increment of hincrby and the value of the field, where a field that is not there counts as 0, are
  -- integers, and their sum fits in 64 bits, then hincrby returns success and the sum, without a wrap, and
  -- leaves the hash with the decimal text of the sum at the field; nothing else changes.
  pub hincrby_adds :
      (s : StagingArea Db Batch) (key f incrby : Bytes) (m : FieldMap) (old incr : ℤ)
      → Represents hash s key m
      → length m + 1 < 2 ^ 63
      → parse_int64 incrby ≡ some incr
      → value_of_field (find m f) ≡ some old
      → FitsInt64 (old +ℤ incr)
      → (w : StagingArea Db Batch) × (hincrby s key f incrby ≡ ok (w, success, old +ℤ incr))
        × Becomes hash key s (insert m f (decimal (old +ℤ incr))) w
  unfolding hincrby key_size get_size
  hincrby_adds s key f incrby m old incr r small parsed stored fits =
      let n = length m in
      let v = decimal (old +ℤ incr) in
      let start = write_operation-sized s key r.holds.transaction hash refl n r.described in
      let value = get_field-find hash key refl r.holds (sized hash n) refl (positive n) f in
      let sum =
        of_bits-plus64 old incr (value_of_field-FitsInt64 (find m f) old stored)
          (parse_int64-FitsInt64 incrby incr parsed) fits in
      let (u, wrote, l) =
        write_field-insert hash key refl r.holds (sized hash n) refl (positive n) f v in
      let (w, ended, b) =
        finish hash refl refl (plus64 n (count_of (not (has m f)))) r l (omega arith)
          (omega (arith, length-insert m f v)) (insert-size m f v small) in
      (w, rw (parsed, start, value, stored, sum, wrote, ended) refl, b)
