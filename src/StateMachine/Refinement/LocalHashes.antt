-- ===== src/StateMachine/Refinement/LocalHashes.antt =====
-- src/StateMachine.cc: lhset and lhget, against the hints and the values of a locality hash.
use quarkdb.Base.{
  ℕ, ◌+◌, ◌^◌, ◌<◌, ◌≡◌, refl, ◌∙◌, sym, ap, Bool, true, false, not, Option, none, some, is_some,
  Bytes, bytes_eq_iff, length, arith, ok, >>=-ok, inl, inr, Bool-cases, Option-cases,
}
use quarkdb.Storage.KeyType.{locality_hash}
use quarkdb.Storage.DescriptorAccess.{get_size}
use quarkdb.StateMachine.Database.{Rocks}
use quarkdb.StateMachine.StagingArea.{StagingArea, get}
use quarkdb.StateMachine.WriteOperation.{key_size}
use quarkdb.StateMachine.Status.{success, plus64, count_of, return_finalize}
use quarkdb.StateMachine.LocalityHashes.{lhset, lhset_internal}
use quarkdb.StateMachine.FieldMap.{FieldMap, find, has, insert, length-insert}
use quarkdb.StateMachine.Fields.{put-Changes}
use quarkdb.StateMachine.Fields.Descriptors.{
  counted, positive, Describes, write_operation-sized, return_finalize-sized,
}
use quarkdb.StateMachine.Refinement.{Describes-same}
use quarkdb.StateMachine.Refinement.LocalKeys.{
  IsNonempty, IsHint, data_key, index_key, descriptor-data, descriptor-index,
}
use quarkdb.StateMachine.Refinement.LocalFields.{under, HoldsLocal, Settles, settled}
use quarkdb.StateMachine.Refinement.LocalWrites.{
  local_operation, under-found, write-data, find-data, find-index, delete-data, both_written,
  Cleared-absent, Cleared-moved, settled-known,
}

module _ {Db Batch : Type 0} ⦃rocks : Rocks Db Batch⦄ where
  -- The area has the hints, the values, and a descriptor with their number.
  pub record IsLocal (s : StagingArea Db Batch) (key : Bytes) (hints values : FieldMap)
      : Type 0 where
    pub holds : HoldsLocal s key hints values
    pub described : Describes s key (counted locality_hash (length hints))

  module _ (key f : Bytes) (named : IsNonempty key) (some_field : IsNonempty f) (n : ℕ)
      (before : Bool) (h x : Bytes) (proper : IsHint h) (s : StagingArea Db Batch)
      (hints values : FieldMap) (holds : HoldsLocal s key hints values) where
    -- What lhsetInternal gives: the field set, and whether it is new.
    abbrev Sets : Bool → Type 0
    Sets b =
        (u : StagingArea Db Batch) × (lhset_internal s (local_operation key n before) f h x
          ≡ ok (u, b))
        × Settles key f h x proper s hints values u

    Sets-known :
        get s (data_key key h f) ≡ under (find hints f) h (find values f)
        → find hints f ≡ some h
        → is_some (get s (data_key key h f)) ≡ true
        → Sets false
    unfolding lhset_internal
    Sets-known stored e present =
        let (u, run, c) = put-Changes s (data_key key h f) x holds.transaction in
        let there = find-data key f named some_field n before s h proper.0 ∙ ap ok present in
        (
          u,
          >>=-ok _ there
              (>>=-ok _ (write-data key f named some_field n before s h x proper.0 ∙ run) refl),
          settled-known key f named some_field n before h x proper s hints values holds u e c,
        )

    Sets-new : find hints f ≡ none → is_some (get s (data_key key h f)) ≡ false → Sets true
    unfolding lhset_internal
    Sets-new e absent =
        let there = find-data key f named some_field n before s h proper.0 ∙ ap ok absent in
        let index = find-index key f named some_field n before s ∙ ap ok (holds.index f ∙ e) in
        let (u, run, c) =
          both_written key f named some_field n before h x proper s hints values holds s
            (Cleared-absent key f named some_field n before h x proper s hints values holds e) in
        (u, >>=-ok _ there (>>=-ok _ index (>>=-ok _ run refl)), c)

    Sets-moved :
        (g v : Bytes)
        → find hints f ≡ some g
        → find values f ≡ some v
        → is_some (get s (data_key key h f)) ≡ false
        → Sets false
    unfolding lhset_internal
    Sets-moved g v e value absent =
        let there = find-data key f named some_field n before s h proper.0 ∙ ap ok absent in
        let index = find-index key f named some_field n before s ∙ ap ok (holds.index f ∙ e) in
        let old = holds.proper f g e in
        let stored : get s (data_key key g f) ≡ some v =
          holds.data_of g f old ∙ rw (e, (bytes_eq_iff g g).1 refl) value in
        let (t, gone, a) =
          delete-data key f named some_field n before s g v old.0 holds.transaction stored in
        let (u, run, c) =
          both_written key f named some_field n before h x proper s hints values holds t (
            Cleared-moved key f named some_field n before h x proper s hints values holds g t old e
              a) in
        (u, >>=-ok _ there (>>=-ok _ index (>>=-ok _ gone (>>=-ok _ run refl))), c)

    sets : Sets (not (has hints f))
    sets = elim (Bool-cases (is_some (get s (data_key key h f)))) [
      | inl present ↦
          let stored = holds.data_of h f proper in
          let e =
            under-found (find hints f) h (find values f) (sym (ap is_some stored) ∙ present) in
          let fresh : not (has hints f) ≡ false = ap (λ o. not (is_some o)) e in
          rw fresh (Sets-known stored e present)
      | inr absent ↦ elim (Option-cases (find hints f)) [
        | inl e ↦
            let fresh : not (has hints f) ≡ true = ap (λ o. not (is_some o)) e in
            rw fresh (Sets-new e absent)
        | inr (g, e) ↦
            let fresh : not (has hints f) ≡ false = ap (λ o. not (is_some o)) e in
            rw fresh (value_of (find values f) refl g e absent)
      ]
    ]
      where
        unlike : ◌≡◌ {A = Bool} false true → ⊥
        unlike q = cc

        value_of :
            (o : Option Bytes)
            → find values f ≡ o
            → (g : Bytes) → find hints f ≡ some g
            → is_some (get s (data_key key h f)) ≡ false
            → Sets false
        value_of none v g e absent =
            absurd (unlike (sym (ap is_some v) ∙ holds.paired f ∙ ap is_some e))
        value_of (some v) value g e absent = Sets-moved g v e value absent

  -- On an area that represents a locality hash, lhset of a field and a hint that are not empty, where the
  -- hint does not end with a bar, returns success and whether the field is new, and leaves the field with
  -- the new value under the new hint, whatever hint it had before, and every other field as it was.
  pub lhset_refines :
      (s : StagingArea Db Batch) (key f h x : Bytes) (hints values : FieldMap)
      → IsNonempty key
      → IsNonempty f
      → IsHint h
      → IsLocal s key hints values
      → length hints + 1 < 2 ^ 63
      → (w : StagingArea Db Batch) × (lhset s key f h x ≡ ok (w, success, not (has hints f)))
        × IsLocal w key (insert hints f h) (insert values f x)
  unfolding lhset key_size get_size
  lhset_refines s key f h x hints values named some_field proper r small =
      let n = length hints in
      let start =
        write_operation-sized s key r.holds.transaction locality_hash refl n r.described in
      let (u, run, c) =
        sets key f named some_field n (positive n) h x proper s hints values r.holds in
      let described =
        Describes-same s u key (counted locality_hash n) (c.descriptors key) r.described in
      let grown = length-insert hints f h in
      let size : plus64 n (count_of (not (has hints f))) ≡ length (insert hints f h) =
        ground (arith, grown, small) in
      let (w, ended, e) =
        return_finalize-sized u key c.transaction locality_hash refl n (length (insert hints f h))
          (omega arith) (omega (arith, grown)) described in
      let last =
        ap (λ k. return_finalize u (local_operation key n (positive n)) k false) size ∙ ended in
      let after = settled key f h x proper r.holds c in
      (
        w,
        >>=-ok _ start (>>=-ok _ run (>>=-ok _ last refl)),
        record {
          holds = record {
            transaction = e.transaction;
            distinct = after.distinct;
            index = λ g. e.others (index_key key g) (descriptor-index key key g) ∙ after.index g;
            data_of = λ k g p.
                e.others (data_key key k g) (descriptor-data key key k g) ∙ after.data_of k g p;
            proper = after.proper;
            paired = after.paired;
          };
          described = e.described;
        },
      )
