-- ===== src/StateMachine/Refinement/LocalWrites.antt =====
-- src/StateMachine.cc, lhsetInternal: how a field is set under a new hint.
use quarkdb.Base.{
  ℕ, ◌≡◌, refl, ◌∙◌, sym, ap, Bool, true, false, ◌&&◌, Option, none, some, is_some, Bytes, bytes_eq,
  bytes_eq_iff, if◌then◌else◌, arith, ok, >>=-ok, inl, inr, Bool-cases,
}
use quarkdb.Storage.KeyType.{locality_hash}
use quarkdb.Storage.Locators.{descriptor_locator}
use quarkdb.StateMachine.Database.{Rocks}
use quarkdb.StateMachine.StagingArea.{StagingArea, get, exists, put}
use quarkdb.StateMachine.WriteOperation.{WriteOperation, assert_writable}
use quarkdb.StateMachine.LocalityHashes.{
  get_locality_index, write_locality_field, write_locality_index, locality_field_exists,
  delete_locality_field, write_both,
}
use quarkdb.StateMachine.FieldMap.{FieldMap, find}
use quarkdb.StateMachine.Fields.{IsTransaction, Changes, put-Changes, del-Changes}
use quarkdb.StateMachine.Fields.Calls.{open_operation}
use quarkdb.StateMachine.Fields.Descriptors.{sized}
use quarkdb.StateMachine.Refinement.LocalKeys.{
  IsNonempty, IsHint, data_key, index_key, locality_field_locator-ok, locality_index_locator-ok,
  data-data, index-index, data-index, index-data, data-descriptor, index-descriptor,
}
use quarkdb.StateMachine.Refinement.LocalFields.{under, HoldsLocal, Settles}

pub under-found :
    (o : Option Bytes) (h : Bytes) (v : Option Bytes) → is_some (under o h v) ≡ true → o ≡ some h
under-found none h v e = cc
under-found (some g) h v e = ground (arith, bytes_eq_iff g h)

abbrev pub local_operation : Bytes → ℕ → Bool → WriteOperation
local_operation key n before = open_operation key (sized locality_hash n) before

module _ {Db Batch : Type 0} ⦃rocks : Rocks Db Batch⦄ where
  module _ (key f : Bytes) (named : IsNonempty key) (some_field : IsNonempty f) (n : ℕ)
      (before : Bool) where
    module _ (s : StagingArea Db Batch) where
      pub write-data :
          (h x : Bytes)
          → IsNonempty h
          → write_locality_field s (local_operation key n before) h f x ≡ put s (data_key key h f) x
      unfolding write_locality_field assert_writable
      write-data h x p = rw (locality_field_locator-ok key h f named p) refl

      write-index :
          (h : Bytes)
          → write_locality_index s (local_operation key n before) f h ≡ put s (index_key key f) h
      unfolding write_locality_index assert_writable
      write-index h = rw (locality_index_locator-ok key f named some_field) refl

      pub find-data :
          (h : Bytes)
          → IsNonempty h
          → locality_field_exists s (local_operation key n before) h f
            ≡ ok (is_some (get s (data_key key h f)))
      unfolding locality_field_exists assert_writable exists
      find-data h p = rw (locality_field_locator-ok key h f named p) refl

      pub find-index :
          get_locality_index s (local_operation key n before) f ≡ ok (get s (index_key key f))
      unfolding get_locality_index assert_writable
      find-index = rw (locality_index_locator-ok key f named some_field) refl

      pub delete-data :
          (h v : Bytes)
          → IsNonempty h
          → IsTransaction s
          → get s (data_key key h f) ≡ some v
          → (u : StagingArea Db Batch) × (delete_locality_field s (local_operation key n before) h f
              ≡ ok (true, u))
            × Changes s (data_key key h f) none u
      unfolding delete_locality_field assert_writable
      delete-data h v p t e =
          let (u, run, c) = del-Changes s (data_key key h f) t in
          (u, rw (locality_field_locator-ok key h f named p, e, run) refl, c)

    module _ (h x : Bytes) (proper : IsHint h) (s : StagingArea Db Batch) (hints values : FieldMap)
        (holds : HoldsLocal s key hints values) where
      -- The field has no data, and the rest is as it was.
      pub record Cleared (u : StagingArea Db Batch) : Type 0 where
        transaction : IsTransaction u
        index : (g : Bytes) → get u (index_key key g) ≡ find hints g
        data_of :
            (k g : Bytes)
            → IsHint k
            → get u (data_key key k g)
              ≡ (if bytes_eq f g then none else under (find hints g) k (find values g))
        descriptors : (k : Bytes) → get u (descriptor_locator k) ≡ get s (descriptor_locator k)

      pub both_written :
          (u : StagingArea Db Batch)
          → Cleared u
          → (w : StagingArea Db Batch) × (write_both u (local_operation key n before) f h x ≡ ok w)
            × Settles key f h x proper s hints values w
      both_written u c =
          let (v, first, a) = put-Changes u (data_key key h f) x c.transaction in
          let (w, second, b) = put-Changes v (index_key key f) h a.transaction in
          (
            w,
            >>=-ok _ (write-data u h x proper.0 ∙ first) (write-index v h ∙ second),
            record {
              transaction = b.transaction;
              index = λ g.
                  b.reads (index_key key g)
                  ∙ rw
                      (
                        index-index key f g,
                        a.reads (index_key key g),
                        data-index key h f g,
                        c.index g,
                      )
                      refl;
              data_of = λ k g p.
                  b.reads (data_key key k g)
                  ∙ rw
                      (
                        index-data key k g f,
                        a.reads (data_key key k g),
                        data-data key h k f g proper p,
                        c.data_of k g p,
                      )
                      (merged (bytes_eq h k) (bytes_eq f g)
                        (under (find hints g) k (find values g)));
              descriptors = λ k.
                  b.reads (descriptor_locator k)
                  ∙ rw
                      (
                        index-descriptor k key f,
                        a.reads (descriptor_locator k),
                        data-descriptor k key h f,
                      )
                      (c.descriptors k);
            },
          )
        where
          merged :
              (a b : Bool) (o : Option Bytes)
              → (if a && b then some x else if b then none else o)
                ≡ (if b then (if a then some x else none) else o)
          merged true true o = refl
          merged true false o = refl
          merged false true o = refl
          merged false false o = refl

      pub Cleared-absent : find hints f ≡ none → Cleared s
      Cleared-absent e = record {
        transaction = holds.transaction;
        index = holds.index;
        data_of = λ k g p. holds.data_of k g p ∙ gone k g;
        descriptors = λ k. refl;
      }
        where
          gone :
              (k g : Bytes)
              → under (find hints g) k (find values g)
                ≡ (if bytes_eq f g then none else under (find hints g) k (find values g))
          gone k g = elim (Bool-cases (bytes_eq f g)) [
            | inr other ↦ rw other refl
            | inl same ↦ rw same (
                ap (λ o. under o k (find values g))
                  (sym (ap (find hints) ((bytes_eq_iff f g).0 same)) ∙ e))
          ]

      pub Cleared-moved :
          (previous : Bytes) (u : StagingArea Db Batch)
          → IsHint previous
          → find hints f ≡ some previous
          → Changes s (data_key key previous f) none u
          → Cleared u
      Cleared-moved previous u p e c = record {
        transaction = c.transaction;
        index = λ g. c.reads (index_key key g) ∙ rw (data-index key previous f g) (holds.index g);
        data_of = λ k g q.
            c.reads (data_key key k g)
            ∙ rw (data-data key previous k f g p q, holds.data_of k g q) (gone k g);
        descriptors =
            λ k. c.reads (descriptor_locator k) ∙ rw (data-descriptor k key previous f) refl;
      }
        where
          gone :
              (k g : Bytes)
              → (if bytes_eq previous k && bytes_eq f g
                  then none
                  else under (find hints g) k (find values g))
                ≡ (if bytes_eq f g then none else under (find hints g) k (find values g))
          gone k g = elim (Bool-cases (bytes_eq f g)) [
            | inr other ↦ ground (arith, other)
            | inl same ↦
                let hint = sym (ap (find hints) ((bytes_eq_iff f g).0 same)) ∙ e in
                rw (hint, same) (ground arith)
          ]

      pub settled-known :
          (u : StagingArea Db Batch)
          → find hints f ≡ some h
          → Changes s (data_key key h f) (some x) u
          → Settles key f h x proper s hints values u
      settled-known u e c = record {
        transaction = c.transaction;
        index = λ g.
            c.reads (index_key key g) ∙ rw (data-index key h f g) (holds.index g ∙ same_index g);
        data_of = λ k g q.
            c.reads (data_key key k g)
            ∙ rw (data-data key h k f g proper q, holds.data_of k g q) (kept k g);
        descriptors = λ k. c.reads (descriptor_locator k) ∙ rw (data-descriptor k key h f) refl;
      }
        where
          same_index : (g : Bytes) → find hints g ≡ (if bytes_eq f g then some h else find hints g)
          same_index g = elim (Bool-cases (bytes_eq f g)) [
            | inr other ↦ rw other refl
            | inl same ↦ rw same (sym (ap (find hints) ((bytes_eq_iff f g).0 same)) ∙ e)
          ]

          kept :
              (k g : Bytes)
              → (if bytes_eq h k && bytes_eq f g
                  then some x
                  else under (find hints g) k (find values g))
                ≡ (if bytes_eq f g
                    then (if bytes_eq h k then some x else none)
                    else under (find hints g) k (find values g))
          kept k g = elim (Bool-cases (bytes_eq f g)) [
            | inr other ↦ ground (arith, other)
            | inl same ↦
                let hint = sym (ap (find hints) ((bytes_eq_iff f g).0 same)) ∙ e in
                rw (hint, same) (ground arith)
          ]
