-- ===== src/StateMachine/Refinement/LocalFields.antt =====
-- src/StateMachine.cc: the fields of a locality hash, as a map from fields to hints and one from fields
-- to values.
use quarkdb.Base.{
  ◌≡◌, refl, ◌∙◌, sym, Option, none, some, Bytes, bytes_eq, if◌then◌else◌, inl, inr, Bool-cases,
}
use mathlib.Core.Path.{subst}
use quarkdb.Storage.Locators.{descriptor_locator}
use quarkdb.StateMachine.Database.{Rocks}
use quarkdb.StateMachine.StagingArea.{StagingArea, get}
use quarkdb.StateMachine.FieldMap.{
  FieldMap, find, has, insert, IsDistinct, find-insert, insert-IsDistinct,
}
use quarkdb.StateMachine.Fields.{IsTransaction}
use quarkdb.StateMachine.Refinement.LocalKeys.{IsHint, data_key, index_key}

-- The value under a hint, if that is the hint of the field.
abbrev pub under : Option Bytes → Bytes → Option Bytes → Option Bytes
under none h v = none
under (some g) h v = if bytes_eq g h then v else none

module _ {Db Batch : Type 0} ⦃rocks : Rocks Db Batch⦄ where
  -- The index has the hints, and the data has the values under them.
  pub record HoldsLocal (s : StagingArea Db Batch) (key : Bytes) (hints values : FieldMap)
      : Type 0 where
    pub transaction : IsTransaction s
    pub distinct : IsDistinct hints
    pub index : (f : Bytes) → get s (index_key key f) ≡ find hints f
    pub data_of :
        (h f : Bytes) → IsHint h → get s (data_key key h f) ≡ under (find hints f) h (find values f)
    pub proper : (f g : Bytes) → find hints f ≡ some g → IsHint g
    pub paired : (f : Bytes) → has values f ≡ has hints f

  module _ (key f h x : Bytes) (proper : IsHint h) where
    -- What the area must read as, for the field to be set.
    pub record Settles (s : StagingArea Db Batch) (hints values : FieldMap)
        (u : StagingArea Db Batch) : Type 0 where
      pub transaction : IsTransaction u
      pub index :
          (g : Bytes) → get u (index_key key g) ≡ (if bytes_eq f g then some h else find hints g)
      pub data_of :
          (k g : Bytes)
          → IsHint k
          → get u (data_key key k g) ≡ (
              if bytes_eq f g
              then (if bytes_eq h k then some x else none)
              else under (find hints g) k (find values g))
      pub descriptors : (k : Bytes) → get u (descriptor_locator k) ≡ get s (descriptor_locator k)

    module _ {s u : StagingArea Db Batch} {hints values : FieldMap}
        (holds : HoldsLocal s key hints values) (c : Settles s hints values u) where
      new_data :
          (k g : Bytes)
          → (if bytes_eq f g
              then (if bytes_eq h k then some x else none)
              else under (find hints g) k (find values g))
            ≡ under (find (insert hints f h) g) k (find (insert values f x) g)
      new_data k g = elim (Bool-cases (bytes_eq f g)) [
        | inl e ↦ rw (find-insert hints f h g, find-insert values f x g, e) refl
        | inr e ↦ rw (find-insert hints f h g, find-insert values f x g, e) refl
      ]

      new_proper : (g k : Bytes) → find (insert hints f h) g ≡ some k → IsHint k
      new_proper g k e = elim (Bool-cases (bytes_eq f g)) [
        | inl same ↦
            let hint : ◌≡◌ {A = Option Bytes} (some h) (some k) =
              sym (find-insert hints f h g ∙ rw same refl) ∙ e in
            subst IsHint (some-inj hint) proper
        | inr other ↦ holds.proper g k (sym (find-insert hints f h g ∙ rw other refl) ∙ e)
      ]
        where
          some-inj : {a b : Bytes} → ◌≡◌ {A = Option Bytes} (some a) (some b) → a ≡ b
          some-inj p = cc

      new_paired : (g : Bytes) → has (insert values f x) g ≡ has (insert hints f h) g
      new_paired g = elim (Bool-cases (bytes_eq f g)) [
        | inl e ↦ rw (find-insert hints f h g, find-insert values f x g, e) refl
        | inr e ↦ rw (find-insert hints f h g, find-insert values f x g, e) (holds.paired g)
      ]

      pub settled : HoldsLocal u key (insert hints f h) (insert values f x)
      settled = record {
        transaction = c.transaction;
        distinct = insert-IsDistinct hints f h holds.distinct;
        index = λ g. c.index g ∙ sym (find-insert hints f h g);
        data_of = λ k g p. c.data_of k g p ∙ new_data k g;
        proper = new_proper;
        paired = new_paired;
      }
