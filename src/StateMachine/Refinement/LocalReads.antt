-- ===== src/StateMachine/Refinement/LocalReads.antt =====
-- src/StateMachine.cc, lhget: what a client reads from a locality hash.
use quarkdb.Base.{
  ◌≡◌, refl, ◌∙◌, sym, ap, true, false, ◌&&◌, Option, none, some, is_some, [], ◌∷◌, Bytes, bytes_eq,
  bytes_eq_iff, length, arith, Result, ok, >>=-ok, inl, inr, Bool-cases, Option-cases,
}
use quarkdb.Storage.KeyType.{locality_hash}
use quarkdb.StateMachine.Database.{Rocks}
use quarkdb.StateMachine.StagingArea.{StagingArea, get}
use quarkdb.StateMachine.Status.{Status, lookup_status}
use quarkdb.StateMachine.LocalityHashes.{lhget, lhget_hinted, lhget_slowly, has_hint}
use quarkdb.StateMachine.FieldMap.{FieldMap, find}
use quarkdb.StateMachine.Refinement.Reads.{assert_key_type-counted}
use quarkdb.StateMachine.Refinement.LocalKeys.{
  IsNonempty, IsHint, data_key, locality_field_locator-ok, locality_index_locator-ok,
}
use quarkdb.StateMachine.Refinement.LocalFields.{under, HoldsLocal}
use quarkdb.StateMachine.Refinement.LocalHashes.{IsLocal}

-- A hint that a client may give: none, or one that can be stored.
abbrev pub IsGuess : Bytes → Type 0
IsGuess [] = Unit {0}
IsGuess (c ∷ cs) = IsHint (c ∷ cs)

module _ {Db Batch : Type 0} ⦃rocks : Rocks Db Batch⦄ where
  module _ (s : StagingArea Db Batch) (key f : Bytes) (hints values : FieldMap)
      (named : IsNonempty key) (some_field : IsNonempty f)
      (holds : HoldsLocal s key hints values) where
    abbrev Finds : Result (Status × Option Bytes) → Type 0
    Finds r = r ≡ ok (lookup_status (find values f), find values f)

    absent-value : find hints f ≡ none → find values f ≡ none
    absent-value e = no_value (find values f) (holds.paired f ∙ ap is_some e)
      where
        no_value : (o : Option Bytes) → is_some o ≡ false → o ≡ none
        no_value none p = refl
        no_value (some v) p = cc

    present-value : (g : Bytes) → find hints f ≡ some g → (v : Bytes) × (find values f ≡ some v)
    present-value g e = some_value (find values f) (holds.paired f ∙ ap is_some e)
      where
        some_value : (o : Option Bytes) → is_some o ≡ true → (v : Bytes) × (o ≡ some v)
        some_value none p = cc
        some_value (some v) p = (v, refl)

    stored-under :
        (g v : Bytes)
        → find hints f ≡ some g
        → find values f ≡ some v
        → get s (data_key key g f) ≡ some v
    stored-under g v e value =
        holds.data_of g f (holds.proper f g e) ∙ rw (e, (bytes_eq_iff g g).1 refl) value

    slowly :
        (h : Bytes)
        → ((g : Bytes) → find hints f ≡ some g → has_hint h && bytes_eq h g ≡ false)
        → Finds (lhget_slowly s key f h)
    slowly h wrong = elim (Option-cases (find hints f)) [
      | inl e ↦
          rw (locality_index_locator-ok key f named some_field, holds.index f, e, absent-value e)
            refl
      | inr (g, e) ↦
          let (v, value) = present-value g e in
          rw
            (
              locality_index_locator-ok key f named some_field,
              holds.index f,
              e,
              wrong g e,
              locality_field_locator-ok key g f named (holds.proper f g e).0,
              stored-under g v e value,
              value,
            )
            refl
    ]

    hinted : (h : Bytes) → IsHint h → Finds (lhget_hinted s key f h true)
    hinted h p = elim (Option-cases (get s (data_key key h f))) [
      | inr (v, e) ↦
          let there = sym (holds.data_of h f p) ∙ e in
          rw (locality_field_locator-ok key h f named p.0, e, value_there (find hints f) v there)
            refl
      | inl e ↦
          let there = sym (holds.data_of h f p) ∙ e in
          rw (locality_field_locator-ok key h f named p.0, e)
            (slowly h λ g q. wrong g q (present-value g q) there)
    ]
      where
        value_there :
            (o : Option Bytes) (v : Bytes)
            → under o h (find values f) ≡ some v
            → find values f ≡ some v
        value_there none v q = cc
        value_there (some g) v q = ground (arith, q)

        wrong :
            (g : Bytes)
            → find hints f ≡ some g
            → (v : Bytes) × (find values f ≡ some v)
            → under (find hints f) h (find values f) ≡ none
            → has_hint h && bytes_eq h g ≡ false
        wrong g q (v, value) there = elim (Bool-cases (bytes_eq h g)) [
          | inr other ↦ ground (arith, other)
          | inl same ↦
              let alike = (bytes_eq_iff h g).0 same in
              let found : under (find hints f) h (find values f) ≡ some v =
                rw (q, value, alike, (bytes_eq_iff g g).1 refl) refl in
              absurd (unlike (sym there ∙ found))
        ]
          where
            unlike : {w : Bytes} → ◌≡◌ {A = Option Bytes} none (some w) → ⊥
            unlike z = cc

  -- On an area that represents a locality hash, lhget of a field that is not empty returns the value of the
  -- field, or that there is none, if the hint that is given is empty or does not end with a bar, be it the
  -- right one or a wrong one.
  pub lhget_any_hint :
      (s : StagingArea Db Batch) (key f h : Bytes) (hints values : FieldMap)
      → IsNonempty key
      → IsNonempty f
      → IsGuess h
      → IsLocal s key hints values
      → lhget s key f h ≡ ok (lookup_status (find values f), find values f)
  unfolding lhget
  lhget_any_hint s key f [] hints values named some_field guess r =
      >>=-ok _ (assert_key_type-counted locality_hash refl s key (length hints) r.described)
        (slowly s key f hints values named some_field r.holds [] (λ g e. refl))
  lhget_any_hint s key f (c ∷ h) hints values named some_field guess r =
      >>=-ok _ (assert_key_type-counted locality_hash refl s key (length hints) r.described)
        (hinted s key f hints values named some_field r.holds (c ∷ h) guess)
