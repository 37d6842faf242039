-- ===== src/StateMachine/Fields/Calls.antt =====
-- src/StateMachine.cc: the calls of an open operation on fields, against the map of the fields.
use quarkdb.Base.{
  ◌≡◌, refl, ◌∙◌, ap, sym, Bool, true, false, none, some, is_some, Bytes, bytes_eq, Option-cases,
  ok, inl, inr,
}
use quarkdb.Storage.KeyType.{
  KeyType, hash, set, deque, versioned_hash, null, parse_error, string, locality_hash, lease,
}
use quarkdb.Storage.KeyDescriptor.{KeyDescriptor}
use quarkdb.Storage.Locators.{has_fields}
use quarkdb.StateMachine.Database.{Rocks}
use quarkdb.StateMachine.StagingArea.{StagingArea, get, exists}
use quarkdb.StateMachine.WriteOperation.{
  WriteOperation, assert_writable, field_exists, get_field, write_field, delete_field, takes_field,
}
use quarkdb.StateMachine.FieldMap.{
  FieldMap, find, insert, erase, IsDistinct, find-insert, find-erase, insert-IsDistinct,
  erase-IsDistinct, erase_absent,
}
use quarkdb.StateMachine.Fields.{
  field_start, field_key, field_locator-ok, bytes_eq-append, IsTransaction, Changes, put-Changes,
  del-Changes,
}

-- An operation that has not ended.
abbrev pub open_operation : Bytes → KeyDescriptor → Bool → WriteOperation
open_operation key key_info key_exists = record {
  redis_key = key;
  key_info = key_info;
  redis_key_exists = key_exists;
  is_valid = true;
  finalized = false;
}

-- The database key is none of the fields.
abbrev pub IsElsewhere : KeyType → Bytes → Bytes → Type 0
IsElsewhere t key j = (f : Bytes) → bytes_eq (field_key t key f) j ≡ false

pub takes_field-has_fields : (t : KeyType) → takes_field t ≡ true → has_fields t ≡ true
takes_field-has_fields hash h = refl
takes_field-has_fields set h = refl
takes_field-has_fields deque h = refl
takes_field-has_fields versioned_hash h = refl
takes_field-has_fields null h = cc
takes_field-has_fields parse_error h = cc
takes_field-has_fields string h = cc
takes_field-has_fields locality_hash h = cc
takes_field-has_fields lease h = cc

module _ {Db Batch : Type 0} ⦃rocks : Rocks Db Batch⦄ where
  exists-get : (s : StagingArea Db Batch) (k : Bytes) → exists s k ≡ is_some (get s k)
  unfolding exists
  exists-get s k = refl

  -- The fields of the key are those of the map.
  pub record Holds (t : KeyType) (s : StagingArea Db Batch) (key : Bytes) (m : FieldMap)
      : Type 0 where
    pub transaction : IsTransaction s
    pub distinct : IsDistinct m
    pub reads : (f : Bytes) → get s (field_key t key f) ≡ find m f

  -- From one area to another, only the fields of the key have changed.
  pub record Keeps (t : KeyType) (key : Bytes) (s u : StagingArea Db Batch) : Type 0 where
    pub elsewhere : (j : Bytes) → IsElsewhere t key j → get u j ≡ get s j

  pub Keeps-refl : (t : KeyType) (key : Bytes) (s : StagingArea Db Batch) → Keeps t key s s
  Keeps-refl t key s = record { elsewhere = λ j h. refl }

  pub Keeps-trans :
      {t : KeyType} {key : Bytes} {s u w : StagingArea Db Batch}
      → Keeps t key s u
      → Keeps t key u w
      → Keeps t key s w
  Keeps-trans first second = record {
    elsewhere = λ j h. second.elsewhere j h ∙ first.elsewhere j h;
  }

  -- What a call leaves: the fields of a map, and the rest of the area.
  pub record Leaves (t : KeyType) (key : Bytes) (s : StagingArea Db Batch) (m : FieldMap)
      (u : StagingArea Db Batch) : Type 0 where
    pub holds : Holds t u key m
    pub keeps : Keeps t key s u

  module _ (t : KeyType) (key : Bytes) (takes : takes_field t ≡ true) where
    module _ {s : StagingArea Db Batch} {m : FieldMap} (h : Holds t s key m) where
      inserted :
          {u : StagingArea Db Batch} (f v : Bytes)
          → Changes s (field_key t key f) (some v) u
          → Leaves t key s (insert m f v) u
      inserted f v c = record {
        holds = record {
          transaction = c.transaction;
          distinct = insert-IsDistinct m f v h.distinct;
          reads = λ g.
              c.reads (field_key t key g)
              ∙ rw (bytes_eq-append (field_start t key) f g, h.reads g) (sym (find-insert m f v g));
        };
        keeps = record { elsewhere = λ j out. c.reads j ∙ rw (out f) refl };
      }

      erased :
          {u : StagingArea Db Batch} (f : Bytes)
          → Changes s (field_key t key f) none u
          → Leaves t key s (erase m f) u
      erased f c = record {
        holds = record {
          transaction = c.transaction;
          distinct = erase-IsDistinct m f h.distinct;
          reads = λ g.
              c.reads (field_key t key g)
              ∙ rw (bytes_eq-append (field_start t key) f g, h.reads g) (sym (find-erase m f g));
        };
        keeps = record { elsewhere = λ j out. c.reads j ∙ rw (out f) refl };
      }

      module _ (info : KeyDescriptor) (typed : info.key_type ≡ t) (before : Bool) where
        abbrev op : WriteOperation
        op = open_operation key info before

        pub get_field-find : (f : Bytes) → get_field s op f ≡ ok (find m f)
        unfolding get_field assert_writable
        get_field-find f =
            rw (typed, field_locator-ok t key f (takes_field-has_fields t takes), h.reads f) refl

        pub field_exists-find : (f : Bytes) → field_exists s op f ≡ ok (is_some (find m f))
        unfolding field_exists assert_writable
        field_exists-find f =
            rw (typed, field_locator-ok t key f (takes_field-has_fields t takes))
              (ap ok (exists-get s (field_key t key f) ∙ ap is_some (h.reads f)))

        pub write_field-insert :
            (f v : Bytes)
            → (u : StagingArea Db Batch) × (write_field s op f v ≡ ok u)
              × Leaves t key s (insert m f v) u
        unfolding write_field assert_writable
        write_field-insert f v =
            let (u, run, c) = put-Changes s (field_key t key f) v h.transaction in
            (
              u,
              rw (typed, takes, field_locator-ok t key f (takes_field-has_fields t takes)) run,
              inserted f v c,
            )

        pub delete_field-erase :
            (f : Bytes)
            → (u : StagingArea Db Batch) × (delete_field s op f ≡ ok (is_some (find m f), u))
              × Leaves t key s (erase m f) u
        unfolding delete_field assert_writable
        delete_field-erase f = elim (Option-cases (find m f)) [
          | inl e ↦ (
            s,
            rw (typed, field_locator-ok t key f (takes_field-has_fields t takes), h.reads f, e)
                refl,
            record { holds = rw (erase_absent m f e) h; keeps = Keeps-refl t key s },
          )
          | inr (v, e) ↦
              let (u, run, c) = del-Changes s (field_key t key f) h.transaction in
              (
                u,
                rw
                    (
                      typed,
                      field_locator-ok t key f (takes_field-has_fields t takes),
                      h.reads f,
                      e,
                      run,
                    )
                    refl,
                erased f c,
              )
        ]
