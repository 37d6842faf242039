-- ===== src/StateMachine/Fields/Descriptors.antt =====
-- src/StateMachine.cc: how an operation reads the descriptor of its key, and how it leaves it.
use quarkdb.Base.{
  ℕ, zero, suc, ◌^◌, ◌<◌, ◌≡◌, refl, ◌∙◌, Bool, true, false, not, ◌||◌, ◌&&◌, Option, none, some,
  Bytes, bytes_eq, ◌==◌, leb, ◌∷◌, arith, ok, ==_iff, inl, inr, Bool-cases,
}
use mathlib.Core.Path.{subst}
use quarkdb.Storage.KeyType.{
  KeyType, key_type_char, null, parse_error, string, hash, set, deque, locality_hash, lease,
  versioned_hash,
}
use quarkdb.Storage.KeyDescriptor.{
  KeyDescriptor, serialize, parse_descriptor, shape_of, only_size, IsStorable,
  parse_descriptor-serialize,
}
use quarkdb.Storage.DescriptorAccess.{
  new_descriptor, is_empty, same_type, get_size, set_size, index_start,
}
use quarkdb.Storage.BinaryInt.{int_to_binary_string}
use quarkdb.Storage.Locators.{descriptor_locator}
use quarkdb.StateMachine.Database.{Rocks}
use quarkdb.StateMachine.StagingArea.{StagingArea, get}
use quarkdb.StateMachine.WriteOperation.{
  construct_descriptor, initial_key_info, operation_on, write_operation, assert_writable, finalize,
  cancel, destroy,
}
use quarkdb.StateMachine.Status.{return_finalize}
use quarkdb.StateMachine.FieldMap.{bytes_eq_refl}
use quarkdb.StateMachine.Fields.{
  IsTransaction, Changes, put-Changes, del-Changes, get_for_update-get,
}
use quarkdb.StateMachine.Fields.Calls.{open_operation}

-- The descriptor of a type that stores a size.
abbrev pub sized : KeyType → ℕ → KeyDescriptor
sized t n = record { key_type = t; size = n; start_index = index_start; end_index = index_start }

-- A key has no descriptor if its size is zero.
abbrev pub counted : KeyType → ℕ → Option KeyDescriptor
counted t zero = none
counted t (suc n) = some (sized t (suc n))

abbrev pub positive : ℕ → Bool
positive zero = false
positive (suc n) = true

-- The types that store a size only.
abbrev pub IsSized : KeyType → Type 0
IsSized t = shape_of t ≡ only_size

abbrev pub IsReal : KeyType → Type 0
IsReal t = (same_type t parse_error ≡ false) × (same_type t null ≡ false)

pub IsSized-facts : (t : KeyType) → IsSized t → IsReal t × (same_type t versioned_hash ≡ false)
IsSized-facts null h = cc
IsSized-facts parse_error h = cc
IsSized-facts string h = ((refl, refl), refl)
IsSized-facts hash h = ((refl, refl), refl)
IsSized-facts set h = ((refl, refl), refl)
IsSized-facts deque h = cc
IsSized-facts locality_hash h = ((refl, refl), refl)
IsSized-facts lease h = cc
IsSized-facts versioned_hash h = cc

pub same_type_refl : (t : KeyType) → same_type t t ≡ true
same_type_refl t = ground arith

serialize-sized :
    (t : KeyType) (n : ℕ)
    → IsSized t
    → serialize (sized t n) ≡ ok (key_type_char t ∷ int_to_binary_string n)
unfolding serialize
serialize-sized t n h = rw h refl

module _ {Db Batch : Type 0} ⦃rocks : Rocks Db Batch⦄ where
  -- What the area has as the descriptor of a key.
  abbrev pub Describes : StagingArea Db Batch → Bytes → Option KeyDescriptor → Type 0
  Describes s key none = get s (descriptor_locator key) ≡ none
  Describes s key (some d) =
      (str : Bytes) × (get s (descriptor_locator key) ≡ some str) × (parse_descriptor str ≡ ok d)

  pub write_operation-new :
      (s : StagingArea Db Batch) (key : Bytes) (t : KeyType)
      → IsTransaction s
      → same_type t versioned_hash ≡ false
      → Describes s key none
      → write_operation s key t ≡ ok (open_operation key (sized t 0) false)
  unfolding write_operation construct_descriptor operation_on initial_key_info new_descriptor
      is_empty
  write_operation-new s key t h unversioned d =
      rw (get_for_update-get s (descriptor_locator key) h, d, unversioned) refl

  pub write_operation-found :
      (s : StagingArea Db Batch) (key : Bytes) (t : KeyType) (d : KeyDescriptor)
      → IsTransaction s
      → is_empty d ≡ false
      → same_type d.key_type t ≡ true
      → Describes s key (some d)
      → write_operation s key t ≡ ok (open_operation key d true)
  unfolding write_operation construct_descriptor operation_on is_empty
  write_operation-found s key t d h some_type same (str, e, p) =
      rw (get_for_update-get s (descriptor_locator key) h, e, p, some_type, same) refl

  pub finalize-drop :
      (s : StagingArea Db Batch) (key : Bytes) (d : KeyDescriptor) (before force : Bool)
      → IsTransaction s
      → same_type d.key_type versioned_hash ≡ false
      → (u : StagingArea Db Batch) × (return_finalize s (open_operation key d before) 0 force
          ≡ ok u)
        × Changes s (descriptor_locator key) none u
  unfolding finalize assert_writable cancel destroy
  finalize-drop s key d before force h unversioned =
      let (u, run, c) = del-Changes s (descriptor_locator key) h in
      (u, rw (unversioned, run) refl, c)

  pub finalize-update :
      (s : StagingArea Db Batch) (key : Bytes) (d : KeyDescriptor) (before force : Bool) (n : ℕ)
      (str : Bytes)
      → IsTransaction s
      → n < 2 ^ 63
      → (n == 0 && not (same_type d.key_type versioned_hash)) ≡ false
      → (not (d.size == n) || force) ≡ true
      → IsReal d.key_type
      → serialize (record d { size = n }) ≡ ok str
      → (u : StagingArea Db Batch) × (return_finalize s (open_operation key d before) n force
          ≡ ok u)
        × Changes s (descriptor_locator key) (some str) u
  unfolding finalize assert_writable cancel destroy get_size set_size
  finalize-update s key d before force n str h small nonzero changed real ser =
      let (u, run, c) = put-Changes s (descriptor_locator key) str h in
      let fits : leb (2 ^ 63) n ≡ false = ground (arith, small) in
      (u, rw (fits, nonzero, real.0, changed, real.0, real.1, ser, run) refl, c)

  finalize-same :
      (s : StagingArea Db Batch) (key : Bytes) (d : KeyDescriptor) (before : Bool) (n : ℕ)
      → n < 2 ^ 63
      → (n == 0 && not (same_type d.key_type versioned_hash)) ≡ false
      → IsReal d.key_type
      → not (d.size == n) ≡ false
      → return_finalize s (open_operation key d before) n false ≡ ok s
  unfolding finalize assert_writable cancel destroy get_size
  finalize-same s key d before n small nonzero real same =
      let fits : leb (2 ^ 63) n ≡ false = ground (arith, small) in
      rw (fits, nonzero, real.0, same) refl

  -- Reading the area after a write of the descriptor.
  Describes-changed :
      (s u : StagingArea Db Batch) (key : Bytes) (d : KeyDescriptor) (str : Bytes)
      → IsStorable d
      → serialize d ≡ ok str
      → Changes s (descriptor_locator key) (some str) u
      → Describes u key (some d)
  Describes-changed s u key d str h ser c = (
    str,
    c.reads (descriptor_locator key) ∙ rw (bytes_eq_refl (descriptor_locator key)) refl,
    parse_descriptor-serialize d str h ser,
  )

  -- What the end of an operation leaves: a descriptor, and the rest of the area.
  pub record Ends (s : StagingArea Db Batch) (key : Bytes) (o : Option KeyDescriptor)
      (u : StagingArea Db Batch) : Type 0 where
    pub transaction : IsTransaction u
    pub described : Describes u key o
    pub others : (j : Bytes) → bytes_eq (descriptor_locator key) j ≡ false → get u j ≡ get s j

  module _ (s : StagingArea Db Batch) (key : Bytes) (h : IsTransaction s) where
    pub dropped :
        {u : StagingArea Db Batch} → Changes s (descriptor_locator key) none u → Ends s key none u
    dropped c = record {
      transaction = c.transaction;
      described =
          c.reads (descriptor_locator key) ∙ rw (bytes_eq_refl (descriptor_locator key)) refl;
      others = λ j out. c.reads j ∙ rw out refl;
    }

    pub updated :
        {u : StagingArea Db Batch} (d : KeyDescriptor) (str : Bytes)
        → IsStorable d
        → serialize d ≡ ok str
        → Changes s (descriptor_locator key) (some str) u
        → Ends s key (some d) u
    updated {u} d str fits ser c = record {
      transaction = c.transaction;
      described = Describes-changed s u key d str fits ser c;
      others = λ j out. c.reads j ∙ rw out refl;
    }

    module _ (t : KeyType) (is_sized : IsSized t) where
      sized-IsStorable : (n : ℕ) → n < 2 ^ 63 → IsStorable (sized t n)
      sized-IsStorable n small = record {
        size_fits = omega arith;
        start_fits = omega arith;
        end_fits = omega arith;
        defaults = rw is_sized (refl, refl);
      }

      -- An operation on a key of such a type starts with the size of the key.
      pub write_operation-sized :
          (n : ℕ)
          → Describes s key (counted t n)
          → write_operation s key t ≡ ok (open_operation key (sized t n) (positive n))
      unfolding is_empty
      write_operation-sized zero d = write_operation-new s key t h (IsSized-facts t is_sized).1 d
      write_operation-sized (suc n) d =
          write_operation-found s key t (sized t (suc n)) h (IsSized-facts t is_sized).0.1
            (same_type_refl t) d

      -- A new size is written, whatever the descriptor is.
      pub finalize-resize :
          (n size : ℕ)
          → suc size < 2 ^ 63
          → (n == suc size) ≡ false
          → (u : StagingArea Db Batch) × (return_finalize s
                (open_operation key (sized t n) (positive n))
                (suc size)
                false
              ≡ ok u)
            × Ends s key (counted t (suc size)) u
      finalize-resize n size new e =
          let str = key_type_char t ∷ int_to_binary_string (suc size) in
          let ser : serialize (sized t (suc size)) ≡ ok str =
            serialize-sized t (suc size) is_sized in
          let (u, run, c) =
            finalize-update s key (sized t n) (positive n) false (suc size) str h new (ground arith)
              (rw e refl) (IsSized-facts t is_sized).0 ser in
          (u, run, updated (sized t (suc size)) str (sized-IsStorable (suc size) new) ser c)

      -- It ends with the size that it is given.
      pub return_finalize-sized :
          (n size : ℕ)
          → n < 2 ^ 63
          → size < 2 ^ 63
          → Describes s key (counted t n)
          → (u : StagingArea Db Batch) × (return_finalize s
                (open_operation key (sized t n) (positive n))
                size
                false
              ≡ ok u)
            × Ends s key (counted t size) u
      return_finalize-sized n zero old new d =
          let (u, run, c) =
            finalize-drop s key (sized t n) (positive n) false h (IsSized-facts t is_sized).1 in
          (u, run, dropped c)
      return_finalize-sized n (suc size) old new d = elim (Bool-cases (n == suc size)) [
        | inl e ↦ (
          s,
          finalize-same s key (sized t n) (positive n) (suc size) new (ground arith)
              (IsSized-facts t is_sized).0 (rw e refl),
          record {
            transaction = h;
            described = subst (λ k. Describes s key (counted t k)) ((==_iff n (suc size)).0 e) d;
            others = λ j out. refl;
          },
        )
        | inr e ↦ finalize-resize n size new e
      ]
