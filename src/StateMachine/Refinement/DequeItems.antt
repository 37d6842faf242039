-- ===== src/StateMachine/Refinement/DequeItems.antt =====
-- src/StateMachine.cc: a deque as a list. The items are at the numbers behind the start index.
use quarkdb.Base.{
  ℕ, ◌+◌, ◌^◌, ◌<◌, ◌≤◌, ◌≡◌, refl, ◌∙◌, sym, ap, Bool, true, Option, none, some, List, [], ◌∷◌,
  ◌++◌, Bytes, bytes_eq, bytes_eq_iff, ◌==◌, ==_iff, if◌then◌else◌, length, arith, ok, inl, inr,
  Bool-cases,
}
use quarkdb.Storage.KeyType.{deque}
use quarkdb.Storage.BinaryInt.{
  int_to_binary_string, binary_string_to_int, binary_string_to_int-int_to_binary_string,
}
use quarkdb.Storage.KeyDescriptor.{KeyDescriptor}
use quarkdb.StateMachine.Database.{Rocks}
use quarkdb.StateMachine.StagingArea.{StagingArea, get}
use quarkdb.StateMachine.WriteOperation.{
  WriteOperation, assert_writable, get_field, write_field, delete_field,
}
use quarkdb.StateMachine.Fields.{
  field_start, field_key, field_locator-ok, bytes_eq-append, IsTransaction, Changes, put-Changes,
  del-Changes,
}
use quarkdb.StateMachine.Fields.Calls.{open_operation, Keeps}

-- The item that a number has, if the items start behind `start`.
abbrev pub item_at : ℕ → List Bytes → ℕ → Option Bytes
item_at start [] i = none
item_at start (x ∷ xs) i =
    let rest = item_at (start + 1) xs i in if i == start + 1 then some x else rest

item_at-below : (start : ℕ) (xs : List Bytes) (i : ℕ) → i ≤ start → item_at start xs i ≡ none
item_at-below start [] i h = refl
item_at-below start (x ∷ xs) i h = ground (arith, item_at-below (start + 1) xs i)

pub item_at-snoc :
    (start : ℕ) (xs : List Bytes) (y : Bytes) (i : ℕ)
    → item_at start (xs ++ y ∷ []) i
      ≡ (if i == start + length xs + 1 then some y else item_at start xs i)
item_at-snoc start [] y i = ground arith
item_at-snoc start (x ∷ xs) y i = ground (arith, item_at-snoc (start + 1) xs y i)

item_at-beyond :
    (start : ℕ) (xs : List Bytes) (i : ℕ) → start + length xs < i → item_at start xs i ≡ none
item_at-beyond start [] i h = refl
item_at-beyond start (x ∷ xs) i h = ground (arith, item_at-beyond (start + 1) xs i)

pub item_at-front :
    (start : ℕ) (x : Bytes) (xs : List Bytes) (i : ℕ)
    → item_at (start + 1) xs i ≡ (if i == start + 1 then none else item_at start (x ∷ xs) i)
item_at-front start x xs i = ground (arith, item_at-below (start + 1) xs i)

pub item_at-back :
    (start : ℕ) (xs : List Bytes) (y : Bytes) (i : ℕ)
    → item_at start xs i
      ≡ (if i == start + length xs + 1 then none else item_at start (xs ++ y ∷ []) i)
item_at-back start xs y i = ground (arith, item_at-snoc start xs y i, item_at-beyond start xs i)

-- Numbers that fit have different bytes.
numbers_differ :
    (i j : ℕ)
    → i < 2 ^ 64
    → j < 2 ^ 64
    → bytes_eq (int_to_binary_string i) (int_to_binary_string j) ≡ i == j
numbers_differ i j h k =
    let a = binary_string_to_int-int_to_binary_string i h in
    let b = binary_string_to_int-int_to_binary_string j k in
    elim (Bool-cases (bytes_eq (int_to_binary_string i) (int_to_binary_string j))) [
      | inl e ↦
          let same = (bytes_eq_iff (int_to_binary_string i) (int_to_binary_string j)).0 e in
          e ∙ sym ((==_iff i j).1 (sym a ∙ ap binary_string_to_int same ∙ b))
      | inr e ↦
          e
          ∙ sym (
              ground
                (arith, e, bytes_eq_iff (int_to_binary_string i) (int_to_binary_string j), a, b))
    ]

abbrev pub number_key : Bytes → ℕ → Bytes
number_key key i = field_key deque key (int_to_binary_string i)

number_keys_differ :
    (key : Bytes) (i j : ℕ)
    → i < 2 ^ 64
    → j < 2 ^ 64
    → bytes_eq (number_key key i) (number_key key j) ≡ i == j
number_keys_differ key i j h k =
    bytes_eq-append (field_start deque key) (int_to_binary_string i) (int_to_binary_string j)
    ∙ numbers_differ i j h k

module _ {Db Batch : Type 0} ⦃rocks : Rocks Db Batch⦄ where
  -- The fields of the key are the items behind the start index.
  pub record HasItems (s : StagingArea Db Batch) (key : Bytes) (start : ℕ) (xs : List Bytes)
      : Type 0 where
    pub transaction : IsTransaction s
    pub reads : (i : ℕ) → i < 2 ^ 64 → get s (number_key key i) ≡ item_at start xs i

  pub record LeavesItems (key : Bytes) (s : StagingArea Db Batch) (start : ℕ) (xs : List Bytes)
      (u : StagingArea Db Batch) : Type 0 where
    pub holds : HasItems u key start xs
    pub keeps : Keeps deque key s u

  -- A change at one number.
  changed-items :
      {s u : StagingArea Db Batch} (key : Bytes) (start start' : ℕ) (xs xs' : List Bytes) (j : ℕ)
      (x : Option Bytes)
      → HasItems s key start xs
      → j < 2 ^ 64
      → Changes s (number_key key j) x u
      → ((i : ℕ) → item_at start' xs' i ≡ (if i == j then x else item_at start xs i))
      → LeavesItems key s start' xs' u
  changed-items key start start' xs xs' j x h fits c items = record {
    holds = record {
      transaction = c.transaction;
      reads = λ i small.
          c.reads (number_key key i)
          ∙ rw (number_keys_differ key j i fits small, h.reads i small) (ground (arith, items i));
    };
    keeps = record { elsewhere = λ k out. c.reads k ∙ rw (out (int_to_binary_string j)) refl };
  }

  module _ {s : StagingArea Db Batch} {key : Bytes} {start : ℕ} {xs : List Bytes}
      (h : HasItems s key start xs) (info : KeyDescriptor) (typed : info.key_type ≡ deque)
      (before : Bool) where
    abbrev op : WriteOperation
    op = open_operation key info before

    -- An item behind the last one, or before the first one.
    pub write-back :
        (y : Bytes)
        → start + length xs + 1 < 2 ^ 64
        → (u : StagingArea Db Batch) × (write_field s op
              (int_to_binary_string (start + length xs + 1))
              y
            ≡ ok u)
          × LeavesItems key s start (xs ++ y ∷ []) u
    unfolding write_field assert_writable
    write-back y fits =
        let j = start + length xs + 1 in
        let (u, run, c) = put-Changes s (number_key key j) y h.transaction in
        (
          u,
          rw (typed, field_locator-ok deque key (int_to_binary_string j) refl) run,
          changed-items key start start xs (xs ++ y ∷ []) j (some y) h fits c
              (λ i. item_at-snoc start xs y i),
        )

    pub write-front :
        (y : Bytes) (lower : ℕ)
        → start ≡ lower + 1
        → start < 2 ^ 64
        → (u : StagingArea Db Batch) × (write_field s op (int_to_binary_string start) y ≡ ok u)
          × LeavesItems key s lower (y ∷ xs) u
    unfolding write_field assert_writable
    write-front y lower e fits =
        let (u, run, c) = put-Changes s (number_key key start) y h.transaction in
        (
          u,
          rw (typed, field_locator-ok deque key (int_to_binary_string start) refl) run,
          changed-items key start lower xs (y ∷ xs) start (some y) h fits c (λ i. rw e refl),
        )

    pub get-item :
        (j : ℕ) (x : Bytes)
        → j < 2 ^ 64
        → item_at start xs j ≡ some x
        → get_field s op (int_to_binary_string j) ≡ ok (some x)
    unfolding get_field assert_writable
    get-item j x fits e =
        rw (typed, field_locator-ok deque key (int_to_binary_string j) refl, h.reads j fits, e) refl

    pub delete-item :
        (j start' : ℕ) (x : Bytes) (xs' : List Bytes)
        → j < 2 ^ 64
        → item_at start xs j ≡ some x
        → ((i : ℕ) → item_at start' xs' i ≡ (if i == j then none else item_at start xs i))
        → (u : StagingArea Db Batch) × (delete_field s op (int_to_binary_string j) ≡ ok (true, u))
          × LeavesItems key s start' xs' u
    unfolding delete_field assert_writable
    delete-item j start' x xs' fits e items =
        let (u, run, c) = del-Changes s (number_key key j) h.transaction in
        (
          u,
          rw
              (
                typed,
                field_locator-ok deque key (int_to_binary_string j) refl,
                h.reads j fits,
                e,
                run,
              )
              refl,
          changed-items key start start' xs xs' j none h fits c items,
        )
