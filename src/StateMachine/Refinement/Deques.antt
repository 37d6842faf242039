-- ===== src/StateMachine/Refinement/Deques.antt =====
-- src/StateMachine.cc: the commands on deques, against the list of the items.
use quarkdb.Base.{
  ℕ, suc, ◌+◌, ◌-◌, ◌^◌, ◌<◌, ◌≤◌, ◌≡◌, refl, ◌∙◌, ap, Bool, true, false, Option, none, some, List,
  [], ◌∷◌, ◌++◌, Bytes, ◌==◌, length, arith, Result, ok, leb,
}
use quarkdb.Storage.KeyType.{deque, key_type_char}
use quarkdb.Storage.BinaryInt.{int_to_binary_string}
use quarkdb.Storage.KeyDescriptor.{KeyDescriptor, serialize, IsStorable}
use quarkdb.Storage.DescriptorAccess.{index_start, is_empty}
use quarkdb.StateMachine.Database.{Rocks}
use quarkdb.StateMachine.StagingArea.{StagingArea}
use quarkdb.StateMachine.WriteOperation.{write_operation}
use quarkdb.StateMachine.Status.{return_finalize}
use quarkdb.StateMachine.Fields.{descriptor-field}
use quarkdb.StateMachine.Fields.Calls.{open_operation}
use quarkdb.StateMachine.Fields.Descriptors.{
  sized, Describes, Ends, updated, dropped, write_operation-new, write_operation-found,
  finalize-update, finalize-drop,
}
use quarkdb.StateMachine.Refinement.DequeItems.{HasItems, number_key}

abbrev pub indexed : ℕ → ℕ → ℕ → KeyDescriptor
indexed n start end = record { key_type = deque; size = n; start_index = start; end_index = end }

-- The descriptor of the items, which an empty deque does not have.
abbrev pub deque_info : ℕ → List Bytes → Option KeyDescriptor
deque_info start [] = none
deque_info start (x ∷ xs) = some (indexed (length (x ∷ xs)) start (start + length (x ∷ xs) + 1))

-- An empty deque starts anew.
abbrev pub StartsAt : ℕ → List Bytes → Type 0
StartsAt start [] = start ≡ index_start - 1
StartsAt start (x ∷ xs) = Unit {0}

serialize-indexed :
    (n start end : ℕ)
    → start ≤ end
    → serialize (indexed n start end)
      ≡ ok (
          key_type_char deque ∷ int_to_binary_string n
          ++ (int_to_binary_string start ++ int_to_binary_string end))
unfolding serialize
serialize-indexed n start end h =
    let ordered : leb start end ≡ true = ground (arith, h) in rw ordered refl

-- How an operation on a deque starts.
abbrev pub begun : List Bytes → ℕ → KeyDescriptor
begun [] start = sized deque 0
begun (x ∷ xs) start = indexed (length (x ∷ xs)) start (start + length (x ∷ xs) + 1)

abbrev pub existed : List Bytes → Bool
existed [] = false
existed (x ∷ xs) = true

pub nonzero : (n : ℕ) → suc n == 0 ≡ false
nonzero n = ground arith

module _ {Db Batch : Type 0} ⦃rocks : Rocks Db Batch⦄ where
  pub record Spans (s : StagingArea Db Batch) (key : Bytes) (start : ℕ) (xs : List Bytes)
      : Type 0 where
    pub items : HasItems s key start xs
    pub described : Describes s key (deque_info start xs)
    pub starts : StartsAt start xs
    pub fits : start + length xs + 1 < 2 ^ 64
    pub small : length xs < 2 ^ 63

  Ends-HasItems :
      {u w : StagingArea Db Batch} {key : Bytes} {start : ℕ} {xs : List Bytes}
      {o : Option KeyDescriptor}
      → HasItems u key start xs
      → Ends u key o w
      → HasItems w key start xs
  Ends-HasItems {key = key} h e = record {
    transaction = e.transaction;
    reads = λ i small.
        e.others (number_key key i) (descriptor-field deque key key (int_to_binary_string i) refl)
        ∙ h.reads i small;
  }

  module _ (u : StagingArea Db Batch) (key : Bytes) (before : Bool) where
    abbrev ending : ℕ → ℕ → ℕ → ℕ → Result (StagingArea Db Batch)
    ending n start end size =
        return_finalize u (open_operation key (indexed n start end) before) size false

    pub finish_deque :
        (n start start' end' size : ℕ) (x : Bytes) (xs : List Bytes)
        → HasItems u key start (x ∷ xs)
        → start + length (x ∷ xs) + 1 < 2 ^ 64
        → length (x ∷ xs) < 2 ^ 63
        → (n == length (x ∷ xs)) ≡ false
        → start' ≡ start
        → end' ≡ start + length (x ∷ xs) + 1
        → size ≡ length (x ∷ xs)
        → (w : StagingArea Db Batch) × (ending n start' end' size ≡ ok w)
          × Spans w key start (x ∷ xs)
    finish_deque n start start' end' size x xs h fits small differs a b c =
        let m = length (x ∷ xs) in
        let end = start + m + 1 in
        let str =
          key_type_char deque ∷ int_to_binary_string m
          ++ (int_to_binary_string start ++ int_to_binary_string end) in
        let ser = serialize-indexed m start end (omega arith) in
        let (w, run, k) =
          finalize-update u key (indexed n start end) before false m str h.transaction small
            (ground arith) (rw differs refl) (refl, refl) ser in
        let storable : IsStorable (indexed m start end) = record {
          size_fits = omega arith;
          start_fits = omega arith;
          end_fits = omega arith;
          defaults = tt;
        } in
        let e = updated u key h.transaction (indexed m start end) str storable ser k in
        (
          w,
          ap (λ i. ending n i end' size) a
              ∙ ap (λ i. ending n start i size) b
              ∙ ap (λ i. ending n start end i) c
              ∙ run,
          record {
            items = Ends-HasItems h e;
            described = e.described;
            starts = tt;
            fits = fits;
            small = small;
          },
        )

  pub write_operation-deque :
      (s : StagingArea Db Batch) (key : Bytes) (start : ℕ) (xs : List Bytes)
      → Spans s key start xs
      → write_operation s key deque ≡ ok (open_operation key (begun xs start) (existed xs))
  unfolding is_empty
  write_operation-deque s key start [] d =
      write_operation-new s key deque d.items.transaction refl d.described
  write_operation-deque s key start (x ∷ xs) d =
      write_operation-found s key deque (begun (x ∷ xs) start) d.items.transaction refl refl
        d.described

  module _ (u : StagingArea Db Batch) (key : Bytes) (before : Bool) where
    -- The end of a command that leaves items.
    pub finish_items :
        (n start start' end' size : ℕ) (zs : List Bytes)
        → HasItems u key start zs
        → 0 < length zs
        → start + length zs + 1 < 2 ^ 64
        → length zs < 2 ^ 63
        → (n == length zs) ≡ false
        → start' ≡ start
        → end' ≡ start + length zs + 1
        → size ≡ length zs
        → (w : StagingArea Db Batch) × (return_finalize u
              (open_operation key (indexed n start' end') before)
              size
              false
            ≡ ok w)
          × Spans w key start zs
    finish_items n start start' end' size [] h some_item fits small differs a b c =
        elim some_item [ ]
    finish_items n start start' end' size (x ∷ xs) h some_item fits small differs a b c =
        finish_deque u key before n start start' end' size x xs h fits small differs a b c

    -- The end of a command that leaves none.
    pub finish_empty :
        (n start start' end' size : ℕ)
        → HasItems u key start []
        → size ≡ 0
        → (w : StagingArea Db Batch) × (return_finalize u
              (open_operation key (indexed n start' end') before)
              size
              false
            ≡ ok w)
          × Spans w key (index_start - 1) []
    finish_empty n start start' end' size h zero_size =
        let info = indexed n start' end' in
        let (w, run, c) = finalize-drop u key info before false h.transaction refl in
        let e = dropped u key h.transaction c in
        let after = Ends-HasItems h e in
        (
          w,
          ap (λ i. return_finalize u (open_operation key info before) i false) zero_size ∙ run,
          record {
            items = record { transaction = after.transaction; reads = after.reads };
            described = e.described;
            starts = refl;
            fits = omega arith;
            small = omega arith;
          },
        )
