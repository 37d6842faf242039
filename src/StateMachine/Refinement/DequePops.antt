-- ===== src/StateMachine/Refinement/DequePops.antt =====
-- src/StateMachine.cc: dequePopFront and dequePopBack, against the list of the items.
use quarkdb.Base.{
  ℕ, ◌+◌, ◌-◌, ◌^◌, ◌<◌, ◌≡◌, refl, ◌∙◌, ap, true, false, some, List, [], ◌∷◌, ◌++◌, Bytes, length,
  length-append, arith, ok, >>=-ok,
}
use quarkdb.Storage.BinaryInt.{int_to_binary_string}
use quarkdb.Storage.DescriptorAccess.{get_list_index, set_list_index, get_size, index_start}
use quarkdb.StateMachine.Database.{Rocks}
use quarkdb.StateMachine.StagingArea.{StagingArea}
use quarkdb.StateMachine.WriteOperation.{key_size, get_field, delete_field}
use quarkdb.StateMachine.Status.{success, plus64, minus64, return_finalize}
use quarkdb.StateMachine.Deques.{deque_pop, deque_pop_front, deque_pop_back}
use quarkdb.StateMachine.Fields.Calls.{open_operation}
use quarkdb.StateMachine.Refinement.Deques.{
  Spans, indexed, begun, write_operation-deque, finish_deque, finish_empty,
}
use quarkdb.StateMachine.Refinement.DequeItems.{
  HasItems, get-item, delete-item, item_at, item_at-front, item_at-back, item_at-snoc,
}

-- A deque that has become empty starts anew.
abbrev pub next_start : ℕ → List Bytes → ℕ
next_start start [] = index_start - 1
next_start start (x ∷ xs) = start

module _ {Db Batch : Type 0} ⦃rocks : Rocks Db Batch⦄ where
  -- On an area that represents a deque with an item, dequePopFront returns success and the first item, and
  -- leaves the others.
  pub deque_pop_front_refines :
      (s : StagingArea Db Batch) (key : Bytes) (start : ℕ) (x : Bytes) (xs : List Bytes)
      → Spans s key start (x ∷ xs)
      → (w : StagingArea Db Batch) × (deque_pop_front s key ≡ ok (w, success, x))
        × Spans w key (next_start (start + 1) xs) xs
  unfolding deque_pop_front deque_pop get_list_index set_list_index key_size get_size
  deque_pop_front_refines s key start x xs d =
      let start_op = write_operation-deque s key start (x ∷ xs) d in
      let info = begun (x ∷ xs) start in
      let op = open_operation key info true in
      let first : item_at start (x ∷ xs) (start + 1) ≡ some x = ground arith in
      let victim : plus64 start 1 ≡ start + 1 = ground (arith, d.fits) in
      let read = get-item d.items info refl true (start + 1) x (omega (arith, d.fits)) first in
      let (u, deleted, l) =
        delete-item d.items info refl true (start + 1) (start + 1) x xs (omega (arith, d.fits))
          first (λ i. item_at-front start x xs i) in
      let (w, ended, e) = finished u xs l.holds d.fits d.small in
      (
        w,
        >>=-ok _ start_op (
            >>=-ok _ (ap (λ i. get_field s op (int_to_binary_string i)) victim ∙ read) (
              >>=-ok _ (ap (λ i. delete_field s op (int_to_binary_string i)) victim ∙ deleted)
                (>>=-ok _ ended refl))),
        e,
      )
    where
      finished :
          (u : StagingArea Db Batch) (xs : List Bytes)
          → HasItems u key (start + 1) xs
          → start + length (x ∷ xs) + 1 < 2 ^ 64
          → length (x ∷ xs) < 2 ^ 63
          → (w : StagingArea Db Batch) × (return_finalize u
                (open_operation key
                  (indexed (length (x ∷ xs)) (plus64 start 1) (start + length (x ∷ xs) + 1))
                  true)
                (minus64 (length (x ∷ xs)) 1)
                false
              ≡ ok w)
            × Spans w key (next_start (start + 1) xs) xs
      finished u [] h fits small =
          finish_empty u key true 1 (start + 1) (plus64 start 1) (start + 1 + 1) (minus64 1 1) h
            (ground arith)
      finished u (y ∷ ys) h fits small =
          let n = length (x ∷ y ∷ ys) in
          finish_deque u key true n (start + 1) (plus64 start 1) (start + n + 1) (minus64 n 1) y ys
            h (omega (arith, fits)) (omega (arith, small)) (ground arith) (ground (arith, fits))
            (omega arith) (ground (arith, small))

  -- On an area that represents a deque with an item, dequePopBack returns success and the last item, and
  -- leaves the others.
  pub deque_pop_back_refines :
      (s : StagingArea Db Batch) (key : Bytes) (start : ℕ) (xs : List Bytes) (y : Bytes)
      → Spans s key start (xs ++ y ∷ [])
      → (w : StagingArea Db Batch) × (deque_pop_back s key ≡ ok (w, success, y))
        × Spans w key (next_start start xs) xs
  unfolding deque_pop_back deque_pop get_list_index set_list_index key_size get_size
  deque_pop_back_refines s key start [] y d =
      let start_op = write_operation-deque s key start (y ∷ []) d in
      let info = begun (y ∷ []) start in
      let op = open_operation key info true in
      let last : item_at start (y ∷ []) (start + 1) ≡ some y = ground arith in
      let victim : minus64 (start + 1 + 1) 1 ≡ start + 1 = ground (arith, d.fits) in
      let read = get-item d.items info refl true (start + 1) y (omega (arith, d.fits)) last in
      let (u, deleted, l) =
        delete-item d.items info refl true (start + 1) start y [] (omega (arith, d.fits)) last
          (λ i. item_at-back start [] y i ∙ ground arith) in
      let (w, ended, e) =
        finish_empty u key true 1 start start (minus64 (start + 1 + 1) 1) (minus64 1 1) l.holds
          (ground arith) in
      (
        w,
        >>=-ok _ start_op (
            >>=-ok _ (ap (λ i. get_field s op (int_to_binary_string i)) victim ∙ read) (
              >>=-ok _ (ap (λ i. delete_field s op (int_to_binary_string i)) victim ∙ deleted)
                (>>=-ok _ ended refl))),
        e,
      )
  deque_pop_back_refines s key start (x ∷ xs) y d =
      let all = xs ++ y ∷ [] in
      let n = length (x ∷ all) in
      let longer = length-append xs (y ∷ []) in
      let start_op = write_operation-deque s key start (x ∷ all) d in
      let info = begun (x ∷ all) start in
      let op = open_operation key info true in
      let j = start + length (x ∷ xs) + 1 in
      let last : item_at start (x ∷ all) j ≡ some y =
        item_at-snoc start (x ∷ xs) y j ∙ ground arith in
      let victim : minus64 (start + n + 1) 1 ≡ j = ground (arith, d.fits, longer) in
      let read = get-item d.items info refl true j y (omega (arith, d.fits, longer)) last in
      let (u, deleted, l) =
        delete-item d.items info refl true j start y (x ∷ xs) (omega (arith, d.fits, longer)) last
          (λ i. item_at-back start (x ∷ xs) y i) in
      let (w, ended, e) =
        finish_deque u key true n start start (minus64 (start + n + 1) 1) (minus64 n 1) x xs l.holds
          (omega (arith, d.fits, longer)) (omega (arith, d.small, longer)) (ground (arith, longer))
          refl victim (ground (arith, d.small, longer)) in
      (
        w,
        >>=-ok _ start_op (
            >>=-ok _ (ap (λ i. get_field s op (int_to_binary_string i)) victim ∙ read) (
              >>=-ok _ (ap (λ i. delete_field s op (int_to_binary_string i)) victim ∙ deleted)
                (>>=-ok _ ended refl))),
        e,
      )
