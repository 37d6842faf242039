-- ===== src/StateMachine/Refinement/DequePushes.antt =====
-- src/StateMachine.cc: dequePushBack and dequePushFront, against the list of the items.
use quarkdb.Base.{
  ℕ, ◌+◌, ◌-◌, ◌^◌, ◌<◌, ◌≤◌, ◌≡◌, refl, ap, true, false, List, [], ◌∷◌, ◌++◌, Bytes, length,
  length-append, arith, ok, >>=-ok,
}
use mathlib.Core.Path.{subst}
use quarkdb.Storage.KeyType.{deque}
use quarkdb.Storage.DescriptorAccess.{
  left, right, get_list_index, set_list_index, get_size, index_start,
}
use quarkdb.StateMachine.Database.{Rocks}
use quarkdb.StateMachine.StagingArea.{StagingArea}
use quarkdb.StateMachine.WriteOperation.{key_size}
use quarkdb.StateMachine.Status.{success, plus64, minus64}
use quarkdb.StateMachine.Deques.{set_other_index, deque_push, deque_push_back, deque_push_front}
use quarkdb.StateMachine.Fields.Descriptors.{sized}
use quarkdb.StateMachine.Refinement.Deques.{
  Spans, indexed, begun, nonzero, write_operation-deque, finish_deque, finish_items,
}
use quarkdb.StateMachine.Refinement.DequeItems.{HasItems}
use quarkdb.StateMachine.Refinement.DequeLoops.{pushed_front, push_loop-right, push_loop-left}

pub length-pushed_front :
    (items xs : List Bytes) → length (pushed_front items xs) ≡ length items + length xs
length-pushed_front [] xs = omega arith
length-pushed_front (y ∷ items) xs = omega (arith, length-pushed_front items (y ∷ xs))

-- The start index in front of `count` new items.
abbrev pub front_start : ℕ → List Bytes → ℕ → ℕ
front_start start [] count = start + 1 - count
front_start start (x ∷ xs) count = start - count

module _ {Db Batch : Type 0} ⦃rocks : Rocks Db Batch⦄ where
  -- On an area that represents a deque, whose indices have room for the items, of which there is one at
  -- least, dequePushBack returns success and the new length, and leaves the items behind those of the deque.
  pub deque_push_back_refines :
      (s : StagingArea Db Batch) (key : Bytes) (start : ℕ) (xs : List Bytes) (y : Bytes)
      (items : List Bytes)
      → Spans s key start xs
      → start + length xs + length (y ∷ items) + 1 < 2 ^ 64
      → length xs + length (y ∷ items) < 2 ^ 63
      → (w : StagingArea Db Batch) × (deque_push_back s key (y ∷ items)
          ≡ ok (w, success, length (xs ++ y ∷ items)))
        × Spans w key start (xs ++ y ∷ items)
  unfolding deque_push_back deque_push get_list_index set_list_index key_size get_size
  deque_push_back_refines s key start [] y items d room small =
      let start_op = write_operation-deque s key start [] d in
      let new = y ∷ items in
      let (u, ran, l) =
        push_loop-right key (sized deque 0) false refl index_start 0 start [] new s d.items
          (omega (arith, d.starts)) room in
      let (w, ended, e) =
        finish_deque u key false 0 start (minus64 index_start 1) (plus64 index_start (length new))
          (plus64 0 (length new)) y items l.holds (omega (arith, room)) (omega (arith, small))
          (ground arith) (ground (arith, d.starts)) (ground (arith, d.starts, room))
          (ground (arith, small)) in
      let total : plus64 0 (length new) ≡ length new = ground (arith, small) in
      (w, >>=-ok _ start_op (>>=-ok _ ran (>>=-ok _ ended (ap (λ n. ok (w, success, n)) total))), e)
  deque_push_back_refines s key start (x ∷ xs) y items d room small =
      let start_op = write_operation-deque s key start (x ∷ xs) d in
      let new = y ∷ items in
      let n = length (x ∷ xs) in
      let index = start + n + 1 in
      let all = length-append (x ∷ xs) new in
      let (u, ran, l) =
        push_loop-right key (begun (x ∷ xs) start) true refl index 0 start (x ∷ xs) new s d.items
          (omega arith) room in
      let (w, ended, e) =
        finish_deque u key true n start start (plus64 index (length new)) (plus64 n (length new)) x
          (xs ++ new) l.holds (omega (arith, room, all)) (omega (arith, small, all))
          (ground (arith, all)) refl (ground (arith, all, room)) (ground (arith, all, small)) in
      let total : plus64 n (length new) ≡ length (x ∷ xs ++ new) = ground (arith, all, small) in
      let pushed = indexed n start (plus64 index (length new)) in
      let other = ap (λ b. set_other_index b pushed right index) (nonzero (length xs)) in
      (
        w,
        >>=-ok _ start_op
            (>>=-ok _ ran (>>=-ok _ other (>>=-ok _ ended (ap (λ k. ok (w, success, k)) total)))),
        e,
      )

  -- On an area that represents a deque, whose indices have room for the items, of which there is one at
  -- least, dequePushFront returns success and the new length, and leaves the items, the last of them first,
  -- in front of those of the deque.
  pub deque_push_front_refines :
      (s : StagingArea Db Batch) (key : Bytes) (start : ℕ) (xs : List Bytes) (y : Bytes)
      (items : List Bytes)
      → Spans s key start xs
      → length (y ∷ items) ≤ start
      → length xs + length (y ∷ items) < 2 ^ 63
      → (w : StagingArea Db Batch) × (deque_push_front s key (y ∷ items)
          ≡ ok (w, success, length (pushed_front (y ∷ items) xs)))
        × Spans w key (front_start start xs (length (y ∷ items))) (pushed_front (y ∷ items) xs)
  unfolding deque_push_front deque_push get_list_index set_list_index key_size get_size
  deque_push_front_refines s key start [] y items d room small =
      let start_op = write_operation-deque s key start [] d in
      let new = y ∷ items in
      let k = length new in
      let all = length-pushed_front new [] in
      let empty : HasItems s key index_start [] = record {
        transaction = d.items.transaction;
        reads = d.items.reads;
      } in
      let (u, ran, l) =
        push_loop-left key (sized deque 0) false refl index_start 0 index_start [] new s empty
          (omega arith) (omega arith) (omega (arith, d.starts, room)) in
      let lower : index_start - k ≡ start + 1 - k = omega (arith, d.starts, room) in
      let items_there = subst (λ i. HasItems u key i (pushed_front new [])) lower l.holds in
      let (w, ended, e) =
        finish_items u key false 0 (start + 1 - k) (minus64 index_start k) (plus64 index_start 1)
          (plus64 0 k) (pushed_front new []) items_there (omega (arith, all))
          (omega (arith, all, d.starts, room)) (omega (arith, all, small)) (ground (arith, all))
          (ground (arith, d.starts, room)) (ground (arith, all, d.starts, room))
          (ground (arith, all, small)) in
      let total : plus64 0 k ≡ length (pushed_front new []) = ground (arith, all, small) in
      (w, >>=-ok _ start_op (>>=-ok _ ran (>>=-ok _ ended (ap (λ n. ok (w, success, n)) total))), e)
  deque_push_front_refines s key start (x ∷ xs) y items d room small =
      let start_op = write_operation-deque s key start (x ∷ xs) d in
      let new = y ∷ items in
      let k = length new in
      let n = length (x ∷ xs) in
      let all = length-pushed_front new (x ∷ xs) in
      let end = start + n + 1 in
      let (u, ran, l) =
        push_loop-left key (begun (x ∷ xs) start) true refl start 0 start (x ∷ xs) new s d.items
          (omega arith) (omega (arith, d.fits)) room in
      let (w, ended, e) =
        finish_items u key true n (start - k) (minus64 start k) end (plus64 n k)
          (pushed_front new (x ∷ xs)) l.holds (omega (arith, all))
          (omega (arith, all, d.fits, room)) (omega (arith, all, small)) (ground (arith, all))
          (ground (arith, d.fits, room)) (omega (arith, all, room)) (ground (arith, all, small)) in
      let total : plus64 n k ≡ length (pushed_front new (x ∷ xs)) = ground (arith, all, small) in
      let pushed = indexed n (minus64 start k) end in
      let other = ap (λ b. set_other_index b pushed left start) (nonzero (length xs)) in
      (
        w,
        >>=-ok _ start_op
            (>>=-ok _ ran (>>=-ok _ other (>>=-ok _ ended (ap (λ c. ok (w, success, c)) total)))),
        e,
      )
