-- ===== src/StateMachine/Refinement/DequeLoops.antt =====
-- src/StateMachine.cc, dequePush: the loop over the new items, against the list of the items.
use quarkdb.Base.{
  ℕ, suc, ◌+◌, ◌-◌, ◌^◌, ◌<◌, ◌≤◌, ◌≡◌, refl, ◌∙◌, ap, Bool, List, [], ◌∷◌, ◌++◌, Bytes, length,
  length-append, arith, ok, >>=-ok,
}
use mathlib.Core.Path.{subst}
use mathlib.Core.List.{append-nil, append_assoc}
use quarkdb.Storage.KeyType.{deque}
use quarkdb.Storage.BinaryInt.{int_to_binary_string}
use quarkdb.Storage.KeyDescriptor.{KeyDescriptor}
use quarkdb.Storage.DescriptorAccess.{left, right}
use quarkdb.StateMachine.Database.{Rocks}
use quarkdb.StateMachine.StagingArea.{StagingArea}
use quarkdb.StateMachine.WriteOperation.{write_field}
use quarkdb.StateMachine.Status.{plus64, minus64}
use quarkdb.StateMachine.Deques.{push_loop}
use quarkdb.StateMachine.Fields.Calls.{open_operation, Keeps-refl, Keeps-trans}
use quarkdb.StateMachine.Refinement.DequeItems.{HasItems, LeavesItems, write-back, write-front}

-- The items in front of a list, the last of them first.
abbrev pub pushed_front : List Bytes → List Bytes → List Bytes
pushed_front [] xs = xs
pushed_front (y ∷ items) xs = pushed_front items (y ∷ xs)

module _ {Db Batch : Type 0} ⦃rocks : Rocks Db Batch⦄ where
  -- Pushing at the back, when `added` items have been written behind the index `list_index`.
  pub push_loop-right :
      (key : Bytes) (info : KeyDescriptor) (before : Bool) (typed : info.key_type ≡ deque)
      (list_index added start : ℕ) (xs items : List Bytes) (s : StagingArea Db Batch)
      → HasItems s key start xs
      → list_index + added ≡ start + length xs + 1
      → start + length xs + length items + 1 < 2 ^ 64
      → (u : StagingArea Db Batch) × (push_loop s
            (open_operation key info before)
            right
            list_index
            added
            items
          ≡ ok u)
        × LeavesItems key s start (xs ++ items) u
  push_loop-right key info before typed list_index added start xs [] s h e fits =
      (s, refl, record { holds = rw append-nil h; keeps = Keeps-refl deque key s })
  push_loop-right key info before typed list_index added start xs (y ∷ items) s h e fits =
      let (u, wrote, l) = write-back h info typed before y (omega arith) in
      let here : plus64 list_index added ≡ start + length xs + 1 = ground (arith, e, fits) in
      let next : plus64 added 1 ≡ added + 1 = ground (arith, e, fits) in
      let longer = length-append xs (y ∷ []) in
      let (w, ran, k) =
        push_loop-right key info before typed list_index (added + 1) start (xs ++ y ∷ []) items u
          l.holds (omega (arith, e, longer)) (omega (arith, fits, longer)) in
      (
        w,
        >>=-ok _
            (ap (λ i. write_field s (open_operation key info before) (int_to_binary_string i) y)
                here
              ∙ wrote)
            (ap (λ i. push_loop u (open_operation key info before) right list_index i items) next
              ∙ ran),
        record {
          holds = rw (append_assoc xs (y ∷ []) items) at k.holds;
          keeps = Keeps-trans l.keeps k.keeps;
        },
      )

  -- Pushing at the front, when `added` items have been written from the index `list_index` down.
  pub push_loop-left :
      (key : Bytes) (info : KeyDescriptor) (before : Bool) (typed : info.key_type ≡ deque)
      (list_index added start : ℕ) (xs items : List Bytes) (s : StagingArea Db Batch)
      → HasItems s key start xs
      → list_index ≡ start + added
      → list_index < 2 ^ 64
      → length items ≤ start
      → (u : StagingArea Db Batch) × (push_loop s
            (open_operation key info before)
            left
            list_index
            added
            items
          ≡ ok u)
        × LeavesItems key s (start - length items) (pushed_front items xs) u
  push_loop-left key info before typed list_index added start xs [] s h e fits room =
      let same : start ≡ start - 0 = omega arith in
      (
        s,
        refl,
        record { holds = subst (λ i. HasItems s key i xs) same h; keeps = Keeps-refl deque key s },
      )
  push_loop-left key info before typed list_index added start xs (y ∷ items) s h e fits room =
      let (u, wrote, l) =
        write-front h info typed before y (start - 1) (omega arith) (omega arith) in
      let here : minus64 list_index added ≡ start = ground (arith, e, fits, room) in
      let next : plus64 added 1 ≡ added + 1 = ground (arith, e, fits, room) in
      let (w, ran, k) =
        push_loop-left key info before typed list_index (added + 1) (start - 1) (y ∷ xs) items u
          l.holds (omega arith) fits (omega arith) in
      let lower : start - 1 - length items ≡ start - suc (length items) = omega arith in
      (
        w,
        >>=-ok _
            (ap (λ i. write_field s (open_operation key info before) (int_to_binary_string i) y)
                here
              ∙ wrote)
            (ap (λ i. push_loop u (open_operation key info before) left list_index i items) next
              ∙ ran),
        record {
          holds = subst (λ i. HasItems w key i (pushed_front items (y ∷ xs))) lower k.holds;
          keeps = Keeps-trans l.keeps k.keeps;
        },
      )
