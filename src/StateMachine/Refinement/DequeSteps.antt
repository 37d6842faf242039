-- ===== src/StateMachine/Refinement/DequeSteps.antt =====
-- src/StateMachine.cc: the steps of a run of commands on a deque, and runs.
use native.Mathlib.Nat.{zero-add}
use quarkdb.Base.{
  ℕ, ◌+◌, ◌-◌, ◌^◌, ◌<◌, ◌≤◌, ◌≡◌, refl, sym, ap, false, List, [], ◌∷◌, Bytes, length,
  length-append, arith, ok, >>=-ok,
}
use mathlib.Core.Path.{subst}
use quarkdb.Storage.DescriptorAccess.{index_start, get_size}
use quarkdb.StateMachine.Database.{Rocks}
use quarkdb.StateMachine.StagingArea.{StagingArea}
use quarkdb.StateMachine.Status.{not_found}
use quarkdb.StateMachine.WriteOperation.{key_size}
use quarkdb.StateMachine.Deques.{deque_pop, deque_pop_front, deque_pop_back}
use quarkdb.StateMachine.Refinement.DequeLoops.{pushed_front}
use quarkdb.StateMachine.Refinement.Deques.{Spans, write_operation-deque, finish_empty}
use quarkdb.StateMachine.Refinement.DequePushes.{
  front_start, length-pushed_front, deque_push_back_refines, deque_push_front_refines,
}
use quarkdb.StateMachine.Refinement.DequePops.{
  next_start, deque_pop_front_refines, deque_pop_back_refines,
}
use quarkdb.StateMachine.Refinement.DequeRuns.{
  Command, push_back, push_front, pop_front, pop_back, execute, run, after, reply_of, replay,
  replies_of, growth, growths, but_last, last_of, but_last-last_of,
}

-- The indices have room for that many items on either side.
pub record HasRoom (start : ℕ) (xs : List Bytes) (count : ℕ) : Type 0 where
  pub front : count ≤ start
  pub back : start + length xs + count + 1 < 2 ^ 64
  pub size : length xs + count < 2 ^ 62

room_behind :
    (start : ℕ) (xs ys : List Bytes) (count : ℕ)
    → HasRoom start xs count
    → length ys ≤ length xs
    → HasRoom (next_start start ys) ys count
room_behind start xs [] count r h = record {
  front = omega arith;
  back = omega arith;
  size = omega arith;
}
room_behind start xs (y ∷ ys) count r h = record {
  front = r.front;
  back = omega (arith, r.back, h);
  size = omega (arith, r.size, h);
}

room_before :
    (start : ℕ) (xs ys : List Bytes) (count : ℕ)
    → 0 < length ys
    → HasRoom start xs (length ys + count)
    → HasRoom (front_start start xs (length ys)) (pushed_front ys xs) count
room_before start [] ys count some_item r =
    let size = length-pushed_front ys [] in
    record {
      front = omega (arith, r.front);
      back = omega (arith, r.back, r.front, size, some_item);
      size = omega (arith, r.size, size);
    }
room_before start (x ∷ xs) ys count some_item r =
    let size = length-pushed_front ys (x ∷ xs) in
    record {
      front = omega (arith, r.front);
      back = omega (arith, r.back, r.front, size, some_item);
      size = omega (arith, r.size, size);
    }

module _ {Db Batch : Type 0} ⦃rocks : Rocks Db Batch⦄ where
  -- What a command gives, and an area with room for the commands that follow.
  abbrev Executes : Bytes → StagingArea Db Batch → List Bytes → Command → ℕ → Type 0
  Executes key s xs c later =
      (w : StagingArea Db Batch) × (execute key s c ≡ ok (w, reply_of xs c))
      × (start' : ℕ) × Spans w key start' (after xs c)
      × HasRoom start' (after xs c) later

  deque_pop-empty :
      (s : StagingArea Db Batch) (key : Bytes) (start : ℕ)
      → Spans s key start []
      → (w : StagingArea Db Batch) × (deque_pop_front s key ≡ ok (w, not_found, []))
        × (deque_pop_back s key ≡ ok (w, not_found, []))
        × Spans w key (index_start - 1) []
  unfolding deque_pop_front deque_pop_back deque_pop key_size get_size
  deque_pop-empty s key start d =
      let start_op = write_operation-deque s key start [] d in
      let (w, ended, e) = finish_empty s key false 0 start index_start index_start 0 d.items refl in
      (w, >>=-ok _ start_op (>>=-ok _ ended refl), >>=-ok _ start_op (>>=-ok _ ended refl), e)

  Executes-pop_front :
      (key : Bytes) (s : StagingArea Db Batch) (start : ℕ) (xs : List Bytes) (later : ℕ)
      → Spans s key start xs
      → HasRoom start xs later
      → Executes key s xs pop_front later
  Executes-pop_front key s start [] later d room =
      let (w, ran, back, e) = deque_pop-empty s key start d in
      (w, >>=-ok _ ran refl, index_start - 1, e, room_behind start [] [] later room (omega arith))
  Executes-pop_front key s start (x ∷ xs) later d room =
      let (w, ran, e) = deque_pop_front_refines s key start x xs d in
      (
        w,
        >>=-ok _ ran refl,
        next_start (start + 1) xs,
        e,
        room_behind (start + 1) xs xs later
            (record {
              front = omega (arith, room.front);
              back = omega (arith, room.back);
              size = omega (arith, room.size);
            })
            (omega arith),
      )

  Executes-pop_back :
      (key : Bytes) (s : StagingArea Db Batch) (start : ℕ) (xs : List Bytes) (later : ℕ)
      → Spans s key start xs
      → HasRoom start xs later
      → Executes key s xs pop_back later
  Executes-pop_back key s start [] later d room =
      let (w, front, ran, e) = deque_pop-empty s key start d in
      (w, >>=-ok _ ran refl, index_start - 1, e, room_behind start [] [] later room (omega arith))
  Executes-pop_back key s start (x ∷ xs) later d room =
      let rest = but_last x xs in
      let same = but_last-last_of x xs in
      let split = subst (λ t. Spans s key start t) (sym same) d in
      let (w, ran, e) = deque_pop_back_refines s key start rest (last_of x xs) split in
      let size = length-append rest (last_of x xs ∷ []) in
      (
        w,
        >>=-ok _ ran refl,
        next_start start rest,
        e,
        room_behind start (x ∷ xs) rest later room (omega (arith, size, ap length same)),
      )

  Executes-push_back :
      (key : Bytes) (s : StagingArea Db Batch) (start : ℕ) (xs : List Bytes) (y : Bytes)
      (items : List Bytes) (later : ℕ)
      → Spans s key start xs
      → HasRoom start xs (length (y ∷ items) + later)
      → Executes key s xs (push_back y items) later
  Executes-push_back key s start xs y items later d room =
      let (w, ran, e) =
        deque_push_back_refines s key start xs y items d (omega (arith, room.back))
          (omega (arith, room.size)) in
      let size = length-append xs (y ∷ items) in
      (
        w,
        >>=-ok _ ran refl,
        start,
        e,
        record {
          front = omega (arith, room.front);
          back = omega (arith, room.back, size);
          size = omega (arith, room.size, size);
        },
      )

  Executes-push_front :
      (key : Bytes) (s : StagingArea Db Batch) (start : ℕ) (xs : List Bytes) (y : Bytes)
      (items : List Bytes) (later : ℕ)
      → Spans s key start xs
      → HasRoom start xs (length (y ∷ items) + later)
      → Executes key s xs (push_front y items) later
  Executes-push_front key s start xs y items later d room =
      let (w, ran, e) =
        deque_push_front_refines s key start xs y items d (omega (arith, room.front))
          (omega (arith, room.size)) in
      (
        w,
        >>=-ok _ ran refl,
        front_start start xs (length (y ∷ items)),
        e,
        room_before start xs (y ∷ items) later (omega arith) room,
      )

  executes :
      (key : Bytes) (s : StagingArea Db Batch) (start : ℕ) (xs : List Bytes) (c : Command)
      (later : ℕ)
      → Spans s key start xs
      → HasRoom start xs (growth c + later)
      → Executes key s xs c later
  executes key s start xs (push_back y items) later d room =
      Executes-push_back key s start xs y items later d room
  executes key s start xs (push_front y items) later d room =
      Executes-push_front key s start xs y items later d room
  executes key s start xs pop_front later d room =
      Executes-pop_front key s start xs later d (rw zero-add at room)
  executes key s start xs pop_back later d room =
      Executes-pop_back key s start xs later d (rw zero-add at room)

  -- On an area that represents a deque, any sequence of pushes, each of one item at least, and pops gives the
  -- replies that the list of the items gives, and leaves the area at what the list becomes, if the indices
  -- have room for all the items that are pushed, fewer than 2^62.
  pub deque_run_refines :
      (key : Bytes) (cs : List Command) (s : StagingArea Db Batch) (start : ℕ) (xs : List Bytes)
      → Spans s key start xs
      → HasRoom start xs (growths cs)
      → (w : StagingArea Db Batch) × (run key s cs ≡ ok (w, replies_of xs cs))
        × (last : ℕ) × Spans w key last (replay xs cs)
  unfolding run
  deque_run_refines key [] s start xs d room = (s, refl, start, d)
  deque_run_refines key (c ∷ rest) s start xs d room =
      let (t, ran, next, e, there) = executes key s start xs c (growths rest) d room in
      let (w, more, last, f) = deque_run_refines key rest t next (after xs c) e there in
      (w, >>=-ok _ ran (>>=-ok _ more refl), last, f)
