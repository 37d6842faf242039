-- ===== src/StateMachine/Refinement/DequeRuns.antt =====
-- src/StateMachine.cc: any sequence of pushes and pops on a deque, against the list of the items.
use quarkdb.Base.{ℕ, ◌+◌, ◌≡◌, refl, ap, List, [], ◌∷◌, ◌++◌, Bytes, length, Result, ok, ◌>>=◌}
use quarkdb.StateMachine.Database.{Rocks}
use quarkdb.StateMachine.StagingArea.{StagingArea}
use quarkdb.StateMachine.Status.{Status, success, not_found}
use quarkdb.StateMachine.Deques.{deque_push_back, deque_push_front, deque_pop_front, deque_pop_back}
use quarkdb.StateMachine.Refinement.DequeLoops.{pushed_front}

-- A push has one item at least.
pub data Command : Type 0 where
  push_back push_front : Bytes → List Bytes → Command
  pop_front pop_back : Command

pub data Reply : Type 0 where
  pushed : Status → ℕ → Reply
  popped : Status → Bytes → Reply

module _ {Db Batch : Type 0} ⦃rocks : Rocks Db Batch⦄ where
  abbrev pub execute :
      Bytes → StagingArea Db Batch → Command → Result (StagingArea Db Batch × Reply)
  execute key s (push_back y items) = do
    (t, status, n) ← deque_push_back s key (y ∷ items)
    ok (t, pushed status n)
  execute key s (push_front y items) = do
    (t, status, n) ← deque_push_front s key (y ∷ items)
    ok (t, pushed status n)
  execute key s pop_front = do (t, status, item) ← deque_pop_front s key; ok (t, popped status item)
  execute key s pop_back = do (t, status, item) ← deque_pop_back s key; ok (t, popped status item)

  unfoldable pub run :
      Bytes → StagingArea Db Batch → List Command → Result (StagingArea Db Batch × List Reply)
  run key s [] = ok (s, [])
  run key s (c ∷ rest) = do
    (t, reply) ← execute key s c
    (w, replies) ← run key t rest
    ok (w, reply ∷ replies)

abbrev pub tail_of : List Bytes → List Bytes
tail_of [] = []
tail_of (x ∷ xs) = xs

abbrev pub but_last : Bytes → List Bytes → List Bytes
but_last x [] = []
but_last x (y ∷ xs) = x ∷ but_last y xs

abbrev pub last_of : Bytes → List Bytes → Bytes
last_of x [] = x
last_of x (y ∷ xs) = last_of y xs

abbrev pub init_of : List Bytes → List Bytes
init_of [] = []
init_of (x ∷ xs) = but_last x xs

pub but_last-last_of : (x : Bytes) (xs : List Bytes) → but_last x xs ++ last_of x xs ∷ [] ≡ x ∷ xs
but_last-last_of x [] = refl
but_last-last_of x (y ∷ xs) = ap (λ t. x ∷ t) (but_last-last_of y xs)

-- The same commands on a list.
abbrev pub after : List Bytes → Command → List Bytes
after xs (push_back y items) = xs ++ y ∷ items
after xs (push_front y items) = pushed_front (y ∷ items) xs
after xs pop_front = tail_of xs
after xs pop_back = init_of xs

abbrev pub front_reply : List Bytes → Reply
front_reply [] = popped not_found []
front_reply (x ∷ xs) = popped success x

abbrev pub back_reply : List Bytes → Reply
back_reply [] = popped not_found []
back_reply (x ∷ xs) = popped success (last_of x xs)

abbrev pub reply_of : List Bytes → Command → Reply
reply_of xs (push_back y items) = pushed success (length (after xs (push_back y items)))
reply_of xs (push_front y items) = pushed success (length (after xs (push_front y items)))
reply_of xs pop_front = front_reply xs
reply_of xs pop_back = back_reply xs

abbrev pub replay : List Bytes → List Command → List Bytes
replay xs [] = xs
replay xs (c ∷ rest) = replay (after xs c) rest

abbrev pub replies_of : List Bytes → List Command → List Reply
replies_of xs [] = []
replies_of xs (c ∷ rest) = reply_of xs c ∷ replies_of (after xs c) rest

abbrev pub growth : Command → ℕ
growth (push_back y items) = length (y ∷ items)
growth (push_front y items) = length (y ∷ items)
growth pop_front = 0
growth pop_back = 0

abbrev pub growths : List Command → ℕ
growths [] = 0
growths (c ∷ rest) = growth c + growths rest
