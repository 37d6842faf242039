-- ===== src/Tests/Commands.antt =====
-- Commands on an empty state machine, and on what they leave.
use quarkdb.Base.{pos, negsuc}
use quarkdb.Raft.Parsing.{parse_int64, decimal}
use quarkdb.StateMachine.Hashes.{hset, hincrby}
use quarkdb.StateMachine.Refinement.Hashes.{hset_refines}
use quarkdb.StateMachine.Refinement.Increments.{hincrby_adds}
use quarkdb.Base.{
  ℕ, ◌+◌, ◌-◌, ◌≡◌, ◌≢◌, refl, true, false, none, some, List, [], ◌∷◌, Bytes, codes, bytes_eq,
  length, arith, ok, inl, sym,
}
use quarkdb.Storage.KeyType.{hash, set}
use quarkdb.Storage.RoundTrip.{Unambiguous}
use quarkdb.Storage.DescriptorAccess.{index_start, is_empty}
use quarkdb.StateMachine.Database.{Table, Write, table_rocks}
use quarkdb.StateMachine.StagingArea.{StagingArea, new_area, get}
use quarkdb.StateMachine.Status.{success, not_found, wrong_type}
use quarkdb.StateMachine.Removal.{srem}
use quarkdb.StateMachine.Sets.{sadd, smove, mark}
use quarkdb.StateMachine.LocalityHashes.{lhset, lhget}
use quarkdb.StateMachine.FieldMap.{FieldMap, add_all}
use quarkdb.StateMachine.Fields.{IsTransaction}
use quarkdb.StateMachine.Fields.Calls.{Holds}
use quarkdb.StateMachine.Fields.Descriptors.{sized, Describes}
use quarkdb.StateMachine.Refinement.{Represents, Becomes}
use quarkdb.StateMachine.Refinement.HashRuns
use quarkdb.StateMachine.Refinement.HashRuns.{hash_run_refines}
use quarkdb.StateMachine.Refinement.Sets.{sadd_refines}
use quarkdb.StateMachine.Refinement.Removals.{srem_refines}
use quarkdb.StateMachine.Refinement.OtherKeys.{IsClosed, Becomes-other_key, other_keys_stay}
use quarkdb.StateMachine.Refinement.Moves.{smove_refines, smove_same_key}
use quarkdb.StateMachine.Refinement.WrongTypes
use quarkdb.StateMachine.Refinement.WrongTypes.{wrong_type_refused}
use quarkdb.StateMachine.Refinement.Deques.{Spans}
use quarkdb.StateMachine.Refinement.DequeRuns
use quarkdb.StateMachine.Refinement.DequeSteps.{deque_run_refines}
use quarkdb.StateMachine.Refinement.LocalKeys.{IsHint}
use quarkdb.StateMachine.Refinement.LocalHashes.{IsLocal, lhset_refines}
use quarkdb.StateMachine.Refinement.LocalReads.{lhget_any_hint}

abbrev Area : Type 0
Area = StagingArea Table (List Write)

abbrev nothing : Area
unfolding new_area
nothing = new_area (λ k. none) false false

nothing-IsTransaction : IsTransaction nothing
unfolding nothing new_area
nothing-IsTransaction = record { no_bulk_load = refl; writable = refl }

abbrev key : Bytes
key = codes "k"

abbrev other_key : Bytes
other_key = codes "other"

abbrev field : Bytes
field = codes "f"

keys_differ : key ≢ other_key
keys_differ e = cc

empty_hash : Represents hash nothing key []
unfolding nothing new_area get
empty_hash = record {
  holds = record { transaction = nothing-IsTransaction; distinct = tt; reads = λ f. refl };
  described = refl;
}

empty_set : (k : Bytes) → Represents set nothing k []
unfolding nothing new_area get
empty_set k = record {
  holds = record { transaction = nothing-IsTransaction; distinct = tt; reads = λ f. refl };
  described = refl;
}

abbrev hash_commands : List HashRuns.Command
hash_commands =
    HashRuns.set_field field (codes "1")
    ∷ HashRuns.set_field field (codes "2")
    ∷ HashRuns.get_field field
    ∷ HashRuns.delete_fields (field ∷ key ∷ [])
    ∷ HashRuns.count_fields
    ∷ []

hash_run_refines_example :
    (w : Area) × (HashRuns.run key nothing hash_commands
      ≡ ok (
        w,
        HashRuns.created success true
            ∷ HashRuns.created success false
            ∷ HashRuns.value success (some (codes "2"))
            ∷ HashRuns.counted success 1
            ∷ HashRuns.counted success 0
            ∷ [],
      ))
    × Represents hash w key []
unfolding bytes_eq
hash_run_refines_example =
    hash_run_refines key hash_commands nothing [] empty_hash (tt, (tt, (tt, (tt, (tt, tt)))))
      (omega arith)

-- A set of one element, under `key`.
abbrev element : List Bytes
element = field ∷ []

one_element :
    (w : Area) × (total : ℕ) × (sadd nothing key element ≡ ok (w, success, total))
    × (total + 0 ≡ length (add_all mark [] element))
    × Becomes set key nothing (add_all mark [] element) w
one_element = sadd_refines nothing key element [] (empty_set key) (omega arith)

abbrev one_set : FieldMap
one_set = (field, mark) ∷ []

sadd_refines_example :
    (w : Area) × (total : ℕ) × (sadd nothing key (field ∷ key ∷ field ∷ [])
      ≡ ok (w, success, total))
    × (total + 0 ≡ 2)
    × Becomes set key nothing ((field, mark) ∷ (key, mark) ∷ []) w
unfolding bytes_eq
sadd_refines_example =
    sadd_refines nothing key (field ∷ key ∷ field ∷ []) [] (empty_set key) (omega arith)

srem_refines_example :
    (w : Area) × (removed : ℕ) × (srem one_element.0 key (field ∷ key ∷ [])
      ≡ ok (w, success, removed))
    × (removed + 0 ≡ 1)
    × Becomes set key one_element.0 [] w
unfolding bytes_eq
srem_refines_example =
    srem_refines one_element.0 key (field ∷ key ∷ []) one_set one_element.4.represents (omega arith)

key-IsClosed : IsClosed set key
unfolding Unambiguous
key-IsClosed = inl (omega arith)

other_key-IsClosed : IsClosed set other_key
unfolding Unambiguous
other_key-IsClosed = inl (omega arith)

other_key-IsClosedHash : IsClosed hash other_key
unfolding Unambiguous
other_key-IsClosedHash = inl (omega arith)

empty_other_hash : Represents hash nothing other_key []
unfolding nothing new_area get
empty_other_hash = record {
  holds = record { transaction = nothing-IsTransaction; distinct = tt; reads = λ f. refl };
  described = refl;
}

other_hash : Represents hash one_element.0 other_key []
other_hash =
    Becomes-other_key set hash refl refl key other_key key-IsClosed other_key-IsClosedHash
      keys_differ nothing one_element.0 [] one_set [] one_element.4 empty_other_hash

other_keys_stay_example :
    (w : Area) × (HashRuns.run other_key one_element.0 hash_commands
      ≡ ok (w, HashRuns.replies_of [] hash_commands))
    × Represents hash w other_key (HashRuns.replay [] hash_commands)
    × Represents set w key one_set
other_keys_stay_example =
    other_keys_stay other_key key hash_commands one_element.0 set [] one_set refl
      other_key-IsClosedHash key-IsClosed (λ e. keys_differ (sym e))
      (tt, (tt, (tt, (tt, (tt, tt))))) (omega arith) other_hash one_element.4.represents

other_set : Represents set one_element.0 other_key []
other_set =
    Becomes-other_key set set refl refl key other_key key-IsClosed other_key-IsClosed keys_differ
      nothing one_element.0 [] one_set [] one_element.4 (empty_set other_key)

smove_refines_example :
    (w : Area) × (smove one_element.0 key other_key field ≡ ok (w, success, 1))
    × Represents set w key []
    × Represents set w other_key one_set
unfolding bytes_eq
smove_refines_example =
    smove_refines one_element.0 key other_key field one_set [] one_element.4.represents other_set
      key-IsClosed other_key-IsClosed keys_differ refl (omega arith) (omega arith)

smove_same_key_example :
    (w : Area) × (smove one_element.0 key key field ≡ ok (w, success, 1))
    × Holds set w key one_set
    × (length one_set ≡ 1)
    × Describes w key (some (sized set 2))
unfolding bytes_eq
smove_same_key_example =
    smove_same_key one_element.0 key field one_set one_element.4.represents refl (omega arith)

wrong_type_refused_example :
    WrongTypes.perform key one_element.0 (WrongTypes.set_field field field)
    ≡ ok (one_element.0, wrong_type)
unfolding is_empty
wrong_type_refused_example =
    wrong_type_refused one_element.0 key (sized set 1) one_element.4.represents.holds.transaction
      one_element.4.represents.described refl (WrongTypes.set_field field field) tt refl

empty_deque : Spans nothing key (index_start - 1) []
unfolding nothing new_area get
empty_deque = record {
  items = record { transaction = nothing-IsTransaction; reads = λ i small. refl };
  described = refl;
  starts = refl;
  fits = omega arith;
  small = omega arith;
}

abbrev deque_commands : List DequeRuns.Command
deque_commands =
    DequeRuns.push_back field (key ∷ [])
    ∷ DequeRuns.push_front other_key []
    ∷ DequeRuns.pop_back
    ∷ DequeRuns.pop_front
    ∷ DequeRuns.pop_front
    ∷ DequeRuns.pop_front
    ∷ []

deque_run_refines_example :
    (w : Area) × (DequeRuns.run key nothing deque_commands
      ≡ ok (
        w,
        DequeRuns.pushed success 2
            ∷ DequeRuns.pushed success 3
            ∷ DequeRuns.popped success key
            ∷ DequeRuns.popped success other_key
            ∷ DequeRuns.popped success field
            ∷ DequeRuns.popped not_found []
            ∷ [],
      ))
    × (last : ℕ) × Spans w key last []
deque_run_refines_example =
    deque_run_refines key deque_commands nothing (index_start - 1) [] empty_deque
      (record { front = omega arith; back = omega arith; size = omega arith })

empty_local : IsLocal nothing key [] []
unfolding nothing new_area get
empty_local = record {
  holds = record {
    transaction = nothing-IsTransaction;
    distinct = tt;
    index = λ f. refl;
    data_of = λ h f p. refl;
    proper = λ f g e. cc;
    paired = λ f. refl;
  };
  described = refl;
}

usual-IsHint : (c : ℕ) → c ≢ 124 → IsHint (c ∷ [])
unfolding Unambiguous
usual-IsHint c p = (tt, inl p)

first_set :
    (w : Area) × (lhset nothing key field (codes "x") (codes "1") ≡ ok (w, success, true))
    × IsLocal w key ((field, codes "x") ∷ []) ((field, codes "1") ∷ [])
first_set =
    lhset_refines nothing key field (codes "x") (codes "1") [] [] tt tt
      (usual-IsHint 120 (omega arith)) empty_local (omega arith)

lhset_refines_example :
    (w : Area) × (lhset first_set.0 key field (codes "y") (codes "2") ≡ ok (w, success, false))
    × IsLocal w key ((field, codes "y") ∷ []) ((field, codes "2") ∷ [])
unfolding bytes_eq
lhset_refines_example =
    lhset_refines first_set.0 key field (codes "y") (codes "2") ((field, codes "x") ∷ [])
      ((field, codes "1") ∷ []) tt tt (usual-IsHint 121 (omega arith)) first_set.2 (omega arith)

lhget_any_hint_example : lhget first_set.0 key field (codes "y") ≡ ok (success, some (codes "1"))
unfolding bytes_eq
lhget_any_hint_example =
    lhget_any_hint first_set.0 key field (codes "y") ((field, codes "x") ∷ [])
      ((field, codes "1") ∷ []) tt tt (usual-IsHint 121 (omega arith)) first_set.2

-- A hash with one field, whose value is 7.
seven :
    (w : Area) × (hset nothing key field (codes "7") ≡ ok (w, success, true))
    × Becomes hash key nothing ((field, codes "7") ∷ []) w
unfolding bytes_eq
seven = hset_refines nothing key field (codes "7") [] empty_hash (omega arith)

hincrby_adds_example :
    (w : Area) × (hincrby seven.0 key field (codes "-9") ≡ ok (w, success, negsuc 1))
    × Becomes hash key seven.0 ((field, codes "-2") ∷ []) w
unfolding bytes_eq parse_int64 decimal
hincrby_adds_example =
    hincrby_adds seven.0 key field (codes "-9") ((field, codes "7") ∷ []) (pos 7) (negsuc 8)
      seven.2.represents (omega arith) refl refl (omega arith)
