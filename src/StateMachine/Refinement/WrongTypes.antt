-- ===== src/StateMachine/Refinement/WrongTypes.antt =====
-- src/StateMachine.cc: a command on a key of another type.
use quarkdb.Base.{
  ℕ, ◌≡◌, refl, true, false, some, List, [], Bytes, length, ◌%◌, ◌==◌, ℤ, pos, Result, ok, ◌>>=◌,
  >>=-ok,
}
use quarkdb.Raft.Parsing.{parse_int64}
use quarkdb.Storage.KeyType.{KeyType, hash, set, deque, string, locality_hash}
use quarkdb.Storage.KeyDescriptor.{KeyDescriptor}
use quarkdb.Storage.Locators.{descriptor_locator}
use quarkdb.Storage.DescriptorAccess.{is_empty, same_type}
use quarkdb.StateMachine.Database.{Rocks}
use quarkdb.StateMachine.StagingArea.{StagingArea}
use quarkdb.StateMachine.Strings
use quarkdb.StateMachine.WriteOperation.{
  WriteOperation, write_operation, construct_descriptor, operation_on, destroy,
}
use quarkdb.StateMachine.Status.{
  Status, wrong_type, with_operation, assert_key_type, is_wrong_type, length_of,
}
use quarkdb.StateMachine.Hashes.{hset, hsetnx, hmset, hget, hlen, hincrby}
use quarkdb.StateMachine.Removal.{hdel, srem}
use quarkdb.StateMachine.Sets.{sadd, scard, smove}
use quarkdb.StateMachine.Deques.{
  deque_push_back, deque_push_front, deque_push, deque_pop_front, deque_pop_back, deque_pop,
  deque_len, deque_trim_front,
}
use quarkdb.StateMachine.LocalityHashes.{lhset, lhmset, lhdel, lhget, lhlen}
use quarkdb.StateMachine.Fields.{IsTransaction, get_for_update-get}
use quarkdb.StateMachine.Fields.Descriptors.{Describes}
use quarkdb.StateMachine.Refinement.Reads.{get_key_descriptor-Describes}
use quarkdb.StateMachine.Refinement.Hashes.{IsPaired, IsPaired-even}

pub data Command : Type 0 where
  set_string : Bytes → Command
  get_string count_fields count_elements count_items count_local : Command
  set_field set_new_field : Bytes → Bytes → Command
  set_fields delete_fields add_elements remove_elements : List Bytes → Command
  get_field : Bytes → Command
  push_back push_front : List Bytes → Command
  pop_front pop_back : Command
  set_local : Bytes → Bytes → Bytes → Command
  delete_local : List Bytes → Command
  get_local : Bytes → Bytes → Command
  increment : Bytes → Bytes → Command
  move_element : Bytes → Bytes → Command
  trim_items : Bytes → Command
  set_locals : List Bytes → Command

abbrev pub type_of : Command → KeyType
type_of (set_string v) = string
type_of get_string = string
type_of (set_field f v) = hash
type_of (set_new_field f v) = hash
type_of (set_fields request) = hash
type_of (delete_fields fs) = hash
type_of (get_field f) = hash
type_of count_fields = hash
type_of (add_elements es) = set
type_of (remove_elements es) = set
type_of count_elements = set
type_of (push_back items) = deque
type_of (push_front items) = deque
type_of pop_front = deque
type_of pop_back = deque
type_of count_items = deque
type_of (set_local f h v) = locality_hash
type_of (delete_local fs) = locality_hash
type_of (get_local f h) = locality_hash
type_of count_local = locality_hash
type_of (increment f by) = hash
type_of (move_element target e) = set
type_of (trim_items kept) = deque
type_of (set_locals request) = locality_hash

-- What a command checks before it looks at the key.
abbrev pub IsCommand : Command → Type 0
IsCommand (set_fields request) = IsPaired request
IsCommand (increment f by) = (i : ℤ) × (parse_int64 by ≡ some i)
IsCommand (trim_items kept) = (n : ℕ) × (parse_int64 kept ≡ some (pos n))
IsCommand (set_locals request) = (length request % 3 == 0) ≡ true
IsCommand _ = Unit {0}

module _ {Db Batch : Type 0} ⦃rocks : Rocks Db Batch⦄ where
  -- What a command leaves, and its status.
  abbrev pub written {ℓ} :
      {A : Type ℓ}
      → Result (StagingArea Db Batch × Status × A)
      → Result (StagingArea Db Batch × Status)
  written r = r >>= λ p. ok (p.0, p.1)

  abbrev pub unwritten {ℓ} :
      {A : Type ℓ}
      → StagingArea Db Batch
      → Result (Status × A)
      → Result (StagingArea Db Batch × Status)
  unwritten s r = r >>= λ p. ok (s, p.0)

  unfoldable pub perform :
      Bytes → StagingArea Db Batch → Command → Result (StagingArea Db Batch × Status)
  perform key s (set_string v) = written (Strings.set s key v)
  perform key s get_string = unwritten s (Strings.get s key)
  perform key s (set_field f v) = written (hset s key f v)
  perform key s (set_new_field f v) = written (hsetnx s key f v)
  perform key s (set_fields request) = written (hmset s key request)
  perform key s (delete_fields fs) = written (hdel s key fs)
  perform key s (get_field f) = unwritten s (hget s key f)
  perform key s count_fields = unwritten s (hlen s key)
  perform key s (add_elements es) = written (sadd s key es)
  perform key s (remove_elements es) = written (srem s key es)
  perform key s count_elements = unwritten s (scard s key)
  perform key s (push_back items) = written (deque_push_back s key items)
  perform key s (push_front items) = written (deque_push_front s key items)
  perform key s pop_front = written (deque_pop_front s key)
  perform key s pop_back = written (deque_pop_back s key)
  perform key s count_items = unwritten s (deque_len s key)
  perform key s (set_local f h v) = written (lhset s key f h v)
  perform key s (delete_local fs) = written (lhdel s key fs)
  perform key s (get_local f h) = unwritten s (lhget s key f h)
  perform key s count_local = unwritten s (lhlen s key)
  perform key s (increment f by) = written (hincrby s key f by)
  perform key s (move_element target e) = written (smove s key target e)
  perform key s (trim_items kept) = written (deque_trim_front s key kept)
  perform key s (set_locals request) = written (lhmset s key request)

  module _ (s : StagingArea Db Batch) (key : Bytes) (d : KeyDescriptor) (h : IsTransaction s)
      (described : Describes s key (some d)) (some_type : is_empty d ≡ false) where
    module _ (t : KeyType) (other : same_type d.key_type t ≡ false) where
      refused {ℓ} :
          {A : Type ℓ} (unset : A)
          (body : WriteOperation → Result (StagingArea Db Batch × Status × A))
          → with_operation s key t unset body ≡ ok (s, wrong_type, unset)
      unfolding write_operation construct_descriptor operation_on destroy
      refused unset body =
          rw
            (
              get_for_update-get s (descriptor_locator key) h,
              described.1,
              described.2,
              some_type,
              other,
            )
            refl

      read_refused : assert_key_type s key t ≡ ok false
      unfolding assert_key_type
      read_refused =
          rw (get_key_descriptor-Describes s key (some d) described, some_type, other) refl

      length_refused : length_of s key t ≡ ok (wrong_type, 0)
      unfolding is_wrong_type
      length_refused =
          rw (get_key_descriptor-Describes s key (some d) described, some_type, other) refl

    -- On a key that has a descriptor of another type, set, get and the commands on hashes, sets, deques and
    -- locality hashes listed in `Command`, with an argument that they take, return the error about the wrong
    -- type, and leave the area as it was. For smove the key is the source.
    pub wrong_type_refused :
        (c : Command)
        → IsCommand c
        → same_type d.key_type (type_of c) ≡ false
        → perform key s c ≡ ok (s, wrong_type)
    unfolding perform Strings.set Strings.get hset hsetnx hmset hdel hget hlen hincrby sadd srem
        scard smove deque_push_back deque_push_front deque_push deque_pop_front deque_pop_back
        deque_pop deque_len deque_trim_front lhset lhmset lhdel lhget lhlen
    wrong_type_refused (set_string v) p o = >>=-ok _ (refused string o tt _) refl
    wrong_type_refused get_string p o = >>=-ok _ (>>=-ok _ (read_refused string o) refl) refl
    wrong_type_refused (set_field f v) p o = >>=-ok _ (refused hash o false _) refl
    wrong_type_refused (set_new_field f v) p o = >>=-ok _ (refused hash o false _) refl
    wrong_type_refused (set_fields request) p o =
        rw (IsPaired-even request p) (>>=-ok _ (refused hash o tt _) refl)
    wrong_type_refused (delete_fields fs) p o = >>=-ok _ (refused hash o 0 _) refl
    wrong_type_refused (get_field f) p o = >>=-ok _ (>>=-ok _ (read_refused hash o) refl) refl
    wrong_type_refused count_fields p o = >>=-ok _ (length_refused hash o) refl
    wrong_type_refused (add_elements es) p o = >>=-ok _ (refused set o 0 _) refl
    wrong_type_refused (remove_elements es) p o = >>=-ok _ (refused set o 0 _) refl
    wrong_type_refused count_elements p o = >>=-ok _ (length_refused set o) refl
    wrong_type_refused (push_back items) p o = >>=-ok _ (refused deque o 0 _) refl
    wrong_type_refused (push_front items) p o = >>=-ok _ (refused deque o 0 _) refl
    wrong_type_refused pop_front p o = >>=-ok _ (refused deque o [] _) refl
    wrong_type_refused pop_back p o = >>=-ok _ (refused deque o [] _) refl
    wrong_type_refused count_items p o = >>=-ok _ (length_refused deque o) refl
    wrong_type_refused (set_local f h v) p o = >>=-ok _ (refused locality_hash o false _) refl
    wrong_type_refused (delete_local fs) p o = >>=-ok _ (refused locality_hash o 0 _) refl
    wrong_type_refused (get_local f h) p o =
        >>=-ok _ (>>=-ok _ (read_refused locality_hash o) refl) refl
    wrong_type_refused count_local p o = >>=-ok _ (length_refused locality_hash o) refl
    wrong_type_refused (increment f by) (i, parsed) o =
        rw parsed (>>=-ok _ (refused hash o (pos 0) _) refl)
    wrong_type_refused (move_element target e) p o = >>=-ok _ (refused set o 0 _) refl
    wrong_type_refused (trim_items kept) (n, parsed) o =
        rw parsed (>>=-ok _ (refused deque o 0 _) refl)
    wrong_type_refused (set_locals request) p o =
        rw p (>>=-ok _ (refused locality_hash o tt _) refl)
