-- ===== src/Base/Throwing.antt =====
-- Code that may throw. `qdb_throw` and a failing `qdb_assert` raise a FatalException, which nothing
-- in the server catches: the state that it leaves behind is not looked at again.
use mathlib.Core.Path.{◌≡◌, refl}
use mathlib.Core.Bool.{Bool, true, false}

pub data Fault : Type 0 where
  -- RaftJournal
  remove_committed : Fault
  commit_missing_entry : Fault
  trim_past_end : Fault
  trim_uncommitted : Fault
  missing_entry : Fault
  missing_key : Fault
  bad_membership_entry : Fault
  cannot_parse_members : Fault
  -- RaftDispatcher
  heartbeat_from_myself : Fault
  vote_request_from_myself : Fault
  term_mismatch : Fault
  conflicting_leader : Fault
  overwrite_committed : Fault
  remove_applied : Fault
  -- qdb_assert, and an index past the end of a vector
  out_of_range : Fault
  assertion_violation : Fault
  -- KeyDescriptor
  unknown_key_type : Fault
  -- StagingArea, WriteOperation and StateMachine
  readonly_staging_area : Fault
  deletion_in_bulk_load : Fault
  operation_not_valid : Fault
  operation_finalized : Fault
  invalid_newsize : Fault
  write_needs_field : Fault
  write_takes_no_field : Fault
  bad_request_size : Fault
  unexpected_status : Fault
  illegal_last_applied : Fault
  clock_in_past : Fault
  unknown_lease : Fault
  -- std::vector::resize, and the bound of a loop whose rounds the model counts
  length_error : Fault
  rounds_exhausted : Fault
  -- std::terminate
  terminated : Fault

pub data Result {ℓ} (Value : Type ℓ) : Type ℓ where
  thrown : Fault → Result Value
  ok : Value → Result Value

module _ {ℓ κ} {Value : Type ℓ} {Next : Type κ} where
  infixl 5 ◌>>=◌
  abbrev pub ◌>>=◌ : Result Value → (Value → Result Next) → Result Next
  thrown fault >>= next = thrown fault
  ok value >>= next = next value

  -- A call that returns, and then the rest.
  pub >>=-ok :
      (next : Value → Result Next) {first : Result Value} {value : Value} {last : Result Next}
      → first ≡ ok value
      → next value ≡ last
      → (first >>= next) ≡ last
  >>=-ok next e rest = rw e rest

  -- Two ways to go on that agree on what the call returns.
  pub >>=-congr :
      (first : Result Value) (f g : Value → Result Next)
      → ((value : Value) → first ≡ ok value → f value ≡ g value)
      → (first >>= f) ≡ (first >>= g)
  >>=-congr (thrown fault) f g same = refl
  >>=-congr (ok value) f g same = same value refl

  -- What a chain of calls that returned has been through.
  pub >>=-eq-ok :
      (first : Result Value) (next : Value → Result Next) {last : Next}
      → (first >>= next) ≡ ok last
      → (value : Value) × (first ≡ ok value) × (next value ≡ ok last)
  >>=-eq-ok (thrown fault) next returned = cc
  >>=-eq-ok (ok value) next returned = (value, refl, returned)

infixl 5 ◌>>◌
abbrev pub ◌>>◌ {κ} : {Next : Type κ} → Result (Unit {0}) → Result Next → Result Next
check >> next = check >>= λ done. next

-- `if(test) qdb_throw(fault);`
abbrev pub throw_if : Bool → Fault → Result (Unit {0})
throw_if false fault = ok tt
throw_if true fault = thrown fault
