-- ===== src/StateMachine/Leases/Ownership.antt =====
-- src/StateMachine.cc, lease_acquire: who may get a lease.
use quarkdb.Base.{
  codes, ◌&&◌, ◌||◌, ◌≡◌, ◌≢◌, ◌⊎◌, inl, inr, refl, sym, ap, ◌∙◌, Bool, true, false, Option, none,
  some, Bytes, bytes_eq, bytes_eq_iff, length, ◌==◌, ℕ, if◌then◌else◌, Result, ok, thrown, throw_if,
  >>=-eq-ok, assertion_violation,
}
use quarkdb.Storage.KeyType.{lease}
use quarkdb.Storage.Locators.{lease_locator, descriptor_locator}
use quarkdb.Storage.DescriptorAccess.{
  is_empty, same_type, get_start_index, get_end_index, set_start_index, set_end_index,
}
use quarkdb.Storage.Expiration.{expiration_event_locator}
use quarkdb.StateMachine.Database.{Rocks}
use quarkdb.StateMachine.StagingArea.{StagingArea, get, put, get_for_update}
use quarkdb.StateMachine.WriteOperation.{
  WriteOperation, cancel, construct_descriptor, destroy, operation_on, initial_key_info, write,
  write_operation,
}
use quarkdb.StateMachine.Status.{plus64, return_finalize}
use quarkdb.StateMachine.ExpirationEventCache.{ExpirationEventCache, insert}
use quarkdb.StateMachine.Fields.{IsTransaction}
use quarkdb.StateMachine.Leases.Holding.{wipe_event-IsTransaction, put-Changed, written-lease}
use quarkdb.StateMachine.Leases.{LeaseInfo, maybe_advance_clock}
use quarkdb.StateMachine.Leases.Acquisition.{
  LeaseAcquisitionStatus, key_type_mismatch, acquired, renewed, failed_due_to_other_owner,
  lease_acquire, acquire_valid, acquire_held, acquire_from, acquire_granted, refuse, wipe_event,
}

abbrev pub Reply : Type 0 → Type 0 → Type 0
Reply Db Batch =
    StagingArea Db Batch × ExpirationEventCache × LeaseAcquisitionStatus × Option LeaseInfo

module _ {Db Batch : Type 0} ⦃rocks : Rocks Db Batch⦄ where
  -- What becomes of a request for a lease, on the area `t` and the deadlines `left` with the clock at `now`.
  pub data Outcome (t : StagingArea Db Batch) (left : ExpirationEventCache) (key value : Bytes)
      (now duration : ℕ) (r : Reply Db Batch) : Type 0 where
    -- The key is said to have another type: nothing changes.
    mismatched : r ≡ (t, left, key_type_mismatch, none) → Outcome t left key value now duration r
    -- Somebody else holds the lease: nothing changes.
    refused :
        (holder : Bytes) (start end : ℕ)
        → get t (lease_locator key) ≡ some holder
        → holder ≢ value
        → r ≡ (
          t,
          left,
          failed_due_to_other_owner,
          some (record { value = holder; last_renewal = start; deadline = end }),
        )
        → Outcome t left key value now duration r
    -- Nobody holds the lease, or the client does: it holds the lease now, and the deadline is noted.
    granted :
        (w : StagingArea Db Batch) (before more : ExpirationEventCache)
        (status : LeaseAcquisitionStatus)
        → (get t (lease_locator key) ≡ none ⊎ (get t (lease_locator key) ≡ some value))
        → (status ≡ acquired ⊎ (status ≡ renewed))
        → get w (lease_locator key) ≡ some value
        → insert before (plus64 now duration) key ≡ ok more
        → r ≡ (
          w,
          more,
          status,
          some (record { value = value; last_renewal = now; deadline = plus64 now duration }),
        )
        → Outcome t left key value now duration r

  returned : Reply Db Batch → Result (Reply Db Batch) → Reply Db Batch
  returned default (thrown fault) = default
  returned default (ok r) = r

  ok-inj : (a b : Reply Db Batch) → ◌≡◌ {A = Result (Reply Db Batch)} (ok a) (ok b) → b ≡ a
  unfolding returned
  ok-inj a b e = sym (ap (returned a) e)

  module _ (t : StagingArea Db Batch) (left : ExpirationEventCache) (key value : Bytes)
      (now duration : ℕ) (op : WriteOperation) (r : Reply Db Batch) (h : IsTransaction t)
      (named : op.redis_key ≡ key) where
    granted_case :
        (get t (lease_locator key) ≡ none ⊎ (get t (lease_locator key) ≡ some value))
        → acquire_granted t left key value now duration op ≡ ok r
        → Outcome t left key value now duration r
    granted_case free e =
        let deadline = plus64 now duration in
        let ((u, wiped), a, e1) = >>=-eq-ok (wipe_event t left key op op.redis_key_exists) _ e in
        let (started, b, e2) = >>=-eq-ok (set_start_index op.key_info now) _ e1 in
        let (key_info, c, e3) = >>=-eq-ok (set_end_index started deadline) _ e2 in
        let (more, noted, e4) = >>=-eq-ok (insert wiped deadline key) _ e3 in
        let (v, d, e5) = >>=-eq-ok (put u (expiration_event_locator deadline key) _) _ e4 in
        let (x, f, e6) = >>=-eq-ok (write v (record op { key_info = key_info }) value) _ e5 in
        let (w, g, last) =
          >>=-eq-ok (return_finalize x (record op { key_info = key_info }) (length value) true) _
            e6 in
        let u_open = wipe_event-IsTransaction t u left wiped key op op.redis_key_exists h a in
        let v_open = put-Changed u v (expiration_event_locator deadline key) (codes "1") u_open d in
        let held =
          written-lease v x w (record op { key_info = key_info }) started deadline (length value)
            value true v_open.transaction c f g in
        granted w wiped more (if op.redis_key_exists then renewed else acquired) free
          (one_of op.redis_key_exists) (ap (λ k. get w (lease_locator k)) (sym named) ∙ held) noted
          (ok-inj _ r last)
      where
        one_of :
            (exists : Bool)
            → ((if exists then renewed else acquired) ≡ acquired)
              ⊎ ((if exists then renewed else acquired) ≡ renewed)
        one_of true = inr refl
        one_of false = inl refl

    refused_case :
        (holder : Bytes)
        → get t (lease_locator key) ≡ some holder
        → holder ≢ value
        → refuse t left holder op ≡ ok r
        → Outcome t left key value now duration r
    refused_case holder held other e =
        let (start, a, e1) = >>=-eq-ok (get_start_index op.key_info) _ e in
        let (end, b, e2) = >>=-eq-ok (get_end_index op.key_info) _ e1 in
        let (c, d, last) = >>=-eq-ok (destroy (cancel op)) _ e2 in
        refused holder start end held other (ok-inj _ r last)

    held_case :
        (o : Option Bytes)
        → get t (lease_locator key) ≡ o
        → acquire_held t left key value now duration op o ≡ ok r
        → Outcome t left key value now duration r
    held_case none e h = granted_case (inl e) h
    held_case (some holder) e h = from (bytes_eq holder value) refl h
      where
        from :
            (same : Bool)
            → bytes_eq holder value ≡ same
            → acquire_from t left key value now duration op holder same ≡ ok r
            → Outcome t left key value now duration r
        from true p q = granted_case (inr (e ∙ ap some ((bytes_eq_iff holder value).0 p))) q
        from false p q =
            refused_case holder e (λ same. cc (p, (bytes_eq_iff holder value).1 same)) q

    valid_case :
        (valid : Bool)
        → acquire_valid t left key value now duration op valid ≡ ok r
        → Outcome t left key value now duration r
    valid_case false e =
        let (a, b, last) = >>=-eq-ok (destroy op) _ e in mismatched (ok-inj _ r last)
    valid_case true e = held_case (get t (lease_locator key)) refl e

  -- The operation is on the key.
  write_operation-redis_key :
      (t : StagingArea Db Batch) (key : Bytes) (op : WriteOperation)
      → write_operation t key lease ≡ ok op
      → op.redis_key ≡ key
  unfolding write_operation operation_on
  write_operation-redis_key t key op e =
      let (tmp, a, e1) = >>=-eq-ok (get_for_update t (descriptor_locator key)) _ e in
      let (found, b, e2) = >>=-eq-ok (construct_descriptor tmp) _ e1 in
      let (key_info, c, last) =
        >>=-eq-ok
          (if is_empty found && (is_empty found || same_type found.key_type lease)
            then initial_key_info lease
            else ok found)
          _ e2 in
      sym (ap key_of last)
    where
      key_of : Result WriteOperation → Bytes
      key_of (thrown fault) = key
      key_of (ok o) = o.redis_key

  -- If lease_acquire returns, after its clock update has led to the area `t` and the deadlines `left` with the
  -- clock at `now`, then it says that the key has another type, and changes nothing else; or somebody else holds the lease,
  -- who is named, and nothing else changes; or nobody or the client itself holds it, the lease is acquired or
  -- renewed from the clock on, for the duration, the client holds it, and its deadline is noted. The area takes
  -- writes and is not in a bulk load.
  pub lease_is_exclusive :
      (s t : StagingArea Db Batch) (cache left : ExpirationEventCache) (key value : Bytes)
      (clock_update duration now : ℕ) (r : Reply Db Batch)
      → IsTransaction t
      → maybe_advance_clock s cache clock_update ≡ ok (t, left, now)
      → lease_acquire s cache key value clock_update duration ≡ ok r
      → Outcome t left key value now duration r
  unfolding lease_acquire
  lease_is_exclusive s t cache left key value clock_update duration now r h advanced e =
      let (a, b, e1) = >>=-eq-ok (throw_if (length value == 0) assertion_violation) _ e in
      let (op, begun, e2) =
        >>=-eq-ok (write_operation t key lease)
          (λ op. acquire_valid t left key value now duration op op.is_valid)
          (sym (rw advanced refl) ∙ e1) in
      valid_case t left key value now duration op r h (write_operation-redis_key t key op begun)
        op.is_valid e2
