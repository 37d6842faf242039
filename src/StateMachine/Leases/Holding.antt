-- ===== src/StateMachine/Leases/Holding.antt =====
-- src/StateMachine.cc, lease_acquire: what the writes of an acquisition leave at the lease.
use quarkdb.Base.{
  ℕ, ◌≡◌, refl, ◌∙◌, sym, ap, inl, inr, Bool, true, false, not, ◌&&◌, ◌||◌, ◌==◌, leb, ◌^◌,
  Bool-cases, some, none, Bytes, bytes_eq, bytes_eq_iff, if◌then◌else◌, arith, Result, ok, thrown,
  throw_if, >>=-eq-ok, invalid_newsize, unexpected_status, write_needs_field, Option,
}
use mathlib.Core.Path.{subst}
use quarkdb.Storage.KeyType.{KeyType, versioned_hash, deque, lease, string}
use quarkdb.Storage.KeyDescriptor.{KeyDescriptor, serialize}
use quarkdb.Storage.DescriptorAccess.{same_type, get_size, set_size, get_end_index, set_end_index}
use quarkdb.Storage.Locators.{descriptor_locator, lease_locator, string_locator}
use quarkdb.Storage.Expiration.{expiration_event_locator}
use quarkdb.StateMachine.Database.{Rocks}
use quarkdb.StateMachine.StagingArea.{StagingArea, get, put, del, single_delete, exists}
use quarkdb.StateMachine.WriteOperation.{
  WriteOperation, assert_writable, write, finalize, keep_descriptor, update_size, drop_descriptor,
  destroy,
}
use quarkdb.StateMachine.Status.{return_finalize}
use quarkdb.StateMachine.ExpirationEventCache.{ExpirationEventCache, remove}
use quarkdb.StateMachine.Leases.Acquisition.{wipe_event}
use quarkdb.StateMachine.Fields.{IsTransaction, Changes, put-Changes, del-Changes}

indices_no_string :
    (t : KeyType) → (same_type t deque || same_type t lease) ≡ true → same_type t string ≡ false
indices_no_string t h = ground arith

lease_no_string : (t : KeyType) → same_type t lease ≡ true → same_type t string ≡ false
lease_no_string t h = ground arith

typed :
    (d : KeyDescriptor) (n : ℕ) (i : KeyDescriptor)
    → set_end_index d n ≡ ok i
    → (same_type i.key_type deque || same_type i.key_type lease) ≡ true
unfolding set_end_index
typed d n i e = ground arith

descriptor_no_lease : (key : Bytes) → bytes_eq (descriptor_locator key) (lease_locator key) ≡ false
unfolding descriptor_locator lease_locator bytes_eq
descriptor_no_lease key = refl

module _ {Db Batch : Type 0} ⦃rocks : Rocks Db Batch⦄ where
  area_of : StagingArea Db Batch → Result (StagingArea Db Batch) → StagingArea Db Batch
  area_of default (thrown fault) = default
  area_of default (ok s) = s

  same_area :
      (s u : StagingArea Db Batch) → ◌≡◌ {A = Result (StagingArea Db Batch)} (ok s) (ok u) → s ≡ u
  unfolding area_of
  same_area s u e = ap (area_of s) e

  -- A put or a delete that returned.
  pub put-Changed :
      (s u : StagingArea Db Batch) (j x : Bytes)
      → IsTransaction s
      → put s j x ≡ ok u
      → Changes s j (some x) u
  put-Changed s u j x h e =
      let (v, run, c) = put-Changes s j x h in
      subst (Changes s j (some x)) (same_area v u (sym run ∙ e)) c

  del-Changed :
      (s u : StagingArea Db Batch) (j : Bytes)
      → IsTransaction s
      → del s j ≡ ok u
      → Changes s j none u
  del-Changed s u j h e =
      let (v, run, c) = del-Changes s j h in
      subst (Changes s j none) (same_area v u (sym run ∙ e)) c

  pub wipe_event-IsTransaction :
      (s u : StagingArea Db Batch) (cache left : ExpirationEventCache) (key : Bytes)
      (op : WriteOperation) (b : Bool)
      → IsTransaction s
      → wipe_event s cache key op b ≡ ok (u, left)
      → IsTransaction u
  unfolding single_delete area_of
  wipe_event-IsTransaction s u cache left key op false h e = subst IsTransaction (ap first e) h
    where
      first : Result (StagingArea Db Batch × ExpirationEventCache) → StagingArea Db Batch
      first (thrown fault) = s
      first (ok r) = r.0
  wipe_event-IsTransaction s u cache left key op true h e =
      let (end, a, e1) = >>=-eq-ok (get_end_index op.key_info) _ e in
      let (forgotten, b, e2) = >>=-eq-ok (remove cache end key) _ e1 in
      let (c, d, e3) =
        >>=-eq-ok (throw_if (not (exists s (expiration_event_locator end key))) unexpected_status) _
          e2 in
      let (t, deleted, last) =
        >>=-eq-ok (single_delete s (expiration_event_locator end key)) _ e3 in
      let (f, g, e4) = >>=-eq-ok (throw_if s.read_only _) _ deleted in
      let (k, l, e5) = >>=-eq-ok (throw_if s.bulk_load _) _ e4 in
      subst IsTransaction (ap (area_of s) e5 ∙ ap first last)
        (record { no_bulk_load = h.no_bulk_load; writable = h.writable })
    where
      first : Result (StagingArea Db Batch × ExpirationEventCache) → StagingArea Db Batch
      first (thrown fault) = s
      first (ok r) = r.0

  -- A write of an operation that has just got an end index is one of a lease.
  write-Changed :
      (s u : StagingArea Db Batch) (op : WriteOperation) (d : KeyDescriptor) (n : ℕ) (value : Bytes)
      → IsTransaction s
      → set_end_index d n ≡ ok op.key_info
      → write s op value ≡ ok u
      → Changes s (lease_locator op.redis_key) (some value) u
  unfolding write
  write-Changed s u op d n value h indexed e =
      let (a, b, e1) = >>=-eq-ok (assert_writable op) _ e in
      put-Changed s u (lease_locator op.redis_key) value h
        (of_type op.key_info.key_type (typed d n op.key_info indexed) e1)
    where
      of_type :
          (t : KeyType)
          → (same_type t deque || same_type t lease) ≡ true
          → (if same_type t string
              then put s (string_locator op.redis_key) value
              else if same_type t lease
              then put s (lease_locator op.redis_key) value
              else thrown write_needs_field)
            ≡ ok u
          → put s (lease_locator op.redis_key) value ≡ ok u
      of_type t h w = elim (Bool-cases (same_type t lease)) [
        | inl leased ↦ sym (rw (lease_no_string t leased, leased) refl) ∙ w
        | inr unleased ↦ absurd (unlike (sym (rw (indices_no_string t h, unleased) refl) ∙ w))
      ]
        where
          unlike :
              {u : StagingArea Db Batch}
              → ◌≡◌ {A = Result (StagingArea Db Batch)} (thrown write_needs_field) (ok u)
              → ⊥
          unlike z = cc

  -- The end of an operation writes or drops the descriptor, and nothing else.
  pub finalize-elsewhere :
      (s u : StagingArea Db Batch) (op : WriteOperation) (n : ℕ) (force : Bool) (k : Bytes)
      → IsTransaction s
      → bytes_eq (descriptor_locator op.redis_key) k ≡ false
      → return_finalize s op n force ≡ ok u
      → get u k ≡ get s k
  unfolding finalize
  finalize-elsewhere s u op n force k h other e =
      let ((closed, t), ended, e1) = >>=-eq-ok (finalize s op n force) _ e in
      let (a, b, e2) = >>=-eq-ok (destroy closed) _ e1 in
      let (c, d, e3) = >>=-eq-ok (assert_writable op) _ ended in
      let (f, g, e4) = >>=-eq-ok (throw_if (leb (2 ^ 63) n) invalid_newsize) _ e3 in
      ap (λ w. get w k) (sym (same_area t u e2))
      ∙ by_size t closed (n == 0 && not (same_type op.key_info.key_type versioned_hash)) e4
    where
      second : Result (WriteOperation × StagingArea Db Batch) → StagingArea Db Batch
      second (thrown fault) = s
      second (ok r) = r.1

      elsewhere :
          (t : StagingArea Db Batch) (x : Option Bytes)
          → Changes s (descriptor_locator op.redis_key) x t
          → get t k ≡ get s k
      elsewhere t x c = c.reads k ∙ rw other refl

      by_force :
          (t : StagingArea Db Batch) (closed : WriteOperation) (b : Bool)
          → update_size s op n b ≡ ok (closed, t)
          → get t k ≡ get s k
      by_force t closed false p = ap (λ w. get w k) (sym (ap second p))
      by_force t closed true p =
          let (key_info, a, p1) = >>=-eq-ok (set_size op.key_info n) _ p in
          let (serialized, b, p2) = >>=-eq-ok (serialize key_info) _ p1 in
          let (v, c, p3) = >>=-eq-ok (put s (descriptor_locator op.redis_key) serialized) _ p2 in
          ap (λ w. get w k) (sym (ap second p3))
          ∙ elsewhere v (some serialized)
              (put-Changed s v (descriptor_locator op.redis_key) serialized h c)

      by_size :
          (t : StagingArea Db Batch) (closed : WriteOperation) (b : Bool)
          → (if b then drop_descriptor s op else keep_descriptor s op n force) ≡ ok (closed, t)
          → get t k ≡ get s k
      by_size t closed true p =
          let (v, c, p1) = >>=-eq-ok (del s (descriptor_locator op.redis_key)) _ p in
          ap (λ w. get w k) (sym (ap second p1))
          ∙ elsewhere v none (del-Changed s v (descriptor_locator op.redis_key) h c)
      by_size t closed false p =
          let (size, a, p1) = >>=-eq-ok (get_size op.key_info) _ p in
          by_force t closed (not (size == n) || force) p1

  -- The lease after the write and the end of the operation.
  pub written-lease :
      (s x w : StagingArea Db Batch) (op : WriteOperation) (d : KeyDescriptor) (deadline n : ℕ)
      (value : Bytes) (force : Bool)
      → IsTransaction s
      → set_end_index d deadline ≡ ok op.key_info
      → write s op value ≡ ok x
      → return_finalize x op n force ≡ ok w
      → get w (lease_locator op.redis_key) ≡ some value
  written-lease s x w op d deadline n value force h indexed wrote ended =
      let c = write-Changed s x op d deadline value h indexed wrote in
      let lease_key = lease_locator op.redis_key in
      finalize-elsewhere x w op n force lease_key c.transaction (descriptor_no_lease op.redis_key)
        ended
      ∙ c.reads lease_key
      ∙ rw ((bytes_eq_iff lease_key lease_key).1 refl) refl
