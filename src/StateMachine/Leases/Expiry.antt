-- ===== src/StateMachine/Leases/Expiry.antt =====
-- src/StateMachine.cc, advanceClock: how its loop ends.
use native.Mathlib.Nat.{zero-add, suc-add}
use quarkdb.Base.{
  ℕ, zero, suc, ◌+◌, ◌<◌, ◌≤◌, All, ◌≡◌, refl, ◌∙◌, sym, ap, Bool, true, false, not, none, List, [],
  ◌∷◌, Bytes, length, ltb, arith, Result, ok, thrown, throw_if, >>=-eq-ok, >>=-congr, inl, inr,
  Option-cases, assertion_violation, unexpected_status, clock_in_past, Bool-cases,
}
use quarkdb.StateMachine.Database.{Rocks}
use quarkdb.StateMachine.StagingArea.{StagingArea, exists, put, del, single_delete}
use quarkdb.StateMachine.ExpirationEventCache.{ExpirationEventCache, remove, length-remove}
use quarkdb.StateMachine.WriteOperation.{WriteOperation, write_operation, destroy}
use quarkdb.StateMachine.Status.{Status, return_finalize}
use mathlib.Core.Path.{subst}
use quarkdb.Storage.BinaryInt.{int_to_binary_string}
use quarkdb.Storage.Locators.{lease_locator}
use quarkdb.Storage.Expiration.{expiration_event_locator}
use quarkdb.Storage.DescriptorAccess.{get_end_index}
use quarkdb.Storage.KeyType.{lease}
use quarkdb.StateMachine.Leases.Deadlines.{IsBuilt, removed, none_passed}
use quarkdb.StateMachine.Leases.{
  is_success, drop_lease, release_existing, release_valid, release_now, release_front, front_lease,
  expire_turn, expire_loop, advance_clock, get_clock, clock_key,
}

no_front :
    (new_value : ℕ) (events : List (ℕ × Bytes))
    → length events ≤ 0
    → front_lease new_value events ≡ none
no_front new_value [] h = refl
no_front new_value (e ∷ events) h = elim h [ ]

-- A deadline of the lease has been removed.
abbrev Forgets : Bytes → ExpirationEventCache → ExpirationEventCache → Type 0
Forgets name cache left = (end : ℕ) × (remove cache end name ≡ ok left)

length-Forgets :
    (cache left : ExpirationEventCache) (name : Bytes)
    → Forgets name cache left
    → length cache.contents ≡ length left.contents + 1
length-Forgets cache left name (end, e) = length-remove cache left end name e

module _ {Db Batch : Type 0} ⦃rocks : Rocks Db Batch⦄ where
  drop_lease-Forgets :
      (s t : StagingArea Db Batch) (cache left : ExpirationEventCache) (key : Bytes)
      (op : WriteOperation) (status : Status)
      → drop_lease s cache key op ≡ ok (t, left, status)
      → Forgets key cache left
  drop_lease-Forgets s t cache left key op status e =
      let (end, a, e1) = >>=-eq-ok (get_end_index op.key_info) _ e in
      let (b, c, e2) =
        >>=-eq-ok (throw_if (not (exists s (expiration_event_locator end key))) unexpected_status) _
          e1 in
      let (forgotten, forgotten_now, e3) = >>=-eq-ok (remove cache end key) _ e2 in
      let (u, f, e4) = >>=-eq-ok (single_delete s (expiration_event_locator end key)) _ e3 in
      let (g, h, e5) =
        >>=-eq-ok (throw_if (not (exists u (lease_locator key))) unexpected_status) _ e4 in
      let (v, i, e6) = >>=-eq-ok (del u (lease_locator key)) _ e5 in
      let (w, j, e7) = >>=-eq-ok (return_finalize v op 0 false) _ e6 in
      (end, subst (λ c. remove cache end key ≡ ok c) (ap (left_of forgotten) e7) forgotten_now)
    where
      left_of :
          ExpirationEventCache
          → Result (StagingArea Db Batch × ExpirationEventCache × Status)
          → ExpirationEventCache
      left_of default (thrown fault) = default
      left_of default (ok r) = r.1

  -- A turn of the loop that returns forgets one deadline.
  release_front-Forgets :
      (s t : StagingArea Db Batch) (cache left : ExpirationEventCache) (name : Bytes)
      → release_front s cache name ≡ ok (t, left)
      → Forgets name cache left
  unfolding release_now
  release_front-Forgets s t cache left name e =
      let ((u, forgotten, status), released, e1) = >>=-eq-ok (release_now s cache name) _ e in
      let (a, fine, e2) = >>=-eq-ok (throw_if (not (is_success status)) assertion_violation) _ e1 in
      let (op, started, e3) = >>=-eq-ok (write_operation s name lease) _ released in
      subst (Forgets name cache) (ap (left_of forgotten) e2)
        (valid_case u forgotten status op op.is_valid e3 (fine_status status fine))
    where
      left_of :
          ExpirationEventCache
          → Result (StagingArea Db Batch × ExpirationEventCache)
          → ExpirationEventCache
      left_of default (thrown fault) = default
      left_of default (ok r) = r.1

      fine_status :
          (status : Status) {a : Unit {0}}
          → throw_if (not (is_success status)) assertion_violation ≡ ok a
          → is_success status ≡ true
      fine_status status p = elim (Bool-cases (is_success status)) [
        | inl q ↦ q
        | inr q ↦ absurd (unlike (sym (rw q refl) ∙ p))
      ]
        where
          unlike :
              {a : Unit {0}} → ◌≡◌ {A = Result (Unit {0})} (thrown assertion_violation) (ok a) → ⊥
          unlike z = cc

      status_of : Result (StagingArea Db Batch × ExpirationEventCache × Status) → Bool
      status_of (thrown fault) = false
      status_of (ok r) = is_success r.2

      existing_case :
          (u : StagingArea Db Batch) (forgotten : ExpirationEventCache) (status : Status)
          (op : WriteOperation) (b : Bool)
          → release_existing s cache name op b ≡ ok (u, forgotten, status)
          → is_success status ≡ true
          → Forgets name cache forgotten
      existing_case u forgotten status op true p fine =
          drop_lease-Forgets s u cache forgotten name op status p
      existing_case u forgotten status op false p fine =
          let (w, ended, last) = >>=-eq-ok (return_finalize s op 0 false) _ p in
          absurd (unlike (ap status_of last ∙ fine))
        where
          unlike : ◌≡◌ {A = Bool} false true → ⊥
          unlike z = cc

      valid_case :
          (u : StagingArea Db Batch) (forgotten : ExpirationEventCache) (status : Status)
          (op : WriteOperation) (b : Bool)
          → release_valid s cache name op b ≡ ok (u, forgotten, status)
          → is_success status ≡ true
          → Forgets name cache forgotten
      valid_case u forgotten status op true p fine =
          existing_case u forgotten status op op.redis_key_exists p fine
      valid_case u forgotten status op false p fine =
          let (w, ended, last) = >>=-eq-ok (destroy op) _ p in
          absurd (unlike (ap status_of last ∙ fine))
        where
          unlike : ◌≡◌ {A = Bool} false true → ⊥
          unlike z = cc

  -- Turns beyond the number of deadlines change nothing.
  enough_turns :
      (n more new_value : ℕ) (s : StagingArea Db Batch) (cache : ExpirationEventCache)
      → length cache.contents ≤ n
      → expire_loop (n + more) new_value s cache ≡ expire_loop n new_value s cache
  enough_turns zero more new_value s cache h = rw zero-add (nothing_left more cache h)
    where
      nothing_left :
          (k : ℕ) (cache : ExpirationEventCache)
          → length cache.contents ≤ 0
          → expire_loop k new_value s cache ≡ ok (s, cache)
      nothing_left zero cache h = refl
      nothing_left (suc k) cache h =
          ap (expire_turn (expire_loop k new_value) s cache) (no_front new_value cache.contents h)
  enough_turns (suc n) more new_value s cache h =
      rw suc-add (elim (Option-cases (front_lease new_value cache.contents)) [
        | inl e ↦
            ap (expire_turn (expire_loop (n + more) new_value) s cache) e
            ∙ sym (ap (expire_turn (expire_loop n new_value) s cache) e)
        | inr (name, e) ↦
            ap (expire_turn (expire_loop (n + more) new_value) s cache) e
            ∙ (>>=-congr (release_front s cache name)
                (λ r. expire_loop (n + more) new_value r.0 r.1)
                (λ r. expire_loop n new_value r.0 r.1)
                (λ r released. enough_turns n more new_value r.0 r.1 (
                  omega (
                    arith,
                    length-Forgets cache r.1 name
                        (release_front-Forgets s r.0 cache r.1 name released),
                  ))))
            ∙ sym (ap (expire_turn (expire_loop n new_value) s cache) e)
      ])

  left_of :
      ExpirationEventCache
      → Result (StagingArea Db Batch × ExpirationEventCache)
      → ExpirationEventCache
  left_of default (thrown fault) = default
  left_of default (ok r) = r.1

  all_expired :
      (n new_value : ℕ) (s t : StagingArea Db Batch) (cache left : ExpirationEventCache)
      → length cache.contents ≤ n
      → IsBuilt cache
      → expire_loop n new_value s cache ≡ ok (t, left)
      → IsBuilt left × (front_lease new_value left.contents ≡ none)
  unfolding left_of
  all_expired zero new_value s t cache left h b e =
      subst (λ c. IsBuilt c × (front_lease new_value c.contents ≡ none)) (ap (left_of left) e)
        ((b, no_front new_value cache.contents h))
  all_expired (suc n) new_value s t cache left h b e =
      elim (Option-cases (front_lease new_value cache.contents)) [
        | inl none_there ↦
            subst (λ c. IsBuilt c × (front_lease new_value c.contents ≡ none))
              (ap (left_of left)
                (sym (ap (expire_turn (expire_loop n new_value) s cache) none_there) ∙ e))
              ((b, none_there))
        | inr (name, there) ↦
            let ((u, forgotten), released, rest) =
              >>=-eq-ok (release_front s cache name) (λ r. expire_loop n new_value r.0 r.1)
                (sym (ap (expire_turn (expire_loop n new_value) s cache) there) ∙ e) in
            let f = release_front-Forgets s u cache forgotten name released in
            all_expired n new_value u t forgotten left
              (omega (arith, length-Forgets cache forgotten name f)) (removed f.0 name b f.1) rest
      ]

  -- If a call returns, all the deadlines that it leaves are ahead of the clock.
  abbrev pub LeavesAhead : ℕ → Result (StagingArea Db Batch × ExpirationEventCache) → Type 0
  LeavesAhead new_value (thrown fault) = Unit {0}
  LeavesAhead new_value (ok r) = All (λ (e : ℕ × Bytes). new_value < e.0) r.1.contents

  advance_clock-LeavesAhead :
      (new_value : ℕ) (s : StagingArea Db Batch) (cache : ExpirationEventCache)
      (r : Result (StagingArea Db Batch × ExpirationEventCache))
      → IsBuilt cache
      → advance_clock s cache new_value ≡ r
      → LeavesAhead new_value r
  unfolding advance_clock left_of
  advance_clock-LeavesAhead new_value s cache (thrown fault) built e = tt
  advance_clock-LeavesAhead new_value s cache (ok (u, left)) built e =
      let n = length cache.contents in
      let (prev_value, a, e1) = >>=-eq-ok (get_clock s) _ e in
      let (b, c, e2) = >>=-eq-ok (throw_if (ltb new_value prev_value) clock_in_past) _ e1 in
      let ((t, later), looped, e3) = >>=-eq-ok (expire_loop n new_value s cache) _ e2 in
      let (v, d, last) = >>=-eq-ok (put t clock_key (int_to_binary_string new_value)) _ e3 in
      let (later_built, front) =
        all_expired n new_value s t cache later (omega arith) built looped in
      subst (λ c. All (λ (e : ℕ × Bytes). new_value < e.0) c.contents) (ap (left_of later) last)
        (none_passed new_value later later_built front)

  -- For a cache that has been filled by insert and remove, the loop of advanceClock ends by itself: with
  -- more turns than there are deadlines it does the same, whether it returns or throws; and when
  -- advanceClock returns, every deadline that is left is above the new value of the clock.
  pub advance_clock_ends :
      (more new_value : ℕ) (s : StagingArea Db Batch) (cache : ExpirationEventCache)
      → IsBuilt cache
      → (expire_loop (length cache.contents + more) new_value s cache
          ≡ expire_loop (length cache.contents) new_value s cache)
        × LeavesAhead new_value (advance_clock s cache new_value)
  advance_clock_ends more new_value s cache built = (
    enough_turns (length cache.contents) more new_value s cache (omega arith),
    advance_clock-LeavesAhead new_value s cache (advance_clock s cache new_value) built refl,
  )
