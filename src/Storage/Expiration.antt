-- ===== src/Storage/Expiration.antt =====
-- src/storage/KeyLocators.hh (ExpirationEventLocator) and storage/ExpirationEventIterator.cc: the key of an
-- expiration event, its deadline and redis key, and the check of the iterator that deadlines do not
-- fall. The database's own iterator is left out: it meets keys in the order of their bytes.
use quarkdb.Base.{
  ℕ, ◌+◌, ◌^◌, ◌≤◌, ◌<◌, ◌≡◌, refl, ◌∙◌, ap, sym, true, false, Bool-cases, inl, inr, List, [], ◌∷◌,
  ◌++◌, Bytes, arith, ltb, leb, not, take, drop, Result, ok, ◌>>◌, throw_if, assertion_violation,
}
use quarkdb.Storage.BinaryInt.{
  int_to_binary_string, binary_string_to_int, binary_string_to_int-int_to_binary_string, bytes_less,
  last_bytes, last_bytes-less, length-last_bytes, less-append,
}

-- '@' is InternalKeyType::kExpirationEvent.
unfoldable pub expiration_event_locator : ℕ → Bytes → Bytes
expiration_event_locator deadline key = 64 ∷ int_to_binary_string deadline ++ key

-- getDeadline and getRedisKey, of the key that the iterator is at.
unfoldable pub event_deadline : Bytes → ℕ
event_deadline key = binary_string_to_int (take 8 (drop 1 key))

unfoldable pub event_redis_key : Bytes → Bytes
event_redis_key key = drop 9 key

-- assertDeadlineSanity at each key that the iterator meets, from `last_deadline` on.
unfoldable pub assert_deadline_sanity : ℕ → List Bytes → Result ℕ
assert_deadline_sanity last_deadline [] = ok last_deadline
assert_deadline_sanity last_deadline (key ∷ keys) =
    let deadline = event_deadline key in
    let later = assert_deadline_sanity deadline keys in
    throw_if (not (leb last_deadline deadline)) assertion_violation >> later

-- The iterator reads the deadline, if it is below 2^64, and the redis key off the key of an event.
pub event_deadline-locator :
    (deadline : ℕ) (key : Bytes)
    → deadline < 2 ^ 64
    → (event_deadline (expiration_event_locator deadline key) ≡ deadline)
      × (event_redis_key (expiration_event_locator deadline key) ≡ key)
unfolding event_deadline event_redis_key expiration_event_locator int_to_binary_string
event_deadline-locator deadline key h = (binary_string_to_int-int_to_binary_string deadline h, refl)

-- An earlier deadline makes a lesser key, whatever the redis keys.
locator-less :
    (a b : ℕ) (k l : Bytes)
    → a < b
    → b < 2 ^ 64
    → bytes_less (expiration_event_locator a k) (expiration_event_locator b l) ≡ true
unfolding expiration_event_locator int_to_binary_string
locator-less a b k l h w =
    less-append (64 ∷ last_bytes 8 a) (64 ∷ last_bytes 8 b) k l
      (ap (λ n. n + 1) (length-last_bytes 8 a ∙ sym (length-last_bytes 8 b)))
      (last_bytes-less 8 a b h (omega arith))

-- The keys of events, with deadlines that fit, as the database's iterator meets them: none is less than
-- the one before.
abbrev pub event_keys : List (ℕ × Bytes) → List Bytes
event_keys [] = []
event_keys ((deadline, key) ∷ events) = expiration_event_locator deadline key ∷ event_keys events

abbrev pub InOrder : Bytes → List Bytes → Type 0
InOrder previous [] = Unit {0}
InOrder previous (key ∷ keys) = (bytes_less key previous ≡ false) × InOrder key keys

abbrev pub Fits : List (ℕ × Bytes) → Type 0
Fits [] = Unit {0}
Fits ((deadline, key) ∷ events) = (deadline < 2 ^ 64) × Fits events

not_less_le :
    (a b : ℕ) (k l : Bytes)
    → a < 2 ^ 64
    → bytes_less (expiration_event_locator b l) (expiration_event_locator a k) ≡ false
    → a ≤ b
not_less_le a b k l w h = elim (Bool-cases (ltb b a)) [
  | inl e ↦ ground (arith, e, locator-less b a l k (ground (arith, e)) w)
  | inr e ↦ ground (arith, e)
]

-- Over keys of events in the order of the database, from one event on, the check that deadlines do not
-- fall never fails, if the deadlines are below 2^64.
pub deadlines_do_not_fall :
    (deadline : ℕ) (key : Bytes) (events : List (ℕ × Bytes))
    → deadline < 2 ^ 64
    → Fits events
    → InOrder (expiration_event_locator deadline key) (event_keys events)
    → (last : ℕ) × (assert_deadline_sanity deadline (event_keys events) ≡ ok last)
      × (deadline ≤ last)
unfolding assert_deadline_sanity
deadlines_do_not_fall deadline key [] w fits order = (deadline, refl, omega arith)
deadlines_do_not_fall deadline key ((next, k) ∷ events) w fits order =
    let later = not_less_le deadline next key k w order.0 in
    let (last, h, up) = deadlines_do_not_fall next k events fits.0 fits.1 order.1 in
    let (read, same) = event_deadline-locator next k fits.0 in
    (last, rw read (ground (arith, later, h)), omega arith)
