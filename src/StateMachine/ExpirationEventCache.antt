-- ===== src/StateMachine/ExpirationEventCache.antt =====
-- src/storage/ExpirationEventCache.cc: the deadlines of the leases. A multimap is a list in the order of
-- the deadlines, where an entry goes behind those with its deadline; a set of strings is a list.
use quarkdb.Base.{
  ℕ, ◌+◌, ◌≡◌, refl, ◌∙◌, sym, ap, inl, inr, Bool-cases, >>=-eq-ok, Bool, false, ◌&&◌, ◌||◌, not,
  List, [], ◌∷◌, Bytes, bytes_eq, ◌==◌, leb, length, if◌then◌else◌, arith, Result, ok, thrown,
  ◌>>=◌, ◌>>◌, throw_if, assertion_violation, unknown_lease,
}

pub record ExpirationEventCache : Type 0 where
  pub contents : List (ℕ × Bytes)
  pub stored_leases : List Bytes

unfoldable pub is_stored : List Bytes → Bytes → Bool
is_stored [] lease = false
is_stored (name ∷ names) lease = bytes_eq name lease || is_stored names lease

abbrev pub without : List Bytes → Bytes → List Bytes
without [] lease = []
without (name ∷ names) lease =
    let rest = without names lease in if bytes_eq name lease then rest else name ∷ rest

abbrev pub emplace : ℕ → Bytes → List (ℕ × Bytes) → List (ℕ × Bytes)
emplace cl lease [] = (cl, lease) ∷ []
emplace cl lease ((d, name) ∷ rest) =
    let further = emplace cl lease rest in
    if leb d cl then (d, name) ∷ further else (cl, lease) ∷ (d, name) ∷ rest

unfoldable pub insert : ExpirationEventCache → ℕ → Bytes → Result ExpirationEventCache
unfolding is_stored
insert cache cl lease = do
  throw_if (is_stored cache.stored_leases lease) assertion_violation
  ok (record {
    contents = emplace cl lease cache.contents;
    stored_leases = lease ∷ cache.stored_leases;
  })

-- The loop of `remove`, over the entries from the first with the deadline on.
abbrev pub erase_event : ℕ → Bytes → List (ℕ × Bytes) → Result (List (ℕ × Bytes))
erase_event cl lease [] = thrown unknown_lease
erase_event cl lease ((d, name) ∷ rest) =
    let further = erase_event cl lease rest in
    if d == cl && bytes_eq name lease then ok rest else further >>= λ r. ok ((d, name) ∷ r)

unfoldable pub remove : ExpirationEventCache → ℕ → Bytes → Result ExpirationEventCache
unfolding is_stored
remove cache cl lease = do
  contents ← erase_event cl lease cache.contents
  throw_if (not (is_stored cache.stored_leases lease)) assertion_violation
  ok (record { contents = contents; stored_leases = without cache.stored_leases lease })

length-erase_event :
    (cl : ℕ) (lease : Bytes) (events rest : List (ℕ × Bytes))
    → erase_event cl lease events ≡ ok rest
    → length events ≡ length rest + 1
length-erase_event cl lease [] rest e = cc
length-erase_event cl lease ((d, name) ∷ events) rest e =
    elim (Bool-cases (d == cl && bytes_eq name lease)) [
      | inl found ↦
          let same : events ≡ rest = ok-inj (sym (rw found refl) ∙ e) in
          omega (arith, ap length same)
      | inr other ↦
          let (r, further, last) =
            >>=-eq-ok (erase_event cl lease events) (λ r. ok ((d, name) ∷ r))
              (sym (rw other refl) ∙ e) in
          let same : (d, name) ∷ r ≡ rest = ok-inj last in
          omega (arith, length-erase_event cl lease events r further, ap length same)
    ]
  where
    ok-inj : {x y : List (ℕ × Bytes)} → ◌≡◌ {A = Result (List (ℕ × Bytes))} (ok x) (ok y) → x ≡ y
    ok-inj p = cc

-- A removal that returns forgets one deadline.
pub length-remove :
    (cache left : ExpirationEventCache) (cl : ℕ) (lease : Bytes)
    → remove cache cl lease ≡ ok left
    → length cache.contents ≡ length left.contents + 1
unfolding remove
length-remove cache left cl lease e =
    let (contents, erased, more) = >>=-eq-ok (erase_event cl lease cache.contents) _ e in
    let (done, checked, last) =
      >>=-eq-ok (throw_if (not (is_stored cache.stored_leases lease)) assertion_violation) _ more in
    let same = ap (contents_of contents) last in
    length-erase_event cl lease cache.contents contents erased ∙ ap (λ t. length t + 1) same
  where
    contents_of : List (ℕ × Bytes) → Result ExpirationEventCache → List (ℕ × Bytes)
    contents_of default (thrown fault) = default
    contents_of default (ok c) = c.contents
