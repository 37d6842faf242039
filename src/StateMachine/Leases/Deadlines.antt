-- ===== src/StateMachine/Leases/Deadlines.antt =====
-- src/storage/ExpirationEventCache.cc: the order of the deadlines.
use quarkdb.Base.{
  ℕ, ◌<◌, ◌≤◌, ◌≡◌, ◌∙◌, sym, refl, ap, inl, inr, Bool-cases, leb, leb→le, ◌==◌, ◌&&◌, not, none,
  All, List, [], ◌∷◌, Bytes, bytes_eq, arith, Result, ok, thrown, throw_if, >>=-eq-ok,
  assertion_violation,
}
use mathlib.Core.Path.{subst}
use quarkdb.StateMachine.ExpirationEventCache.{
  ExpirationEventCache, emplace, insert, is_stored, erase_event, remove,
}
use quarkdb.StateMachine.Leases.{front_lease}

-- A cache that has been filled by `insert` and `remove`.
pub data IsBuilt : ExpirationEventCache → Type 0 where
  fresh : IsBuilt (record { contents = []; stored_leases = [] })
  inserted :
      {cache more : ExpirationEventCache} (cl : ℕ) (lease : Bytes)
      → IsBuilt cache
      → insert cache cl lease ≡ ok more
      → IsBuilt more
  removed :
      {cache left : ExpirationEventCache} (cl : ℕ) (lease : Bytes)
      → IsBuilt cache
      → remove cache cl lease ≡ ok left
      → IsBuilt left

-- No deadline is below `d`.
abbrev NotBelow : ℕ → List (ℕ × Bytes) → Type 0
NotBelow d events = All (λ (e : ℕ × Bytes). d ≤ e.0) events

abbrev IsOrdered : List (ℕ × Bytes) → Type 0
IsOrdered [] = Unit {0}
IsOrdered ((d, name) ∷ rest) = NotBelow d rest × IsOrdered rest

NotBelow-lower :
    (c d : ℕ) (events : List (ℕ × Bytes)) → c ≤ d → NotBelow d events → NotBelow c events
NotBelow-lower c d [] h a = tt
NotBelow-lower c d ((e, name) ∷ rest) h (a, b) = (omega arith, NotBelow-lower c d rest h b)

NotBelow-emplace :
    (d cl : ℕ) (lease : Bytes) (events : List (ℕ × Bytes))
    → d ≤ cl
    → NotBelow d events
    → NotBelow d (emplace cl lease events)
NotBelow-emplace d cl lease [] h a = (h, tt)
NotBelow-emplace d cl lease ((e, name) ∷ rest) h (a, b) = elim (Bool-cases (leb e cl)) [
  | inl before ↦ rw before ((a, NotBelow-emplace d cl lease rest h b))
  | inr behind ↦ rw behind ((h, (a, b)))
]

emplace-IsOrdered :
    (cl : ℕ) (lease : Bytes) (events : List (ℕ × Bytes))
    → IsOrdered events
    → IsOrdered (emplace cl lease events)
emplace-IsOrdered cl lease [] o = (tt, tt)
emplace-IsOrdered cl lease ((e, name) ∷ rest) (a, b) = elim (Bool-cases (leb e cl)) [
  | inl before ↦
      rw before (
        (
          NotBelow-emplace e cl lease rest (leb→le e cl before) a,
          emplace-IsOrdered cl lease rest b,
        ))
  | inr behind ↦
      let low : cl ≤ e = ground (arith, behind) in
      rw behind (((low, NotBelow-lower cl e rest low a), (a, b)))
]

ok-inj : {x y : List (ℕ × Bytes)} → ◌≡◌ {A = Result (List (ℕ × Bytes))} (ok x) (ok y) → x ≡ y
ok-inj p = cc

-- What is left by an erasure is in order, and not below what it was not below.
erase_event-IsOrdered :
    (cl d : ℕ) (lease : Bytes) (events rest : List (ℕ × Bytes))
    → erase_event cl lease events ≡ ok rest
    → IsOrdered events
    → NotBelow d events
    → IsOrdered rest × NotBelow d rest
erase_event-IsOrdered cl d lease [] rest e o a = cc
erase_event-IsOrdered cl d lease ((f, name) ∷ events) rest e (a, b) (c, low) =
    elim (Bool-cases (f == cl && bytes_eq name lease)) [
      | inl found ↦
          let same : events ≡ rest = ok-inj (sym (rw found refl) ∙ e) in
          subst (λ (r : List (ℕ × Bytes)). IsOrdered r × NotBelow d r) same ((b, low))
      | inr other ↦
          let (r, further, last) =
            >>=-eq-ok (erase_event cl lease events) (λ r. ok ((f, name) ∷ r))
              (sym (rw other refl) ∙ e) in
          let same : (f, name) ∷ r ≡ rest = ok-inj last in
          let (ordered, above) = erase_event-IsOrdered cl f lease events r further b a in
          let lower = NotBelow-lower d f r c above in
          subst (λ (r : List (ℕ × Bytes)). IsOrdered r × NotBelow d r) same
            (((above, ordered), (c, lower)))
    ]

contents_of : List (ℕ × Bytes) → Result ExpirationEventCache → List (ℕ × Bytes)
contents_of default (thrown fault) = default
contents_of default (ok c) = c.contents

NotBelow-zero : (events : List (ℕ × Bytes)) → NotBelow 0 events
NotBelow-zero [] = tt
NotBelow-zero ((d, name) ∷ rest) = (omega arith, NotBelow-zero rest)

IsBuilt-IsOrdered : {cache : ExpirationEventCache} → IsBuilt cache → IsOrdered cache.contents
unfolding insert remove contents_of
IsBuilt-IsOrdered fresh = tt
IsBuilt-IsOrdered {cache = more} (inserted {cache = before} cl lease b e) =
    let (a, c, last) =
      >>=-eq-ok (throw_if (is_stored before.stored_leases lease) assertion_violation) _ e in
    subst IsOrdered (ap (contents_of []) last)
      (emplace-IsOrdered cl lease before.contents (IsBuilt-IsOrdered b))
IsBuilt-IsOrdered {cache = left} (removed {cache = before} cl lease b e) =
    let (contents, erased, rest) = >>=-eq-ok (erase_event cl lease before.contents) _ e in
    let (a, c, last) =
      >>=-eq-ok (throw_if (not (is_stored before.stored_leases lease)) assertion_violation) _
        rest in
    subst IsOrdered (ap (contents_of []) last)
      (erase_event-IsOrdered cl 0 lease before.contents contents erased (IsBuilt-IsOrdered b)
        (NotBelow-zero before.contents)).0

-- If the front has not passed, then no deadline has.
pub none_passed :
    (now : ℕ) (cache : ExpirationEventCache)
    → IsBuilt cache
    → front_lease now cache.contents ≡ none
    → All (λ (e : ℕ × Bytes). now < e.0) cache.contents
none_passed now cache b = front cache.contents (IsBuilt-IsOrdered b)
  where
    above :
        (d : ℕ) (events : List (ℕ × Bytes))
        → now < d
        → NotBelow d events
        → All (λ (e : ℕ × Bytes). now < e.0) events
    above d [] h a = tt
    above d ((e, name) ∷ rest) h (a, b) = (omega arith, above d rest h b)

    front :
        (events : List (ℕ × Bytes))
        → IsOrdered events
        → front_lease now events ≡ none
        → All (λ (e : ℕ × Bytes). now < e.0) events
    front [] o e = tt
    front ((d, name) ∷ rest) (a, b) e =
        let ahead : now < d = ground (arith, e) in (ahead, above d rest ahead a)
