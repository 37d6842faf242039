-- ===== src/Raft/Members/Counts.antt =====
-- src/raft/RaftMembers.hh: how often a server occurs among the nodes and the observers.
use quarkdb.Base.{
  ℕ, ◌+◌, ◌≤◌, ◌≡◌, refl, true, false, none, some, List, [], ◌∷◌, ◌++◌, if◌then◌else◌, arith, inl,
  inr, Bool-cases, Option-cases,
}
use quarkdb.Raft.Types.{RaftServer, server_eq, server_eq_iff}
use quarkdb.Raft.Parsing.{contains}
use quarkdb.Raft.Members.{
  RaftMembers, updated, erase_element, add_observer, remove_member, promote_observer,
  demote_to_observer,
}

abbrev pub hit : RaftServer → RaftServer → ℕ
hit x s = if server_eq x s then 1 else 0

abbrev pub count : RaftServer → List RaftServer → ℕ
count s [] = 0
count s (x ∷ xs) = hit x s + count s xs

-- Every server is listed once at most.
abbrev pub IsDistinct : RaftMembers → Type 0
IsDistinct m = (s : RaftServer) → count s m.nodes + count s m.observers ≤ 1

count-append :
    (s : RaftServer) (xs ys : List RaftServer) → count s (xs ++ ys) ≡ count s xs + count s ys
count-append s [] ys = omega arith
count-append s (x ∷ xs) ys = omega (arith, count-append s xs ys)

not_contains : (xs : List RaftServer) (x : RaftServer) → contains xs x ≡ false → count x xs ≡ 0
unfolding contains
not_contains [] x h = refl
not_contains (y ∷ xs) x h = ground (arith, not_contains xs x)

erase-count :
    (xs : List RaftServer) (x : RaftServer) {ys : List RaftServer} (s : RaftServer)
    → erase_element xs x ≡ some ys
    → count s xs ≡ hit x s + count s ys
unfolding erase_element
erase-count [] x s h = cc
erase-count (y ∷ xs) x {ys} s h = elim (Bool-cases (server_eq y x)) [
  | inl e ↦ let same : y ≡ x = (server_eq_iff y x).0 e in ground (arith, e)
  | inr e ↦ elim (Option-cases (erase_element xs x)) [
    | inl n ↦ ground (arith, e, n)
    | inr (zs, z) ↦ ground (arith, e, z, erase-count xs x s z)
  ]
]

erase-none : (xs : List RaftServer) (x : RaftServer) → erase_element xs x ≡ none → count x xs ≡ 0
unfolding erase_element
erase-none [] x h = refl
erase-none (y ∷ xs) x h = ground (arith, erase-none xs x)

add_observer-count :
    (m : RaftMembers) (x : RaftServer) {m' : RaftMembers}
    → add_observer m x ≡ updated m'
    → (count x m.nodes + count x m.observers ≡ 0)
      × ((s : RaftServer)
          → (count s m'.nodes ≡ count s m.nodes)
            × (count s m'.observers ≡ count s m.observers + hit x s))
unfolding add_observer
add_observer-count m x h = (
  ground (arith, not_contains m.observers x, not_contains m.nodes x),
  λ s. ground (arith, count-append s m.observers (x ∷ [])),
)

remove_member-count :
    (m : RaftMembers) (x : RaftServer) {m' : RaftMembers} (s : RaftServer)
    → remove_member m x ≡ updated m'
    → count s m.nodes + count s m.observers ≡ count s m'.nodes + count s m'.observers + hit x s
unfolding remove_member
remove_member-count m x s h = elim (Option-cases (erase_element m.observers x)) [
  | inl n ↦ elim (Option-cases (erase_element m.nodes x)) [
    | inl n' ↦ ground (arith, n, n')
    | inr (ys, e) ↦ ground (arith, n, e, erase-count m.nodes x s e)
  ]
  | inr (ys, e) ↦ ground (arith, e, erase-count m.observers x s e)
]

-- Promotion takes one listing of the server from the observers to the nodes, and touches no other.
promote_observer-count :
    (m : RaftMembers) (x : RaftServer) {m' : RaftMembers} (s : RaftServer)
    → promote_observer m x ≡ updated m'
    → (count s m'.nodes ≡ count s m.nodes + hit x s)
      × (count s m.observers ≡ count s m'.observers + hit x s)
unfolding promote_observer
promote_observer-count m x s h = elim (Option-cases (erase_element m.observers x)) [
  | inl n ↦ ground (arith, n)
  | inr (ys, e) ↦ ground (arith, e, erase-count m.observers x s e, count-append s m.nodes (x ∷ []))
]

-- Demotion is the way back.
demote_to_observer-count :
    (m : RaftMembers) (x : RaftServer) {m' : RaftMembers} (s : RaftServer)
    → demote_to_observer m x ≡ updated m'
    → (count s m.nodes ≡ count s m'.nodes + hit x s)
      × (count s m'.observers ≡ count s m.observers + hit x s)
unfolding demote_to_observer
demote_to_observer-count m x s h = elim (Option-cases (erase_element m.nodes x)) [
  | inl n ↦ ground (arith, n)
  | inr (ys, e) ↦ ground (arith, e, erase-count m.nodes x s e, count-append s m.observers (x ∷ []))
]

count-same : (x s : RaftServer) (l : List RaftServer) → server_eq x s ≡ true → count s l ≡ count x l
count-same x s l e = rw ((server_eq_iff x s).0 e)

abbrev pub listed : RaftMembers → RaftServer → ℕ
listed m s = count s m.nodes + count s m.observers

-- The four operations on the members, where they succeed.
pub data Change (m : RaftMembers) (x : RaftServer) (m' : RaftMembers) : Type 0 where
  adds : add_observer m x ≡ updated m' → Change m x m'
  removes : remove_member m x ≡ updated m' → Change m x m'
  promotes : promote_observer m x ≡ updated m' → Change m x m'
  demotes : demote_to_observer m x ≡ updated m' → Change m x m'

pub data Changes (m : RaftMembers) : RaftMembers → Type 0 where
  unchanged : Changes m m
  changed : {k l : RaftMembers} (x : RaftServer) → Changes m k → Change k x l → Changes m l

added-IsDistinct :
    (m m' : RaftMembers) (x : RaftServer)
    → IsDistinct m
    → add_observer m x ≡ updated m'
    → IsDistinct m'
added-IsDistinct m m' x d h s = elim (Bool-cases (server_eq x s)) [
  | inl e ↦ ground (
    arith,
    e,
    count-same x s m.nodes e,
    count-same x s m.observers e,
    (add_observer-count m x h).0,
    (add_observer-count m x h).1 s,
  )
  | inr e ↦ ground (arith, e, d s, (add_observer-count m x h).1 s)
]

Change-IsDistinct :
    (m m' : RaftMembers) (x : RaftServer) → Change m x m' → IsDistinct m → IsDistinct m'
Change-IsDistinct m m' x (adds h) d s = added-IsDistinct m m' x d h s
Change-IsDistinct m m' x (removes h) d s = omega (arith, d s, remove_member-count m x s h)
Change-IsDistinct m m' x (promotes h) d s = omega (arith, d s, promote_observer-count m x s h)
Change-IsDistinct m m' x (demotes h) d s = omega (arith, d s, demote_to_observer-count m x s h)

-- If every server is listed once at most, among the nodes and the observers together, so it is after
-- any sequence of additions, removals, promotions and demotions that succeed.
pub members_stay-IsDistinct : {m m' : RaftMembers} → Changes m m' → IsDistinct m → IsDistinct m'
members_stay-IsDistinct unchanged d = d
members_stay-IsDistinct {m' = m'} (changed {k = k} x cs c) d =
    Change-IsDistinct k m' x c (members_stay-IsDistinct cs d)

-- A change of the members by one server leaves every other server listed as often as it was.
others_stay_listed :
    (m m' : RaftMembers) (x s : RaftServer)
    → Change m x m'
    → server_eq x s ≡ false
    → listed m' s ≡ listed m s
others_stay_listed m m' x s (adds h) e = ground (arith, e, (add_observer-count m x h).1 s)
others_stay_listed m m' x s (removes h) e = ground (arith, e, remove_member-count m x s h)
others_stay_listed m m' x s (promotes h) e = ground (arith, e, promote_observer-count m x s h)
others_stay_listed m m' x s (demotes h) e = ground (arith, e, demote_to_observer-count m x s h)
