-- ===== src/Raft/Members.antt =====
-- src/raft/RaftMembers.hh: the voting nodes and the observers of a cluster.
pub mod Counts
use quarkdb.Base.{
  ℕ, ◌+◌, ◌≡◌, Bool, true, false, ◌||◌, Option, none, some, List, [], ◌∷◌, ◌++◌, if◌then◌else◌,
  Bytes, ◌==◌,
}
use quarkdb.Raft.Types.{RaftServer, null_server, server_eq, empty}
use quarkdb.Raft.Parsing.{split, parse_servers, serialize_nodes, contains}

pub record RaftMembers : Type 0 where
  pub nodes : List RaftServer
  pub observers : List RaftServer

pub record RaftMembership : Type 0 where
  pub nodes : List RaftServer
  pub observers : List RaftServer
  pub epoch : ℕ

-- RaftMembership::contains
abbrev pub is_member : RaftMembership → RaftServer → Bool
is_member m target = contains m.nodes target || contains m.observers target

pub data MemberError : Type 0 where
  already_observer already_node not_a_member not_an_observer not_a_node epoch_not_committed :
      MemberError
  not_appended : MemberError

-- `true` with the object changed, or `false` with the reason.
pub data Update {ℓ} (A : Type ℓ) : Type ℓ where
  updated : A → Update A
  refused : MemberError → Update A

-- erase_element: the list without the first occurrence, if there is one.
unfoldable pub erase_element : List RaftServer → RaftServer → Option (List RaftServer)
erase_element [] s = none
erase_element (x ∷ xs) s = elim (server_eq x s) [
  | true ↦ some xs
  | false ↦ elim (erase_element xs s) [ none ↦ none | some ys ↦ some (x ∷ ys) ]
]

unfoldable pub add_observer : RaftMembers → RaftServer → Update RaftMembers
add_observer m s =
    if contains m.observers s
    then refused already_observer
    else if contains m.nodes s
    then refused already_node
    else updated (record m { observers = m.observers ++ s ∷ [] })

unfoldable pub remove_member : RaftMembers → RaftServer → Update RaftMembers
remove_member m s = elim (erase_element m.observers s) [
  | some left ↦ updated (record m { observers = left })
  | none ↦ elim (erase_element m.nodes s) [
    | some left ↦ updated (record m { nodes = left })
    | none ↦ refused not_a_member
  ]
]

unfoldable pub promote_observer : RaftMembers → RaftServer → Update RaftMembers
promote_observer m s = elim (erase_element m.observers s) [
  | some left ↦ updated (record { nodes = m.nodes ++ s ∷ []; observers = left })
  | none ↦ refused not_an_observer
]

unfoldable pub demote_to_observer : RaftMembers → RaftServer → Update RaftMembers
demote_to_observer m s = elim (erase_element m.nodes s) [
  | some left ↦ updated (record { nodes = left; observers = m.observers ++ s ∷ [] })
  | none ↦ refused not_a_node
]

members_of_parts : List Bytes → Option RaftMembers
members_of_parts (ns ∷ [] ∷ []) = elim (parse_servers ns) [
  | none ↦ none
  | some nodes ↦ some (record { nodes = nodes; observers = [] })
]
members_of_parts (ns ∷ (c ∷ os) ∷ []) = elim (parse_servers ns) [
  | none ↦ none
  | some nodes ↦ elim (parse_servers (c ∷ os)) [
    | none ↦ none
    | some observers ↦ some (record { nodes = nodes; observers = observers })
  ]
]
members_of_parts _ = none

-- RaftMembers::parse
unfoldable pub parse : Bytes → Option RaftMembers
unfolding members_of_parts
parse text = members_of_parts (split b'|' text)

-- RaftMembers::toString
unfoldable pub to_string : RaftMembers → Bytes
to_string m = serialize_nodes m.nodes ++ (b'|' ∷ serialize_nodes m.observers)

-- RaftMembership::inLimbo
abbrev pub in_limbo : RaftMembership → Bool
in_limbo m = only_null m.nodes m.observers
  where
    only_null : List RaftServer → List RaftServer → Bool
    only_null (n ∷ []) [] = server_eq n null_server
    only_null _ _ = false
