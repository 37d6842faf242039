-- ===== src/Raft/Types.antt =====
-- src/Common.hh and src/raft/RaftCommon.hh: servers, log entries, the requests and replies between nodes.
use quarkdb.Base.{
  ℕ, ◌+◌, ◌/◌, ◌≡◌, refl, ◌↔◌, Bool, true, false, ◌&&◌, List, [], ◌∷◌, arith, ◌==◌, Bytes, codes,
  bytes_eq, bytes_eq_iff, ℤ, pos, int_eq,
}

pub record RaftServer : Type 0 where
  pub hostname : Bytes
  pub port : ℤ

abbrev pub no_server : RaftServer
no_server = record { hostname = []; port = pos 0 }

abbrev pub null_server : RaftServer
null_server = record { hostname = codes "#!^NULL-HOSTNAME^!#"; port = pos 0 }

-- RaftServer::operator==
unfoldable pub server_eq : RaftServer → RaftServer → Bool
unfolding bytes_eq
server_eq a b = bytes_eq a.hostname b.hostname && int_eq a.port b.port

abbrev is_nil : Bytes → Bool
is_nil [] = true
is_nil (x ∷ xs) = false

-- RaftServer::empty
unfoldable pub empty : RaftServer → Bool
empty s = is_nil s.hostname

int_eq_iff : (a b : ℤ) → (int_eq a b ≡ true) ↔ (a ≡ b)
int_eq_iff a b = ground arith

pub server_eq_iff : (a b : RaftServer) → (server_eq a b ≡ true) ↔ (a ≡ b)
unfolding server_eq
server_eq_iff a b = ground (arith, bytes_eq_iff a.hostname b.hostname, int_eq_iff a.port b.port)

pub data FsyncPolicy : Type 0 where
  always sync_important_updates async : FsyncPolicy

-- A request is its chunks; the first one names the command.
abbrev pub RedisRequest : Type 0
RedisRequest = List Bytes

pub record RaftEntry : Type 0 where
  pub term : ℕ
  pub request : RedisRequest

request_eq : RedisRequest → RedisRequest → Bool
unfolding bytes_eq
request_eq [] [] = true
request_eq [] (y ∷ ys) = false
request_eq (x ∷ xs) [] = false
request_eq (x ∷ xs) (y ∷ ys) = bytes_eq x y && request_eq xs ys

-- RaftEntry::operator==
unfoldable pub entry_eq : RaftEntry → RaftEntry → Bool
unfolding request_eq
entry_eq a b = a.term == b.term && request_eq a.request b.request

request_eq_iff : (a b : RedisRequest) → (request_eq a b ≡ true) ↔ (a ≡ b)
unfolding request_eq
request_eq_iff [] [] = (λ _. refl, λ _. refl)
request_eq_iff [] (y ∷ ys) = (λ e. cc, λ e. cc)
request_eq_iff (x ∷ xs) [] = (λ e. cc, λ e. cc)
request_eq_iff (x ∷ xs) (y ∷ ys) = ground (arith, bytes_eq_iff x y, request_eq_iff xs ys)

pub entry_eq_iff : (a b : RaftEntry) → (entry_eq a b ≡ true) ↔ (a ≡ b)
unfolding entry_eq
entry_eq_iff a b = ground (arith, request_eq_iff a.request b.request)

pub record RaftHeartbeatRequest : Type 0 where
  pub term : ℕ
  pub leader : RaftServer

pub record RaftHeartbeatResponse : Type 0 where
  pub term : ℕ
  pub node_recognized_as_leader : Bool
  pub err : Bytes

pub record RaftAppendEntriesRequest : Type 0 where
  pub term : ℕ
  pub leader : RaftServer
  pub prev_index : ℕ
  pub prev_term : ℕ
  pub commit_index : ℕ
  pub entries : List RaftEntry

pub record RaftAppendEntriesResponse : Type 0 where
  pub term : ℕ
  pub log_size : ℕ
  pub outcome : Bool
  pub err : Bytes

pub record RaftVoteRequest : Type 0 where
  pub term : ℕ
  pub candidate : RaftServer
  pub last_index : ℕ
  pub last_term : ℕ

pub data RaftVote : Type 0 where
  veto refused granted : RaftVote

pub record RaftVoteResponse : Type 0 where
  pub term : ℕ
  pub vote : RaftVote

pub data RaftStatus : Type 0 where
  leader follower candidate shut_down : RaftStatus

unfoldable pub calculate_quorum_size : ℕ → ℕ
calculate_quorum_size members = members / 2 + 1
