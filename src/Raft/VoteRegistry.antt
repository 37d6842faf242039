-- ===== src/Raft/VoteRegistry.antt =====
-- src/raft/RaftVoteRegistry.cc: the answers of one election round, by server, and its outcome.
-- The futures of the replies are left out: an answer is what the wait for it came to.
use quarkdb.Base.{
  ℕ, ◌+◌, ◌≡◌, refl, Bool, true, false, ◌&&◌, ◌||◌, ◌∙◌, List, [], ◌∷◌, arith, length, leb, ltb,
  if◌then◌else◌, Result, ok, ◌>>◌, throw_if, assertion_violation,
}
use quarkdb.Raft.Types.{
  RaftServer, server_eq, RaftVote, granted, refused, veto, RaftVoteResponse, calculate_quorum_size,
}

pub record SingleVote : Type 0 where
  pub net_error : Bool
  pub parse_error : Bool
  pub resp : RaftVoteResponse

pub data ElectionOutcome : Type 0 where
  vetoed elected not_elected : ElectionOutcome

pub record RaftVoteRegistry : Type 0 where
  pub term : ℕ
  pub pre_vote : Bool
  pub contents : List (RaftServer × SingleVote)

abbrev no_response : RaftVoteResponse
no_response = record { term = 0; vote = veto }

abbrev answered : RaftServer → List (RaftServer × SingleVote) → Bool
answered s [] = false
answered s ((t, v) ∷ rest) = server_eq t s || answered s rest

abbrev register : RaftVoteRegistry → RaftServer → SingleVote → Result RaftVoteRegistry
register r s v = do
  throw_if (answered s r.contents) assertion_violation
  ok (record r { contents = (s, v) ∷ r.contents })

unfoldable pub register_vote :
    RaftVoteRegistry → RaftServer → RaftVoteResponse → Result RaftVoteRegistry
register_vote r s resp =
    register r s (record { net_error = false; parse_error = false; resp = resp })

unfoldable pub register_parse_error : RaftVoteRegistry → RaftServer → Result RaftVoteRegistry
register_parse_error r s =
    register r s (record { net_error = false; parse_error = true; resp = no_response })

unfoldable pub register_network_error : RaftVoteRegistry → RaftServer → Result RaftVoteRegistry
register_network_error r s =
    register r s (record { net_error = true; parse_error = false; resp = no_response })

-- One turn of the loop of determineOutcome: the positives so far, or a veto.
unfoldable pub outcome_loop : Bool → List (RaftServer × SingleVote) → ℕ → ℕ → ElectionOutcome
outcome_loop pre_vote [] quorum positives =
    if leb quorum (positives + 1) then elected else not_elected
outcome_loop pre_vote ((s, v) ∷ rest) quorum positives =
    let same = outcome_loop pre_vote rest quorum positives in
    let more = outcome_loop pre_vote rest quorum (positives + 1) in
    if v.net_error
    then same
    else if v.parse_error
    then if pre_vote then more else same
    else elim v.resp.vote [ granted ↦ more | veto ↦ vetoed | refused ↦ same ]

unfoldable pub determine_outcome : RaftVoteRegistry → ElectionOutcome
determine_outcome r =
    outcome_loop r.pre_vote r.contents (calculate_quorum_size (length r.contents + 1)) 0

abbrev is_vote : RaftVote → SingleVote → Bool
is_vote granted v = elim v.resp.vote [ granted ↦ true | _ ↦ false ]
is_vote refused v = elim v.resp.vote [ refused ↦ true | _ ↦ false ]
is_vote veto v = elim v.resp.vote [ veto ↦ true | _ ↦ false ]

abbrev count_votes : RaftVote → List (RaftServer × SingleVote) → ℕ
count_votes vote [] = 0
count_votes vote ((s, v) ∷ rest) =
    let num = count_votes vote rest in
    if v.net_error || v.parse_error then num else if is_vote vote v then num + 1 else num

unfoldable pub count : RaftVoteRegistry → RaftVote → ℕ
count r vote = count_votes vote r.contents

abbrev count_network_errors : List (RaftServer × SingleVote) → ℕ
count_network_errors [] = 0
count_network_errors ((s, v) ∷ rest) =
    let num = count_network_errors rest in if v.net_error then num + 1 else num

unfoldable pub count_network_error : RaftVoteRegistry → ℕ
count_network_error r = count_network_errors r.contents

abbrev count_parse_errors : List (RaftServer × SingleVote) → ℕ
count_parse_errors [] = 0
count_parse_errors ((s, v) ∷ rest) =
    let num = count_parse_errors rest in if v.parse_error then num + 1 else num

unfoldable pub count_parse_error : RaftVoteRegistry → ℕ
count_parse_error r = count_parse_errors r.contents

-- Every registration sets at most one of the two error flags.
abbrev OneError : List (RaftServer × SingleVote) → Type 0
OneError [] = Unit {0}
OneError ((s, v) ∷ rest) = (v.net_error && v.parse_error ≡ false) × OneError rest

-- The outcome told by the counts: no veto, and enough votes with the node's own.
abbrev positives : Bool → List (RaftServer × SingleVote) → ℕ
positives pre_vote vs = count_votes granted vs + (if pre_vote then count_parse_errors vs else 0)

abbrev tallied : Bool → List (RaftServer × SingleVote) → ℕ → ℕ → ElectionOutcome
tallied pre_vote vs quorum n =
    if ltb 0 (count_votes veto vs)
    then vetoed
    else if leb quorum (n + positives pre_vote vs + 1)
    then elected
    else not_elected

outcome_loop-tallied :
    (pre_vote : Bool) (vs : List (RaftServer × SingleVote)) (quorum n : ℕ)
    → OneError vs
    → outcome_loop pre_vote vs quorum n ≡ tallied pre_vote vs quorum n
unfolding outcome_loop
outcome_loop-tallied true [] quorum n one = ground arith
outcome_loop-tallied false [] quorum n one = ground arith
outcome_loop-tallied true ((s, v) ∷ rest) quorum n one = ground (
  arith,
  outcome_loop-tallied true rest quorum n one.1,
  outcome_loop-tallied true rest quorum (n + 1) one.1,
)
outcome_loop-tallied false ((s, v) ∷ rest) quorum n one = ground (
  arith,
  outcome_loop-tallied false rest quorum n one.1,
  outcome_loop-tallied false rest quorum (n + 1) one.1,
)

-- The registries that a round fills.
pub data Round (pre_vote : Bool) : RaftVoteRegistry → Type 0 where
  opened : (term : ℕ) → Round pre_vote (record { term = term; pre_vote = pre_vote; contents = [] })
  voted :
      {r r' : RaftVoteRegistry} (s : RaftServer) (resp : RaftVoteResponse)
      → Round pre_vote r
      → register_vote r s resp ≡ ok r'
      → Round pre_vote r'
  unparsed :
      {r r' : RaftVoteRegistry} (s : RaftServer)
      → Round pre_vote r
      → register_parse_error r s ≡ ok r'
      → Round pre_vote r'
  unreached :
      {r r' : RaftVoteRegistry} (s : RaftServer)
      → Round pre_vote r
      → register_network_error r s ≡ ok r'
      → Round pre_vote r'

Round-OneError :
    {pre_vote : Bool} {r : RaftVoteRegistry}
    → Round pre_vote r
    → OneError r.contents × (r.pre_vote ≡ pre_vote)
unfolding register_vote register_parse_error register_network_error
Round-OneError (opened term) = (tt, refl)
Round-OneError (voted {r} s resp round h) = ground (arith, Round-OneError round)
Round-OneError (unparsed {r} s round h) = ground (arith, Round-OneError round)
Round-OneError (unreached {r} s round h) = ground (arith, Round-OneError round)

abbrev pub outcome_of_counts : RaftVoteRegistry → ElectionOutcome
outcome_of_counts r =
    let backing = count r granted + (if r.pre_vote then count_parse_error r else 0) + 1 in
    if ltb 0 (count r veto)
    then vetoed
    else if leb (calculate_quorum_size (length r.contents + 1)) backing
    then elected
    else not_elected

-- The outcome of a round of registered answers: vetoed if there is a veto; otherwise elected if and
-- only if the granted votes, the node's own, and in a pre-vote the answers that could not be parsed,
-- come to a quorum of the nodes asked and the node itself.
pub outcome_follows_counts :
    {pre_vote : Bool} {r : RaftVoteRegistry}
    → Round pre_vote r
    → (determine_outcome r ≡ outcome_of_counts r) × (r.pre_vote ≡ pre_vote)
unfolding determine_outcome count count_parse_error
outcome_follows_counts {r = r} round =
    let (one, same) = Round-OneError round in
    (
      outcome_loop-tallied r.pre_vote r.contents (calculate_quorum_size (length r.contents + 1)) 0
            one
          ∙ ground arith,
      same,
    )
