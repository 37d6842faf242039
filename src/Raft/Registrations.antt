-- ===== src/Raft/Registrations.antt =====
-- The two maps of raft/RaftCommitTracker.cc and raft/RaftLease.cc: a handler for every server ever
-- asked for, and the targets, which point into it. A handler is its number: a log index or a time.
-- The maps are kept in the order of insertion; only sorted values are read from them.
use quarkdb.Base.{
  ℕ, ◌+◌, ◌≡◌, refl, Bool, false, ◌||◌, List, [], ◌∷◌, arith, ◌∙◌, inl, inr, Bool-cases, length,
  if◌then◌else◌,
}
use quarkdb.Raft.Types.{RaftServer, server_eq, server_eq_iff}

-- A handler that is not there yet is created with zero.
abbrev pub value : RaftServer → List (RaftServer × ℕ) → ℕ
value s [] = 0
value s ((t, n) ∷ rest) = if server_eq t s then n else value s rest

abbrev known : RaftServer → List (RaftServer × ℕ) → Bool
known s [] = false
known s ((t, n) ∷ rest) = server_eq t s || known s rest

-- getHandlerInternal
unfoldable pub get_handler : List (RaftServer × ℕ) → RaftServer → List (RaftServer × ℕ)
get_handler rs s = if known s rs then rs else (s, 0) ∷ rs

-- A write through the handler of a server.
abbrev pub assign : List (RaftServer × ℕ) → RaftServer → ℕ → List (RaftServer × ℕ)
assign [] s n = []
assign ((t, m) ∷ rest) s n = if server_eq t s then (t, n) ∷ rest else (t, m) ∷ assign rest s n

abbrev has : RaftServer → List RaftServer → Bool
has s [] = false
has s (t ∷ ts) = server_eq t s || has s ts

-- `targets[target] = &getHandlerInternal(target)` for each target.
unfoldable pub set_targets :
    List (RaftServer × ℕ)
    → List RaftServer
    → List RaftServer
    → List (RaftServer × ℕ) × List RaftServer
set_targets rs targets [] = (rs, targets)
set_targets rs targets (s ∷ ss) =
    set_targets (get_handler rs s) (if has s targets then targets else s ∷ targets) ss

-- The numbers of the targets, read through their handlers.
abbrev pub values : List (RaftServer × ℕ) → List RaftServer → List ℕ
values rs [] = []
values rs (s ∷ ss) = value s rs ∷ values rs ss

pub length-values :
    (rs : List (RaftServer × ℕ)) (ss : List RaftServer) → length (values rs ss) ≡ length ss
length-values rs [] = refl
length-values rs (s ∷ ss) = ground (arith, length-values rs ss)

value-get_handler :
    (rs : List (RaftServer × ℕ)) (s t : RaftServer) → value t (get_handler rs s) ≡ value t rs
unfolding get_handler
value-get_handler rs s t = elim (Bool-cases (known s rs)) [
  | inl e ↦ ground (arith, e)
  | inr e ↦ ground (arith, e, unknown rs, server_eq_iff s t)
]
  where
    unknown : (rs : List (RaftServer × ℕ)) → known s rs ≡ false → value s rs ≡ 0
    unknown [] h = refl
    unknown ((r, n) ∷ rest) h = ground (arith, unknown rest)

-- A change of the targets loses no handler's number.
pub value-set_targets :
    (rs : List (RaftServer × ℕ)) (targets ss : List RaftServer) (t : RaftServer)
    → value t (set_targets rs targets ss).0 ≡ value t rs
unfolding set_targets
value-set_targets rs targets [] t = refl
value-set_targets rs targets (s ∷ ss) t =
    value-set_targets (get_handler rs s) (if has s targets then targets else s ∷ targets) ss t
    ∙ value-get_handler rs s t

-- Distinct targets all stand in the map.
abbrev pub Fresh : List RaftServer → List RaftServer → Type 0
Fresh targets [] = Unit {0}
Fresh targets (s ∷ ss) = (has s targets ≡ false) × Fresh (s ∷ targets) ss

pub length-set_targets :
    (rs : List (RaftServer × ℕ)) (targets ss : List RaftServer)
    → Fresh targets ss
    → length (set_targets rs targets ss).1 ≡ length targets + length ss
unfolding set_targets
length-set_targets rs targets [] f = omega arith
length-set_targets rs targets (s ∷ ss) f =
    ground (arith, f.0, length-set_targets (get_handler rs s) (s ∷ targets) ss f.1)
