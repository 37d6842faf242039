-- ===== src/Raft/Lease.antt =====
-- src/raft/RaftLease.cc: the time of the last contact with every server, and until when a quorum of the
-- nodes has been in contact. A time point is its distance from the epoch of the steady clock.
use quarkdb.Base.{
  ℕ, ◌+◌, ◌-◌, ◌≤◌, ◌<◌, ◌≡◌, ◌≢◌, ◌∙◌, List, [], none, some, arith, length, get_elem?,
  get_elem?-lt, ltb, ◌==◌, if◌then◌else◌, Result, ok, thrown, out_of_range,
}
use quarkdb.Raft.Types.{RaftServer, calculate_quorum_size}
use quarkdb.Raft.Registrations.{
  get_handler, assign, value, values, length-values, set_targets, length-set_targets,
  value-set_targets, Fresh,
}
use quarkdb.Raft.Quorum.{
  sort, count_from, sort-IsSorted, count-sort, length-sort, count-nth, count-above,
}

pub record RaftLease : Type 0 where
  pub registrations : List (RaftServer × ℕ)
  pub targets : List RaftServer
  pub lease_duration : ℕ
  pub quorum_size : ℕ

unfoldable pub update_targets : RaftLease → List RaftServer → RaftLease
update_targets l ss = record l {
  registrations = (set_targets l.registrations [] ss).0;
  targets = (set_targets l.registrations [] ss).1;
  quorum_size = calculate_quorum_size (length ss + 1);
}

unfoldable pub make_lease : List RaftServer → ℕ → RaftLease
unfolding update_targets
make_lease ss duration =
    update_targets
      (record { registrations = []; targets = []; lease_duration = duration; quorum_size = 0 }) ss

-- RaftLastContact::heartbeat, through the handler of a server.
unfoldable pub heartbeat : RaftLease → RaftServer → ℕ → RaftLease
heartbeat l s now =
    let rs = get_handler l.registrations s in
    if ltb (value s rs) now
    then record l { registrations = assign rs s now }
    else record l { registrations = rs }

-- `now` is what the clock shows. A negative threshold becomes zero, as does the subtraction.
unfoldable pub nth_lease : RaftLease → ℕ → ℕ → Result ℕ
nth_lease l now n =
    let leases = sort (values l.registrations l.targets) in
    if l.quorum_size == 1
    then ok (now + l.lease_duration)
    else elim (get_elem? leases ((length leases + 1) - n)) [
      | some t ↦ ok (t + l.lease_duration)
      | none ↦ thrown out_of_range
    ]

unfoldable pub deadline : RaftLease → ℕ → Result ℕ
deadline l now = nth_lease l now l.quorum_size

unfoldable pub shaky_quorum_deadline : RaftLease → ℕ → Result ℕ
shaky_quorum_deadline l now = nth_lease l now (l.quorum_size + 1)

abbrev pub IsConfigured : RaftLease → Type 0
IsConfigured l = l.quorum_size ≡ calculate_quorum_size (length l.targets + 1)

pub update_targets-IsConfigured :
    (l : RaftLease) (ss : List RaftServer)
    → Fresh [] ss
    → IsConfigured (update_targets l ss)
      × ((s : RaftServer) → value s (update_targets l ss).registrations ≡ value s l.registrations)
unfolding update_targets
update_targets-IsConfigured l ss f = (
  ground (arith, length-set_targets l.registrations [] ss f),
  λ s. value-set_targets l.registrations [] ss s,
)

-- How many nodes, this one included, were in contact at `t` or later.
abbrev pub in_contact : RaftLease → ℕ → ℕ
in_contact l t = count_from t (values l.registrations l.targets) + 1

-- `n` nodes were in contact at `t`, and fewer at any later time.
pub record IsLatest (l : RaftLease) (n t : ℕ) : Type 0 where
  pub reached : n ≤ in_contact l t
  pub latest : (u : ℕ) → t < u → in_contact l u < n

nth_lease-IsLatest :
    (l : RaftLease) (now n : ℕ)
    → l.quorum_size ≢ 1
    → 1 < n
    → 0 < length l.targets
    → n ≤ length l.targets + 1
    → (t : ℕ) × (nth_lease l now n ≡ ok (t + l.lease_duration)) × IsLatest l n t
unfolding nth_lease
nth_lease-IsLatest l now n several big some_target small =
    let xs = values l.registrations l.targets in
    let place = (length (sort xs) + 1) - n in
    let sizes : length (sort xs) ≡ length l.targets =
      length-sort xs ∙ length-values l.registrations l.targets in
    let (t, at) = get_elem?-lt (sort xs) place (omega arith) in
    (
      t,
      ground (arith, at),
      record {
        reached = omega (arith, count-nth (sort xs) place t (sort-IsSorted xs) at, count-sort t xs);
        latest = λ u h.
            omega (arith, count-above (sort xs) place t u (sort-IsSorted xs) at h, count-sort u xs);
      },
    )

-- The lease runs out its duration after the latest time at which a quorum of the nodes, this one
-- included, had been in contact; the quorum is that of the targets, of which there is at least one.
pub deadline_needs_quorum :
    (l : RaftLease) (now : ℕ)
    → IsConfigured l
    → 0 < length l.targets
    → (t : ℕ) × (deadline l now ≡ ok (t + l.lease_duration)) × IsLatest l l.quorum_size t
unfolding deadline calculate_quorum_size
deadline_needs_quorum l now conf some_target =
    nth_lease-IsLatest l now l.quorum_size (omega arith) (omega arith) some_target (omega arith)
