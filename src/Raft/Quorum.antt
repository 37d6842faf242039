-- ===== src/Raft/Quorum.antt =====
-- src/raft/RaftCommon.hh (calculateQuorumSize): majorities, and std::sort as the code relies on it: a list
-- in rising order with the same elements.
use quarkdb.Base.{
  ℕ, zero, suc, ◌+◌, ◌≤◌, ◌<◌, ◌≡◌, refl, inl, inr, Bool, true, ◌&&◌, some, arith, Bool-cases, List,
  [], ◌∷◌, get_elem?, length, leb, if◌then◌else◌,
}
use quarkdb.Raft.Types.{calculate_quorum_size}

insert : ℕ → List ℕ → List ℕ
insert x [] = x ∷ []
insert x (y ∷ ys) = if leb x y then x ∷ y ∷ ys else y ∷ insert x ys

-- std::sort
unfoldable pub sort : List ℕ → List ℕ
unfolding insert
sort [] = []
sort (x ∷ xs) = insert x (sort xs)

-- How many are at least `v`.
abbrev pub count_from : ℕ → List ℕ → ℕ
count_from v [] = 0
count_from v (x ∷ xs) = (if leb v x then 1 else 0) + count_from v xs

abbrev AtLeast : ℕ → List ℕ → Type 0
AtLeast v [] = Unit {0}
AtLeast v (x ∷ xs) = (v ≤ x) × AtLeast v xs

abbrev IsSorted : List ℕ → Type 0
IsSorted [] = Unit {0}
IsSorted (x ∷ xs) = AtLeast x xs × IsSorted xs

AtLeast-mono : {u v : ℕ} (xs : List ℕ) → u ≤ v → AtLeast v xs → AtLeast u xs
AtLeast-mono [] h a = tt
AtLeast-mono (x ∷ xs) h a = (omega arith, AtLeast-mono xs h a.1)

insert-AtLeast : (v x : ℕ) (ys : List ℕ) → v ≤ x → AtLeast v ys → AtLeast v (insert x ys)
unfolding insert
insert-AtLeast v x [] h a = (h, tt)
insert-AtLeast v x (y ∷ ys) h a = ground (arith, insert-AtLeast v x ys)

insert-IsSorted : (x : ℕ) (ys : List ℕ) → IsSorted ys → IsSorted (insert x ys)
unfolding insert
insert-IsSorted x [] s = (tt, tt)
insert-IsSorted x (y ∷ ys) s =
    ground (arith, insert-IsSorted x ys s.1, insert-AtLeast y x ys, AtLeast-mono {u = x} {v = y} ys)

pub sort-IsSorted : (xs : List ℕ) → IsSorted (sort xs)
unfolding sort
sort-IsSorted [] = tt
sort-IsSorted (x ∷ xs) = insert-IsSorted x (sort xs) (sort-IsSorted xs)

count-insert : (v x : ℕ) (ys : List ℕ) → count_from v (insert x ys) ≡ count_from v (x ∷ ys)
unfolding insert
count-insert v x [] = refl
count-insert v x (y ∷ ys) = ground (arith, count-insert v x ys)

pub count-sort : (v : ℕ) (xs : List ℕ) → count_from v (sort xs) ≡ count_from v xs
unfolding sort
count-sort v [] = refl
count-sort v (x ∷ xs) = ground (arith, count-insert v x (sort xs), count-sort v xs)

length-insert : (x : ℕ) (ys : List ℕ) → length (insert x ys) ≡ suc (length ys)
unfolding insert
length-insert x [] = refl
length-insert x (y ∷ ys) = ground (arith, length-insert x ys)

pub length-sort : (xs : List ℕ) → length (sort xs) ≡ length xs
unfolding sort
length-sort [] = refl
length-sort (x ∷ xs) = omega (arith, length-insert x (sort xs), length-sort xs)

count-AtLeast : (v : ℕ) (xs : List ℕ) → AtLeast v xs → count_from v xs ≡ length xs
count-AtLeast v [] a = refl
count-AtLeast v (x ∷ xs) a = ground (arith, count-AtLeast v xs a.1)

count-le : (v : ℕ) (xs : List ℕ) → count_from v xs ≤ length xs
count-le v [] = omega arith
count-le v (x ∷ xs) = ground (arith, count-le v xs)

AtLeast-nth : (v i w : ℕ) (xs : List ℕ) → AtLeast v xs → get_elem? xs i ≡ some w → v ≤ w
AtLeast-nth v i w [] a h = cc
AtLeast-nth v zero w (x ∷ xs) a h = ground arith
AtLeast-nth v (suc i) w (x ∷ xs) a h = AtLeast-nth v i w xs a.1 h

-- In a sorted list, what stands from the place `t` on is at least what stands there.
pub count-nth :
    (xs : List ℕ) (t v : ℕ)
    → IsSorted xs
    → get_elem? xs t ≡ some v
    → length xs ≤ t + count_from v xs
count-nth [] t v s h = cc
count-nth (x ∷ xs) zero v s h = ground (arith, count-AtLeast v xs)
count-nth (x ∷ xs) (suc t) v s h = ground (arith, count-nth xs t v s.1)

-- What is greater than the element at `t` stands behind it.
pub count-above :
    (xs : List ℕ) (t v w : ℕ)
    → IsSorted xs
    → get_elem? xs t ≡ some v
    → v < w
    → t + suc (count_from w xs) ≤ length xs
count-above [] t v w s h l = cc
count-above (x ∷ xs) zero v w s h l = ground (arith, count-le w xs)
count-above (x ∷ xs) (suc t) v w s h l =
    ground (arith, count-above xs t v w s.1 h l, AtLeast-nth x t v xs s.0)

-- Votes over the members of a cluster.
abbrev pub tally {ℓ} : {A : Type ℓ} → (A → Bool) → List A → ℕ
tally p [] = 0
tally p (x ∷ xs) = (if p x then 1 else 0) + tally p xs

tally-sum :
    {A : Type 0} (p q : A → Bool) (xs : List A)
    → tally p xs + tally q xs ≤ length xs + tally (λ x. p x && q x) xs
tally-sum p q [] = omega arith
tally-sum p q (x ∷ xs) = ground (arith, tally-sum p q xs)

tally-pos :
    {A : Type 0} (p : A → Bool) (xs : List A)
    → 0 < tally p xs
    → (i : ℕ) × (x : A) × (get_elem? xs i ≡ some x) × (p x ≡ true)
tally-pos p [] h = elim h [ ]
tally-pos p (x ∷ xs) h = elim (Bool-cases (p x)) [
  | inl e ↦ (0, x, refl, e)
  | inr e ↦ let (i, y, at, yes_p) = tally-pos p xs (ground (arith, e)) in (suc i, y, at, yes_p)
]

-- If two tests each hold for a quorum of the members, then both hold for one of the members.
pub quorums_intersect :
    {A : Type 0} (members : List A) (p q : A → Bool)
    → calculate_quorum_size (length members) ≤ tally p members
    → calculate_quorum_size (length members) ≤ tally q members
    → (i : ℕ) × (x : A) × (get_elem? members i ≡ some x) × (p x ≡ true) × (q x ≡ true)
unfolding calculate_quorum_size
quorums_intersect members p q hp hq =
    let (i, x, at, both) =
      tally-pos (λ x. p x && q x) members (omega (arith, tally-sum p q members)) in
    (i, x, at, ground (arith, both), ground (arith, both))
