-- ===== src/Protocol/BufferedReader/Pending.antt =====
-- src/BufferedReader.cc: the bytes that a reader holds, across its regions.
use mathlib.Core.List.{append-nil, append_assoc}
use quarkdb.Base.{
  ℕ, ◌+◌, ◌*◌, ◌^◌, ◌≤◌, ◌<◌, ◌≡◌, refl, ◌∙◌, sym, ap, All, List, [], ◌∷◌, ◌++◌, Bytes, length,
  drop, length-append, length-drop, drop-append, arith,
}
use quarkdb.Protocol.BufferedReader.{BufferedReader, front, available}

abbrev pub flatten : List Bytes → Bytes → Bytes
flatten [] back = back
flatten (b ∷ bs) back = b ++ flatten bs back

-- The bytes that have been received, and have not been consumed.
abbrev pub pending : BufferedReader → Bytes
pending r = drop r.position_read (flatten r.filled r.back)

abbrev pub IsWhole : ℕ → List Bytes → Type 0
IsWhole size bs = All (λ b. length b ≡ size) bs

pub record IsReader (r : BufferedReader) : Type 0 where
  pub some_size : 0 < r.buffer_size
  pub whole : IsWhole r.buffer_size r.filled
  pub written : length r.back ≡ r.position_write
  pub room : r.position_write < r.buffer_size
  pub within : r.position_read ≤ length (front r.filled r.back)

-- A reader whose regions are not larger than twice the default, and whose bytes an int can count.
pub record IsSmallReader (r : BufferedReader) : Type 0 where
  pub valid : IsReader r
  pub small : r.buffer_size ≤ 65536
  pub few : length (pending r) < 2 ^ 31

pub front-flatten :
    (bs : List Bytes) (back : Bytes) → length (front bs back) ≤ length (flatten bs back)
front-flatten [] back = omega arith
front-flatten (b ∷ bs) back = omega (arith, length-append b (flatten bs back))

flatten-append :
    (bs : List Bytes) (back xs : Bytes) → flatten bs (back ++ xs) ≡ flatten bs back ++ xs
flatten-append [] back xs = refl
flatten-append (b ∷ bs) back xs =
    ap (λ ys. b ++ ys) (flatten-append bs back xs) ∙ sym (append_assoc b (flatten bs back) xs)

flatten-filled : (bs : List Bytes) (b : Bytes) → flatten (bs ++ b ∷ []) [] ≡ flatten bs b
flatten-filled [] b = append-nil b
flatten-filled (c ∷ bs) b = ap (λ ys. c ++ ys) (flatten-filled bs b)

length-flatten :
    (size : ℕ) (bs : List Bytes) (back : Bytes)
    → IsWhole size bs
    → length (flatten bs back) ≡ length bs * size + length back
length-flatten size [] back w = grind arith
length-flatten size (b ∷ bs) back (w, ws) =
    grind (arith, length-append b (flatten bs back), length-flatten size bs back ws)

pub available-pending : (r : BufferedReader) → IsReader r → available r ≡ length (pending r)
available-pending r v = grind (
  arith,
  length-drop r.position_read (flatten r.filled r.back),
  length-flatten r.buffer_size r.filled r.back v.whole,
  front-flatten r.filled r.back,
)

pub pending-partial :
    (r : BufferedReader) (xs : Bytes) (n : ℕ)
    → IsReader r
    → pending (record r { back = r.back ++ xs; position_write = n }) ≡ pending r ++ xs
pending-partial r xs n v =
    ap (drop r.position_read) (flatten-append r.filled r.back xs)
    ∙ drop-append r.position_read (flatten r.filled r.back) xs
        (omega (arith, front-flatten r.filled r.back))

pub pending-full :
    (r : BufferedReader) (xs : Bytes)
    → IsReader r
    → pending (record r { filled = r.filled ++ (r.back ++ xs) ∷ []; back = []; position_write = 0 })
      ≡ pending r ++ xs
pending-full r xs v =
    ap (drop r.position_read) (flatten-filled r.filled (r.back ++ xs)) ∙ pending-partial r xs 0 v
