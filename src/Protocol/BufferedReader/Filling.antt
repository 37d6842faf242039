-- ===== src/Protocol/BufferedReader/Filling.antt =====
-- src/BufferedReader.cc, readFromLink: the loop that moves bytes from the link to the buffers.
use mathlib.Core.List.{append_assoc}
use native.Mathlib.Nat.{suc-add}
use quarkdb.Base.{
  ℕ, zero, suc, ◌+◌, ◌-◌, ◌^◌, false, ◌≤◌, ◌<◌, ◌≡◌, refl, ◌∙◌, sym, ap, inl, inr, Bool-cases, ltb,
  ltb→lt, List, [], ◌∷◌, ◌++◌, Bytes, length, length-append, ℤ, pos, negsuc, arith,
}
use quarkdb.Protocol.Link.{Link, Received, failed, bytes}
use quarkdb.Protocol.BufferedReader.{BufferedReader, front, as_int, exceeds, take_in, read_loop}
use quarkdb.Protocol.BufferedReader.Pending.{
  IsReader, IsWhole, pending, pending-partial, pending-full,
}

IsWhole-snoc :
    (size : ℕ) (bs : List Bytes) (b : Bytes)
    → IsWhole size bs
    → length b ≡ size
    → IsWhole size (bs ++ b ∷ [])
IsWhole-snoc size [] b w e = (e, tt)
IsWhole-snoc size (c ∷ bs) b (w, ws) e = (w, IsWhole-snoc size bs b ws e)

front-snoc :
    (bs : List Bytes) (back xs : Bytes)
    → length (front bs back) ≤ length (front (bs ++ (back ++ xs) ∷ []) [])
front-snoc [] back xs = omega (arith, length-append back xs)
front-snoc (b ∷ bs) back xs = omega arith

front-back :
    (bs : List Bytes) (back xs : Bytes) → length (front bs back) ≤ length (front bs (back ++ xs))
front-back [] back xs = omega (arith, length-append back xs)
front-back (b ∷ bs) back xs = omega arith

abbrev partial : BufferedReader → Bytes → BufferedReader
partial r xs = record r { back = r.back ++ xs; position_write = r.position_write + length xs }

abbrev full : BufferedReader → Bytes → BufferedReader
full r xs = record r { filled = r.filled ++ (r.back ++ xs) ∷ []; back = []; position_write = 0 }

partial-IsReader :
    (r : BufferedReader) (xs : Bytes)
    → IsReader r
    → length xs < r.buffer_size - r.position_write
    → IsReader (partial r xs)
partial-IsReader r xs v h = record {
  some_size = v.some_size;
  whole = v.whole;
  written = length-append r.back xs ∙ ap (λ n. n + length xs) v.written;
  room = omega arith;
  within = omega (arith, front-back r.filled r.back xs);
}

full-IsReader :
    (r : BufferedReader) (xs : Bytes)
    → IsReader r
    → length xs ≡ r.buffer_size - r.position_write
    → IsReader (full r xs)
full-IsReader r xs v h = record {
  some_size = v.some_size;
  whole =
      IsWhole-snoc r.buffer_size r.filled (r.back ++ xs) v.whole
        (omega (arith, length-append r.back xs));
  written = refl;
  room = v.some_size;
  within = omega (arith, front-snoc r.filled r.back xs);
}

pub as_int-small : (n : ℕ) → n < 2 ^ 31 → as_int n ≡ pos n
unfolding as_int
as_int-small n h = ground arith

-- An int is not above the size that it was made of.
pub as_int-below : (n m : ℕ) → as_int n ≡ pos m → m ≤ n
unfolding as_int
as_int-below n m e = ground arith

not_exceeded : (n limit : ℕ) → n < 2 ^ 31 → limit < 2 ^ 31 → exceeds n limit ≡ false → n ≤ limit
unfolding exceeds
not_exceeded n limit h k e = ground (arith, as_int-small n h, as_int-small limit k, e)

-- A limit that the int `total_bytes` can tell whether it has been passed.
abbrev pub IsTame : ℕ → ℕ → ℕ → Type 0
IsTame size limit received = (limit + size < 2 ^ 31) × (received ≤ limit)

module _ {L : Type 0} ⦃link : Link L⦄ where
  abbrev pub HasFailed : L → ℕ → Type 0
  HasFailed l n = (before : L) × (blen : ℕ) × (link.recv before blen ≡ (failed n, l))

  -- The status of a read that began after `received` bytes.
  pub data Counts (r : BufferedReader) (received : ℕ) (status : ℤ) (after : BufferedReader) (l : L)
      : Type 0 where
    counted :
        (total : ℕ)
        → status ≡ as_int total
        → total + length (pending r) ≡ received + length (pending after)
        → Counts r received status after l
    link_failed : (n : ℕ) → status ≡ negsuc n → HasFailed l n → Counts r received status after l

  -- A read moves bytes from the link to the reader.
  pub record Fills (r : BufferedReader) (l : L) (limit received : ℕ) (o : ℤ × BufferedReader × L)
      : Type 0 where
    pub valid : IsReader o.1
    pub same_size : o.1.buffer_size ≡ r.buffer_size
    pub kept : pending o.1 ++ link.unread o.2 ≡ pending r ++ link.unread l
    pub bound :
        IsTame r.buffer_size limit received
        → received + length (pending o.1) ≤ length (pending r) + (limit + r.buffer_size)
    pub counts : Counts r received o.0 o.1 o.2

  -- Bytes that have come in.
  Fills-bytes :
      (r after : BufferedReader) (l l' : L) (limit received space : ℕ) (xs : Bytes)
      → link.recv l space ≡ (bytes xs, l')
      → IsReader after
      → after.buffer_size ≡ r.buffer_size
      → space ≤ r.buffer_size
      → pending after ≡ pending r ++ xs
      → Fills r l limit received (as_int (received + length xs), after, l')
  Fills-bytes r after l l' limit received space xs e v same within p =
      let few = (link.unread-bytes l l' space xs e).1 in
      let longer = length-append (pending r) xs in
      record {
        valid = v;
        same_size = same;
        kept =
            ap (λ ys. ys ++ link.unread l') p
            ∙ append_assoc (pending r) xs (link.unread l')
            ∙ ap (λ ys. pending r ++ ys) (sym (link.unread-bytes l l' space xs e).0);
        bound = λ tame. omega (arith, few, ap length p, longer, tame.0, tame.1);
        counts = counted (received + length xs) refl (omega (arith, ap length p, longer));
      }

  -- A round that filled a region, and the rounds behind it.
  Fills-again :
      (r between : BufferedReader) (l l' : L) (limit received space : ℕ) (xs : Bytes)
      (o : ℤ × BufferedReader × L)
      → Fills r l limit received (as_int (received + length xs), between, l')
      → pending between ≡ pending r ++ xs
      → length xs ≤ r.buffer_size
      → exceeds (received + length xs) limit ≡ false
      → Fills between l' limit (received + length xs) o
      → Fills r l limit received o
  Fills-again r between l l' limit received space xs (status, after, l'') f p few low g =
      let longer = ap length p ∙ length-append (pending r) xs in
      record {
        valid = g.valid;
        same_size = g.same_size ∙ f.same_size;
        kept = g.kept ∙ f.kept;
        bound = λ tame.
            let below =
              not_exceeded (received + length xs) limit (omega (arith, few, tame.0, tame.1))
                (omega (arith, tame.0)) low in
            let further = g.bound (omega (arith, tame.0, f.same_size), below) in
            omega (arith, further, longer, f.same_size);
        counts = both g.counts;
      }
    where
      both :
          Counts between (received + length xs) status after l''
          → Counts r received status after l''
      both (counted total e c) =
          counted total e (omega (arith, c, ap length p, length-append (pending r) xs))
      both (link_failed n e w) = link_failed n e w

  pub read_loop-Fills :
      (rounds limit received : ℕ) (r : BufferedReader) (l : L)
      → IsReader r
      → Fills r l limit received (read_loop rounds limit received r l)
  read_loop-Fills zero limit received r l v = record {
    valid = v;
    same_size = refl;
    kept = refl;
    bound = λ tame. omega (arith, tame.0, tame.1);
    counts = counted received refl refl;
  }
  read_loop-Fills (suc rounds) limit received r l v =
      come (read_loop-Fills rounds limit) (link.recv l space) refl
    where
      space : ℕ
      space = r.buffer_size - r.position_write

      come :
          ((n : ℕ) (r' : BufferedReader) (l' : L)
            → IsReader r'
            → Fills r' l' limit n (read_loop rounds limit n r' l'))
          → (e : Received × L) → link.recv l space ≡ e
          → Fills r l limit received (take_in (read_loop rounds limit) r limit received space e)
      come again (failed n, l') e = record {
        valid = v;
        same_size = refl;
        kept = ap (λ ys. pending r ++ ys) (sym (link.unread-failed l l' space n e));
        bound = λ tame. omega (arith, tame.0, tame.1);
        counts = link_failed n refl (l, space, e);
      }
      come again (bytes xs, l') e =
          let few = (link.unread-bytes l l' space xs e).1 in
          elim (Bool-cases (ltb (length xs) space)) [
            | inl short ↦ rw short (
                Fills-bytes r (partial r xs) l l' limit received space xs e
                  (partial-IsReader r xs v (ltb→lt (length xs) space short)) refl (omega arith)
                  (pending-partial r xs (r.position_write + length xs) v))
            | inr whole ↦
                let some_more =
                  Fills-bytes r (full r xs) l l' limit received space xs e
                    (full-IsReader r xs v (ground arith)) refl (omega arith)
                    (pending-full r xs v) in
                elim (Bool-cases (exceeds (received + length xs) limit)) [
                  | inl much ↦ rw (whole, much) some_more
                  | inr little ↦
                      rw (whole, little)
                        (Fills-again r (full r xs) l l' limit received space xs
                          (read_loop rounds limit (received + length xs) (full r xs) l') some_more
                          (pending-full r xs v) (omega (arith, few)) little
                          (again (received + length xs) (full r xs) l' some_more.valid))
                ]
          ]

  -- For a valid reader and any limit, the loop of readFromLink ends: with more rounds than the bytes that
  -- the other end has yet to send, any further rounds change nothing.
  pub read_loop_enough :
      (rounds more limit received : ℕ) (r : BufferedReader) (l : L)
      → IsReader r
      → length (link.unread l) < rounds
      → read_loop (rounds + more) limit received r l ≡ read_loop rounds limit received r l
  read_loop_enough zero more limit received r l v h = absurd (omega arith)
  read_loop_enough (suc rounds) more limit received r l v h =
      rw suc-add (come (read_loop_enough rounds more limit) (link.recv l space) refl)
    where
      space : ℕ
      space = r.buffer_size - r.position_write

      come :
          ((n : ℕ) (r' : BufferedReader) (l' : L)
            → IsReader r'
            → length (link.unread l') < rounds
            → read_loop (rounds + more) limit n r' l' ≡ read_loop rounds limit n r' l')
          → (e : Received × L) → link.recv l space ≡ e
          → take_in (read_loop (rounds + more) limit) r limit received space e
            ≡ take_in (read_loop rounds limit) r limit received space e
      come again (failed n, l') e = refl
      come again (bytes xs, l') e =
          let (parts, few) = link.unread-bytes l l' space xs e in
          elim (Bool-cases (ltb (length xs) space)) [
            | inl short ↦ rw short refl
            | inr whole ↦ elim (Bool-cases (exceeds (received + length xs) limit)) [
              | inl much ↦ rw (whole, much) refl
              | inr little ↦
                  let filled : length xs ≡ space = ground arith in
                  rw (whole, little)
                    (again (received + length xs) (full r xs) l' (full-IsReader r xs v filled) (
                      omega (
                        arith,
                        v.room,
                        filled,
                        ap length parts,
                        length-append xs (link.unread l'),
                      )))
            ]
          ]
