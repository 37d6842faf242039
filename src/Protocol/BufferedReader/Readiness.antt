-- ===== src/Protocol/BufferedReader/Readiness.antt =====
-- src/BufferedReader.cc, canConsume: whether the bytes are there that a client asks for.

use quarkdb.Base.{
  ℕ, zero, suc, ◌+◌, ◌-◌, ◌^◌, ◌≤◌, ◌<◌, ◌≡◌, refl, ◌∙◌, sym, inl, inr, Bool-cases, leb, leb→le,
  ◌++◌, length, ℤ, pos, negsuc, arith,
}
use mathlib.Core.Path.{subst}
use quarkdb.Protocol.Link.{Link}
use quarkdb.Protocol.BufferedReader.{
  BufferedReader, available, can_consume, enough, read_from_link, read_loop, as_int,
}
use quarkdb.Protocol.BufferedReader.Pending.{IsReader, IsSmallReader, pending, available-pending}
use quarkdb.Protocol.BufferedReader.Filling.{
  HasFailed, Fills, Counts, counted, link_failed, IsTame, as_int-small, as_int-below,
  read_loop-Fills,
}

pos-inj : {n m : ℕ} → ◌≡◌ {A = ℤ} (pos n) (pos m) → n ≡ m
pos-inj e = cc

negsuc-inj : {n m : ℕ} → ◌≡◌ {A = ℤ} (negsuc n) (negsuc m) → n ≡ m
negsuc-inj e = cc

pos-negsuc : {n m : ℕ} → ◌≡◌ {A = ℤ} (pos n) (negsuc m) → ⊥
pos-negsuc e = cc

-- So many bytes that, with those of one more region, an int can count them.
abbrev pub IsShort : ℕ → Type 0
IsShort len = len + 65536 < 2 ^ 31

-- A read for `len` bytes by a small reader.
abbrev pub IsCounted : BufferedReader → ℕ → Type 0
IsCounted r len = IsSmallReader r × IsShort len

-- A status that ends the call.
abbrev pub NotAbove : ℤ → Type 0
NotAbove (pos n) = n ≡ 0
NotAbove (negsuc n) = Unit

module _ {L : Type 0} ⦃link : Link L⦄ where
  -- What a client of the reader sees: the next bytes, or a status that says that there are too few of
  -- them, or that the link has failed. Nothing is lost in either case.
  abbrev pub Waits : ℕ → ℤ → BufferedReader → L → Type 0
  Waits len (pos n) after l = (n ≡ 0) × (length (pending after) < len)
  Waits len (negsuc n) after l = HasFailed l n

  -- What canConsume finds out. The bytes are there whenever the status is positive.
  pub data IsReady (r : BufferedReader) (l : L) (len : ℕ) (o : ℤ × BufferedReader × L)
      : Type 0 where
    ready :
        (n : ℕ) (r' : BufferedReader) (l' : L)
        → o ≡ (pos (suc n), r', l')
        → IsReader r'
        → pending r' ++ link.unread l' ≡ pending r ++ link.unread l
        → len ≤ length (pending r')
        → (IsCounted r len → IsSmallReader r')
        → IsReady r l len o
    starved :
        (status : ℤ) (r' : BufferedReader) (l' : L)
        → o ≡ (status, r', l')
        → NotAbove status
        → IsReader r'
        → pending r' ++ link.unread l' ≡ pending r ++ link.unread l
        → (IsCounted r len → IsSmallReader r' × Waits len status r' l')
        → IsReady r l len o

  -- The bytes are there, and the status is their number as an int.
  has_enough :
      (r after : BufferedReader) (l l' : L) (len n : ℕ)
      → IsReader after
      → pending after ++ link.unread l' ≡ pending r ++ link.unread l
      → 0 < len
      → len ≤ n
      → len ≤ length (pending after)
      → (IsCounted r len → IsSmallReader after × (n < 2 ^ 31))
      → IsReady r l len (as_int n, after, l')
  has_enough r after l l' len n v kept some_len low h counted_then = come (as_int n) refl
    where
      come : (status : ℤ) → as_int n ≡ status → IsReady r l len (status, after, l')
      come (pos zero) e =
          starved (pos 0) after l' refl refl v kept
            (λ c. absurd (omega (arith, pos-inj (sym (as_int-small n (counted_then c).1) ∙ e))))
      come (pos (suc m)) e = ready m after l' refl v kept h (λ c. (counted_then c).0)
      come (negsuc m) e =
          starved (negsuc m) after l' refl tt v kept
            (λ c. absurd (pos-negsuc (sym (as_int-small n (counted_then c).1) ∙ e)))

  module _ (r : BufferedReader) (l : L) (len : ℕ) (some_len : 0 < len)
      (too_few : length (pending r) < len) where
    limit : ℕ
    limit = len - length (pending r)

    tame : IsCounted r len → IsTame r.buffer_size limit 0
    unfolding limit
    tame c = (omega (arith, c.0.small, c.1), omega arith)

    small_after :
        (o : ℤ × BufferedReader × L) → Fills r l limit 0 o → IsCounted r len → IsSmallReader o.1
    unfolding limit
    small_after o f c = record {
      valid = f.valid;
      small = omega (arith, f.same_size, c.0.small);
      few = omega (arith, f.bound (tame c), c.0.small, c.1, too_few);
    }

    waits_after :
        (status : ℤ) (after : BufferedReader) (l' : L)
        → Fills r l limit 0 (status, after, l')
        → IsCounted r len
        → (n : ℕ) → status ≡ negsuc n
        → HasFailed l' n
    waits_after status after l' f c n e = come f.counts
      where
        come : Counts r 0 status after l' → HasFailed l' n
        come (counted t same sum) = absurd (
            pos-negsuc (
              sym (as_int-small t (omega (arith, sum, (small_after (status, after, l') f c).few)))
              ∙ sym same
              ∙ e))
        come (link_failed m same w) = subst (HasFailed l') (negsuc-inj (sym same ∙ e)) w

    -- What a status that is not negative says of the bytes that have come in.
    counted_after :
        (n : ℕ) (after : BufferedReader) (l' : L)
        → Fills r l limit 0 (pos n, after, l')
        → (n + length (pending r) ≤ length (pending after))
          × (length (pending after) < 2 ^ 31 → n + length (pending r) ≡ length (pending after))
    counted_after n after l' f = come f.counts
      where
        come :
            Counts r 0 (pos n) after l'
            → (n + length (pending r) ≤ length (pending after))
              × (length (pending after) < 2 ^ 31 → n + length (pending r) ≡ length (pending after))
        come (counted t same sum) = (
          omega (arith, sum, as_int-below t n (sym same)),
          (λ few. omega (arith, sum, pos-inj (same ∙ as_int-small t (omega (arith, sum, few))))),
        )
        come (link_failed m same w) = absurd (pos-negsuc same)

    after_read :
        (o : ℤ × BufferedReader × L)
        → Fills r l limit 0 o
        → IsReady r l len (enough len (length (pending r)) o)
    after_read (negsuc n, after, l') f =
        starved (negsuc n) after l' refl tt f.valid f.kept
          (λ c. (small_after (negsuc n, after, l') f c, waits_after (negsuc n) after l' f c n refl))
    after_read (pos n, after, l') f =
        let total = length (pending r) + n in
        let (below, exact) = counted_after n after l' f in
        elim (Bool-cases (leb len total)) [
          | inl fine ↦ rw fine (
              has_enough r after l l' len total f.valid f.kept some_len (leb→le len total fine)
                (omega (arith, below, leb→le len total fine))
                (λ c.
                  let s = small_after (pos n, after, l') f c in (s, omega (arith, s.few, below))))
          | inr few ↦ rw few (
              starved (pos 0) after l' refl refl f.valid f.kept (λ c.
                let s = small_after (pos n, after, l') f c in
                (s, (refl, ground (arith, exact s.few, few)))))
        ]

  pub can_consume-IsReady :
      (r : BufferedReader) (l : L) (len : ℕ)
      → IsReader r
      → 0 < len
      → IsReady r l len (can_consume r l len)
  unfolding can_consume read_from_link limit
  can_consume-IsReady r l len v some_len = elim (Bool-cases (leb len (available r))) [
    | inl fine ↦ rw fine (
        has_enough r r l l len (available r) v refl some_len (leb→le len (available r) fine)
          (omega (arith, available-pending r v, leb→le len (available r) fine))
          (λ c. (c.0, omega (arith, available-pending r v, c.0.few))))
    | inr few ↦
        let too_few : length (pending r) < len = ground (arith, available-pending r v, few) in
        rw (few, available-pending r v)
          (after_read r l len some_len too_few
            (read_loop (suc (length (link.unread l))) (len - length (pending r)) 0 r l)
            (read_loop-Fills (suc (length (link.unread l))) (len - length (pending r)) 0 r l v))
  ]
