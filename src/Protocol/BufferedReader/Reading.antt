-- ===== src/Protocol/BufferedReader/Reading.antt =====
-- src/BufferedReader.cc, consume: the two ways a client takes bytes, into a string and pinned.
use mathlib.Core.List.{append_assoc}
use quarkdb.Base.{
  equal_parts, ℕ, zero, suc, ◌≤◌, ◌<◌, ◌≡◌, refl, ◌∙◌, sym, ap, [], ◌++◌, Bytes, length,
  length-append, ℤ, pos, negsuc, arith, Result, ok,
}
use quarkdb.Protocol.Link.{Link}
use quarkdb.Protocol.BufferedReader.{
  BufferedReader, consume_internal, consume_pinned, consume, consume_buffer, consume_if,
  can_consume, as_int,
}
use quarkdb.Protocol.BufferedReader.Pending.{IsReader, IsSmallReader, pending}
use quarkdb.Protocol.BufferedReader.Consume.{Takes, consume_internal-Takes, consume_pinned-Takes}
use quarkdb.Protocol.BufferedReader.Filling.{as_int-small}
use quarkdb.Protocol.BufferedReader.Readiness.{
  Waits, IsShort, IsCounted, IsReady, ready, starved, can_consume-IsReady,
}

module _ {L : Type 0} ⦃link : Link L⦄ where
  pub data Consumes (r : BufferedReader) (l : L) (len : ℕ)
      (o : Result (ℤ × Bytes × BufferedReader × L)) : Type 0 where
    taken :
        (str : Bytes) (after : BufferedReader) (l' : L)
        → o ≡ ok (pos len, str, after, l')
        → IsSmallReader after
        → length str ≡ len
        → str ++ (pending after ++ link.unread l') ≡ pending r ++ link.unread l
        → Consumes r l len o
    waits :
        (status : ℤ) (after : BufferedReader) (l' : L)
        → o ≡ ok (status, [], after, l')
        → IsSmallReader after
        → pending after ++ link.unread l' ≡ pending r ++ link.unread l
        → Waits len status after l'
        → Consumes r l len o

  module _ (internal : BufferedReader → ℕ → Result (Bytes × BufferedReader))
      (takes : (r : BufferedReader) (len : ℕ)
        → IsReader r
        → len ≤ length (pending r)
        → Takes internal r len) where
    consume_if-Consumes :
        (r : BufferedReader) (l : L) (len : ℕ) (o : ℤ × BufferedReader × L)
        → IsCounted r len
        → IsReady r l len o
        → Consumes r l len (consume_if internal len o)
    consume_if-Consumes r l len o c (ready n r' l' e v kept h small_then) =
        let t = takes r' len v h in
        let s = small_then c in
        taken t.str t.after l' (rw (e, t.run, as_int-small len (omega (arith, c.1))) refl)
          (record {
            valid = t.valid;
            small = omega (arith, t.same_size, s.small);
            few = omega (arith, s.few, ap length t.joined, length-append t.str (pending t.after));
          })
          t.measured
          (sym (append_assoc t.str (pending t.after) (link.unread l'))
            ∙ ap (λ ys. ys ++ link.unread l') t.joined
            ∙ kept)
    consume_if-Consumes r l len o c (starved (pos zero) r' l' e stop v kept w) =
        waits (pos 0) r' l' (rw e refl) (w c).0 kept (w c).1
    consume_if-Consumes r l len o c (starved (pos (suc n)) r' l' e stop v kept w) =
        absurd (omega (arith, stop))
    consume_if-Consumes r l len o c (starved (negsuc n) r' l' e stop v kept w) =
        waits (negsuc n) r' l' (rw e refl) (w c).0 kept (w c).1

  -- The two ways to consume bytes.
  pub consume-Consumes :
      (r : BufferedReader) (l : L) (len : ℕ)
      → IsSmallReader r
      → IsShort len
      → 0 < len
      → Consumes r l len (consume r l len)
  unfolding consume
  consume-Consumes r l len s short h =
      consume_if-Consumes consume_internal consume_internal-Takes r l len (can_consume r l len)
        (s, short) (can_consume-IsReady r l len s.valid h)

  pub consume_buffer-Consumes :
      (r : BufferedReader) (l : L) (len : ℕ)
      → IsSmallReader r
      → IsShort len
      → 0 < len
      → Consumes r l len (consume_buffer r l len)
  unfolding consume_buffer
  consume_buffer-Consumes r l len s short h =
      consume_if-Consumes consume_pinned consume_pinned-Takes r l len (can_consume r l len)
        (s, short) (can_consume-IsReady r l len s.valid h)

  -- Whether the bytes are copied or referred to, a reader returns the same status and the same bytes, from
  -- the same state of the link, and holds the same bytes afterwards.
  pub pinned_reads_agree :
      (r : BufferedReader) (l : L) (len : ℕ)
      → IsReader r
      → 0 < len
      → (status : ℤ) × (str : Bytes) × (copied referred : BufferedReader) × (l' : L) × (consume r l
            len
          ≡ ok (status, str, copied, l'))
        × (consume_buffer r l len ≡ ok (status, str, referred, l'))
        × (pending copied ≡ pending referred)
        × IsReader copied
        × IsReader referred
  unfolding consume consume_buffer
  pinned_reads_agree r l len v some_len =
      come (can_consume r l len) (can_consume-IsReady r l len v some_len)
    where
      come :
          (o : ℤ × BufferedReader × L)
          → IsReady r l len o
          → (status : ℤ) × (str : Bytes) × (copied referred : BufferedReader) × (l' : L)
            × (consume_if consume_internal len o ≡ ok (status, str, copied, l'))
            × (consume_if consume_pinned len o ≡ ok (status, str, referred, l'))
            × (pending copied ≡ pending referred)
            × IsReader copied
            × IsReader referred
      come o (ready n r' l' e v' kept h small) =
          let a = consume_internal-Takes r' len v' h in
          let b = consume_pinned-Takes r' len v' h in
          let (strings, rests) =
            equal_parts a.str (pending a.after) b.str (pending b.after) (a.joined ∙ sym b.joined)
              (a.measured ∙ sym b.measured) in
          (
            as_int len,
            b.str,
            a.after,
            b.after,
            l',
            rw (e, a.run, strings) refl,
            rw (e, b.run) refl,
            rests,
            a.valid,
            b.valid,
          )
      come o (starved (pos zero) r' l' e stop v' kept w) =
          (pos 0, [], r', r', l', rw e refl, rw e refl, refl, v', v')
      come o (starved (pos (suc n)) r' l' e stop v' kept w) = absurd (omega (arith, stop))
      come o (starved (negsuc n) r' l' e stop v' kept w) =
          (negsuc n, [], r', r', l', rw e refl, rw e refl, refl, v', v')
