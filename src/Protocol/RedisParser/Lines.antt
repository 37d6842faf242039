-- ===== src/Protocol/RedisParser/Lines.antt =====
-- src/RedisParser.cc, readInteger: a line that may come in pieces.
use mathlib.Core.List.{append-nil, append_assoc}
use quarkdb.Base.{
  head-inj, tail-inj, ℕ, zero, suc, ◌<◌, ◌≡◌, ◌≢◌, refl, ◌∙◌, sym, ap, true, false, ==_iff, All, [],
  ◌∷◌, ◌++◌, Bytes, length, ℤ, pos, negsuc, arith, some, Result, ok, ◌>>=◌,
}
use quarkdb.Protocol.Link.{Link}
use quarkdb.Protocol.BufferedReader.{BufferedReader, consume}
use quarkdb.Protocol.BufferedReader.Pending.{IsSmallReader, pending}
use quarkdb.Protocol.BufferedReader.Readiness.{Waits}
use quarkdb.Protocol.BufferedReader.Reading.{Consumes, taken, waits, consume-Consumes}
use quarkdb.Protocol.RedisParser.{RedisParser, add_byte, read_line, byte_is}

abbrev pub extend : RedisParser → BufferedReader → Bytes → RedisParser
extend p reader s = record p { reader = reader; current_integer = p.current_integer ++ s }

module _ {L : Type 0} ⦃link : Link L⦄ where
  -- All the bytes that the parser has not looked at.
  abbrev pub ahead : BufferedReader → L → Bytes
  ahead reader l = pending reader ++ link.unread l

  -- A line up to the newline, or a part of it.
  pub data ReadsLine (p : RedisParser) (todo more : Bytes) (o : Result (ℤ × RedisParser × L))
      : Type 0 where
    line_done :
        (reader : BufferedReader) (l : L)
        → o ≡ ok (pos 1, extend p reader (todo ++ b'\n' ∷ []), l)
        → IsSmallReader reader
        → ahead reader l ≡ more
        → ReadsLine p todo more o
    line_stopped :
        (status : ℤ) (reader : BufferedReader) (l : L) (read left : Bytes)
        → o ≡ ok (status, extend p reader read, l)
        → IsSmallReader reader
        → read ++ left ≡ todo
        → ahead reader l ≡ left ++ b'\n' ∷ more
        → Waits 1 status reader l
        → ReadsLine p todo more o

  -- A byte that was read before.
  ReadsLine-cons :
      {p : RedisParser} {ts more : Bytes} {o : Result (ℤ × RedisParser × L)}
      (between : BufferedReader) (t : ℕ)
      → ReadsLine (extend p between (t ∷ [])) ts more o
      → ReadsLine p (t ∷ ts) more o
  ReadsLine-cons {p} {ts} between t (line_done reader l e v a) =
      line_done reader l
        (e
          ∙ ap (λ s. ok (pos 1, record p { reader = reader; current_integer = s }, l))
              (append_assoc p.current_integer (t ∷ []) (ts ++ b'\n' ∷ [])))
        v a
  ReadsLine-cons {p} between t (line_stopped status reader l read left e v parts a w) =
      line_stopped status reader l (t ∷ read) left
        (e
          ∙ ap (λ s. ok (status, record p { reader = reader; current_integer = s }, l))
              (append_assoc p.current_integer (t ∷ []) read))
        v (ap (λ s. t ∷ s) parts) a w

  pub read_line-ReadsLine :
      (rounds : ℕ) (p : RedisParser) (l : L) (todo more : Bytes)
      → IsSmallReader p.reader
      → ahead p.reader l ≡ todo ++ b'\n' ∷ more
      → All (λ c. c ≢ 10) todo
      → length todo < rounds
      → ReadsLine p todo more (read_line rounds p l)
  read_line-ReadsLine zero p l todo more v a plain h = absurd (omega arith)
  read_line-ReadsLine (suc rounds) p l todo more v a plain h =
      come (read_line-ReadsLine rounds) (consume p.reader l 1)
        (consume-Consumes p.reader l 1 v (omega arith) (omega arith))
    where
      stopped :
          (status : ℤ) (after : BufferedReader) (l' : L)
          → IsSmallReader after
          → ahead after l' ≡ ahead p.reader l
          → Waits 1 status after l'
          → ReadsLine p todo more (ok (status, record p { reader = after }, l'))
      stopped status after l' v' kept w =
          line_stopped status after l' [] todo
            (ap (λ s. ok (status, record p { reader = after; current_integer = s }, l'))
              (sym (append-nil p.current_integer)))
            v' refl (kept ∙ a) w

      byte_read :
          ((p' : RedisParser) (l' : L) (todo' more' : Bytes)
            → IsSmallReader p'.reader
            → ahead p'.reader l' ≡ todo' ++ b'\n' ∷ more'
            → All (λ c. c ≢ 10) todo'
            → length todo' < rounds
            → ReadsLine p' todo' more' (read_line rounds p' l'))
          → (c : ℕ) (after : BufferedReader) (l' : L) (ts : Bytes) → IsSmallReader after
          → c ∷ ahead after l' ≡ ts ++ b'\n' ∷ more
          → All (λ b. b ≢ 10) ts
          → length ts < suc rounds
          → ReadsLine p ts more (add_byte (read_line rounds) p (pos 1, c ∷ [], after, l'))
      byte_read again c after l' [] v' joined plain' short =
          let newline : byte_is (some c) b'\n' ≡ true = (==_iff c b'\n').1 (head-inj joined) in
          rw newline (
            line_done after l' (ap (λ b. ok (pos 1, extend p after (b ∷ []), l')) (head-inj joined))
              v' (tail-inj joined))
      byte_read again c after l' (t ∷ ts) v' joined (other, others) short =
          let same = head-inj joined in
          let no_newline : byte_is (some t) b'\n' ≡ false = ground (arith, other) in
          rw (same, no_newline)
            (ReadsLine-cons after t (
              again (extend p after (t ∷ [])) l' ts more v' (tail-inj joined) others (omega arith)))

      come :
          ((p' : RedisParser) (l' : L) (todo' more' : Bytes)
            → IsSmallReader p'.reader
            → ahead p'.reader l' ≡ todo' ++ b'\n' ∷ more'
            → All (λ c. c ≢ 10) todo'
            → length todo' < rounds
            → ReadsLine p' todo' more' (read_line rounds p' l'))
          → (o : Result (ℤ × Bytes × BufferedReader × L)) → Consumes p.reader l 1 o
          → ReadsLine p todo more (o >>= add_byte (read_line rounds) p)
      come again o (taken [] after l' e v' size joined) = absurd (omega arith)
      come again o (taken (c ∷ d ∷ str) after l' e v' size joined) = absurd (omega arith)
      come again o (taken (c ∷ []) after l' e v' size joined) =
          rw e (byte_read again c after l' todo v' (joined ∙ a) plain h)
      come again o (waits (pos zero) after l' e v' kept w) =
          rw e (stopped (pos 0) after l' v' kept w)
      come again o (waits (pos (suc n)) after l' e v' kept w) = absurd (omega arith)
      come again o (waits (negsuc n) after l' e v' kept w) =
          rw e (stopped (negsuc n) after l' v' kept w)
