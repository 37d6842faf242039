-- ===== src/Protocol/RedisParser/Integers.antt =====
-- src/RedisParser.cc, readInteger: a number that may come in pieces.

use mathlib.Core.List.{append_assoc}
use quarkdb.Base.{
  ℕ, zero, suc, ◌^◌, ◌≤◌, ◌<◌, ◌≡◌, ◌≢◌, refl, ◌∙◌, sym, ap, true, All, [], ◌∷◌, ◌++◌, Bytes,
  length, length-append, ℤ, pos, negsuc, arith, Result, ok, ◌>>=◌,
}
use quarkdb.Protocol.Link.{Link}
use quarkdb.Protocol.BufferedReader.{BufferedReader}
use quarkdb.Protocol.BufferedReader.Pending.{IsSmallReader, pending}
use quarkdb.Protocol.BufferedReader.Readiness.{Waits}
use quarkdb.Protocol.BufferedReader.Filling.{HasFailed}
use quarkdb.Protocol.RedisParser.{RedisParser, read_line, line_read, read_integer, is_stopped}
use quarkdb.Protocol.RedisParser.Encoding.{line, line-IsOneLine, check_integer-line}
use quarkdb.Protocol.RedisParser.Lines.{
  ahead, extend, ReadsLine, line_done, line_stopped, read_line-ReadsLine,
}

module _ {L : Type 0} ⦃link : Link L⦄ where
  -- A call that stops before the rest: some byte has not come, or the link has failed.
  abbrev pub Awaits : Bytes → ℤ → L → Type 0
  Awaits rest (pos n) l = (n ≡ 0) × (length rest < length (link.unread l))
  Awaits rest (negsuc n) l = HasFailed l n

  pub Waits-Awaits :
      (len : ℕ) (status : ℤ) (reader : BufferedReader) (l : L) (needed rest : Bytes)
      → Waits len status reader l
      → ahead reader l ≡ needed ++ rest
      → len ≤ length needed
      → Awaits rest status l
  Waits-Awaits len (pos n) reader l needed rest (none_there, few) a h = (
    none_there,
    omega (
      arith,
      ap length a,
      length-append needed rest,
      length-append (pending reader) (link.unread l),
    ),
  )
  Waits-Awaits len (negsuc n) reader l needed rest w a h = w

  Waits-is_stopped :
      (len : ℕ) (status : ℤ) (reader : BufferedReader) (l : L)
      → Waits len status reader l
      → is_stopped status ≡ true
  Waits-is_stopped len (pos zero) reader l w = refl
  Waits-is_stopped len (pos (suc n)) reader l w = absurd (omega arith)
  Waits-is_stopped len (negsuc n) reader l w = refl

  -- A number behind a prefix, of which a part has been read.
  pub data ReadsInteger (p : RedisParser) (prefix n : ℕ) (more : Bytes)
      (o : Result (ℤ × ℤ × RedisParser × L)) : Type 0 where
    integer_done :
        (reader : BufferedReader) (l : L)
        → o ≡ ok (pos 1, pos n, record p { reader = reader; current_integer = [] }, l)
        → IsSmallReader reader
        → ahead reader l ≡ more
        → ReadsInteger p prefix n more o
    integer_stopped :
        (status : ℤ) (reader : BufferedReader) (l : L) (read left : Bytes)
        → o ≡ ok (status, pos 0, extend p reader read, l)
        → is_stopped status ≡ true
        → IsSmallReader reader
        → (p.current_integer ++ read) ++ left ≡ line prefix n
        → ahead reader l ≡ left ++ b'\n' ∷ more
        → Awaits more status l
        → ReadsInteger p prefix n more o

  pub read_integer-ReadsInteger :
      (rounds prefix n : ℕ) (p : RedisParser) (l : L) (todo more : Bytes)
      → prefix ≢ 10
      → n < 2 ^ 31
      → length (line prefix n) < rounds
      → IsSmallReader p.reader
      → p.current_integer ++ todo ≡ line prefix n
      → ahead p.reader l ≡ todo ++ b'\n' ∷ more
      → ReadsInteger p prefix n more (read_integer rounds prefix p l)
  unfolding read_integer
  read_integer-ReadsInteger rounds prefix n p l todo more other small enough v parts a =
      come (read_line rounds p l) (
        read_line-ReadsLine rounds p l todo more v a
          (plain_end p.current_integer todo (line prefix n) parts (line-IsOneLine prefix n other))
          (omega (arith, ap length parts, length-append p.current_integer todo)))
    where
      plain_end : (xs ys zs : Bytes) → xs ++ ys ≡ zs → All (λ c. c ≢ 10) zs → All (λ c. c ≢ 10) ys
      plain_end [] ys zs e h = rw e h
      plain_end (x ∷ xs) ys [] e h = absurd (omega (arith, ap length e))
      plain_end (x ∷ xs) ys (z ∷ zs) e (h, hs) = plain_end xs ys zs (cc) hs

      come :
          (o : Result (ℤ × RedisParser × L))
          → ReadsLine p todo more o
          → ReadsInteger p prefix n more (o >>= λ read. ok (line_read prefix read))
      come o (line_done reader l' e v' a') =
          let whole =
            sym (append_assoc p.current_integer todo (b'\n' ∷ []))
            ∙ ap (λ s. s ++ b'\n' ∷ []) parts in
          let checked =
            check_integer-line prefix n (extend p reader (todo ++ b'\n' ∷ [])) small whole in
          integer_done reader l' (rw (e, checked) refl) v' a'
      come o (line_stopped status reader l' read left e v' joined a' w) =
          let stopped = Waits-is_stopped 1 status reader l' w in
          integer_stopped status reader l' read left (rw (e, stopped) refl) stopped v'
            (append_assoc p.current_integer read left
              ∙ ap (λ s. p.current_integer ++ s) joined
              ∙ parts)
            a'
            (Waits-Awaits 1 status reader l' (left ++ b'\n' ∷ []) more w
              (a' ∙ sym (append_assoc left (b'\n' ∷ []) more))
              (omega (arith, length-append left (b'\n' ∷ []))))
