-- ===== src/Protocol/RedisParser/Elements.antt =====
-- src/RedisParser.cc, readElement: an element that may come in pieces.
use mathlib.Core.Path.{subst}
use mathlib.Core.List.{append_assoc}
use quarkdb.Base.{
  equal_parts, ℕ, zero, suc, ◌+◌, ◌^◌, ◌<◌, ◌≡◌, refl, ◌∙◌, sym, ap, Bool, true, false, not, ◌&&◌,
  ◌||◌, [], ◌∷◌, ◌++◌, Bytes, length, length-append, ℤ, pos, negsuc, int_eq, ◌+ℤ◌, ◌%◌, ltb, arith,
  Option, some, none, Result, ok, ◌>>=◌,
}
use quarkdb.Protocol.Link.{Link}
use quarkdb.Protocol.BufferedReader.{BufferedReader, consume_buffer}
use quarkdb.Protocol.BufferedReader.Pending.{IsSmallReader}
use quarkdb.Protocol.BufferedReader.Readiness.{Waits}
use quarkdb.Protocol.BufferedReader.Reading.{Consumes, taken, waits, consume_buffer-Consumes}
use quarkdb.Protocol.RedisParser.{
  RedisParser, read_integer, read_string, read_with, size_read, element_from, read_element,
  check_read, is_stopped, is_huge, size_of,
}
use quarkdb.Raft.Parsing.{to_int32}
use quarkdb.Protocol.RedisParser.Encoding.{line, crlf, check_string-crlf}
use quarkdb.Protocol.RedisParser.Lines.{ahead, extend}
use quarkdb.Protocol.RedisParser.Integers.{
  Awaits, Waits-Awaits, ReadsInteger, integer_done, integer_stopped, read_integer-ReadsInteger,
}

-- What a client without authentication may send in one string.
abbrev pub IsAllowed : Bool → Bytes → Type 0
IsAllowed true x = Unit
IsAllowed false x = length x < 1048576

allowed_size :
    (authenticated : Bool) (x : Bytes)
    → IsAllowed authenticated x
    → (not authenticated && is_huge (pos (length x))) ≡ false
allowed_size true x h = refl
allowed_size false x h = ground arith

-- What readString asks for.
asked_for : (n : ℕ) → n + 65538 < 2 ^ 31 → size_of (to_int32 (pos n +ℤ pos 2)) ≡ n + 2
unfolding to_int32
asked_for n h =
    let low : (n + 2) % 4294967296 ≡ n + 2 = omega arith in
    let positive : ltb (n + 2) 2147483648 ≡ true = ground arith in rw (low, positive) refl

-- What an element leaves alone, and no empty string has been met.
pub record Carries (p q : RedisParser) : Type 0 where
  pub same_size : q.request_size ≡ p.request_size
  pub same_place : q.current_element ≡ p.current_element
  pub no_zero : q.encountered_zero_size ≡ false

module _ {L : Type 0} ⦃link : Link L⦄ where
  -- Where the parser stands in an element: in front of its string, or in the line with its length.
  pub data IsReading (p : RedisParser) (l : L) (x more : Bytes) : Type 0 where
    size_coming :
        (todo : Bytes)
        → p.element_size ≡ negsuc 0
        → p.current_integer ++ todo ≡ line b'$' (length x)
        → ahead p.reader l ≡ todo ++ b'\n' ∷ (x ++ crlf more)
        → IsReading p l x more
    string_coming :
        p.element_size ≡ pos (length x)
        → p.current_integer ≡ []
        → ahead p.reader l ≡ x ++ crlf more
        → IsReading p l x more

  pub data ReadsElement (p : RedisParser) (x more : Bytes)
      (o : Result (ℤ × Option Bytes × RedisParser × L)) : Type 0 where
    element_done :
        (n : ℕ) (q : RedisParser) (l : L)
        → o ≡ ok (pos (suc n), some x, q, l)
        → Carries p q
        → q.current_integer ≡ []
        → IsSmallReader q.reader
        → ahead q.reader l ≡ more
        → ReadsElement p x more o
    element_stopped :
        (status : ℤ) (q : RedisParser) (l : L)
        → o ≡ ok (status, none, q, l)
        → is_stopped status ≡ true
        → Carries p q
        → IsSmallReader q.reader
        → IsReading q l x more
        → Awaits more status l
        → ReadsElement p x more o

  read_with-ReadsElement :
      (authenticated : Bool) (p : RedisParser) (l : L) (x more : Bytes)
      → IsAllowed authenticated x
      → length x + 65538 < 2 ^ 31
      → IsSmallReader p.reader
      → p.encountered_zero_size ≡ false
      → p.element_size ≡ pos (length x)
      → p.current_integer ≡ []
      → ahead p.reader l ≡ x ++ crlf more
      → ReadsElement p x more (read_with authenticated (pos (length x)) p l)
  unfolding read_string
  read_with-ReadsElement authenticated p l x more allowed small v no_zero size no_line a =
      rw (allowed_size authenticated x allowed, asked_for (length x) small)
        (come (consume_buffer p.reader l (length x + 2))
          (consume_buffer-Consumes p.reader l (length x + 2) v (omega arith) (omega arith)))
    where
      carried : (reader : BufferedReader) → Carries p (record p { reader = reader })
      carried reader = record { same_size = refl; same_place = refl; no_zero = no_zero }

      split : ahead p.reader l ≡ (x ++ crlf []) ++ more
      split = a ∙ sym (append_assoc x (crlf []) more)

      stopped :
          (status : ℤ) (after : BufferedReader) (l' : L)
          → is_stopped status ≡ true
          → IsSmallReader after
          → ahead after l' ≡ ahead p.reader l
          → Waits (length x + 2) status after l'
          → ReadsElement p x more (ok (status, none, record p { reader = after }, l'))
      stopped status after l' halted v' kept w =
          element_stopped status (record p { reader = after }) l' refl halted (carried after) v'
            (string_coming size no_line (kept ∙ a))
            (Waits-Awaits (length x + 2) status after l' (x ++ crlf []) more w (kept ∙ split)
              (omega (arith, length-append x (crlf []))))

      come :
          (o : Result (ℤ × Bytes × BufferedReader × L))
          → Consumes p.reader l (length x + 2) o
          → ReadsElement p x more (o >>= check_read p)
      come o (taken str after l' e v' measured joined) =
          let (string, rest) =
            equal_parts str (ahead after l') (x ++ crlf []) more (joined ∙ split)
              (measured ∙ sym (length-append x (crlf []))) in
          let some_read : length x + 2 ≡ suc (length x + 1) = omega arith in
          let checked = check_string-crlf x str (suc (length x + 1)) string in
          element_done (length x + 1) (record p { reader = after }) l'
            (rw (e, some_read, checked) refl) (carried after) no_line v' rest
      come o (waits (pos zero) after l' e v' kept w) =
          rw e (stopped (pos 0) after l' refl v' kept w)
      come o (waits (pos (suc n)) after l' e v' kept w) = absurd (omega arith)
      come o (waits (negsuc n) after l' e v' kept w) =
          rw e (stopped (negsuc n) after l' refl v' kept w)

  ReadsElement-same :
      {x more : Bytes} {o : Result (ℤ × Option Bytes × RedisParser × L)} (p q : RedisParser)
      → q.request_size ≡ p.request_size
      → q.current_element ≡ p.current_element
      → ReadsElement q x more o
      → ReadsElement p x more o
  ReadsElement-same p q sizes places (element_done n q' l e c no_line v a) =
      element_done n q' l e
        (record {
          same_size = c.same_size ∙ sizes;
          same_place = c.same_place ∙ places;
          no_zero = c.no_zero;
        })
        no_line v a
  ReadsElement-same p q sizes places (element_stopped status q' l e halted c v r w) =
      element_stopped status q' l e halted
        (record {
          same_size = c.same_size ∙ sizes;
          same_place = c.same_place ∙ places;
          no_zero = c.no_zero;
        })
        v r w

  pub read_element-ReadsElement :
      (rounds : ℕ) (authenticated : Bool) (p : RedisParser) (l : L) (x more : Bytes)
      → IsAllowed authenticated x
      → 0 < length x
      → length x + 65538 < 2 ^ 31
      → length (line b'$' (length x)) < rounds
      → IsSmallReader p.reader
      → p.encountered_zero_size ≡ false
      → IsReading p l x more
      → ReadsElement p x more (read_element rounds authenticated p l)
  unfolding read_element
  read_element-ReadsElement rounds authenticated p l x more allowed some_byte small enough v no_zero
        (string_coming size no_line a) =
      subst (ReadsElement p x more) (sym (ap (λ k. element_from rounds authenticated k p l) size))
        (read_with-ReadsElement authenticated p l x more allowed small v no_zero size no_line a)
  read_element-ReadsElement rounds authenticated p l x more allowed some_byte small enough v no_zero
        (size_coming todo unknown parts a) =
      subst (ReadsElement p x more)
        (sym (ap (λ k. element_from rounds authenticated k p l) unknown))
        (come (read_integer rounds b'$' p l) (
          read_integer-ReadsInteger rounds b'$' (length x) p l todo (x ++ crlf more)
            (λ e. absurd (omega arith)) (omega arith) enough v parts a))
    where
      more_awaited :
          (status : ℤ) (l' : L) → Awaits (x ++ crlf more) status l' → Awaits more status l'
      more_awaited (pos n) l' (none_there, few) =
          (none_there, omega (arith, length-append x (crlf more)))
      more_awaited (negsuc n) l' w = w

      come :
          (o : Result (ℤ × ℤ × RedisParser × L))
          → ReadsInteger p b'$' (length x) (x ++ crlf more) o
          → ReadsElement p x more (o >>= size_read authenticated)
      come o (integer_done reader l' e v' a') =
          let sized : Bool → RedisParser = λ zero_size. record p {
            reader = reader;
            current_integer = [];
            element_size = pos (length x);
            encountered_zero_size = zero_size;
          } in
          let flag : (p.encountered_zero_size || int_eq (pos (length x)) (pos 0)) ≡ false =
            ap (λ b. b || int_eq (pos (length x)) (pos 0)) no_zero ∙ ground arith in
          let run =
            ap (λ r. r >>= size_read authenticated) e
            ∙ ap (λ b. read_with authenticated (pos (length x)) (sized b) l') flag in
          subst (ReadsElement p x more) (sym run) (
            ReadsElement-same p (sized false) refl refl (
              read_with-ReadsElement authenticated (sized false) l' x more allowed small v' refl
                refl refl a'))
      come o (integer_stopped status reader l' read left e halted v' parts' a' w) =
          rw (e, halted)
            (element_stopped status (extend p reader read) l' refl halted
              (record { same_size = refl; same_place = refl; no_zero = no_zero }) v'
              (size_coming left unknown parts' a') (more_awaited status l' w))
