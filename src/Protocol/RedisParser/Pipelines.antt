-- ===== src/Protocol/RedisParser/Pipelines.antt =====
-- src/RedisParser.cc, fetch: several requests behind one another, over any number of calls.
use quarkdb.Base.{
  ℕ, zero, suc, ◌≡◌, refl, ◌∙◌, sym, ap, Bool, true, false, All, List, [], ◌∷◌, ◌++◌, Bytes, ℤ, pos,
  negsuc, Result, ok, ◌>>=◌, length, arith,
}
use mathlib.Core.Path.{subst}
use quarkdb.Protocol.Link.{Link}
use quarkdb.Protocol.BufferedReader.{BufferedReader, consume}
use quarkdb.Protocol.BufferedReader.Reading.{Consumes, taken, waits, consume-Consumes}
use quarkdb.Protocol.BufferedReader.Pending.{IsSmallReader}
use quarkdb.Protocol.RedisParser.{
  RedisParser, fetch, fetch_from, is_stopped, add_byte, read_line, line_read, read_integer,
  begin_request,
}
use quarkdb.Protocol.RedisParser.Encoding.{line, encode}
use quarkdb.Protocol.RedisParser.Lines.{ahead}
use quarkdb.Protocol.RedisParser.Requests.{fetch_resumes}
use quarkdb.Protocol.RedisParser.Progress.{
  IsRequest, IsIdle, IsMidway, header_coming, Fetches, fetched, interrupted,
}

-- The requests that a client sends, one behind the other.
abbrev pub encode_all : List (List Bytes) → Bytes
encode_all [] = []
encode_all (xs ∷ more) = encode xs (encode_all more)

module _ {L : Type 0} ⦃link : Link L⦄ where
  -- Calls of fetch as Connection makes them: the requests that they returned, until the link fails.
  abbrev after_call :
      (RedisParser → List Bytes → L → Result (List (List Bytes) × RedisParser × List Bytes × L))
      → ℤ × RedisParser × List Bytes × L
      → Result (List (List Bytes) × RedisParser × List Bytes × L)
  after_call again (negsuc n, p, req, l) = ok ([], p, req, l)
  after_call again (pos zero, p, req, l) = again p req l
  after_call again (pos (suc n), p, req, l) = again p req l >>= (λ r. ok (req ∷ r.0, r.1, r.2, r.3))

  abbrev pub calls :
      ℕ
      → ℕ
      → Bool
      → RedisParser
      → List Bytes
      → L
      → Result (List (List Bytes) × RedisParser × List Bytes × L)
  calls zero rounds authenticated p req l = ok ([], p, req, l)
  calls (suc n) rounds authenticated p req l =
      fetch rounds authenticated p req l >>= after_call (calls n rounds authenticated)

  -- A parser in front of the requests, or within the first of them.
  abbrev pub IsBefore : RedisParser → List Bytes → L → List (List Bytes) → Type 0
  IsBefore p req l [] = IsIdle p × (ahead p.reader l ≡ [])
  IsBefore p req l (xs ∷ more) = IsMidway p req l xs (encode_all more)

  pub IsIdle-IsBefore :
      (p : RedisParser) (req : List Bytes) (l : L) (sent : List (List Bytes))
      → IsIdle p
      → ahead p.reader l ≡ encode_all sent
      → IsBefore p req l sent
  IsIdle-IsBefore p req l [] i a = (i, a)
  IsIdle-IsBefore p req l (xs ∷ more) i a =
      header_coming (line b'*' (length xs)) i.valid i.no_size i.no_zero
        (ap (λ s. s ++ line b'*' (length xs)) i.no_line) a

  -- A call when nothing has been sent.
  data IsEmptyCall (o : Result (ℤ × RedisParser × List Bytes × L)) : Type 0 where
    empty_call :
        (status : ℤ) (q : RedisParser) (l : L)
        → o ≡ ok (status, q, [], l)
        → is_stopped status ≡ true
        → IsIdle q
        → ahead q.reader l ≡ []
        → IsEmptyCall o

  fetch-IsEmptyCall :
      (rounds : ℕ) (authenticated : Bool) (p : RedisParser) (req : List Bytes) (l : L)
      → IsIdle p
      → ahead p.reader l ≡ []
      → IsEmptyCall (fetch (suc rounds) authenticated p req l)
  unfolding fetch read_integer
  fetch-IsEmptyCall rounds authenticated p req l i a =
      subst IsEmptyCall (sym (ap (λ k. fetch_from (suc rounds) authenticated k p req l) i.no_size))
        (come (consume p.reader l 1)
          (consume-Consumes p.reader l 1 i.valid (omega arith) (omega arith)))
    where
      idle :
          (reader : BufferedReader) → IsSmallReader reader → IsIdle (record p { reader = reader })
      idle reader v = record {
        valid = v;
        no_size = i.no_size;
        no_zero = i.no_zero;
        no_line = i.no_line;
      }

      come :
          (o : Result (ℤ × Bytes × BufferedReader × L))
          → Consumes p.reader l 1 o
          → IsEmptyCall (
              (o >>= add_byte (read_line rounds) p)
              >>= (λ read. ok (line_read b'*' read))
              >>= begin_request (suc rounds) authenticated)
      come o (taken [] after l' e v measured joined) = absurd (omega arith)
      come o (taken (c ∷ str) after l' e v measured joined) =
          absurd (omega (arith, ap length (joined ∙ a)))
      come o (waits (pos zero) after l' e v kept w) =
          rw e (
            empty_call (pos 0) (record p { reader = after }) l' refl refl (idle after v) (kept ∙ a))
      come o (waits (pos (suc n)) after l' e v kept w) = absurd (omega arith)
      come o (waits (negsuc n) after l' e v kept w) = rw e (
          empty_call (negsuc n) (record p { reader = after }) l' refl refl (idle after v)
            (kept ∙ a))

  -- The requests that calls returned, those that are left, and where the parser stands.
  data Returns (sent : List (List Bytes))
      (o : Result (List (List Bytes) × RedisParser × List Bytes × L)) : Type 0 where
    returned :
        (got left : List (List Bytes)) (q : RedisParser) (req : List Bytes) (l : L)
        → o ≡ ok (got, q, req, l)
        → got ++ left ≡ sent
        → IsBefore q req l left
        → Returns sent o

  Returns-cons :
      {sent : List (List Bytes)} {o : Result (List (List Bytes) × RedisParser × List Bytes × L)}
      (xs : List Bytes)
      → Returns sent o
      → Returns (xs ∷ sent) (o >>= (λ r. ok (xs ∷ r.0, r.1, r.2, r.3)))
  Returns-cons xs (returned got left q req l e parts b) =
      returned (xs ∷ got) left q req l (rw e refl) (ap (λ ys. xs ∷ ys) parts) b

  calls-Returns :
      (n rounds : ℕ) (authenticated : Bool) (p : RedisParser) (req : List Bytes) (l : L)
      (sent : List (List Bytes))
      → All (IsRequest (suc rounds) authenticated) sent
      → IsBefore p req l sent
      → Returns sent (calls n (suc rounds) authenticated p req l)
  calls-Returns zero rounds authenticated p req l sent fine b = returned [] sent p req l refl refl b
  calls-Returns (suc n) rounds authenticated p req l [] fine (i, a) =
      come (calls-Returns n rounds authenticated) (fetch (suc rounds) authenticated p req l)
        (fetch-IsEmptyCall rounds authenticated p req l i a)
    where
      come :
          ((q : RedisParser) (req' : List Bytes) (l' : L) (sent' : List (List Bytes))
            → All (IsRequest (suc rounds) authenticated) sent'
            → IsBefore q req' l' sent'
            → Returns sent' (calls n (suc rounds) authenticated q req' l'))
          → (o : Result (ℤ × RedisParser × List Bytes × L)) → IsEmptyCall o
          → Returns [] (o >>= after_call (calls n (suc rounds) authenticated))
      come again o (empty_call (pos zero) q l' e halted i' a') = rw e (again q [] l' [] tt (i', a'))
      come again o (empty_call (pos (suc m)) q l' e halted i' a') = absurd (unlike halted)
        where
          unlike : ◌≡◌ {A = Bool} false true → ⊥
          unlike z = cc
      come again o (empty_call (negsuc m) q l' e halted i' a') =
          rw e (returned [] [] q [] l' refl refl (i', a'))
  calls-Returns (suc n) rounds authenticated p req l (xs ∷ more) (is, others) b =
      come (calls-Returns n rounds authenticated) (fetch (suc rounds) authenticated p req l)
        (fetch_resumes (suc rounds) authenticated p req l xs (encode_all more) is b)
    where
      come :
          ((q : RedisParser) (req' : List Bytes) (l' : L) (sent' : List (List Bytes))
            → All (IsRequest (suc rounds) authenticated) sent'
            → IsBefore q req' l' sent'
            → Returns sent' (calls n (suc rounds) authenticated q req' l'))
          → (o : Result (ℤ × RedisParser × List Bytes × L)) → Fetches xs (encode_all more) o
          → Returns (xs ∷ more) (o >>= after_call (calls n (suc rounds) authenticated))
      come again o (fetched q l' e i a) =
          rw e (Returns-cons xs (again q xs l' more others (IsIdle-IsBefore q xs l' more i a)))
      come again o (interrupted (pos zero) q req' l' e m w) =
          rw e (again q req' l' (xs ∷ more) (is, others) m)
      come again o (interrupted (pos (suc k)) q req' l' e m w) = absurd (omega arith)
      come again o (interrupted (negsuc k) q req' l' e m w) =
          rw e (returned [] (xs ∷ more) q req' l' refl refl m)

  -- Whatever pieces the bytes of a list of requests come in, any number of calls by a parser between two
  -- requests returns the first so many of these requests, each as it was sent, in the order of the list,
  -- and leaves a parser that stands in front of the others or within the first of them. There are more
  -- rounds than the longest line has bytes; no string is empty or longer than 2^31 - 65539 bytes; the
  -- requests are not empty, have less than 2^31 strings, and are no larger than a client without
  -- authentication may send; the regions of the reader have 65536 bytes at most, and it holds less than
  -- 2^31.
  pub calls_return_requests :
      (n rounds : ℕ) (authenticated : Bool) (p : RedisParser) (req : List Bytes) (l : L)
      (sent : List (List Bytes))
      → All (IsRequest (suc rounds) authenticated) sent
      → IsIdle p
      → ahead p.reader l ≡ encode_all sent
      → (got left : List (List Bytes)) × (q : RedisParser) × (req' : List Bytes) × (l' : L) × (calls
            n
            (suc rounds)
            authenticated
            p
            req
            l
          ≡ ok (got, q, req', l'))
        × (got ++ left ≡ sent)
        × IsBefore q req' l' left
  calls_return_requests n rounds authenticated p req l sent fine i a =
      read_off
        (calls-Returns n rounds authenticated p req l sent fine (IsIdle-IsBefore p req l sent i a))
    where
      read_off :
          {o : Result (List (List Bytes) × RedisParser × List Bytes × L)}
          → Returns sent o
          → (got left : List (List Bytes)) × (q : RedisParser) × (req' : List Bytes) × (l' : L) × (o
              ≡ ok (got, q, req', l'))
            × (got ++ left ≡ sent)
            × IsBefore q req' l' left
      read_off (returned got left q req' l' e parts b) = (got, left, q, req', l', e, parts, b)
