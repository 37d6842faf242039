-- ===== src/Protocol/RedisParser/Requests.antt =====
-- src/RedisParser.cc, fetch: a request that may come in pieces.
use mathlib.Core.Path.{subst}
use quarkdb.Base.{
  ℕ, zero, suc, ◌-◌, ◌<◌, ◌≡◌, refl, ◌∙◌, sym, ap, Bool, true, false, not, ◌&&◌, leb, All, List, [],
  ◌∷◌, ◌++◌, Bytes, length, length-append, replicate, if◌then◌else◌, ℤ, pos, negsuc, int_eq, arith,
  Result, ok, ◌>>=◌,
}
use quarkdb.Protocol.Link.{Link}
use quarkdb.Protocol.BufferedReader.Pending.{IsSmallReader}
use quarkdb.Protocol.RedisParser.{
  RedisParser, read_integer, read_elements, begin_request, fetch_from, fetch,
}
use quarkdb.Protocol.RedisParser.Encoding.{line, encode_elements}
use quarkdb.Protocol.RedisParser.Lines.{extend}
use quarkdb.Protocol.RedisParser.Elements.{size_coming}
use quarkdb.Protocol.RedisParser.Integers.{
  ReadsInteger, integer_done, integer_stopped, read_integer-ReadsInteger,
}
use quarkdb.Protocol.RedisParser.Progress.{
  IsElement, IsCount, IsRequest, IsMidway, header_coming, elements_coming, Fetches, interrupted,
  Awaits-shorter, length-encode_elements, read_elements-Fetches,
}

some_first : (xs : List Bytes) → 0 < length xs → (x : Bytes) × (ys : List Bytes) × (xs ≡ x ∷ ys)
some_first [] h = absurd (omega arith)
some_first (x ∷ xs) h = (x, xs, refl)

All-behind :
    (rounds : ℕ) (authenticated : Bool) (done ys xs : List Bytes)
    → xs ≡ done ++ ys
    → All (IsElement rounds authenticated) xs
    → All (IsElement rounds authenticated) ys
All-behind rounds authenticated [] ys xs e h = subst (All (IsElement rounds authenticated)) e h
All-behind rounds authenticated (d ∷ done) ys [] e h = absurd (omega (arith, ap length e))
All-behind rounds authenticated (d ∷ done) ys (x ∷ xs) e (h, hs) =
    All-behind rounds authenticated done ys xs (cc) hs

allowed_count :
    (authenticated : Bool) (n : ℕ)
    → IsCount authenticated n
    → (not authenticated && leb 5 n) ≡ false
allowed_count true n h = refl
allowed_count false n h = ground arith

module _ {L : Type 0} ⦃link : Link L⦄ where
  module _ (rounds : ℕ) (authenticated : Bool) (xs : List Bytes) (rest : Bytes) where
    -- Once the number of elements is known.
    begin_request-Fetches :
        (p : RedisParser) (o : Result (ℤ × ℤ × RedisParser × L))
        → IsRequest rounds authenticated xs
        → IsSmallReader p.reader
        → p.request_size ≡ pos 0
        → p.encountered_zero_size ≡ false
        → ReadsInteger p b'*' (length xs) (encode_elements xs rest) o
        → Fetches xs rest (o >>= begin_request rounds authenticated)
    begin_request-Fetches p o is v no_size no_zero (integer_done reader l e v' a) =
        let (x, ys, whole) = some_first xs is.some_element in
        let begun = record p {
          reader = reader;
          current_integer = [];
          request_size = pos (length xs);
          element_size = negsuc 0;
          current_element = 0;
        } in
        let loop = λ (k : ℕ). read_elements rounds k authenticated begun (replicate k []) l in
        let run =
          ap (λ r. r >>= begin_request rounds authenticated) e
          ∙ ap (λ b. if b then ok (negsuc 1, begun, [], l) else loop (length xs))
              (allowed_count authenticated (length xs) is.allowed)
          ∙ ap loop (ap length whole) in
        subst (Fetches xs rest) (sym run) (
          read_elements-Fetches rounds authenticated xs rest ys [] x begun
            (replicate (suc (length ys)) []) l whole refl refl no_zero refl v'
            (size_coming (line b'$' (length x)) refl refl
              (a ∙ ap (λ zs. encode_elements zs rest) whole))
            (All-behind rounds authenticated [] (x ∷ ys) xs whole is.elements))
    begin_request-Fetches p o is v no_size no_zero
          (integer_stopped (pos zero) reader l read left e halted v' parts a w) =
        rw e (
          interrupted (pos 0) (extend p reader read) [] l refl
            (header_coming left v' no_size no_zero parts a)
            (Awaits-shorter (encode_elements xs rest) rest (pos 0) l
              (length-encode_elements xs rest) w))
    begin_request-Fetches p o is v no_size no_zero
          (integer_stopped (pos (suc n)) reader l read left e halted v' parts a w) =
        absurd (omega arith)
    begin_request-Fetches p o is v no_size no_zero
          (integer_stopped (negsuc n) reader l read left e halted v' parts a w) =
        rw e (
          interrupted (negsuc n) (extend p reader read) [] l refl
            (header_coming left v' no_size no_zero parts a) w)

  -- The parser takes up where it stopped, wherever that was: if what has been read and what is ahead make up
  -- a request and what follows it, then a call returns the request, with its strings in their order, and
  -- leaves what follows; or it returns that bytes are missing, and indeed some byte of the request has not
  -- been received, or the error of the link, and can be called again. There are more rounds than the longest
  -- line has bytes, no string is empty or longer than 2^31 - 65539 bytes, the request is not empty, has less
  -- than 2^31 strings and is one that the client may send, and the reader is a small one: its regions have
  -- 65536 bytes at most, and it holds less than 2^31.
  pub fetch_resumes :
      (rounds : ℕ) (authenticated : Bool) (p : RedisParser) (req : List Bytes) (l : L)
      (xs : List Bytes) (rest : Bytes)
      → IsRequest rounds authenticated xs
      → IsMidway p req l xs rest
      → Fetches xs rest (fetch rounds authenticated p req l)
  unfolding fetch
  fetch_resumes rounds authenticated p req l xs rest is
        (header_coming todo v no_size no_zero parts a) =
      subst (Fetches xs rest) (sym (ap (λ k. fetch_from rounds authenticated k p req l) no_size)) (
        begin_request-Fetches rounds authenticated xs rest p (read_integer rounds b'*' p l) is v
          no_size no_zero
          (read_integer-ReadsInteger rounds b'*' (length xs) p l todo (encode_elements xs rest)
            (λ e. absurd (omega arith)) is.small is.enough v parts a))
  fetch_resumes rounds authenticated p req l xs rest is
        (elements_coming done x ys v whole size place no_zero stored r) =
      let many : int_eq (pos (length xs)) (pos 0) ≡ false = ground (arith, is.some_element) in
      let left : length xs - p.current_element ≡ suc (length ys) =
        omega (arith, ap length whole, length-append done (x ∷ ys)) in
      let loop = λ (k : ℕ). read_elements rounds k authenticated p req l in
      let run =
        ap (λ k. fetch_from rounds authenticated k p req l) size
        ∙ ap
            (λ b.
              if b
              then read_integer rounds b'*' p l >>= begin_request rounds authenticated
              else loop (length xs - p.current_element))
            many
        ∙ ap loop left in
      subst (Fetches xs rest) (sym run) (
        read_elements-Fetches rounds authenticated xs rest ys done x p req l whole size place
          no_zero stored v r (All-behind rounds authenticated done (x ∷ ys) xs whole is.elements))
