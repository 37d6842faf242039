-- ===== src/Protocol/RedisParser/Progress.antt =====
-- src/RedisParser.cc, fetch: where the parser stands in a request, and the loop over its elements.
use mathlib.Core.Path.{subst}
use mathlib.Core.List.{append-nil, append_assoc}
use quarkdb.Base.{
  ℕ, suc, ◌+◌, ◌^◌, ◌≤◌, ◌<◌, ◌≡◌, refl, ◌∙◌, sym, ap, Bool, true, false, All, List, [], ◌∷◌, ◌++◌,
  Bytes, length, length-append, set, replicate, if◌then◌else◌, ℤ, pos, negsuc, arith, Option,
  Result, ok, ◌>>=◌,
}
use quarkdb.Protocol.Link.{Link}
use quarkdb.Protocol.BufferedReader.Pending.{IsSmallReader}
use quarkdb.Protocol.RedisParser.{RedisParser, read_element, element_read, read_elements}
use quarkdb.Protocol.RedisParser.Encoding.{line, encode_elements}
use quarkdb.Protocol.RedisParser.Lines.{ahead}
use quarkdb.Protocol.RedisParser.Elements.{
  IsAllowed, IsReading, size_coming, ReadsElement, element_done, element_stopped,
  read_element-ReadsElement,
}
use quarkdb.Protocol.RedisParser.Integers.{Awaits}

-- A string that the client may send, with enough rounds for the line with its length.
abbrev pub IsElement : ℕ → Bool → Bytes → Type 0
IsElement rounds authenticated x =
    IsAllowed authenticated x
    × (0 < length x)
    × (length x + 65538 < 2 ^ 31)
    × (length (line b'$' (length x)) < rounds)

abbrev pub IsCount : Bool → ℕ → Type 0
IsCount true n = Unit
IsCount false n = n < 5

-- A request that the client may send.
pub record IsRequest (rounds : ℕ) (authenticated : Bool) (xs : List Bytes) : Type 0 where
  pub elements : All (IsElement rounds authenticated) xs
  pub some_element : 0 < length xs
  pub small : length xs < 2 ^ 31
  pub allowed : IsCount authenticated (length xs)
  pub enough : length (line b'*' (length xs)) < rounds

pub length-encode_elements :
    (xs : List Bytes) (rest : Bytes) → length rest ≤ length (encode_elements xs rest)
length-encode_elements [] rest = omega arith
length-encode_elements (x ∷ xs) rest = omega (
  arith,
  length-encode_elements xs rest,
  length-append (line b'$' (length x)) (b'\n' ∷ (x ++ b'\r' ∷ b'\n' ∷ encode_elements xs rest)),
  length-append x (b'\r' ∷ b'\n' ∷ encode_elements xs rest),
)

set-append :
    (done : List Bytes) (n : ℕ) (x : Bytes)
    → set (done ++ replicate (suc n) []) (length done) x ≡ (done ++ x ∷ []) ++ replicate n []
set-append [] n x = refl
set-append (d ∷ done) n x = ap (λ ys. d ∷ ys) (set-append done n x)

abbrev next : RedisParser → ℕ → RedisParser
next q i = record q { element_size = negsuc 0; current_element = i + 1 }

-- Between two requests.
pub record IsIdle (p : RedisParser) : Type 0 where
  pub valid : IsSmallReader p.reader
  pub no_size : p.request_size ≡ pos 0
  pub no_zero : p.encountered_zero_size ≡ false
  pub no_line : p.current_integer ≡ []

module _ {L : Type 0} ⦃link : Link L⦄ where
  -- Where the parser stands in a request, of which some bytes have been read, and what follows it.
  pub data IsMidway (p : RedisParser) (req : List Bytes) (l : L) (xs : List Bytes) (rest : Bytes)
      : Type 0 where
    header_coming :
        (todo : Bytes)
        → IsSmallReader p.reader
        → p.request_size ≡ pos 0
        → p.encountered_zero_size ≡ false
        → p.current_integer ++ todo ≡ line b'*' (length xs)
        → ahead p.reader l ≡ todo ++ b'\n' ∷ encode_elements xs rest
        → IsMidway p req l xs rest
    elements_coming :
        (done : List Bytes) (x : Bytes) (ys : List Bytes)
        → IsSmallReader p.reader
        → xs ≡ done ++ x ∷ ys
        → p.request_size ≡ pos (length xs)
        → p.current_element ≡ length done
        → p.encountered_zero_size ≡ false
        → req ≡ done ++ replicate (suc (length ys)) []
        → IsReading p l x (encode_elements ys rest)
        → IsMidway p req l xs rest

  -- The request, or more of the way to it.
  pub data Fetches (xs : List Bytes) (rest : Bytes) (o : Result (ℤ × RedisParser × List Bytes × L))
      : Type 0 where
    fetched :
        (q : RedisParser) (l : L)
        → o ≡ ok (pos 1, q, xs, l)
        → IsIdle q
        → ahead q.reader l ≡ rest
        → Fetches xs rest o
    interrupted :
        (status : ℤ) (q : RedisParser) (req : List Bytes) (l : L)
        → o ≡ ok (status, q, req, l)
        → IsMidway q req l xs rest
        → Awaits rest status l
        → Fetches xs rest o

  pub Awaits-shorter :
      (more rest : Bytes) (status : ℤ) (l : L)
      → length rest ≤ length more
      → Awaits more status l
      → Awaits rest status l
  Awaits-shorter more rest (pos n) l h (none_there, few) = (none_there, omega arith)
  Awaits-shorter more rest (negsuc n) l h w = w

  module _ (rounds : ℕ) (authenticated : Bool) (xs : List Bytes) (rest : Bytes) where
    -- After one element, the rest of the loop.
    after_element :
        (done : List Bytes) (x : Bytes) (ys : List Bytes) (p : RedisParser) (req : List Bytes)
        (o : Result (ℤ × Option Bytes × RedisParser × L))
        → xs ≡ done ++ x ∷ ys
        → p.request_size ≡ pos (length xs)
        → p.current_element ≡ length done
        → req ≡ done ++ replicate (suc (length ys)) []
        → ((q : RedisParser) (l : L)
            → q.request_size ≡ pos (length xs)
            → q.encountered_zero_size ≡ false
            → q.current_integer ≡ []
            → IsSmallReader q.reader
            → ahead q.reader l ≡ encode_elements ys rest
            → Fetches xs rest (
                read_elements rounds
                  (length ys)
                  authenticated
                  (next q (length done))
                  ((done ++ x ∷ []) ++ replicate (length ys) [])
                  l))
        → ReadsElement p x (encode_elements ys rest) o
        → Fetches xs rest (
            o
            >>= element_read (read_elements rounds (length ys) authenticated) p.current_element req)
    after_element done x ys p req o whole size place stored again
          (element_stopped status q l e halted c v r w) =
        rw (e, halted)
          (interrupted status q req l refl
            (elements_coming done x ys v whole (c.same_size ∙ size) (c.same_place ∙ place) c.no_zero
              stored r)
            (Awaits-shorter (encode_elements ys rest) rest status l (length-encode_elements ys rest)
              w))
    after_element done x ys p req o whole size place stored again
          (element_done n q l e c no_line v a) =
        let loop = λ (i : ℕ) (r : List Bytes).
          read_elements rounds (length ys) authenticated (next q i) r l in
        let run =
          ap
            (λ r.
              r
              >>= element_read (read_elements rounds (length ys) authenticated) p.current_element
                  req)
            e
          ∙ ap (λ i. loop i (set req i x)) place
          ∙ ap (λ r. loop (length done) (set r (length done) x)) stored
          ∙ ap (loop (length done)) (set-append done (length ys) x) in
        subst (Fetches xs rest) (sym run) (again q l (c.same_size ∙ size) c.no_zero no_line v a)

    pub read_elements-Fetches :
        (ys done : List Bytes) (x : Bytes) (p : RedisParser) (req : List Bytes) (l : L)
        → xs ≡ done ++ x ∷ ys
        → p.request_size ≡ pos (length xs)
        → p.current_element ≡ length done
        → p.encountered_zero_size ≡ false
        → req ≡ done ++ replicate (suc (length ys)) []
        → IsSmallReader p.reader
        → IsReading p l x (encode_elements ys rest)
        → All (IsElement rounds authenticated) (x ∷ ys)
        → Fetches xs rest (read_elements rounds (suc (length ys)) authenticated p req l)
    read_elements-Fetches [] done x p req l whole size place no_zero stored v r
          ((allowed, some_byte, small, enough), others) =
        after_element done x [] p req (read_element rounds authenticated p l) whole size place
          stored last
          (read_element-ReadsElement rounds authenticated p l x rest allowed some_byte small enough
            v no_zero r)
      where
        last :
            (q : RedisParser) (l' : L)
            → q.request_size ≡ pos (length xs)
            → q.encountered_zero_size ≡ false
            → q.current_integer ≡ []
            → IsSmallReader q.reader
            → ahead q.reader l' ≡ rest
            → Fetches xs rest (
                read_elements rounds 0 authenticated
                  (next q (length done))
                  ((done ++ x ∷ []) ++ [])
                  l')
        last q l' size' no_zero' no_line v' a =
            let ended = record q {
              element_size = negsuc 0;
              current_element = length done + 1;
              request_size = pos 0;
            } in
            fetched ended l'
              (ap (λ b. ok (if b then negsuc 1 else pos 1, ended, (done ++ x ∷ []) ++ [], l'))
                  no_zero'
                ∙ ap (λ r. ok (pos 1, ended, r, l')) (append-nil (done ++ x ∷ []) ∙ sym whole))
              (record { valid = v'; no_size = refl; no_zero = no_zero'; no_line = no_line }) a
    read_elements-Fetches (y ∷ zs) done x p req l whole size place no_zero stored v r
          ((allowed, some_byte, small, enough), others) =
        after_element done x (y ∷ zs) p req (read_element rounds authenticated p l) whole size place
          stored
          (λ q l' size' no_zero' no_line v' a.
            read_elements-Fetches zs (done ++ x ∷ []) y (next q (length done))
              ((done ++ x ∷ []) ++ replicate (suc (length zs)) []) l'
              (whole ∙ sym (append_assoc done (x ∷ []) (y ∷ zs))) size'
              (sym (length-append done (x ∷ []))) no_zero' refl v'
              (size_coming (line b'$' (length y)) refl (ap (λ s. s ++ line b'$' (length y)) no_line)
                a)
              others)
          (read_element-ReadsElement rounds authenticated p l x (encode_elements (y ∷ zs) rest)
            allowed some_byte small enough v no_zero r)
