-- ===== src/Protocol/BufferedReader/Consume.antt =====
-- src/BufferedReader.cc, consume: taking bytes out of a reader that has them.
use mathlib.Core.List.{append_assoc}
use quarkdb.Base.{
  ℕ, zero, suc, ◌+◌, ◌-◌, ◌≤◌, ◌<◌, ◌≡◌, refl, ◌∙◌, sym, ap, inl, inr, Bool-cases, leb, leb→le,
  List, [], ◌∷◌, ◌++◌, Bytes, length, take, drop, min, length-append, length-drop, length-take,
  take_all, take-drop, drop-drop, drop-append, arith, Result, ok,
}
use quarkdb.Protocol.BufferedReader.{
  BufferedReader, front, consume_loop, consume_internal, consume_pinned,
}
use quarkdb.Protocol.BufferedReader.Pending.{flatten, pending, IsWhole, IsReader, front-flatten}

take_within :
    (start n : ℕ) (b rest : Bytes)
    → start ≤ length b
    → n ≤ length (drop start b)
    → take n (drop start b) ++ drop (start + n) (b ++ rest) ≡ drop start (b ++ rest)
take_within start n b rest within few =
    let front_part = drop-append start b rest within in
    ap (λ ys. take n (drop start b) ++ ys)
      (sym (drop-drop n start (b ++ rest))
        ∙ ap (drop n) front_part
        ∙ drop-append n (drop start b) rest few)
    ∙ sym (append_assoc (take n (drop start b)) (drop n (drop start b)) rest)
    ∙ ap (λ ys. ys ++ rest) (take-drop n (drop start b))
    ∙ sym front_part

-- The bytes that are taken are the next ones, and what is left is behind them.
consume_loop-takes :
    (size : ℕ) (bs : List Bytes) (back : Bytes) (start remaining : ℕ)
    → IsWhole size bs
    → length back < size
    → start ≤ length (front bs back)
    → remaining + start ≤ length (flatten bs back)
    → (str : Bytes) × (left : List Bytes) × (place : ℕ) × (consume_loop size bs back start remaining
        ≡ ok (str, left, place))
      × (str ++ drop place (flatten left back) ≡ drop start (flatten bs back))
      × (length str ≡ remaining)
      × IsWhole size left
      × (place ≤ length (front left back))
consume_loop-takes size [] back start remaining whole short within h =
    let n = min (size - start) remaining in
    let same : n ≡ remaining = omega arith in
    let few : n ≤ length (drop start back) = omega (arith, length-drop start back) in
    (
      take n (drop start back),
      [],
      start + n,
      ground arith,
      ap (λ ys. take n (drop start back) ++ ys) (sym (drop-drop n start back))
          ∙ take-drop n (drop start back),
      length-take n (drop start back) few ∙ same,
      tt,
      omega arith,
    )
consume_loop-takes size (b ∷ bs) back start zero whole short within h =
    ([], b ∷ bs, start, refl, refl, refl, whole, within)
consume_loop-takes size (b ∷ bs) back start (suc more) (w, ws) short within h =
    let n = min (size - start) (suc more) in
    let few : n ≤ length (drop start b) = omega (arith, length-drop start b) in
    let front_part = drop-append start b (flatten bs back) within in
    elim (Bool-cases (leb size (start + n))) [
      | inl used ↦
          let all : n ≡ size - start = ground arith in
          let (str, left, place, run, joined, taken, ws', within') =
            consume_loop-takes size bs back 0 (suc more - n) ws short (omega arith)
              (omega (arith, length-append b (flatten bs back))) in
          (
            take n (drop start b) ++ str,
            left,
            place,
            rw (used, run) refl,
            append_assoc (take n (drop start b)) str (drop place (flatten left back))
                ∙ ap (λ ys. take n (drop start b) ++ ys) joined
                ∙ ap (λ ys. ys ++ flatten bs back)
                    (take_all n (drop start b) (omega (arith, length-drop start b)))
                ∙ sym front_part,
            omega (
              arith,
              length-append (take n (drop start b)) str,
              length-take n (drop start b) few,
            ),
            ws',
            within',
          )
      | inr some_left ↦ (
        take n (drop start b),
        b ∷ bs,
        start + n,
        rw some_left refl,
        take_within start n b (flatten bs back) within few,
        length-take n (drop start b) few ∙ ground arith,
        (w, ws),
        ground (arith, length-drop start b),
      )
    ]

-- A way to take bytes out of a reader that has them.
pub record Takes (take_out : BufferedReader → ℕ → Result (Bytes × BufferedReader))
    (r : BufferedReader) (len : ℕ) : Type 0 where
  pub str : Bytes
  pub after : BufferedReader
  pub run : take_out r len ≡ ok (str, after)
  pub valid : IsReader after
  pub joined : str ++ pending after ≡ pending r
  pub measured : length str ≡ len
  pub same_size : after.buffer_size ≡ r.buffer_size

pub consume_internal-Takes :
    (r : BufferedReader) (len : ℕ)
    → IsReader r
    → len ≤ length (pending r)
    → Takes consume_internal r len
unfolding consume_internal
consume_internal-Takes r len v h =
    let (str, left, place, run, joined, measured, whole, within) =
      consume_loop-takes r.buffer_size r.filled r.back r.position_read len v.whole (omega arith)
        v.within
        (omega (
          arith,
          length-drop r.position_read (flatten r.filled r.back),
          front-flatten r.filled r.back,
        )) in
    record {
      str = str;
      after = record r { filled = left; position_read = place };
      run = rw run refl;
      valid = record {
        some_size = v.some_size;
        whole = whole;
        written = v.written;
        room = v.room;
        within = within;
      };
      joined = joined;
      measured = measured;
      same_size = refl;
    }

front-Takes :
    (size : ℕ) (bs : List Bytes) (back : Bytes) (start len : ℕ)
    → IsWhole size bs
    → start ≤ length (front bs back)
    → len ≤ size - start
    → len + start ≤ length (flatten bs back)
    → (take len (drop start (front bs back)) ++ drop (start + len) (flatten bs back)
        ≡ drop start (flatten bs back))
      × (length (take len (drop start (front bs back))) ≡ len)
      × (start + len ≤ length (front bs back))
front-Takes size [] back start len w within fits h =
    let few : len ≤ length (drop start back) = omega (arith, length-drop start back) in
    (
      ap (λ ys. take len (drop start back) ++ ys) (sym (drop-drop len start back))
          ∙ take-drop len (drop start back),
      length-take len (drop start back) few,
      omega arith,
    )
front-Takes size (b ∷ bs) back start len (w, ws) within fits h =
    let few : len ≤ length (drop start b) = omega (arith, length-drop start b) in
    (
      take_within start len b (flatten bs back) within few,
      length-take len (drop start b) few,
      omega arith,
    )

pub consume_pinned-Takes :
    (r : BufferedReader) (len : ℕ)
    → IsReader r
    → len ≤ length (pending r)
    → Takes consume_pinned r len
unfolding consume_pinned
consume_pinned-Takes r len v h = elim (Bool-cases (leb len (r.buffer_size - r.position_read))) [
  | inl fits ↦
      let (joined, measured, within) =
        front-Takes r.buffer_size r.filled r.back r.position_read len v.whole v.within
          (leb→le len (r.buffer_size - r.position_read) fits)
          (omega (
            arith,
            length-drop r.position_read (flatten r.filled r.back),
            front-flatten r.filled r.back,
          )) in
      record {
        str = take len (drop r.position_read (front r.filled r.back));
        after = record r { position_read = r.position_read + len };
        run = rw fits refl;
        valid = record {
          some_size = v.some_size;
          whole = v.whole;
          written = v.written;
          room = v.room;
          within = within;
        };
        joined = joined;
        measured = measured;
        same_size = refl;
      }
  | inr split ↦
      let t = consume_internal-Takes r len v h in
      record {
        str = t.str;
        after = t.after;
        run = rw split t.run;
        valid = t.valid;
        joined = t.joined;
        measured = t.measured;
        same_size = t.same_size;
      }
]
