-- ===== src/Raft/Parsing/Decimal.antt =====
-- `std::to_string` of a number, read back by `strtoll`.

use quarkdb.Base.{
  ℕ, zero, suc, ◌+◌, ◌-◌, ◌*◌, ◌/◌, ◌%◌, ◌^◌, ◌==◌, ◌≤◌, ◌<◌, ◌≡◌, refl, ◌∙◌, ap, inl, inr, true,
  false, Bool-cases, ltb, ltb→lt, All, [], ◌∷◌, Bytes, length, pos, some, arith,
}
use quarkdb.Raft.Parsing.{
  decimal, decimal_digits, read_digits, parse_int64, is_digit, is_space, skip_spaces, after_spaces,
  signed, whole, starts_with_digit,
}

abbrev pub IsDigit : ℕ → Type 0
IsDigit c = (48 ≤ c) × (c ≤ 57)

decimal_digits-IsDigit :
    (fuel n : ℕ) (acc : Bytes) → All IsDigit acc → All IsDigit (decimal_digits fuel n acc)
unfolding decimal_digits
decimal_digits-IsDigit zero n acc d = d
decimal_digits-IsDigit (suc fuel) n acc d = elim (Bool-cases (ltb n 10)) [
  | inl small ↦ rw small ((omega arith, omega (arith, ltb→lt n 10 small)), d)
  | inr large ↦
      rw large
        (decimal_digits-IsDigit fuel (n / 10) ((48 + n % 10) ∷ acc) ((omega arith, omega arith), d))
]

length-decimal_digits : (fuel n : ℕ) (acc : Bytes) → length acc ≤ length (decimal_digits fuel n acc)
unfolding decimal_digits
length-decimal_digits zero n acc = omega arith
length-decimal_digits (suc fuel) n acc =
    ground (arith, length-decimal_digits fuel (n / 10) ((48 + n % 10) ∷ acc))

read_digits-digit :
    (a d : ℕ) (acc : Bytes) → d < 10 → read_digits a ((48 + d) ∷ acc) ≡ read_digits (a * 10 + d) acc
unfolding read_digits is_digit
read_digits-digit a d acc h =
    let digit : is_digit (48 + d) ≡ true = ground arith in
    rw digit (ap (λ k. read_digits k acc) (omega arith))

read_digits-decimal_digits :
    (fuel n : ℕ) (acc : Bytes)
    → n < fuel
    → read_digits 0 (decimal_digits fuel n acc) ≡ read_digits n acc
unfolding decimal_digits
read_digits-decimal_digits zero n acc h = absurd (omega arith)
read_digits-decimal_digits (suc fuel) n acc h = elim (Bool-cases (ltb n 10)) [
  | inl small ↦
      rw small
        (read_digits-digit 0 n acc (ltb→lt n 10 small) ∙ ap (λ k. read_digits k acc) (omega arith))
  | inr large ↦ rw large (
      read_digits-decimal_digits fuel (n / 10) ((48 + n % 10) ∷ acc) (ground arith)
      ∙ read_digits-digit (n / 10) (n % 10) acc (omega arith)
      ∙ ap (λ k. read_digits k acc) (omega arith))
]

pub decimal-IsDigit : (n : ℕ) → All IsDigit (decimal (pos n))
unfolding decimal
decimal-IsDigit n = decimal_digits-IsDigit (suc n) n [] tt

parse_int64-digits :
    (xs : Bytes) → All IsDigit xs → 0 < length xs → parse_int64 xs ≡ whole false (read_digits 0 xs)
parse_int64-digits [] d h = absurd (omega arith)
parse_int64-digits (x ∷ xs) (d, ds) h =
    let no_space : is_space x ≡ false = unfold is_space in ground arith in
    let digit : is_digit x ≡ true = unfold is_digit in ground arith in
    let no_minus : (x == b'-') ≡ false = ground arith in
    let no_plus : (x == b'+') ≡ false = ground arith in
    unfold parse_int64 skip_spaces after_spaces signed starts_with_digit in
    rw (no_space, no_minus, no_plus, digit) refl

-- The text of a number is read back, if `strtoll` takes it.
pub parse_int64-decimal : (n : ℕ) → n < 2 ^ 63 - 1 → parse_int64 (decimal (pos n)) ≡ some (pos n)
unfolding decimal decimal_digits
parse_int64-decimal n h =
    parse_int64-digits (decimal (pos n)) (decimal-IsDigit n)
      (ground (arith, length-decimal_digits n (n / 10) ((48 + n % 10) ∷ [])))
    ∙ ap (whole false) (read_digits-decimal_digits (suc n) n [] (omega arith))
    ∙ read_back
  where
    read_back : whole false (read_digits n []) ≡ some (pos n)
    read_back = unfold whole read_digits in ground arith
