-- ===== src/Storage/BinaryInt.antt =====
-- src/utils/IntToBinaryString.hh: 64-bit integers as eight bytes, the most significant one first. A signed
-- integer is its bit pattern, so that both kinds are numbers below 2^64 with one encoding.
use quarkdb.Base.{
  ℕ, zero, suc, ◌+◌, ◌*◌, ◌/◌, ◌%◌, ◌^◌, ◌<◌, ◌≡◌, refl, ◌∙◌, sym, Bool-cases, inl, inr, Bool, true,
  false, ◌&&◌, ◌||◌, [], ◌∷◌, ◌++◌, Bytes, arith, ltb, ◌==◌, length, length-append,
}

-- The last `n` bytes of the number.
abbrev pub last_bytes : ℕ → ℕ → Bytes
last_bytes zero num = []
last_bytes (suc n) num = last_bytes n (num / 256) ++ (num % 256) ∷ []

unfoldable pub int_to_binary_string : ℕ → Bytes
int_to_binary_string num = last_bytes 8 num

-- The number of the bytes, after those that came to `num`.
abbrev pub read_bytes : ℕ → Bytes → ℕ
read_bytes num [] = num
read_bytes num (b ∷ bs) = read_bytes (num * 256 + b) bs

unfoldable pub binary_string_to_int : Bytes → ℕ
binary_string_to_int bs = read_bytes 0 bs

read_bytes-snoc :
    (num b : ℕ) (bs : Bytes) → read_bytes num (bs ++ b ∷ []) ≡ read_bytes num bs * 256 + b
read_bytes-snoc num b [] = refl
read_bytes-snoc num b (c ∷ bs) = read_bytes-snoc (num * 256 + c) b bs

-- 256 ^ n
abbrev pub bound : ℕ → ℕ
bound zero = 1
bound (suc n) = bound n * 256

read_bytes-last_bytes : (n num : ℕ) → num < bound n → read_bytes 0 (last_bytes n num) ≡ num
read_bytes-last_bytes zero num h = omega arith
read_bytes-last_bytes (suc n) num h =
    let before = read_bytes-last_bytes n (num / 256) (omega arith) in
    read_bytes-snoc 0 (num % 256) (last_bytes n (num / 256)) ∙ omega arith

pub length-last_bytes : (n num : ℕ) → length (last_bytes n num) ≡ n
length-last_bytes zero num = refl
length-last_bytes (suc n) num = omega (
  arith,
  length-append (last_bytes n (num / 256)) ((num % 256) ∷ []),
  length-last_bytes n (num / 256),
)

pub binary_string_to_int-int_to_binary_string :
    (num : ℕ) → num < 2 ^ 64 → binary_string_to_int (int_to_binary_string num) ≡ num
unfolding binary_string_to_int int_to_binary_string
binary_string_to_int-int_to_binary_string num h = read_bytes-last_bytes 8 num (omega arith)

-- The order of the database on keys.
abbrev pub bytes_less : Bytes → Bytes → Bool
bytes_less [] [] = false
bytes_less [] (b ∷ bs) = true
bytes_less (a ∷ rest_a) [] = false
bytes_less (a ∷ rest_a) (b ∷ rest_b) =
    let rest = bytes_less rest_a rest_b in ltb a b || (a == b && rest)

-- If the first of two strings of one length is less, then so it is before any other bytes; if it is the
-- same, the bytes behind it decide.
pub less-append :
    (xs ys us vs : Bytes)
    → length xs ≡ length ys
    → bytes_less xs ys ≡ true
    → bytes_less (xs ++ us) (ys ++ vs) ≡ true
less-append [] [] us vs l h = cc
less-append [] (y ∷ ys) us vs l h = ground (arith, l)
less-append (x ∷ xs) [] us vs l h = ground (arith, l)
less-append (x ∷ xs) (y ∷ ys) us vs l h = ground (arith, less-append xs ys us vs)

less-same : (xs us vs : Bytes) → bytes_less us vs ≡ true → bytes_less (xs ++ us) (xs ++ vs) ≡ true
less-same [] us vs h = h
less-same (x ∷ xs) us vs h = ground (arith, less-same xs us vs h)

pub last_bytes-less :
    (n a b : ℕ) → a < b → b < bound n → bytes_less (last_bytes n a) (last_bytes n b) ≡ true
last_bytes-less zero a b h l = ground arith
last_bytes-less (suc n) a b h l = elim (Bool-cases (a / 256 == b / 256)) [
  | inl e ↦
      let same : a / 256 ≡ b / 256 = ground (arith, e) in
      let less : a % 256 < b % 256 = omega arith in
      rw same (
        less-same (last_bytes n (b / 256)) ((a % 256) ∷ []) ((b % 256) ∷ []) (ground (arith, less)))
  | inr e ↦
      let less : a / 256 < b / 256 = ground (arith, e) in
      less-append (last_bytes n (a / 256)) (last_bytes n (b / 256)) ((a % 256) ∷ [])
        ((b % 256) ∷ []) (length-last_bytes n (a / 256) ∙ sym (length-last_bytes n (b / 256)))
        (last_bytes-less n (a / 256) (b / 256) less (omega arith))
]
