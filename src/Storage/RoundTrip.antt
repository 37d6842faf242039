-- ===== src/Storage/RoundTrip.antt =====
-- src/storage/ReverseLocator.hh against storage/KeyLocators.hh: what is read back from a database key.
use quarkdb.Base.{
  ℕ, ◌+◌, ◌-◌, ◌<◌, ◌≡◌, ◌≢◌, refl, ◌∙◌, ap, ◌⊎◌, inl, inr, true, false, [], ◌∷◌, ◌++◌, Bytes, ◌==◌,
  arith, Bool-cases, take, drop, length, ok, ◌>>=◌,
}
use native.Mathlib.Nat.{zero-add, suc-add}
use quarkdb.Storage.Locators.{hash_mark, bar, escaped}
use quarkdb.Storage.ReverseLocator.{
  set_last, extract_from, extract_prefix, parse_scanned, bounded, scan, scan_slice, nonempty, Scan,
  heavyweight, zero_copy, parse, parsed, original_prefix, raw_suffix, EscapedPrefix,
}

-- The key's boundary can be told: the key does not end with a bar (`prev` is the byte before it), or
-- what follows begins with a byte other than '#'.
unfoldable pub Unambiguous : ℕ → Bytes → Bytes → Type 0
Unambiguous prev [] suffix =
    (prev ≢ bar) ⊎ ((c : ℕ) × (rest : Bytes) × (suffix ≡ c ∷ rest) × (c ≢ hash_mark))
Unambiguous prev (c ∷ cs) suffix = Unambiguous c cs suffix

abbrev pub closed : Bytes → Bytes → Bytes
closed key suffix = escaped key ++ hash_mark ∷ hash_mark ∷ suffix

set_last-snoc : (key : Bytes) (c : ℕ) → set_last (key ++ c ∷ []) ≡ ok (key ++ hash_mark ∷ [])
unfolding set_last
set_last-snoc [] c = refl
set_last-snoc (d ∷ []) c = refl
set_last-snoc (d ∷ e ∷ key) c = rw (set_last-snoc (e ∷ key) c) refl

snoc-append : (key : Bytes) (c : ℕ) (k : Bytes) → (key ++ c ∷ []) ++ k ≡ key ++ c ∷ k
snoc-append [] c k = refl
snoc-append (d ∷ key) c k = ap (λ t. d ∷ t) (snoc-append key c k)

append-nil : (key : Bytes) → key ++ [] ≡ key
append-nil [] = refl
append-nil (d ∷ key) = ap (λ t. d ∷ t) (append-nil key)

step-plain :
    (beyond prev i c : ℕ) (rest key : Bytes)
    → (c == hash_mark) ≡ false
    → extract_from beyond prev i (c ∷ rest) key ≡ extract_from beyond c (i + 1) rest (key ++ c ∷ [])
unfolding extract_from
step-plain beyond prev i c rest key e = rw e refl

step-boundary :
    (beyond prev i : ℕ) (suffix key : Bytes)
    → Unambiguous prev [] suffix
    → extract_from beyond prev i (hash_mark ∷ hash_mark ∷ suffix) key ≡ ok (i + 2, key)
unfolding extract_from Unambiguous
step-boundary beyond prev i suffix key (inl h) = ground (arith, h)
step-boundary beyond prev i suffix key (inr (c, rest, e, h)) = rw e (ground (arith, h))

step-unescape :
    (beyond i c : ℕ) (rest key : Bytes)
    → (c == hash_mark) ≡ false
    → extract_from beyond bar i (hash_mark ∷ c ∷ rest) (key ++ bar ∷ [])
      ≡ extract_from beyond hash_mark (i + 1) (c ∷ rest) (key ++ hash_mark ∷ [])
unfolding extract_from
step-unescape beyond i c rest key e = rw (set_last-snoc key bar) (rw e refl)

step-last :
    (beyond i : ℕ) (suffix key : Bytes)
    → extract_from beyond bar i (hash_mark ∷ hash_mark ∷ hash_mark ∷ suffix) (key ++ bar ∷ [])
      ≡ ok (i + 3, key ++ hash_mark ∷ [])
unfolding extract_from
step-last beyond i suffix key = rw (set_last-snoc key bar) refl

-- Escaped text does not begin with a hash mark.
escaped-head :
    (c : ℕ) (k : Bytes)
    → (d : ℕ) × (rest : Bytes) × (escaped (c ∷ k) ≡ d ∷ rest) × ((d == hash_mark) ≡ false)
escaped-head c k = elim (Bool-cases (c == hash_mark)) [
  | inl e ↦ (bar, hash_mark ∷ escaped k, rw e refl, refl)
  | inr e ↦ (c, escaped k, rw e refl, e)
]

step-marked :
    (beyond i : ℕ) (k suffix key : Bytes)
    → extract_from beyond hash_mark (i + 1) (closed k suffix) (key ++ hash_mark ∷ [])
      ≡ ok (i + 1 + length (escaped k) + 2, (key ++ hash_mark ∷ []) ++ k)
    → extract_from beyond bar i (hash_mark ∷ closed k suffix) (key ++ bar ∷ [])
      ≡ ok (i + 1 + length (escaped k) + 2, (key ++ hash_mark ∷ []) ++ k)
step-marked beyond i [] suffix key later =
    step-last beyond i suffix key ∙ ground (arith, append-nil (key ++ hash_mark ∷ []))
step-marked beyond i (d ∷ k) suffix key later =
    let (first, rest, shape, plain) = escaped-head d k in
    let step = step-unescape beyond i first (rest ++ hash_mark ∷ hash_mark ∷ suffix) key plain in
    rw shape step ∙ later

extract_from-closed :
    (beyond prev i : ℕ) (k suffix key : Bytes)
    → Unambiguous prev k suffix
    → extract_from beyond prev i (closed k suffix) key ≡ ok (i + length (escaped k) + 2, key ++ k)
unfolding Unambiguous
extract_from-closed beyond prev i [] suffix key u =
    step-boundary beyond prev i suffix key u ∙ ground (arith, append-nil key)
extract_from-closed beyond prev i (c ∷ k) suffix key u = elim (Bool-cases (c == hash_mark)) [
  | inl e ↦
      let sizes : i + 1 + 1 + length (escaped k) + 2 ≡ i + (2 + length (escaped k)) + 2 =
        omega arith in
      let is_mark : c ≡ hash_mark = ground (arith, e) in
      let later =
        extract_from-closed beyond hash_mark (i + 1 + 1) k suffix (key ++ hash_mark ∷ [])
          (rw is_mark at u) in
      rw is_mark (
        step-plain beyond prev i bar (hash_mark ∷ closed k suffix) key refl
        ∙ step-marked beyond (i + 1) k suffix key later
        ∙ ground (arith, sizes, snoc-append key hash_mark k))
  | inr e ↦
      let later = extract_from-closed beyond c (i + 1) k suffix (key ++ c ∷ []) u in
      rw e (
        step-plain beyond prev i c (closed k suffix) key e
        ∙ later
        ∙ ground (arith, snoc-append key c k))
]

-- A scan meets an escaped hash mark, or the boundary, and then nothing was escaped.
abbrev Scanned : Scan → ℕ → Bytes → Type 0
Scanned r i k = (r ≡ heavyweight) ⊎ ((r ≡ zero_copy (i + length k + 2)) × (escaped k ≡ k))

scan-closed :
    (prev i : ℕ) (k suffix : Bytes)
    → (prev == hash_mark) ≡ false
    → Scanned (scan prev i (closed k suffix)) i k
unfolding scan
scan-closed prev i [] suffix p = elim (Bool-cases (prev == bar)) [
  | inl e ↦ inl (rw e refl)
  | inr e ↦ inr (rw e (rw p (ground arith)), refl)
]
scan-closed prev i (c ∷ k) suffix p = elim (Bool-cases (c == hash_mark)) [
  | inl e ↦ inl (rw e refl)
  | inr e ↦ elim (scan-closed c (i + 1) k suffix e) [
    | inl h ↦ inl (rw e (rw e h))
    | inr (h, same) ↦ inr (rw e (rw e (h ∙ ground arith)), rw e (ap (λ t. c ∷ t) same))
  ]
]

take-append : (xs ys : Bytes) → take (length xs) (xs ++ ys) ≡ xs
take-append [] ys = refl
take-append (x ∷ xs) ys = ap (λ t. x ∷ t) (take-append xs ys)

drop-append : (xs ys : Bytes) (n : ℕ) → drop (length xs + n) (xs ++ ys) ≡ drop n ys
drop-append [] ys n = rw zero-add
drop-append (x ∷ xs) ys n = rw suc-add (drop-append xs ys n)

scan_slice-closed :
    (k suffix : Bytes)
    → ((scan_slice (closed k suffix) ≡ heavyweight) × (nonempty k ≡ true))
      ⊎ ((scan_slice (closed k suffix) ≡ zero_copy (length k + 2)) × (escaped k ≡ k))
unfolding scan
scan_slice-closed [] suffix = inr (ground arith, refl)
scan_slice-closed (c ∷ k) suffix = elim (Bool-cases (c == hash_mark)) [
  | inl e ↦ inl (rw e refl, refl)
  | inr e ↦ elim (scan-closed c 1 k suffix e) [
    | inl h ↦ inl (rw e h, refl)
    | inr (h, same) ↦ inr (rw e (h ∙ ground arith), rw e (ap (λ t. c ∷ t) same))
  ]
]

pub record Extracts (e : EscapedPrefix) (key rest : Bytes) : Type 0 where
  pub prefix : original_prefix e ≡ key
  pub suffix : raw_suffix e ≡ rest
  pub within : 0 < e.boundary

pub parse-closed :
    (before beyond : ℕ) (key suffix : Bytes)
    → Unambiguous before key suffix
    → (e : EscapedPrefix) × (parse before beyond (closed key suffix) ≡ ok (parsed e))
      × Extracts e key suffix
unfolding parse parse_scanned original_prefix raw_suffix extract_prefix
parse-closed before beyond key suffix u = elim (scan_slice-closed key suffix) [
  | inl (h, some_byte) ↦
      let extracted = extract_from-closed beyond before 0 key suffix [] u in
      let boundary = length (escaped key) + 2 in
      (
        record { slice = closed key suffix; unescaped = key; boundary = boundary },
        ap (parse_scanned before beyond (closed key suffix)) h
            ∙ ap (λ r. r >>= λ e. ok (bounded (closed key suffix) e)) extracted
            ∙ ground arith,
        record {
          prefix = rw some_byte refl;
          suffix = drop-append (escaped key) (hash_mark ∷ hash_mark ∷ suffix) 2;
          within = omega arith;
        },
      )
  | inr (h, same) ↦ (
    record { slice = closed key suffix; unescaped = []; boundary = length key + 2 },
    ap (parse_scanned before beyond (closed key suffix)) h,
    record {
      prefix = rw same (unpadded key (hash_mark ∷ hash_mark ∷ suffix));
      suffix = rw same (drop-append key (hash_mark ∷ hash_mark ∷ suffix) 2);
      within = omega arith;
    },
  )
]
  where
    unpadded : (xs ys : Bytes) → take (length xs + 2 - 2) (xs ++ ys) ≡ xs
    unpadded xs ys =
        let same : length xs + 2 - 2 ≡ length xs = omega arith in rw same (take-append xs ys)
