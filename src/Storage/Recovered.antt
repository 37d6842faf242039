-- ===== src/Storage/Recovered.antt =====
-- src/storage/KeyLocators.hh and storage/ReverseLocator.hh: the keys of fields, written and read back.
use quarkdb.Base.{
  ℕ, ◌≡◌, ◌≢◌, refl, sym, ◌∙◌, ap, inl, inr, true, false, Bool-cases, [], ◌∷◌, ◌++◌, Bytes, arith,
  Result, ok, ◌>>=◌,
}
use quarkdb.Storage.KeyType.{
  KeyType, parse_key_type, key_type_char, null, parse_error, string, hash, set, deque,
  locality_hash, lease, versioned_hash,
}
use quarkdb.Storage.Locators.{
  hash_mark, escaped, has_fields, field_prefix, field_locator, locality_key, locality_hint,
  locality_field_locator, locality_index_key, locality_index_locator,
}
use quarkdb.Storage.ReverseLocator.{
  ReverseLocator, reverse_locator, locate, has_chunk, with_chunk, is_parse_error, is_string,
  original_key, field, parsed, EscapedPrefix,
}
use quarkdb.Storage.RoundTrip.{Unambiguous, closed, Extracts, parse-closed}

-- What a database key gives back: its type, its redis key, and what follows the redis key.
pub record Recovers (beyond : ℕ) (sl : Bytes) (t : KeyType) (k rest : Bytes) : Type 0 where
  pub locator : ReverseLocator
  pub reads : reverse_locator beyond sl ≡ ok locator
  pub key_type : locator.key_type ≡ t
  pub key : original_key locator ≡ ok k
  pub suffix : field locator ≡ ok rest

append_assoc : (xs ys zs : Bytes) → (xs ++ ys) ++ zs ≡ xs ++ (ys ++ zs)
append_assoc [] ys zs = refl
append_assoc (x ∷ xs) ys zs = ap (λ t. x ∷ t) (append_assoc xs ys zs)

locate-closed :
    (beyond c : ℕ) (t : KeyType) (k rest : Bytes)
    → has_chunk t ≡ true
    → Unambiguous c k rest
    → (e : EscapedPrefix) × (locate beyond c (c ∷ closed k rest) t
        ≡ ok (record { slice = c ∷ closed k rest; key_type = t; first_chunk = parsed e }))
      × Extracts e k rest
unfolding locate
locate-closed beyond c t k rest chunk u =
    let (e, h, x) = parse-closed c beyond k rest u in
    (
      e,
      rw chunk (
          ap (λ r. r >>= λ p. ok (with_chunk (c ∷ closed k rest) t p)) h
          ∙ ground (arith, x.within)),
      x,
    )

-- The types of the keys whose first chunk is closed.
abbrev IsClosed : KeyType → Type 0
IsClosed t =
    (parse_key_type (key_type_char t) ≡ t)
    × (has_chunk t ≡ true)
    × (is_parse_error t ≡ false)
    × (is_string t ≡ false)

has_fields-IsClosed : (t : KeyType) → has_fields t ≡ true → IsClosed t
unfolding parse_key_type
has_fields-IsClosed hash h = (refl, refl, refl, refl)
has_fields-IsClosed set h = (refl, refl, refl, refl)
has_fields-IsClosed deque h = (refl, refl, refl, refl)
has_fields-IsClosed versioned_hash h = (refl, refl, refl, refl)
has_fields-IsClosed null h = cc
has_fields-IsClosed parse_error h = cc
has_fields-IsClosed string h = cc
has_fields-IsClosed locality_hash h = cc
has_fields-IsClosed lease h = cc

closed-Recovers :
    (beyond : ℕ) (t : KeyType) (k rest : Bytes)
    → IsClosed t
    → Unambiguous (key_type_char t) k rest
    → Recovers beyond (key_type_char t ∷ closed k rest) t k rest
unfolding reverse_locator original_key field
closed-Recovers beyond t k rest (char, chunk, no_error, no_string) u =
    let c = key_type_char t in
    let sl = c ∷ closed k rest in
    let (e, h, x) = locate-closed beyond c t k rest chunk u in
    record {
      locator = record { slice = sl; key_type = t; first_chunk = parsed e };
      reads = ap (locate beyond c sl) char ∙ h;
      key_type = refl;
      key = rw no_error (rw no_string (ap ok x.prefix));
      suffix = rw no_error (rw no_string (ap ok x.suffix));
    }

-- The database key of a field of a hash, set, deque or versioned hash gives back its type, its redis
-- key and its field, whatever byte lies past its end, if the redis key does not end with a bar or the
-- field begins with a byte other than '#'.
pub field_locator-recovered :
    (beyond : ℕ) (t : KeyType) (k f : Bytes) {sl : Bytes}
    → Unambiguous (key_type_char t) k f
    → field_locator t k f ≡ ok sl
    → Recovers beyond sl t k f
unfolding field_locator field_prefix
field_locator-recovered beyond t k f {sl} u h = elim (Bool-cases (has_fields t)) [
  | inl e ↦
      let marks = hash_mark ∷ hash_mark ∷ [] in
      let made : sl ≡ key_type_char t ∷ ((escaped k ++ marks) ++ f) = ground (arith, e) in
      let same = made ∙ ap (λ r. key_type_char t ∷ r) (append_assoc (escaped k) marks f) in
      rw same (closed-Recovers beyond t k f (has_fields-IsClosed t e) u)
  | inr e ↦ cc
]

-- The byte of the part of a locality hash is no hash mark.
Unambiguous-data :
    (prev : ℕ) (k rest : Bytes) (c : ℕ) → c ≢ hash_mark → Unambiguous prev k (c ∷ rest)
unfolding Unambiguous
Unambiguous-data prev [] rest c h = inr (c, rest, refl, h)
Unambiguous-data prev (d ∷ k) rest c h = Unambiguous-data d k rest c h

locality-Recovers :
    (beyond c : ℕ) (k rest : Bytes)
    → c ≢ hash_mark
    → Recovers beyond (key_type_char locality_hash ∷ closed k (c ∷ rest)) locality_hash k (c ∷ rest)
unfolding parse_key_type
locality-Recovers beyond c k rest h =
    closed-Recovers beyond locality_hash k (c ∷ rest) (refl, refl, refl, refl)
      (Unambiguous-data 101 k rest c h)

abbrev pub marks : Bytes
marks = hash_mark ∷ hash_mark ∷ []

pub field_shape :
    (xs ys f : Bytes)
    → (((xs ++ marks) ++ 100 ∷ []) ++ (ys ++ marks)) ++ f
      ≡ xs ++ (hash_mark ∷ hash_mark ∷ 100 ∷ ys ++ (hash_mark ∷ hash_mark ∷ f))
field_shape [] ys f = ap (λ r. hash_mark ∷ hash_mark ∷ 100 ∷ r) (append_assoc ys marks f)
field_shape (x ∷ xs) ys f = ap (λ r. x ∷ r) (field_shape xs ys f)

pub index_shape :
    (xs f : Bytes) → ((xs ++ marks) ++ 105 ∷ []) ++ f ≡ xs ++ (hash_mark ∷ hash_mark ∷ 105 ∷ f)
index_shape [] f = refl
index_shape (x ∷ xs) f = ap (λ r. x ∷ r) (index_shape xs f)

-- The database key of a field of a locality hash gives back the redis key, and then the mark of data,
-- the hint and the field, for every key, hint and field that the locator takes.
pub locality_field-recovered :
    (beyond : ℕ) (k hint f : Bytes) {sl : Bytes}
    → locality_field_locator k hint f ≡ ok sl
    → Recovers beyond sl locality_hash k (100 ∷ closed hint f)
unfolding locality_key locality_hint locality_field_locator
locality_field-recovered beyond [] hint f h = cc
locality_field-recovered beyond (c ∷ k) [] f h = cc
locality_field-recovered beyond (c ∷ k) (d ∷ hint) f {sl} h =
    let made : sl
        ≡ 101 ∷ (((escaped (c ∷ k) ++ marks) ++ 100 ∷ []) ++ (escaped (d ∷ hint) ++ marks)) ++ f =
      cc in
    let same = made ∙ ap (λ r. 101 ∷ r) (field_shape (escaped (c ∷ k)) (escaped (d ∷ hint)) f) in
    rw same (locality-Recovers beyond 100 (c ∷ k) (closed (d ∷ hint) f) (omega arith))

-- The database key of an index entry of a locality hash gives back the redis key, and then the mark of
-- the index and the field, for every key and field that the locator takes.
locality_index-recovered :
    (beyond : ℕ) (k f : Bytes) {sl : Bytes}
    → locality_index_locator k f ≡ ok sl
    → Recovers beyond sl locality_hash k (105 ∷ f)
unfolding locality_index_key locality_index_locator
locality_index-recovered beyond [] f h = cc
locality_index-recovered beyond (c ∷ k) [] h = cc
locality_index-recovered beyond (c ∷ k) (d ∷ f) {sl} h =
    let made : sl ≡ 101 ∷ ((escaped (c ∷ k) ++ marks) ++ 105 ∷ []) ++ d ∷ f = cc in
    let same = made ∙ ap (λ r. 101 ∷ r) (index_shape (escaped (c ∷ k)) (d ∷ f)) in
    rw same (locality-Recovers beyond 105 (c ∷ k) (d ∷ f) (omega arith))

-- Two fields with the same database key are the same field of the same key and type, if for each of
-- them the redis key does not end with a bar or the field begins with a byte other than '#'.
pub fields_do_not_collide :
    (t t' : KeyType) (k k' f f' sl : Bytes)
    → Unambiguous (key_type_char t) k f
    → Unambiguous (key_type_char t') k' f'
    → field_locator t k f ≡ ok sl
    → field_locator t' k' f' ≡ ok sl
    → (t ≡ t') × (k ≡ k') × (f ≡ f')
fields_do_not_collide t t' k k' f f' sl u u' h h' =
    let r = field_locator-recovered 0 t k f u h in
    let s = field_locator-recovered 0 t' k' f' u' h' in
    let same : r.locator ≡ s.locator = ok-inj (sym r.reads ∙ s.reads) in
    (
      sym r.key_type ∙ ap (λ l. l.key_type) same ∙ s.key_type,
      ok-inj (sym r.key ∙ ap original_key same ∙ s.key),
      ok-inj (sym r.suffix ∙ ap field same ∙ s.suffix),
    )
  where
    ok-inj : {A : Type 0} {x y : A} → ◌≡◌ {A = Result A} (ok x) (ok y) → x ≡ y
    ok-inj e = cc
