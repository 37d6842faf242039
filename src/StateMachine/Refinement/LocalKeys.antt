-- ===== src/StateMachine/Refinement/LocalKeys.antt =====
-- src/storage/KeyLocators.hh: the database keys of a locality hash, and which of them are the same.
use quarkdb.Base.{
  ◌≡◌, refl, ◌∙◌, sym, ap, Bool, true, false, ◌&&◌, [], ◌∷◌, ◌++◌, Bytes, bytes_eq, bytes_eq_iff,
  Result, ok, inl, inr, Bool-cases,
}
use quarkdb.Storage.Locators.{
  hash_mark, escaped, descriptor_locator, locality_key, locality_hint, locality_field_locator,
  locality_index_key, locality_index_locator,
}
use quarkdb.Storage.ReverseLocator.{
  EscapedPrefix, Parse, parse, parsed, original_prefix, raw_suffix,
}
use quarkdb.Storage.RoundTrip.{Unambiguous, closed, parse-closed}
use quarkdb.Storage.Recovered.{field_shape, index_shape}
use quarkdb.StateMachine.Fields.{bytes_eq-append}
use quarkdb.StateMachine.Refinement.OtherKeys.{Unambiguous-any}

abbrev pub IsNonempty : Bytes → Type 0
IsNonempty [] = ⊥
IsNonempty (c ∷ cs) = Unit {0}

-- A hint that is not empty and does not end with a bar.
abbrev pub IsHint : Bytes → Type 0
IsHint h = IsNonempty h × Unambiguous 100 h []

abbrev local_start : Bytes → Bytes
local_start key = 101 ∷ escaped key

abbrev pub data_key : Bytes → Bytes → Bytes → Bytes
data_key key hint f = local_start key ++ (hash_mark ∷ hash_mark ∷ 100 ∷ closed hint f)

abbrev pub index_key : Bytes → Bytes → Bytes
index_key key f = local_start key ++ (hash_mark ∷ hash_mark ∷ 105 ∷ f)

pub locality_field_locator-ok :
    (key hint f : Bytes)
    → IsNonempty key
    → IsNonempty hint
    → locality_field_locator key hint f ≡ ok (data_key key hint f)
unfolding locality_field_locator locality_hint locality_key
locality_field_locator-ok [] hint f k h = absurd k
locality_field_locator-ok (c ∷ key) [] f k h = absurd h
locality_field_locator-ok (c ∷ key) (d ∷ hint) f k h =
    ap (λ r. ok (101 ∷ r)) (field_shape (escaped (c ∷ key)) (escaped (d ∷ hint)) f)

pub locality_index_locator-ok :
    (key f : Bytes)
    → IsNonempty key
    → IsNonempty f
    → locality_index_locator key f ≡ ok (index_key key f)
unfolding locality_index_locator locality_index_key
locality_index_locator-ok [] f k h = absurd k
locality_index_locator-ok (c ∷ key) [] k h = absurd h
locality_index_locator-ok (c ∷ key) (d ∷ f) k h =
    ap (λ r. ok (101 ∷ r)) (index_shape (escaped (c ∷ key)) (d ∷ f))

closed-inj :
    (h h' f f' : Bytes)
    → Unambiguous 100 h []
    → Unambiguous 100 h' []
    → closed h f ≡ closed h' f'
    → (h ≡ h') × (f ≡ f')
closed-inj h h' f f' u u' same =
    let (e, p, x) = parse-closed 100 0 h f (Unambiguous-any 100 h f u) in
    let (e', p', x') = parse-closed 100 0 h' f' (Unambiguous-any 100 h' f' u') in
    let alike : e ≡ e' = parsed-inj (sym p ∙ ap (parse 100 0) same ∙ p') in
    (
      sym x.prefix ∙ ap original_prefix alike ∙ x'.prefix,
      sym x.suffix ∙ ap raw_suffix alike ∙ x'.suffix,
    )
  where
    parsed-inj :
        {e e' : EscapedPrefix} → ◌≡◌ {A = Result Parse} (ok (parsed e)) (ok (parsed e')) → e ≡ e'
    parsed-inj h = cc

pub data-data :
    (key h h' f f' : Bytes)
    → IsHint h
    → IsHint h'
    → bytes_eq (data_key key h f) (data_key key h' f') ≡ bytes_eq h h' && bytes_eq f f'
unfolding bytes_eq
data-data key h h' f f' (a, u) (a', u') =
    bytes_eq-append (local_start key) (hash_mark ∷ hash_mark ∷ 100 ∷ closed h f)
      (hash_mark ∷ hash_mark ∷ 100 ∷ closed h' f')
    ∙ elim (Bool-cases (bytes_eq (closed h f) (closed h' f'))) [
      | inl e ↦
          let (x, y) = closed-inj h h' f f' u u' ((bytes_eq_iff (closed h f) (closed h' f')).0 e) in
          e ∙ sym (rw ((bytes_eq_iff h h').1 x, (bytes_eq_iff f f').1 y) refl)
      | inr e ↦ e ∙ sym (differ e)
    ]
  where
    differ : bytes_eq (closed h f) (closed h' f') ≡ false → bytes_eq h h' && bytes_eq f f' ≡ false
    differ e = elim (Bool-cases (bytes_eq h h')) [
      | inr x ↦ rw x refl
      | inl x ↦ elim (Bool-cases (bytes_eq f f')) [
        | inr y ↦ rw (x, y) refl
        | inl y ↦
            let one = (bytes_eq_iff h h').0 x in
            let two = (bytes_eq_iff f f').0 y in
            absurd (
              true_false (
                sym (
                  (bytes_eq_iff (closed h f) (closed h' f')).1
                    (ap (λ t. closed t f) one ∙ ap (λ t. closed h' t) two))
                ∙ e))
      ]
    ]
      where
        true_false : ◌≡◌ {A = Bool} true false → ⊥
        true_false q = cc

pub index-index : (key f f' : Bytes) → bytes_eq (index_key key f) (index_key key f') ≡ bytes_eq f f'
unfolding bytes_eq
index-index key f f' =
    bytes_eq-append (local_start key) (hash_mark ∷ hash_mark ∷ 105 ∷ f)
      (hash_mark ∷ hash_mark ∷ 105 ∷ f')

pub data-index : (key h f f' : Bytes) → bytes_eq (data_key key h f) (index_key key f') ≡ false
unfolding bytes_eq
data-index key h f f' =
    bytes_eq-append (local_start key) (hash_mark ∷ hash_mark ∷ 100 ∷ closed h f)
      (hash_mark ∷ hash_mark ∷ 105 ∷ f')

pub index-data : (key h f f' : Bytes) → bytes_eq (index_key key f') (data_key key h f) ≡ false
unfolding bytes_eq
index-data key h f f' =
    bytes_eq-append (local_start key) (hash_mark ∷ hash_mark ∷ 105 ∷ f')
      (hash_mark ∷ hash_mark ∷ 100 ∷ closed h f)

pub data-descriptor :
    (k key h f : Bytes) → bytes_eq (data_key key h f) (descriptor_locator k) ≡ false
unfolding bytes_eq descriptor_locator
data-descriptor k key h f = refl

pub index-descriptor : (k key f : Bytes) → bytes_eq (index_key key f) (descriptor_locator k) ≡ false
unfolding bytes_eq descriptor_locator
index-descriptor k key f = refl

pub descriptor-data :
    (k key h f : Bytes) → bytes_eq (descriptor_locator k) (data_key key h f) ≡ false
unfolding bytes_eq descriptor_locator
descriptor-data k key h f = refl

pub descriptor-index : (k key f : Bytes) → bytes_eq (descriptor_locator k) (index_key key f) ≡ false
unfolding bytes_eq descriptor_locator
descriptor-index k key f = refl
