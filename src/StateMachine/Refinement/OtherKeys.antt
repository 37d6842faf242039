-- ===== src/StateMachine/Refinement/OtherKeys.antt =====
-- src/StateMachine.cc and storage/KeyLocators.hh: a command on one key, and the other keys.
use quarkdb.Base.{
  ok, List, refl, ◌+◌, ◌^◌, ◌<◌, ℕ, ◌≡◌, ◌≢◌, ◌∙◌, sym, ap, true, false, [], ◌∷◌, Bytes, bytes_eq,
  bytes_eq_iff, length, arith, inl, inr,
}
use quarkdb.Storage.KeyType.{KeyType, hash, key_type_char}
use quarkdb.Storage.Locators.{descriptor_locator}
use quarkdb.Storage.RoundTrip.{Unambiguous}
use quarkdb.Storage.Recovered.{fields_do_not_collide}
use quarkdb.StateMachine.Database.{Rocks}
use quarkdb.StateMachine.StagingArea.{StagingArea}
use quarkdb.StateMachine.WriteOperation.{takes_field}
use quarkdb.StateMachine.FieldMap.{FieldMap}
use quarkdb.StateMachine.Fields.{field_key, field_locator-ok, field-descriptor, descriptor-field}
use quarkdb.StateMachine.Fields.Calls.{IsElsewhere, takes_field-has_fields}
use quarkdb.StateMachine.Fields.Descriptors.{counted}
use quarkdb.StateMachine.Refinement.HashRuns.{
  Command, AreCommands, growths, run, replies_of, replay, run_becomes,
}
use quarkdb.StateMachine.Refinement.{Represents, Becomes, Describes-same}

-- The key does not end with a bar.
abbrev pub IsClosed : KeyType → Bytes → Type 0
IsClosed t key = Unambiguous (key_type_char t) key []

pub Unambiguous-any : (prev : ℕ) (key f : Bytes) → Unambiguous prev key [] → Unambiguous prev key f
unfolding Unambiguous
Unambiguous-any prev [] f (inl h) = inl h
Unambiguous-any prev [] f (inr (c, rest, e, h)) = cc
Unambiguous-any prev (c ∷ key) f u = Unambiguous-any c key f u

unequal : (xs ys : Bytes) → xs ≢ ys → bytes_eq xs ys ≡ false
unequal xs ys h = ground (arith, bytes_eq_iff xs ys)

descriptors_differ :
    (k l : Bytes) → k ≢ l → bytes_eq (descriptor_locator k) (descriptor_locator l) ≡ false
unfolding descriptor_locator bytes_eq
descriptors_differ k l h = unequal k l h

module _ (t t' : KeyType) (takes : takes_field t ≡ true) (takes' : takes_field t' ≡ true)
    (key key' : Bytes) (closed : IsClosed t key) (closed' : IsClosed t' key')
    (other : key ≢ key') where
  fields_differ : (f' : Bytes) → IsElsewhere t key (field_key t' key' f')
  fields_differ f' f =
      let a = field_locator-ok t key f (takes_field-has_fields t takes) in
      let b = field_locator-ok t' key' f' (takes_field-has_fields t' takes') in
      unequal (field_key t key f) (field_key t' key' f') λ e.
        other
          (fields_do_not_collide t t' key key' f f' (field_key t key f)
            (Unambiguous-any (key_type_char t) key f closed)
            (Unambiguous-any (key_type_char t') key' f' closed') a (b ∙ sym (ap ok e))).1

  module _ {Db Batch : Type 0} ⦃rocks : Rocks Db Batch⦄ where
    -- A key that becomes a map, with no other change, and what another key represents.
    pub Becomes-other_key :
        (s w : StagingArea Db Batch) (m after m' : FieldMap)
        → Becomes t key s after w
        → Represents t' s key' m'
        → Represents t' w key' m'
    Becomes-other_key s w m after m' b r = record {
      holds = record {
        transaction = b.represents.holds.transaction;
        distinct = r.holds.distinct;
        reads = λ f.
            b.only (field_key t' key' f) (fields_differ f)
              (descriptor-field t' key key' f (takes_field-has_fields t' takes'))
            ∙ r.holds.reads f;
      };
      described =
          Describes-same s w key' (counted t' (length m'))
            (b.only (descriptor_locator key')
              (λ f. field-descriptor t key' key f (takes_field-has_fields t takes))
              (descriptors_differ key key' other))
            r.described;
    }

module _ {Db Batch : Type 0} ⦃rocks : Rocks Db Batch⦄ where
  -- Any sequence of well-formed commands on a hash that does not end with a bar, if the sizes fit, returns,
  -- and leaves every other key that represents a hash or a set, and does not end with a bar either, as it
  -- was.
  pub other_keys_stay :
      (key key' : Bytes) (cs : List Command) (s : StagingArea Db Batch) (t' : KeyType)
      (m m' : FieldMap)
      → takes_field t' ≡ true
      → IsClosed hash key
      → IsClosed t' key'
      → key ≢ key'
      → AreCommands cs
      → length m + growths cs < 2 ^ 63
      → Represents hash s key m
      → Represents t' s key' m'
      → (w : StagingArea Db Batch) × (run key s cs ≡ ok (w, replies_of m cs))
        × Represents hash w key (replay m cs)
        × Represents t' w key' m'
  other_keys_stay key key' cs s t' m m' takes closed closed' other p small r r' =
      let (w, ran, b) = run_becomes key cs s m r p small in
      (
        w,
        ran,
        b.represents,
        Becomes-other_key hash t' refl takes key key' closed closed' other s w m (replay m cs) m' b
            r',
      )
