-- ===== src/Tests/Keys.antt =====
-- Database keys made and taken apart again.
use quarkdb.Base.{◌≡◌, refl, inl, [], ◌∷◌, Bytes, codes, ok, arith}
use quarkdb.Storage.KeyType.{key_type_char, hash, locality_hash}
use quarkdb.Storage.Locators.{
  field_locator, field_prefix, locality_field_locator, locality_key, locality_hint,
  locality_index_locator,
}
use quarkdb.Storage.RoundTrip.{Unambiguous, closed}
use quarkdb.Storage.Recovered.{
  Recovers, field_locator-recovered, locality_field-recovered, fields_do_not_collide,
}
use quarkdb.Tests.Cluster.{value_of}

-- A key with a hash mark, and a field.
abbrev key : Bytes
key = codes "a#b"

abbrev stored : Bytes
stored = value_of (field_locator hash key (codes "f")) []

stored_is : field_locator hash key (codes "f") ≡ ok stored
unfolding field_locator field_prefix
stored_is = refl

stored_text : stored ≡ codes "ba|#b##f"
unfolding field_locator field_prefix
stored_text = refl

key-Unambiguous : Unambiguous (key_type_char hash) key (codes "f")
unfolding Unambiguous
key-Unambiguous = inl (omega arith)

field_locator-recovered_example : Recovers 0 stored hash key (codes "f")
field_locator-recovered_example =
    field_locator-recovered 0 hash key (codes "f") key-Unambiguous stored_is

fields_do_not_collide_example : (hash ≡ hash) × (key ≡ key) × (codes "f" ≡ codes "f")
fields_do_not_collide_example =
    fields_do_not_collide hash hash key key (codes "f") (codes "f") stored key-Unambiguous
      key-Unambiguous stored_is stored_is

-- Without the condition two fields share a key: `#f` of `k|`, and `f` of `k#`.
collision :
    field_locator hash (codes "k|") (codes "#f") ≡ field_locator hash (codes "k#") (codes "f")
unfolding field_locator field_prefix
collision = refl

abbrev located : Bytes
located = value_of (locality_field_locator (codes "k|") (codes "h") (codes "f")) []

locality_field-recovered_example :
    Recovers 0 located locality_hash (codes "k|") (100 ∷ closed (codes "h") (codes "f"))
unfolding locality_field_locator locality_hint locality_key
locality_field-recovered_example =
    locality_field-recovered 0 (codes "k|") (codes "h") (codes "f") refl

abbrev indexed : Bytes
indexed = value_of (locality_index_locator (codes "k|") (codes "f")) []
